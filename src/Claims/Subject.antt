-- ===== src/Claims/Subject.antt =====
-- The subject of a token, and Entra's marker of omitted groups.
use auth_oidc.Prelude.{
  ◌≡◌, ◌≢◌, refl, ap, ◌⊎◌, inl, inr, ◌↔◌, Option, none, some, Text, codes, true, false, arith,
  Option-cases, Bool-cases, is_some, and_then,
}
use auth_oidc.Json.{Value, string, object, Fields, lookup, get, as_object, as_str-eq-some}
use auth_oidc.Claims.{is_groups_overage, marks_overage, is_blank, non_empty_claim, subject_of}

module _ {N : Type 0} where
  -- `_claim_names` lists `groups`, or both marker claims are there and `groups` is not.
  abbrev pub MarksOverage : Option (Value N) → Option (Value N) → Option (Value N) → Type 0
  MarksOverage claim_names claim_sources groups =
      ((fs : Fields N) × (claim_names ≡ some (object fs)) × (lookup (codes "groups") fs ≢ none))
      ⊎ ((claim_sources ≢ none) × (groups ≡ none) × (claim_names ≢ none))

  listed_iff :
      (o : Option (Value N))
      → (is_some (and_then (and_then o as_object) (λ fs. lookup (codes "groups") fs)) ≡ true)
        ↔ ((fs : Fields N) × (o ≡ some (object fs)) × (lookup (codes "groups") fs ≢ none))
  listed_iff (some (object fs)) = (λ h. (fs, refl, ground arith), λ h. ground (arith, h.1, h.2))
  listed_iff none = (λ h. cc, λ h. absurd (ground (arith, h.1)))
  listed_iff _ = (λ h. cc, λ h. absurd (ground (arith, h.1)))

  marks_overage_iff :
      (claim_names claim_sources groups : Option (Value N))
      → (marks_overage claim_names claim_sources groups ≡ true)
        ↔ MarksOverage claim_names claim_sources groups
  unfolding marks_overage
  marks_overage_iff claim_names claim_sources groups =
      elim (Bool-cases
        (is_some (and_then (and_then claim_names as_object) (λ fs. lookup (codes "groups") fs)))) [
          | inl listed ↦ (λ h. inl ((listed_iff claim_names).0 listed), λ h. rw listed)
          | inr unlisted ↦ (
            λ h. inr (ground arith, ground arith, ground arith),
            λ h. ground (arith, (listed_iff claim_names).1, h),
          )
        ]

module _ {N : Type 0} (claims : Value N) where
  -- The claim is a string with more than white space in it.
  abbrev pub IsFilled : Text → Text → Type 0
  IsFilled name s = (get name claims ≡ some (string s)) × (is_blank s ≡ false)

  non_empty_claim_iff :
      (o : Option (Value N)) (s : Text)
      → (non_empty_claim o ≡ some s) ↔ ((o ≡ some (string s)) × (is_blank s ≡ false))
  unfolding non_empty_claim
  non_empty_claim_iff none s = ground arith
  non_empty_claim_iff (some v) s = (
    λ h. (ap some (as_str-eq-some v s (ground arith)), ground arith),
    λ (e, filled). ground arith,
  )

  -- The subject is the filled object id, or the filled `sub` claim if the object id is not filled.
  abbrev pub Anchors : Text → Type 0
  Anchors s =
      IsFilled (codes "oid") s
      ⊎ (((t : Text) → ¬ IsFilled (codes "oid") t) × IsFilled (codes "sub") s)

  -- The subject is exactly the object id if that is a string with more than white space in it, and
  -- otherwise the `sub` claim if that is one.
  pub subject_of_iff : (s : Text) → (subject_of claims ≡ some s) ↔ Anchors s
  unfolding subject_of
  subject_of_iff s = elim (Option-cases (non_empty_claim (get (codes "oid") claims))) [
    | inl none_filled ↦ (
      λ h. inr (λ t filled. cc (none_filled, (oid t).1 filled), (sub s).0 (ground arith)),
      λ h. from_sub none_filled h,
    )
    | inr (t, found) ↦ (λ h. inl ((oid s).0 (ground arith)), λ h. from_oid t found h)
  ]
    where
      oid :
          (t : Text)
          → (non_empty_claim (get (codes "oid") claims) ≡ some t) ↔ IsFilled (codes "oid") t
      oid = non_empty_claim_iff (get (codes "oid") claims)

      sub :
          (t : Text)
          → (non_empty_claim (get (codes "sub") claims) ≡ some t) ↔ IsFilled (codes "sub") t
      sub = non_empty_claim_iff (get (codes "sub") claims)

      from_sub :
          non_empty_claim (get (codes "oid") claims) ≡ none → Anchors s → subject_of claims ≡ some s
      from_sub missing (inl filled) = cc ((oid s).1 filled)
      from_sub missing (inr (_, filled)) = ground (arith, (sub s).1 filled)

      from_oid :
          (t : Text)
          → non_empty_claim (get (codes "oid") claims) ≡ some t
          → Anchors s
          → subject_of claims ≡ some s
      from_oid t found (inl filled) = ground (arith, (oid s).1 filled)
      from_oid t found (inr (missing, _)) = absurd (missing t ((oid t).0 found))

  -- Entra's marker of an omitted `groups` claim.
  abbrev pub IsOverage : Type 0
  IsOverage =
      MarksOverage (get (codes "_claim_names") claims) (get (codes "_claim_sources") claims)
        (get (codes "groups") claims)

  -- The marker is found exactly if `_claim_names` lists `groups`, or if it and `_claim_sources` are
  -- there and `groups` is not.
  pub is_groups_overage_iff : (is_groups_overage claims ≡ true) ↔ IsOverage
  unfolding is_groups_overage
  is_groups_overage_iff = marks_overage_iff _ _ _
