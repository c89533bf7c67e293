-- ===== src/Login/Scopes.antt =====
-- The scopes of the authorize URL.
use auth_oidc.Prelude.{
  ◌≡◌, refl, ◌++◌, ◌⊎◌, inl, inr, ◌↔◌, List, [], ◌∷◌, Text, true, ◌==◌, ==_iff, any, arith,
  Bool-cases, IsIn, subst,
}
use auth_oidc.Login.{openid, push_scopes}

-- No scope stands in the list twice.
abbrev pub Distinct : List Text → Type 0
Distinct [] = Unit
Distinct (s ∷ more) = (¬ IsIn s more) × Distinct more

-- `openid` comes first, each configured scope is there and no other, and none is there twice.
abbrev pub IsScopeList : List Text → List Text → Type 0
IsScopeList configured [] = ⊥
IsScopeList configured (s ∷ more) =
    (s ≡ openid)
    × ((t : Text) → IsIn t (s ∷ more) ↔ ((t ≡ openid) ⊎ IsIn t configured))
    × Distinct (s ∷ more)

any_iff : (s : Text) (scopes : List Text) → (any (λ x. x == s) scopes ≡ true) ↔ IsIn s scopes
any_iff s [] = ground arith
any_iff s (x ∷ scopes) = ground (arith, ==_iff x s, any_iff s scopes)

IsIn-append_iff : (t : Text) (xs ys : List Text) → IsIn t (xs ++ ys) ↔ (IsIn t xs ⊎ IsIn t ys)
IsIn-append_iff t [] ys = ground arith
IsIn-append_iff t (x ∷ xs) ys = ground (arith, IsIn-append_iff t xs ys)

Distinct-push : (s : Text) (xs : List Text) → ¬ IsIn s xs → Distinct xs → Distinct (xs ++ s ∷ [])
Distinct-push s [] out d = (λ h. h, tt)
Distinct-push s (x ∷ xs) out d = (
  λ h. ground (arith, d.0, out, IsIn-append_iff x xs (s ∷ [])),
  Distinct-push s xs (λ h. out (inr h)) d.1,
)

-- What pushing the configured scopes on those so far makes.
abbrev Pushed : List Text → List Text → List Text → Type 0
Pushed [] more out = ⊥
Pushed (s ∷ scopes) more [] = ⊥
Pushed (s ∷ scopes) more (s' ∷ out) =
    (s' ≡ s)
    × ((t : Text) → IsIn t (s' ∷ out) ↔ (IsIn t (s ∷ scopes) ⊎ IsIn t more))
    × Distinct (s' ∷ out)

Pushed-had :
    (s t : Text) (scopes more out : List Text)
    → IsIn t (s ∷ scopes)
    → Pushed (s ∷ scopes) more out
    → Pushed (s ∷ scopes) (t ∷ more) out
Pushed-had s t scopes more [] had h = h
Pushed-had s t scopes more (s' ∷ out) had (first, same, d) = (
  first,
  λ u. (
    λ h. elim ((same u).0 h) [ inl old ↦ inl old | inr new ↦ inr (inr new) ],
    λ h. elim h [
      | inl old ↦ (same u).1 (inl old)
      | inr (inl it) ↦ (same u).1 (inl (subst (λ v. IsIn v (s ∷ scopes)) it had))
      | inr (inr new) ↦ (same u).1 (inr new)
    ],
  ),
  d,
)

Pushed-new :
    (s t : Text) (scopes more out : List Text)
    → Pushed (s ∷ (scopes ++ t ∷ [])) more out
    → Pushed (s ∷ scopes) (t ∷ more) out
Pushed-new s t scopes more [] h = h
Pushed-new s t scopes more (s' ∷ out) (first, same, d) =
    (first, λ u. ground (arith, same u, IsIn-append_iff u scopes (t ∷ [])), d)

push-Pushed :
    (s : Text) (scopes more : List Text)
    → Distinct (s ∷ scopes)
    → Pushed (s ∷ scopes) more (push_scopes (s ∷ scopes) more)
unfolding push_scopes
push-Pushed s scopes [] d = (refl, λ t. ground arith, d)
push-Pushed s scopes (t ∷ more) d = elim (Bool-cases (any (λ x. x == t) (s ∷ scopes))) [
  | inl had ↦
      rw had (
        Pushed-had s t scopes more _ ((any_iff t (s ∷ scopes)).0 had) (push-Pushed s scopes more d))
  | inr new ↦
      let out : ¬ IsIn t (s ∷ scopes) = λ h. ground (arith, (any_iff t (s ∷ scopes)).1 h) in
      rw new (
        Pushed-new s t scopes more _
          (push-Pushed s (scopes ++ t ∷ []) more (Distinct-push t (s ∷ scopes) out d)))
]

Pushed-IsScopeList : (more out : List Text) → Pushed (openid ∷ []) more out → IsScopeList more out
Pushed-IsScopeList more [] h = h
Pushed-IsScopeList more (s ∷ out) (first, same, d) = (first, λ t. ground (arith, same t), d)

-- The scopes that the authorize URL asks for begin with `openid`, and have each configured scope, no
-- other, and none twice, whatever is configured.
pub push_scopes-IsScopeList :
    (configured : List Text) → IsScopeList configured (push_scopes (openid ∷ []) configured)
push_scopes-IsScopeList configured =
    Pushed-IsScopeList configured _ (push-Pushed openid [] configured (λ h. h, tt))
