-- ===== src/Jwks/Select.antt =====
-- Which keys a set is parsed to, and which of them a `kid` selects.
use auth_oidc.Prelude.{
  ◌≡◌, ◌≢◌, refl, ◌⊎◌, inl, inr, ◌↔◌, List, [], ◌∷◌, none, some, Text, true, Bool, arith, is_iff,
  IsIn, filter, filter_map, Bool-cases,
}
use auth_oidc.Error.{Reply, ok, value, failure, or_error, ◌>>=◌, invalid_jwks}
use auth_oidc.Json.{Value}
use auth_oidc.External.{External}
use auth_oidc.Jwks.Key.{Jwk, JwkSet}
use auth_oidc.Jwks.{selects, find_all, parse, non_empty}

IsIn-filter_iff :
    {A : Type 0} (p : A → Bool) (a : A) (xs : List A)
    → IsIn a (filter p xs) ↔ (IsIn a xs × (p a ≡ true))
IsIn-filter_iff p a [] = ground arith
IsIn-filter_iff p a (x ∷ xs) = elim (Bool-cases (p x)) [
  | inl yes_x ↦ rw yes_x (ground (arith, IsIn-filter_iff p a xs))
  | inr no_x ↦ rw no_x (ground (arith, IsIn-filter_iff p a xs))
]

-- The key has this `kid`, or the empty `kid` is looked up and the key has none.
abbrev pub Matches : Text → Jwk → Type 0
Matches kid k = (k.kid ≡ some kid) ⊎ ((kid ≡ []) × (k.kid ≡ none))

selects_iff : (kid : Text) (k : Jwk) → (selects kid k ≡ true) ↔ Matches kid k
unfolding selects
selects_iff [] k = ground (arith, is_iff k.kid [])
selects_iff (c ∷ kid) k = ground (arith, is_iff k.kid (c ∷ kid))

-- The keys that are found for a `kid` are the keys of the set that match it, and no others.
pub find_all_iff :
    (set : JwkSet) (kid : Text) (k : Jwk)
    → IsIn k (find_all set kid) ↔ (IsIn k set.keys × Matches kid k)
unfolding find_all
find_all_iff set kid k =
    let (to, from) = IsIn-filter_iff (selects kid) k set.keys in
    (λ h. ((to h).0, (selects_iff kid k).0 (to h).1), λ h. from (h.0, (selects_iff kid k).1 h.1))

non_empty_iff :
    (ks : List Jwk) (set : JwkSet) → (non_empty ks ≡ ok set) ↔ ((set.keys ≡ ks) × (set.keys ≢ []))
unfolding non_empty
non_empty_iff [] set = ground arith
non_empty_iff (k ∷ ks) set = ground arith

module _ (ext : External) where
  open ext use {Number, keys_from_str, jwk_from_value}

  abbrev pub IsParsed : Reply (List (Value Number)) → JwkSet → Type 0
  IsParsed reply set =
      (raw : List (Value Number)) × (reply ≡ value raw)
      × (set.keys ≡ filter_map jwk_from_value raw)
      × (set.keys ≢ [])

  IsParsed-iff :
      (reply : Reply (List (Value Number))) (set : JwkSet)
      → ((or_error reply invalid_jwks >>= λ raw. non_empty (filter_map jwk_from_value raw))
          ≡ ok set)
        ↔ IsParsed reply set
  IsParsed-iff (failure reason) set = (λ h. cc, λ h. absurd (ground (arith, h.1)))
  IsParsed-iff (value raw) set = (
    λ h. let (same, some_key) = (non_empty_iff _ set).0 h in (raw, refl, same, some_key),
    λ h. (non_empty_iff _ set).1 (ground (arith, h.1, h.2), h.3),
  )

  -- A document parses to a key set exactly if its `keys` array can be read and at least one entry
  -- is a key; the set holds the entries that are keys, in order.
  pub parse_iff :
      (body : Text) (set : JwkSet) → (parse ext body ≡ ok set) ↔ IsParsed (keys_from_str body) set
  unfolding parse
  parse_iff body set = IsParsed-iff (keys_from_str body) set
