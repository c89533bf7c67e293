-- ===== src/Claims/Audience.antt =====
-- Which audiences the claim checks accept.
use auth_oidc.Prelude.{
  ◌≡◌, ◌⊎◌, ◌↔◌, List, [], ◌∷◌, Option, none, some, Text, true, false, not, arith, ==_iff, is_iff,
  IsIn, All, any,
}
use auth_oidc.Json.{Value, null, bool, number, string, array, object, items}
use auth_oidc.Claims.{names, audience_ok}

module _ {N : Type 0} (trusted : Text) where
  -- The audience claim names the trusted client; where it names anyone else too, or holds anything
  -- else, the authorized party is the trusted client.
  abbrev pub NamesTrusted : Option (Value N) → Option Text → Type 0
  NamesTrusted none azp = ⊥
  NamesTrusted (some null) azp = ⊥
  NamesTrusted (some (bool b)) azp = ⊥
  NamesTrusted (some (number n)) azp = ⊥
  NamesTrusted (some (string s)) azp = s ≡ trusted
  NamesTrusted (some (array vs)) azp =
      IsIn (string trusted) (items vs)
      × (All (λ v. v ≡ string trusted) (items vs) ⊎ (azp ≡ some trusted))
  NamesTrusted (some (object fs)) azp = ⊥

  names_iff : (v : Value N) → (names trusted v ≡ true) ↔ (v ≡ string trusted)
  names_iff null = ground (arith, is_iff none trusted)
  names_iff (bool b) = ground (arith, is_iff none trusted)
  names_iff (number n) = ground (arith, is_iff none trusted)
  names_iff (string s) = ground (arith, is_iff (some s) trusted)
  names_iff (array vs) = ground (arith, is_iff none trusted)
  names_iff (object fs) = ground (arith, is_iff none trusted)

  any-names_iff : (vs : List (Value N)) → (any (names trusted) vs ≡ true) ↔ IsIn (string trusted) vs
  any-names_iff [] = ground arith
  any-names_iff (v ∷ vs) = ground (arith, names_iff v, any-names_iff vs)

  any-others_iff :
      (vs : List (Value N))
      → (any (λ v. not (names trusted v)) vs ≡ false) ↔ All (λ v. v ≡ string trusted) vs
  any-others_iff [] = ground arith
  any-others_iff (v ∷ vs) = ground (arith, names_iff v, any-others_iff vs)

  -- The audience check accepts a claim exactly if it is the trusted client, or an array with the
  -- trusted client in it and nothing else, or with others too where the authorized party is the
  -- trusted client.
  pub audience_ok_iff :
      (aud : Option (Value N)) (azp : Option Text)
      → (audience_ok aud azp trusted ≡ true) ↔ NamesTrusted aud azp
  unfolding audience_ok
  audience_ok_iff none azp = ground arith
  audience_ok_iff (some null) azp = ground arith
  audience_ok_iff (some (bool b)) azp = ground arith
  audience_ok_iff (some (number n)) azp = ground arith
  audience_ok_iff (some (string s)) azp = ==_iff s trusted
  audience_ok_iff (some (array vs)) azp =
      ground (arith, any-names_iff (items vs), any-others_iff (items vs), is_iff azp trusted)
  audience_ok_iff (some (object fs)) azp = ground arith
