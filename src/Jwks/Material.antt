-- ===== src/Jwks/Material.antt =====
-- The memo of the key material: what a key decodes to, with or without the memo.
use auth_oidc.Prelude.{
  ℕ, ◌≡◌, ◌≢◌, ◌++◌, ◌⊎◌, inl, inr, List, ◌∷◌, none, some, arith, and_then, ==_iff, Option-cases,
  ◌↔◌,
}
use auth_oidc.External.{External}
use auth_oidc.Jwks.Key.{rsa, ec, Jwk}
use auth_oidc.Jwks.{rsa_kty, ec_kty, from_jwk, material}

ec_not_rsa : ec_kty ≢ rsa_kty
ec_not_rsa e = cc

module _ (ext : External) where
  open ext use {b64_decode}

  -- The memo is empty, or holds what the key decodes to.
  abbrev pub IsFresh : Jwk → Type 0
  IsFresh k = (k.decoded ≡ none) ⊎ (k.decoded ≡ some (from_jwk ext k))

  -- With a memo that is empty or good, `material` returns the decoded fields, and leaves a good memo; nothing else of
  -- the key changes.
  pub material_lem :
      (k : Jwk)
      → IsFresh k
      → ((material ext k).0 ≡ from_jwk ext k)
        × ((material ext k).1 ≡ record k { decoded = some (from_jwk ext k) })
  unfolding material
  material_lem k (inl e) = ground arith
  material_lem k (inr e) = ground arith

  -- The fields of a key that decode to an RSA modulus and exponent.
  pub record IsRsa (k : Jwk) (n e : List ℕ) : Type 0 where
    pub kty : k.kty ≡ rsa_kty
    pub modulus : and_then k.n b64_decode ≡ some n
    pub exponent : and_then k.e b64_decode ≡ some e

  pub record IsEc (k : Jwk) (x y : List ℕ) : Type 0 where
    pub kty : k.kty ≡ ec_kty
    pub left : and_then k.x b64_decode ≡ some x
    pub right : and_then k.y b64_decode ≡ some y

  pub from_jwk-eq-rsa_iff : (k : Jwk) (n e : List ℕ) → (from_jwk ext k ≡ rsa n e) ↔ IsRsa k n e
  unfolding from_jwk
  from_jwk-eq-rsa_iff k n e = (
    λ h. ground (arith, ==_iff k.kty rsa_kty, ==_iff k.kty ec_kty),
    λ h. ground (arith, ==_iff k.kty rsa_kty, ==_iff k.kty ec_kty),
  )

  pub from_jwk-eq-ec :
      (k : Jwk) (point : List ℕ)
      → from_jwk ext k ≡ ec point
      → (x : List ℕ) × (y : List ℕ) × IsEc k x y × (point ≡ 0x04 ∷ (x ++ y))
  unfolding from_jwk
  from_jwk-eq-ec k point h = elim (Option-cases (and_then k.x b64_decode)) [
    | inl no_x ↦ absurd (ground (arith, ==_iff k.kty rsa_kty, ==_iff k.kty ec_kty))
    | inr (x, left) ↦ elim (Option-cases (and_then k.y b64_decode)) [
      | inl no_y ↦ absurd (ground (arith, ==_iff k.kty rsa_kty, ==_iff k.kty ec_kty))
      | inr (y, right) ↦ (
        x,
        y,
        ground (arith, ==_iff k.kty rsa_kty, ==_iff k.kty ec_kty),
        ground (arith, ==_iff k.kty rsa_kty, ==_iff k.kty ec_kty),
      )
    ]
  ]

  pub from_jwk_of_IsEc :
      (k : Jwk) (x y : List ℕ) → IsEc k x y → from_jwk ext k ≡ ec (0x04 ∷ (x ++ y))
  unfolding from_jwk
  from_jwk_of_IsEc k x y h = ground (arith, ==_iff k.kty rsa_kty, ==_iff k.kty ec_kty, ec_not_rsa)
