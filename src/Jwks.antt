-- ===== src/Jwks.antt =====
-- auth-oidc/src/jwks.rs: key sets, the selection of keys by `kid`, and the decoding of key material.
pub mod Key
pub mod Select
pub mod Material
use auth_oidc.Prelude.{
  ℕ, ◌++◌, List, [], ◌∷◌, Option, none, some, Text, codes, ◌==◌, is, if◌then◌else◌, Bool, ◌&&◌,
  ◌||◌, filter, filter_map, is_none,
}
use auth_oidc.Error.{
  Error, Result, ok, err, ◌>>=◌, ok_or, missing_field, field_not_base64url, unsupported_kty,
  no_keys, invalid_jwks, or_error,
}
use auth_oidc.External.{External}
use Key.{KeyMaterial, rsa, ec, unusable, Jwk, JwkSet}

abbrev pub rsa_kty : Text
rsa_kty = codes "RSA"

abbrev pub ec_kty : Text
ec_kty = codes "EC"

abbrev is_empty {ℓ} : {A : Type ℓ} → List A → Bool
is_empty [] = Bool.true
is_empty (x ∷ xs) = Bool.false

abbrev material_or : Result KeyMaterial → KeyMaterial
material_or (ok m) = m
material_or (err e) = unusable e

-- The filter of `find_all`: the key has this `kid`, or neither side has one.
unfoldable pub selects : Text → Jwk → Bool
unfolding is ◌==◌
selects kid k = is k.kid kid || (is_empty kid && is_none k.kid)

unfoldable pub find_all : JwkSet → Text → List Jwk
unfolding selects
find_all set kid = filter (selects kid) set.keys

unfoldable pub non_empty : List Jwk → Result JwkSet
non_empty [] = err no_keys
non_empty (k ∷ ks) = ok (record { keys = k ∷ ks })

module _ (ext : External) where
  open ext use {b64_decode, keys_from_str, jwk_from_value}

  -- A required field of a key.
  unfoldable pub b64 : Option Text → Text → Result (List ℕ)
  b64 o what = do s ← ok_or o (missing_field what); ok_or (b64_decode s) (field_not_base64url what)

  unfoldable pub rsa_material : Jwk → Result KeyMaterial
  unfolding b64
  rsa_material k = do
    n ← b64 k.n (codes "RSA modulus n")
    e ← b64 k.e (codes "RSA exponent e")
    ok (rsa n e)

  unfoldable pub ec_material : Jwk → Result KeyMaterial
  unfolding b64
  ec_material k = do
    x ← b64 k.x (codes "EC coordinate x")
    y ← b64 k.y (codes "EC coordinate y")
    ok (ec (0x04 ∷ (x ++ y)))

  unfoldable pub from_jwk : Jwk → KeyMaterial
  unfolding rsa_material ec_material
  from_jwk k =
      if k.kty == rsa_kty
      then material_or (rsa_material k)
      else if k.kty == ec_kty
      then material_or (ec_material k)
      else unusable (unsupported_kty k.kty)

  -- `get_or_init` on the memo: the material, and the key with its memo set.
  unfoldable pub material : Jwk → KeyMaterial × Jwk
  unfolding from_jwk
  material k = elim k.decoded [
    | some m ↦ (m, k)
    | none ↦ let m = from_jwk k in (m, record k { decoded = some m })
  ]

  -- Entries that are not keys are skipped; a set with no key left is an error.
  unfoldable pub parse : Text → Result JwkSet
  unfolding non_empty
  parse body = do
    raw ← or_error (keys_from_str body) invalid_jwks
    non_empty (filter_map jwk_from_value raw)
