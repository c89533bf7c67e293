-- ===== src/Jwt.antt =====
-- auth-oidc/src/jwt.rs: the split of a compact token, and the verification of its signature.
pub mod Token
pub mod Segments
pub mod Split
pub mod Signature
use auth_oidc.Prelude.{
  ℕ, suc, ◌++◌, List, [], ◌∷◌, Option, none, some, Text, codes, ◌==◌, is, if◌then◌else◌, Bool, true,
  false, not, ◌&&◌, eqb, take,
}
use auth_oidc.Error.{
  Error, Result, ok, err, ◌>>=◌, ◌>>◌, ok_or, or_error, refuse_if, not_three_segments,
  header_not_base64url, payload_not_base64url, signature_not_base64url, malformed_header,
  malformed_claims, critical_extensions, encryption_only_key, verification_failed,
  material_kty_mismatch, alg_kty_mismatch, wrong_curve, forbidden_alg, panicked,
}
use auth_oidc.External.{External}
use auth_oidc.Json.{Value}
use auth_oidc.Jwks.Key.{KeyMaterial, rsa, ec, unusable, Jwk}
use auth_oidc.Jwks.{rsa_kty, ec_kty, material}
use Token.{Header, Parts}

abbrev pub alg_rs256 : Text
alg_rs256 = codes "RS256"

abbrev pub alg_es256 : Text
alg_es256 = codes "ES256"

abbrev pub curve_p256 : Text
curve_p256 = codes "P-256"

abbrev pub use_enc : Text
use_enc = codes "enc"

abbrev pub dot : ℕ
dot = b'.'

-- `str::split` on one byte: always at least one segment.
unfoldable pub extend_first : ℕ → List Text → List Text
extend_first c [] = (c ∷ []) ∷ []
extend_first c (seg ∷ segs) = (c ∷ seg) ∷ segs

unfoldable pub split_on : ℕ → Text → List Text
unfolding extend_first
split_on d [] = [] ∷ []
split_on d (c ∷ s) = let rest = split_on d s in if eqb c d then [] ∷ rest else extend_first c rest

-- `str::rfind` of one byte.
unfoldable pub rfind : ℕ → Text → Option ℕ
rfind d [] = none
rfind d (c ∷ s) = elim (rfind d s) [
  | some i ↦ some (suc i)
  | none ↦ if eqb c d then some 0 else none
]

-- The iterator yields three segments and then ends.
unfoldable pub three : List Text → Result (Text × Text × Text)
three [] = err not_three_segments
three (h ∷ []) = err not_three_segments
three (h ∷ p ∷ []) = err not_three_segments
three (h ∷ p ∷ s ∷ []) = ok (h, p, s)
three (h ∷ p ∷ s ∷ t ∷ ts) = err not_three_segments

-- A non-empty `crit`.
abbrev pub names_critical : Option (List Text) → Option (List Text)
names_critical none = none
names_critical (some []) = none
names_critical (some (c ∷ cs)) = some (c ∷ cs)

abbrev refuse_critical : Option (List Text) → Result (Unit {0})
refuse_critical none = ok tt
refuse_critical (some crit) = err (critical_extensions crit)

abbrev pub verified : Bool → Result (Unit {0})
verified b = refuse_if (not b) verification_failed

module _ (ext : External) where
  open ext use {Number, b64_decode, header_from_slice, value_from_slice, rsa_verify, ecdsa_verify}

  -- `split` after the match on the segments.
  unfoldable pub decode : Text → Text × Text × Text → Result Parts
  unfolding rfind
  decode token (h, p, s) = do
    header_bytes ← ok_or (b64_decode h) header_not_base64url
    header ← or_error (header_from_slice header_bytes) malformed_header
    payload ← ok_or (b64_decode p) payload_not_base64url
    signature ← ok_or (b64_decode s) signature_not_base64url
    last_dot ← ok_or (rfind dot token) panicked
    ok (record {
      header = header;
      payload = payload;
      signature = signature;
      signing_input = take last_dot token;
    })

  unfoldable pub split : Text → Result Parts
  unfolding split_on three decode
  split token = three (split_on dot token) >>= decode token

  -- The arm of `RS256`, on the key material.
  unfoldable pub verify_rsa : Parts → KeyMaterial → Result (Unit {0})
  verify_rsa parts (rsa n e) = verified (rsa_verify n e parts.signing_input parts.signature)
  verify_rsa parts (unusable msg) = err msg
  verify_rsa parts (ec point) = err material_kty_mismatch

  -- The arm of `ES256`, on the key material.
  unfoldable pub verify_ec : Parts → KeyMaterial → Result (Unit {0})
  verify_ec parts (ec point) = verified (ecdsa_verify point parts.signing_input parts.signature)
  verify_ec parts (unusable msg) = err msg
  verify_ec parts (rsa n e) = err material_kty_mismatch

  unfoldable pub verify_rs256 : Parts → Jwk → Result (Unit {0})
  unfolding ◌==◌ verify_rsa
  verify_rs256 parts key = do
    refuse_if (not (key.kty == rsa_kty)) (alg_kty_mismatch alg_rs256 key.kty)
    verify_rsa parts (material ext key).0

  unfoldable pub verify_es256 : Parts → Jwk → Result (Unit {0})
  unfolding is verify_ec
  verify_es256 parts key = do
    refuse_if (not (key.kty == ec_kty)) (alg_kty_mismatch alg_es256 key.kty)
    refuse_if (not (is key.crv curve_p256)) (wrong_curve key.crv)
    verify_ec parts (material ext key).0

  -- The key's memo is written by `material`; the result is what the caller sees.
  unfoldable pub verify_signature : Parts → Jwk → Result (Unit {0})
  unfolding verify_rs256 verify_es256
  verify_signature parts key = do
    let alg = parts.header.alg
    refuse_critical (names_critical parts.header.crit)
    refuse_if (is key.key_use use_enc) encryption_only_key
    if alg == alg_rs256
        then verify_rs256 parts key
        else if alg == alg_es256
        then verify_es256 parts key
        else err (forbidden_alg alg)

  unfoldable pub claims : Parts → Result (Value Number)
  claims parts = or_error (value_from_slice parts.payload) malformed_claims
