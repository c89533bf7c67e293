-- ===== src/Jwt/Signature.antt =====
-- Which signatures `verify_signature` accepts.
use auth_oidc.Prelude.{
  ℕ, ◌≡◌, ◌≢◌, refl, ◌++◌, ◌⊎◌, inl, inr, ◌↔◌, List, [], ◌∷◌, none, some, true, arith, ==_iff,
  is_iff,
}
use auth_oidc.Error.{ok}
use auth_oidc.External.{External}
use auth_oidc.Jwks.Key.{KeyMaterial, rsa, ec, unusable, Jwk}
use auth_oidc.Jwks.{rsa_kty, ec_kty, from_jwk, material}
use auth_oidc.Jwks.Material.{
  IsFresh, IsRsa, IsEc, material_lem, from_jwk-eq-rsa_iff, from_jwk-eq-ec, from_jwk_of_IsEc,
}
use auth_oidc.Jwt.Token.{Parts}
use auth_oidc.Jwt.{
  alg_rs256, alg_es256, curve_p256, use_enc, verify_rsa, verify_ec, verify_rs256, verify_es256,
  verify_signature,
}

module _ (ext : External) (parts : Parts) (key : Jwk) where
  open ext use {rsa_verify, ecdsa_verify}

  pub record SignsRs256 : Type 0 where
    pub alg : parts.header.alg ≡ alg_rs256
    pub n : List ℕ
    pub e : List ℕ
    pub material : IsRsa ext key n e
    pub checks : rsa_verify n e parts.signing_input parts.signature ≡ true

  pub record SignsEs256 : Type 0 where
    pub alg : parts.header.alg ≡ alg_es256
    pub x : List ℕ
    pub y : List ℕ
    pub curve : key.crv ≡ some curve_p256
    pub material : IsEc ext key x y
    pub checks : ecdsa_verify (0x04 ∷ (x ++ y)) parts.signing_input parts.signature ≡ true

  -- What RFC 7515 and RFC 7517 ask of a token and a key, for the two algorithms.
  pub record Signs : Type 0 where
    pub no_critical : (parts.header.crit ≡ none) ⊎ (parts.header.crit ≡ some [])
    pub not_encryption : key.key_use ≢ some use_enc
    pub signed : SignsRs256 ⊎ SignsEs256

  Rsa-checks : Type 0
  Rsa-checks =
      (n : List ℕ) × (e : List ℕ) × IsRsa ext key n e
      × (rsa_verify n e parts.signing_input parts.signature ≡ true)

  Ec-checks : Type 0
  Ec-checks =
      (x : List ℕ) × (y : List ℕ) × IsEc ext key x y
      × (ecdsa_verify (0x04 ∷ (x ++ y)) parts.signing_input parts.signature ≡ true)

  rsa_checks :
      (m : KeyMaterial) → from_jwk ext key ≡ m → verify_rsa ext parts m ≡ ok tt → Rsa-checks
  unfolding Rsa-checks verify_rsa
  rsa_checks (rsa n e) q h = (n, e, (from_jwk-eq-rsa_iff ext key n e).0 q, ground arith)
  rsa_checks (ec point) q h = cc
  rsa_checks (unusable msg) q h = cc

  ec_checks : (m : KeyMaterial) → from_jwk ext key ≡ m → verify_ec ext parts m ≡ ok tt → Ec-checks
  unfolding Ec-checks verify_ec
  ec_checks (rsa n e) q h = cc
  ec_checks (ec point) q h =
      let (x, y, is_ec, p) = from_jwk-eq-ec ext key point q in (x, y, is_ec, ground arith)
  ec_checks (unusable msg) q h = cc

  module _ (fresh : IsFresh ext key) where
    decoded : (material ext key).0 ≡ from_jwk ext key
    decoded = (material_lem ext key fresh).0

    rs256_sound : parts.header.alg ≡ alg_rs256 → verify_rs256 ext parts key ≡ ok tt → SignsRs256
    unfolding verify_rs256 Rsa-checks
    rs256_sound alg h =
        let (n, e, m, v) =
          rsa_checks (from_jwk ext key) refl (ground (arith, decoded, ==_iff key.kty rsa_kty)) in
        record { alg = alg; n = n; e = e; material = m; checks = v }

    rs256_complete : SignsRs256 → verify_rs256 ext parts key ≡ ok tt
    unfolding verify_rs256 verify_rsa
    rs256_complete s =
        ground (
          arith,
          decoded,
          ==_iff key.kty rsa_kty,
          (from_jwk-eq-rsa_iff ext key s.n s.e).1 s.material,
        )

    es256_sound : parts.header.alg ≡ alg_es256 → verify_es256 ext parts key ≡ ok tt → SignsEs256
    unfolding verify_es256 Ec-checks
    es256_sound alg h =
        let (x, y, m, v) =
          ec_checks (from_jwk ext key) refl
            (ground (arith, decoded, ==_iff key.kty ec_kty, is_iff key.crv curve_p256)) in
        record {
          alg = alg;
          x = x;
          y = y;
          curve = ground (arith, is_iff key.crv curve_p256);
          material = m;
          checks = v;
        }

    es256_complete : SignsEs256 → verify_es256 ext parts key ≡ ok tt
    unfolding verify_es256 verify_ec
    es256_complete s = ground (
      arith,
      decoded,
      ==_iff key.kty ec_kty,
      is_iff key.crv curve_p256,
      from_jwk_of_IsEc ext key s.x s.y s.material,
    )

    verify-Signs : verify_signature ext parts key ≡ ok tt → Signs
    unfolding verify_signature
    verify-Signs h = record {
      no_critical = ground (arith);
      not_encryption = ground (arith, is_iff key.key_use use_enc);
      signed = ground (
        arith,
        is_iff key.key_use use_enc,
        ==_iff parts.header.alg alg_rs256,
        ==_iff parts.header.alg alg_es256,
        rs256_sound,
        es256_sound,
      );
    }

    Signs-verify : Signs → verify_signature ext parts key ≡ ok tt
    unfolding verify_signature
    Signs-verify s = elim s.signed [
      | inl rs ↦ ground (
        arith,
        s.no_critical,
        rs256_complete rs,
        rs.alg,
        is_iff key.key_use use_enc,
        ==_iff parts.header.alg alg_rs256,
      )
      | inr es ↦ ground (
        arith,
        s.no_critical,
        es256_complete es,
        es.alg,
        is_iff key.key_use use_enc,
        ==_iff parts.header.alg alg_rs256,
        ==_iff parts.header.alg alg_es256,
      )
    ]

    -- For a key whose memo is good, a signature is accepted exactly if the token names no critical
    -- extension, the key is not for encryption only, and RS256 with an RSA key or ES256 with a P-256
    -- key accepts it on the decoded fields of the key. No other algorithm is ever accepted.
    pub verify_signature_iff : (verify_signature ext parts key ≡ ok tt) ↔ Signs
    verify_signature_iff = (verify-Signs, Signs-verify)
