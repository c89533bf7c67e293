-- ===== src/Oidc/Complete.antt =====
-- Exactly when the module identifies a caller.
use auth_oidc.Prelude.{
  ℕ, ◌<◌, ◌≡◌, refl, ap, ◌∙◌, ◌⊎◌, inl, inr, ◌↔◌, [], some, Text, arith, IsIn, unwrap_or,
}
use auth_oidc.Prelude.Int.{ℤ, IsI64}
use auth_oidc.Error.{Result, ok, value, Result-cases}
use auth_oidc.External.{External}
use auth_oidc.Json.{Value}
use auth_oidc.Jwks.Key.{Jwk, JwkSet}
use auth_oidc.Jwks.Select.{Matches}
use auth_oidc.Jwks.Material.{IsFresh}
use auth_oidc.Jwt.Token.{Parts}
use auth_oidc.Jwt.{split, verify_signature, claims}
use auth_oidc.Jwt.Split.{IsCompact, split_iff}
use auth_oidc.Jwt.Signature.{Signs, verify_signature_iff}
use auth_oidc.Cache.{Store, fetched}
use auth_oidc.Cache.Ceiling.{IsSound}
use auth_oidc.Cache.Reference.{renewed}
use auth_oidc.Cache.Accepts.{LooksIn, Accepts, with_key_iff}
use auth_oidc.Claims.{OidcVerifier, Principal}
use auth_oidc.Claims.Times.{IsTyped}
use auth_oidc.Claims.Valid.{Admits, validate_claims_iff}
use auth_oidc.Oidc.{identify, OidcModule, on_signature, check_signature, verify_with}
use auth_oidc.Oidc.Sound.{SkipsMemo, fetched-IsFresh, on_signature-eq-identify}

module _ (ext : External) (m : OidcModule) (verifier : OidcVerifier) (token : Text) (now_unix : ℤ)
    (now_mono : ℕ) (s : Store) where
  open ext use {Number, value_from_slice}

  abbrev pub kid_of : Parts → Text
  kid_of parts = unwrap_or parts.header.kid []

  -- The token is a compact one; a key with its `kid`, of those that the cache looks in, has signed it;
  -- and its claims admit the principal.
  pub record Earns (p : Principal) : Type 0 where
    pub parts : Parts
    pub compact : IsCompact ext token parts
    pub set : JwkSet
    pub looks : LooksIn (kid_of parts) (verify_signature ext parts) ext m.jwks now_mono s set
    pub key : Jwk
    pub in_set : IsIn key set.keys
    pub matches : Matches (kid_of parts) key
    pub signs : Signs ext parts key
    pub claim_set : Value Number
    pub payload : value_from_slice parts.payload ≡ value claim_set
    pub admits : Admits ext verifier claim_set now_unix p

  module _ (skips : SkipsMemo ext) (sound : IsSound ext m.jwks s) where
    kept-IsFresh :
        (set : JwkSet) (k : Jwk) → s.inner.keys ≡ some set → IsIn k set.keys → IsFresh ext k
    kept-IsFresh set k kept found = elim sound [
      | inl (empty, _) ↦ absurd (ground arith)
      | inr (set', t, cached) ↦
          let same : set' ≡ set = ground (arith, cached.kept) in
          fetched-IsFresh ext m.jwks skips cached.request set k (cached.answer ∙ ap ok same) found
    ]

    renewed-source :
        (set : JwkSet)
        → (renewed ext m.jwks now_mono s).0 ≡ ok set
        → (fetched ext m.jwks s.fetches ≡ ok set) ⊎ (s.inner.keys ≡ some set)
    renewed-source set h = ground arith

    looked-IsFresh :
        (kid : Text) (f : Jwk → Result (Unit {0})) (set : JwkSet) (k : Jwk)
        → LooksIn kid f ext m.jwks now_mono s set
        → IsIn k set.keys
        → IsFresh ext k
    looked-IsFresh kid f set k (inl cur) found = kept-IsFresh set k (ground arith) found
    looked-IsFresh kid f set k (inr (missed, got)) found = elim (renewed-source set got) [
      | inl brought ↦ fetched-IsFresh ext m.jwks skips s.fetches set k brought found
      | inr kept ↦ kept-IsFresh set k kept found
    ]

    module _ (typed : IsTyped ext) (in_range : IsI64 now_unix)
        (interval : 0 < m.jwks.min_refetch_interval) (ceiling : 0 < m.jwks.max_stale)
        (p : Principal) where
      checked_iff :
          (parts : Parts)
          → ((check_signature ext m parts now_mono s).0 ≡ ok tt) ↔ (
              (set : JwkSet) × LooksIn
                (kid_of parts)
                (verify_signature ext parts)
                ext
                m.jwks
                now_mono
                s
                set
              × Accepts (kid_of parts) (verify_signature ext parts) set)
      checked_iff parts =
          with_key_iff (kid_of parts) (verify_signature ext parts) ext m.jwks now_mono s interval
            ceiling

      signature_iff :
          (parts : Parts) (set : JwkSet) (k : Jwk)
          → LooksIn (kid_of parts) (verify_signature ext parts) ext m.jwks now_mono s set
          → IsIn k set.keys
          → (verify_signature ext parts k ≡ ok tt) ↔ Signs ext parts k
      signature_iff parts set k looks found =
          verify_signature_iff ext parts k
            (looked-IsFresh (kid_of parts) (verify_signature ext parts) set k looks found)

      signed-Earns :
          (parts : Parts)
          → split ext token ≡ ok parts
          → on_signature ext verifier now_unix parts (check_signature ext m parts now_mono s).0
            ≡ identify p
          → Earns p
      signed-Earns parts segments h =
          let (good, (cs, payload, valid)) =
            on_signature-eq-identify ext verifier now_unix parts
              (check_signature ext m parts now_mono s).0 p h in
          let (set, looks, (key, in_set, matches, verified)) = (checked_iff parts).0 good in
          record {
            parts = parts;
            compact = (split_iff ext token parts).0 segments;
            set = set;
            looks = looks;
            key = key;
            in_set = in_set;
            matches = matches;
            signs = (signature_iff parts set key looks in_set).0 verified;
            claim_set = cs;
            payload = payload;
            admits = (validate_claims_iff ext verifier cs now_unix typed in_range p).0 valid;
          }

      Earns-identify :
          Earns p → (verify_with ext m verifier token now_unix now_mono s).0 ≡ identify p
      unfolding verify_with claims
      Earns-identify e =
          let segments = (split_iff ext token e.parts).1 e.compact in
          let verified = (signature_iff e.parts e.set e.key e.looks e.in_set).1 e.signs in
          let good =
            (checked_iff e.parts).1 (e.set, e.looks, (e.key, e.in_set, e.matches, verified)) in
          let valid =
            (validate_claims_iff ext verifier e.claim_set now_unix typed in_range p).1 e.admits in
          rw segments (rw good (rw e.payload (rw valid refl)))

      -- The module identifies a caller exactly as the principals that the token earns: it is a compact
      -- token, which a key with its `kid` has signed, of the keys that the cache looks in, and its claims
      -- admit the principal. The cache is sound, its refetch interval and its ceiling are not zero, the
      -- clock and the numbers that are read are `i64`, and the deserialiser leaves the memo of a key
      -- empty.
      pub verify_with_iff :
          ((verify_with ext m verifier token now_unix now_mono s).0 ≡ identify p) ↔ Earns p
      unfolding verify_with
      verify_with_iff = (to, Earns-identify)
        where
          to : (verify_with ext m verifier token now_unix now_mono s).0 ≡ identify p → Earns p
          to h = elim (Result-cases (split ext token)) [
            | inr (why, e) ↦ absurd (ground arith)
            | inl (parts, e) ↦ signed-Earns parts e (ground arith)
          ]
