-- ===== src/Oidc/Sound.antt =====
-- Whom the module identifies: the whole path from a bearer token to a principal.
use auth_oidc.Prelude.{
  ℕ, ◌<◌, ◌↔◌, ◌≡◌, refl, ap, ◌∙◌, inl, inr, List, [], ◌∷◌, none, some, Text, arith, IsIn,
  filter_map, unwrap_or, subst, Option-cases,
}
use auth_oidc.Prelude.Int.{ℤ, IsI64}
use auth_oidc.Error.{
  Error, Result, ok, err, value, Reply, failure, malformed_claims, or_error, Result-cases,
}
use auth_oidc.External.{External}
use auth_oidc.Json.{Value}
use auth_oidc.Jwks.Key.{Jwk, JwkSet}
use auth_oidc.Jwks.{parse}
use auth_oidc.Jwks.Select.{Matches, parse_iff}
use auth_oidc.Jwks.Material.{IsFresh}
use auth_oidc.Jwt.Token.{Parts}
use auth_oidc.Jwt.{split, verify_signature, claims}
use auth_oidc.Jwt.Split.{IsCompact, split_iff}
use auth_oidc.Jwt.Signature.{Signs, verify_signature_iff}
use auth_oidc.Cache.{JwksCache, Store, fetched}
use auth_oidc.Cache.Ceiling.{IsSound, IsServable}
use auth_oidc.Cache.Verify.{with_key_sound, with_key-IsSound}
use auth_oidc.Claims.{OidcVerifier, Principal, validate_claims}
use auth_oidc.Claims.Times.{IsTyped}
use auth_oidc.Claims.Valid.{Admits, validate_claims_iff}
use auth_oidc.Oidc.{
  AuthVerdict, identify, pass, OidcModule, verdict_of, on_claims, on_signature, check_signature,
  verify_with,
}

module _ (ext : External) where
  open ext use {Number, value_from_slice, jwk_from_value, keys_from_str}

  -- The derived deserialiser leaves the memo, a field that it skips, empty.
  abbrev pub SkipsMemo : Type 0
  SkipsMemo = (v : Value Number) (k : Jwk) → jwk_from_value v ≡ some k → k.decoded ≡ none

  pub verdict_of-eq-identify :
      (r : Result Principal) (p : Principal) → verdict_of ext r ≡ identify p → r ≡ ok p
  verdict_of-eq-identify (ok q) p h = ground arith
  verdict_of-eq-identify (err e) p h = cc

  filter_map-source :
      (vs : List (Value Number)) (k : Jwk)
      → IsIn k (filter_map jwk_from_value vs)
      → (v : Value Number) × (jwk_from_value v ≡ some k)
  filter_map-source [] k h = absurd h
  filter_map-source (v ∷ vs) k h = elim (Option-cases (jwk_from_value v)) [
    | inl skipped ↦ filter_map-source vs k (ground arith)
    | inr (k', read) ↦
        let kept : IsIn k (k' ∷ filter_map jwk_from_value vs) = ground arith in
        elim kept [ inl same ↦ (v, read ∙ ap some same) | inr later ↦ filter_map-source vs k later ]
  ]

  module _ (c : JwksCache) (skips : SkipsMemo) where
    pub parsed-IsFresh :
        (set : JwkSet) (k : Jwk) (body : Text)
        → parse ext body ≡ ok set
        → IsIn k set.keys
        → IsFresh ext k
    parsed-IsFresh set k body h found =
        let (raw, read, same, some_key) = (parse_iff ext body set).0 h in
        let (v, from) = filter_map-source raw k (subst (IsIn k) same found) in inl (skips v k from)

    pub fetched-IsFresh :
        (n : ℕ) (set : JwkSet) (k : Jwk)
        → fetched ext c n ≡ ok set
        → IsIn k set.keys
        → IsFresh ext k
    unfolding fetched
    fetched-IsFresh n set k h found = elim (Result-cases (c.fetcher n c.url)) [
      | inl (body, e) ↦ parsed-IsFresh set k body (ground arith) found
      | inr (why, e) ↦ absurd (ground arith)
    ]

  module _ (verifier : OidcVerifier) (now_unix : ℤ) where
    read-eq-identify :
        (reply : Reply (Value Number)) (p : Principal)
        → on_claims ext verifier now_unix (or_error reply malformed_claims) ≡ identify p
        → (cs : Value Number) × (reply ≡ value cs)
          × (validate_claims ext verifier cs now_unix ≡ ok p)
    read-eq-identify (failure reason) p h = cc
    read-eq-identify (value cs) p h = (cs, refl, verdict_of-eq-identify _ p h)

    pub on_signature-eq-identify :
        (parts : Parts) (r : Result (Unit {0})) (p : Principal)
        → on_signature ext verifier now_unix parts r ≡ identify p
        → (r ≡ ok tt)
          × ((cs : Value Number) × (value_from_slice parts.payload ≡ value cs)
              × (validate_claims ext verifier cs now_unix ≡ ok p))
    unfolding claims
    on_signature-eq-identify parts (err e) p h = cc
    on_signature-eq-identify parts (ok u) p h =
        (refl, read-eq-identify (value_from_slice parts.payload) p h)

  module _ (m : OidcModule) (verifier : OidcVerifier) (token : Text) (now_unix : ℤ) (now_mono : ℕ)
      (s : Store) where
    abbrev pub outcome : AuthVerdict × Store
    outcome = verify_with ext m verifier token now_unix now_mono s

    -- The token and the provider's keys vouch for the principal: the token is a compact one, whose
    -- signature is good under a key with its `kid`, of a set that a request has brought and that is
    -- within the ceiling, and whose claims admit the principal.
    pub record Vouches (after : Store) (p : Principal) : Type 0 where
      pub parts : Parts
      pub compact : IsCompact ext token parts
      pub set : JwkSet
      pub key : Jwk
      pub servable : IsServable ext m.jwks after now_mono set
      pub in_set : IsIn key set.keys
      pub matches : Matches (unwrap_or parts.header.kid []) key
      pub signs : Signs ext parts key
      pub claim_set : Value Number
      pub payload : value_from_slice parts.payload ≡ value claim_set
      pub admits : Admits ext verifier claim_set now_unix p

    -- The module identifies a caller only as a principal that the token and the keys of the provider
    -- vouch for, if the cache is sound, the ceiling is not zero, the clock and the numbers that are
    -- read are `i64`, and the deserialiser leaves the memo of a key empty.
    pub verify_with-identify :
        (p : Principal)
        → IsTyped ext
        → SkipsMemo
        → IsI64 now_unix
        → 0 < m.jwks.max_stale
        → IsSound ext m.jwks s
        → outcome.0 ≡ identify p
        → Vouches outcome.1 p
    unfolding verify_with
    verify_with-identify p typed skips in_range ceiling sound h =
        elim (Result-cases (split ext token)) [
          | inr (why, e) ↦ absurd (ground arith)
          | inl (parts, e) ↦
              let checked = check_signature ext m parts now_mono s in
              let (good, (cs, payload, valid)) =
                on_signature-eq-identify verifier now_unix parts checked.0 p (ground arith) in
              let (set, key, served, found, matches, accepts) =
                with_key_sound ext m.jwks (unwrap_or parts.header.kid []) now_mono
                  (verify_signature ext parts) s tt ceiling sound good in
              record {
                parts = parts;
                compact = (split_iff ext token parts).0 e;
                set = set;
                key = key;
                servable = rw e served;
                in_set = found;
                matches = matches;
                signs =
                    (verify_signature_iff ext parts key (
                        fetched-IsFresh m.jwks skips served.1.request set key served.1.answer
                          found)).0
                      accepts;
                claim_set = cs;
                payload = payload;
                admits = (validate_claims_iff ext verifier cs now_unix typed in_range p).0 valid;
              }
        ]

    -- A verification keeps a sound cache sound, whatever its verdict.
    pub verify_with-IsSound : IsSound ext m.jwks s → IsSound ext m.jwks outcome.1
    unfolding verify_with
    verify_with-IsSound sound = elim (Result-cases (split ext token)) [
      | inr (why, e) ↦ rw e sound
      | inl (parts, e) ↦ rw e (
          with_key-IsSound ext m.jwks (unwrap_or parts.header.kid []) now_mono
            (verify_signature ext parts) s sound)
    ]

    -- The module passes on a credential exactly if it does not split as a token: every other failure
    -- is a rejection.
    pub verify_with-eq-pass : (outcome.0 ≡ pass) ↔ ((e : Error) × (split ext token ≡ err e))
    unfolding verify_with claims
    verify_with-eq-pass = elim (Result-cases (split ext token)) [
      | inr (why, e) ↦ (λ h. (why, e), λ h. rw e refl)
      | inl (parts, e) ↦ (λ h. absurd (ground arith), λ h. absurd (ground (arith, h.1)))
    ]
