-- ===== src/Oidc/Concurrent.antt =====
-- Whom the module identifies when any number of requests are verified at once over one cache.
use auth_oidc.Prelude.{
  ℕ, ◌<◌, ◌≡◌, refl, ap, ◌∙◌, List, [], Option, none, some, Text, arith, IsIn, unwrap_or,
}
use auth_oidc.Prelude.Int.{ℤ, IsI64}
use auth_oidc.Error.{Result, ok, value}
use auth_oidc.External.{External}
use auth_oidc.Json.{Value}
use auth_oidc.Jwks.Key.{Jwk, JwkSet}
use auth_oidc.Jwks.{parse}
use auth_oidc.Jwks.Select.{Matches}
use auth_oidc.Jwt.Token.{Parts}
use auth_oidc.Jwt.{split, verify_signature}
use auth_oidc.Jwt.Split.{IsCompact, split_iff}
use auth_oidc.Jwt.Signature.{Signs, verify_signature_iff}
use auth_oidc.Cache.{JwksCache}
use auth_oidc.Cache.Limit.{Call}
use auth_oidc.Threads.Invariant.{IsRecent}
use auth_oidc.Callers.{Caller, starting, refreshing, finished, CallSystem, CallReach}
use auth_oidc.Callers.Sound.{finished-Vouched}
use auth_oidc.Claims.{OidcVerifier, Principal}
use auth_oidc.Claims.Times.{IsTyped}
use auth_oidc.Claims.Valid.{Admits, validate_claims_iff}
use auth_oidc.Oidc.{AuthVerdict, identify, on_signature}
use auth_oidc.Oidc.Sound.{SkipsMemo, parsed-IsFresh, on_signature-eq-identify}

-- A request to verify a token, which has been split: the times are those that it read at its start.
pub record Request : Type 0 where
  pub token : Text
  pub parts : Parts
  pub verifier : OidcVerifier
  pub now_unix : ℤ
  pub now_mono : ℕ

module _ (ext : External) where
  open ext use {Number, value_from_slice}

  -- The call of `with_key` that a request makes.
  abbrev pub lookup_of : Request → Call (Unit {0})
  lookup_of r = record {
    kid = unwrap_or r.parts.header.kid [];
    now = r.now_mono;
    check = verify_signature ext r.parts;
  }

  -- The verdict on a request whose call stands there, once it has one.
  abbrev pub verdict_at : Request → Caller (Unit {0}) → Option AuthVerdict
  verdict_at r starting = none
  verdict_at r (refreshing rotated p) = none
  verdict_at r (finished result) = some (on_signature ext r.verifier r.now_unix r.parts result)

  -- The token and a key of a set that the cache has held vouch for the principal.
  pub record VouchesShared (c : JwksCache) (sets : List (ℕ × JwkSet)) (r : Request) (p : Principal)
      : Type 0 where
    pub compact : IsCompact ext r.token r.parts
    pub set : JwkSet
    pub key : Jwk
    pub recent : IsRecent c sets r.now_mono set
    pub in_set : IsIn key set.keys
    pub matches : Matches (unwrap_or r.parts.header.kid []) key
    pub signs : Signs ext r.parts key
    pub claim_set : Value Number
    pub payload : value_from_slice r.parts.payload ≡ value claim_set
    pub admits : Admits ext r.verifier claim_set r.now_unix p

  verdict-cases :
      (r : Request) (w : Caller (Unit {0})) (p : Principal)
      → verdict_at r w ≡ some (identify p)
      → (result : Result (Unit {0})) × (w ≡ finished result)
        × (on_signature ext r.verifier r.now_unix r.parts result ≡ identify p)
  verdict-cases r starting p h = cc
  verdict-cases r (refreshing rotated at) p h = cc
  verdict-cases r (finished result) p h = (result, refl, ground arith)

  module _ (c : JwksCache) (requests : ℕ → Request) where
    -- In every interleaving of any number of requests, a request is identified only as a principal
    -- that its token, its claims and a key of a set that was brought less than the ceiling before
    -- vouch for. The ceiling is not zero, the token is split, the sets that were brought are parsed
    -- from documents, the clock and the numbers that are read are `i64`, and the deserialiser leaves
    -- the memo of a key empty.
    pub identified-VouchesShared :
        (s : CallSystem (Unit {0})) (i : ℕ) (p : Principal)
        → IsTyped ext
        → 0 < c.max_stale
        → split ext (requests i).token ≡ ok (requests i).parts
        → IsI64 (requests i).now_unix
        → SkipsMemo ext
        → ((t : ℕ) (set : JwkSet)
            → IsIn (t, set) s.mem.installed
            → (body : Text) × (parse ext body ≡ ok set))
        → CallReach c (λ j. lookup_of (requests j)) s
        → verdict_at (requests i) (s.at i) ≡ some (identify p)
        → VouchesShared c s.mem.installed (requests i) p
    identified-VouchesShared s i p typed ceiling splits in_range skips parsed run h =
        let r = requests i in
        let (result, ended, good) = verdict-cases r (s.at i) p h in
        let (accepted, (cs, payload, valid)) =
          on_signature-eq-identify ext r.verifier r.now_unix r.parts result p good in
        let (set, key, (t, brought, young), in_set, matches, verified) =
          finished-Vouched c (λ j. lookup_of (requests j)) s i tt ceiling run
            (ended ∙ ap finished accepted) in
        let (body, read) = parsed t set brought in
        record {
          compact = (split_iff ext r.token r.parts).0 splits;
          set = set;
          key = key;
          recent = (t, brought, young);
          in_set = in_set;
          matches = matches;
          signs =
              (verify_signature_iff ext r.parts key
                  (parsed-IsFresh ext c skips set key body read in_set)).0
                verified;
          claim_set = cs;
          payload = payload;
          admits = (validate_claims_iff ext r.verifier cs r.now_unix typed in_range p).0 valid;
        }
