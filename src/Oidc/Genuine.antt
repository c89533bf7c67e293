-- ===== src/Oidc/Genuine.antt =====
-- Whom the module identifies when the provider is sound, under any number of requests at once.
use auth_oidc.Prelude.{ℕ, ◌≤◌, ◌<◌, ◌≡◌, refl, ap, ◌∙◌, [], some, Text, arith, IsIn, unwrap_or}
use auth_oidc.Prelude.Int.{IsI64}
use auth_oidc.Error.{Result, ok, value}
use auth_oidc.External.{External}
use auth_oidc.Json.{Value}
use auth_oidc.Jwks.Key.{Jwk, JwkSet}
use auth_oidc.Jwks.{parse}
use auth_oidc.Jwks.Select.{Matches}
use auth_oidc.Jwt.{verify_signature, claims}
use auth_oidc.Jwt.Signature.{Signs, verify_signature_iff}
use auth_oidc.Cache.{JwksCache, try_all}
use auth_oidc.Cache.Accepts.{try_all_iff}
use auth_oidc.Callers.{Caller, starting, refreshing, finished, CallSystem, CallReach}
use auth_oidc.Callers.Genuine.{IsGenuine}
use auth_oidc.Callers.Onward.{Onward}
use auth_oidc.Callers.Served.{IsServed}
use auth_oidc.Callers.Decided.{finished-eq-result, genuine-IsServed}
use auth_oidc.Threads.Genuine.{IsAnswer}
use auth_oidc.Cache.Limit.{Call}
use auth_oidc.Claims.{Principal}
use auth_oidc.Claims.Times.{IsTyped}
use auth_oidc.Claims.Valid.{Admits, validate_claims_iff}
use auth_oidc.Oidc.{AuthVerdict, identify, on_signature}
use auth_oidc.Oidc.Sound.{SkipsMemo, parsed-IsFresh}
use auth_oidc.Oidc.Concurrent.{Request, lookup_of, verdict_at}

module _ (ext : External) where
  open ext use {Number, value_from_slice}

  -- The set is read from a document, and has a key with the token's `kid` that has signed the token.
  pub record Signed (r : Request) (set : JwkSet) : Type 0 where
    pub body : Text
    pub read : parse ext body ≡ ok set
    pub key : Jwk
    pub in_set : IsIn key set.keys
    pub matches : Matches (unwrap_or r.parts.header.kid []) key
    pub signs : Signs ext r.parts key

  pub verdict-finished :
      (r : Request) (w : Caller (Unit {0})) (v : AuthVerdict)
      → verdict_at ext r w ≡ some v
      → (result : Result (Unit {0})) × (w ≡ finished result)
        × (v ≡ on_signature ext r.verifier r.now_unix r.parts result)
  verdict-finished r starting v h = cc
  verdict-finished r (refreshing rotated at) v h = cc
  verdict-finished r (finished result) v h = (result, refl, ground arith)

  module _ (c : JwksCache) (requests : ℕ → Request) (skips : SkipsMemo ext) where
    Signed-decides :
        (r : Request) (set : JwkSet)
        → Signed r set
        → try_all set (unwrap_or r.parts.header.kid []) (verify_signature ext r.parts)
          ≡ some (ok tt)
    Signed-decides r set g =
        let fresh = parsed-IsFresh ext c skips set g.key g.body g.read g.in_set in
        (try_all_iff (unwrap_or r.parts.header.kid []) (verify_signature ext r.parts) set).1
          (g.key, g.in_set, g.matches, (verify_signature_iff ext r.parts g.key fresh).1 g.signs)

    -- A request whose token is signed by a key that the provider lists, and whose claims admit a
    -- principal: in a run in which each answer is a key set with a key that has the token's `kid`
    -- and has signed it, and no fetch panics, the request has no other verdict than that principal;
    -- and from every state of such a run, some further steps in which the same holds bring it to
    -- this verdict. Any number of other requests interleave with it. The refetch interval is not
    -- zero, and not above the ceiling; the clock and the numbers that are read are `i64`, and the
    -- deserialiser leaves the memo of a key empty.
    pub genuine-identify :
        (s : CallSystem (Unit {0})) (i : ℕ) (cs : Value Number) (p : Principal) (set : JwkSet)
        → 0 < c.min_refetch_interval
        → c.min_refetch_interval ≤ c.max_stale
        → IsTyped ext
        → IsI64 (requests i).now_unix
        → value_from_slice (requests i).parts.payload ≡ value cs
        → Admits ext (requests i).verifier cs (requests i).now_unix p
        → Signed (requests i) set
        → (r : CallReach c (λ j. lookup_of ext (requests j)) s)
        → IsGenuine c (λ j. lookup_of ext (requests j)) (Signed (requests i)) r
        → ((v : AuthVerdict) → verdict_at ext (requests i) (s.at i) ≡ some v → v ≡ identify p)
          × ((t : CallSystem (Unit {0})) × Onward c
                (λ j. lookup_of ext (requests j))
                (IsAnswer (Signed (requests i)))
                s
                t
              × (verdict_at ext (requests i) (t.at i) ≡ some (identify p)))
    unfolding claims
    genuine-identify s i cs p set positive interval typed in_range payload admits signed r g =
        (only, (served.after, served.later, rw served.ended (ap some (identified _ good))))
      where
        q : Request
        q = requests i

        calls : ℕ → Call (Unit {0})
        calls j = lookup_of ext (requests j)

        identified :
            (ended : Result (Unit {0}))
            → ended ≡ ok tt
            → on_signature ext q.verifier q.now_unix q.parts ended ≡ identify p
        identified ended good =
            let valid =
              (validate_claims_iff ext q.verifier cs q.now_unix typed in_range p).1 admits in
            rw good (rw payload (rw valid refl))

        only : (v : AuthVerdict) → verdict_at ext q (s.at i) ≡ some v → v ≡ identify p
        only v here =
            let (ended, at, verdict) = verdict-finished q (s.at i) v here in
            verdict
            ∙ identified ended (
                finished-eq-result c calls (Signed q) positive interval i (ok tt) (Signed-decides q)
                  s ended r g at)

        both : (served : IsServed c calls (IsAnswer (Signed q)) s i) × (served.result ≡ ok tt)
        both =
            genuine-IsServed c calls (Signed q) positive interval i (ok tt) (Signed-decides q) s set
              r signed g

        served : IsServed c calls (IsAnswer (Signed q)) s i
        served = both.0

        good : served.result ≡ ok tt
        good = both.1
