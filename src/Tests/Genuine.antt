-- ===== src/Tests/Genuine.antt =====
-- The theorems on genuine runs, at the call that fetches the first keys.
use auth_oidc.Prelude.{◌≡◌, ◌==◌, refl, codes, some, arith}
use auth_oidc.Error.{Result, ok, value}
use auth_oidc.Jwks.{parse, non_empty}
use auth_oidc.Jwks.Key.{JwkSet}
use auth_oidc.Jwt.{verify_signature}
use auth_oidc.Jwt.Signature.{verify_signature_iff}
use auth_oidc.Cache.{try_all}
use auth_oidc.Cache.Accepts.{try_all_iff}
use auth_oidc.Callers.Ends.{Schedule-CallReach}
use auth_oidc.Callers.Genuine.{IsGenuine}
use auth_oidc.Callers.Answers.{outside-MoveAnswers}
use auth_oidc.Callers.Decided.{finished-eq-result}
use auth_oidc.Callers.Onward.{Onward}
use auth_oidc.Threads.Genuine.{IsAnswer}
use auth_oidc.Callers.{CallSystem}
use auth_oidc.Claims.Valid.{validate_claims_iff}
use auth_oidc.Oidc.{AuthVerdict, identify}
use auth_oidc.Oidc.Sound.{parsed-IsFresh}
use auth_oidc.Oidc.Concurrent.{lookup_of, verdict_at}
use auth_oidc.Oidc.Genuine.{Signed, genuine-identify}
use auth_oidc.Tests.Runs.{claims_valid}
use auth_oidc.Tests.Caches.{check, found_warm}
use auth_oidc.Tests.Calling.{
  calls, through, requests, first_look, last_step, asking-Schedule, through-Schedule,
  through-CallReach,
}
use auth_oidc.Tests.Threading.{settles}
use auth_oidc.Tests.Fixture.{
  cache, key_set, ext, parts, verifier, today, alice, claims_doc, typed, skips,
}

through-IsGenuine :
    (IsGood : JwkSet → Type 0) → IsGood key_set → IsGenuine cache calls IsGood through-CallReach
unfolding through-CallReach through-Schedule asking-Schedule first_look Schedule-CallReach settles
through-IsGenuine IsGood good = (
  (((((((tt, tt), tt), tt), tt), good), tt), tt),
  outside-MoveAnswers (IsAnswer IsGood) last_step refl,
)

finished-eq-result_example : ◌≡◌ {A = Result (Unit {0})} (ok tt) (ok tt)
finished-eq-result_example =
    finished-eq-result cache calls (λ set. try_all set (codes "k1") check ≡ some (ok tt))
      (omega arith) (omega arith) 0 (ok tt) (λ set good. good) through (ok tt) through-CallReach
      (through-IsGenuine (λ set. try_all set (codes "k1") check ≡ some (ok tt)) found_warm) refl

key_set-parsed : parse ext (codes "keys") ≡ ok key_set
unfolding parse non_empty ◌==◌
key_set-parsed = refl

key_set-Signed : Signed ext (requests 0) key_set
key_set-Signed =
    let (key, in_set, matches, good) =
      (try_all_iff (codes "k1") (verify_signature ext parts) key_set).0 found_warm in
    let fresh = parsed-IsFresh ext cache skips key_set key (codes "keys") key_set-parsed in_set in
    record {
      body = codes "keys";
      read = key_set-parsed;
      key = key;
      in_set = in_set;
      matches = matches;
      signs = (verify_signature_iff ext parts key fresh).0 good;
    }

payload_read : ext.value_from_slice parts.payload ≡ value claims_doc
unfolding ◌==◌
payload_read = refl

genuine-identify_example :
    ((v : AuthVerdict) → verdict_at ext (requests 0) (through.at 0) ≡ some v → v ≡ identify alice)
    × ((t : CallSystem (Unit {0})) × Onward cache
          (λ j. lookup_of ext (requests j))
          (IsAnswer (Signed ext (requests 0)))
          through
          t
        × (verdict_at ext (requests 0) (t.at 0) ≡ some (identify alice)))
genuine-identify_example =
    genuine-identify ext cache requests skips through 0 claims_doc alice key_set (omega arith)
      (omega arith) typed (omega arith, omega arith) payload_read
      ((validate_claims_iff ext verifier claims_doc today typed (omega arith, omega arith) alice).0
        claims_valid)
      key_set-Signed through-CallReach (through-IsGenuine (Signed ext (requests 0)) key_set-Signed)
