-- ===== src/Tests/Caches.antt =====
-- The theorems on the cache, at the fixture.
use auth_oidc.Prelude.{◌≡◌, refl, inl, inr, some, codes, ◌==◌, is, arith}
use auth_oidc.Error.{Result, ok, request_failed}
use auth_oidc.Jwks.Key.{Jwk}
use auth_oidc.Jwks.{parse, non_empty, find_all, selects, material}
use auth_oidc.Jwt.{verify_signature}
use auth_oidc.Cache.{JwksCache, with_key, try_all, fetched, result_or_unknown}
use auth_oidc.Cache.Rotation.{with_key-rotated}
use auth_oidc.Cache.Ceiling.{IsSound}
use auth_oidc.Cache.Verify.{with_key-IsSound}
use auth_oidc.Cache.Outage.{with_key-outage}
use auth_oidc.Cache.Reference.{reference, with_key_lem}
use auth_oidc.Tests.Fixture.{ext, cache, parts, warm, key_set}
use auth_oidc.Tests.Runs.{first_answer, later_answer, token_signed}

abbrev pub check : Jwk → Result (Unit {0})
check = verify_signature ext parts

warm-IsSound : IsSound ext cache warm
warm-IsSound = inr (
  key_set,
  100,
  record { kept = refl; stamp = refl; request = 0; earlier = omega arith; answer = first_answer },
)

with_key-IsSound_example : IsSound ext cache (with_key ext cache (codes "k2") 5000 check warm).1
with_key-IsSound_example = with_key-IsSound ext cache (codes "k2") 5000 check warm warm-IsSound

pub found_warm : try_all key_set (codes "k1") check ≡ some (ok tt)
unfolding try_all find_all selects ◌==◌ is verify_signature material
found_warm = rw token_signed refl

with_key-outage_example : (with_key ext cache (codes "k1") 5000 check warm).0 ≡ ok tt
with_key-outage_example =
    with_key-outage ext cache (codes "k1") 5000 check warm key_set tt
      (request_failed (codes "down")) refl refl later_answer found_warm

with_key_lem_example :
    with_key ext cache (codes "k2") 5000 check warm
    ≡ reference ext cache (codes "k2") 5000 check warm
with_key_lem_example =
    with_key_lem ext cache (codes "k2") 5000 check warm (omega arith) (omega arith)

-- A provider that answers every request.
abbrev steady : JwksCache
steady = record cache { fetcher = λ n url. ok (codes "keys") }

steady_answer : fetched ext steady 1 ≡ ok key_set
unfolding fetched parse non_empty ◌==◌
steady_answer = refl

with_key-rotated_example : with_key ext steady (codes "k1") 5000 check warm ≡ (
  result_or_unknown (codes "k1") (try_all key_set (codes "k1") check),
  record {
    inner = record { keys = some key_set; fetched_at = some 5000; last_attempt = some 5000 };
    fetches = 2;
  },
)
with_key-rotated_example =
    with_key-rotated ext steady (codes "k1") 5000 check warm key_set (omega arith) (omega arith)
      (inl refl) refl steady_answer
