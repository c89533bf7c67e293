-- ===== src/Tests/Tokens.antt =====
-- The theorems on tokens and claims, at the fixture.
use auth_oidc.Prelude.{
  ℕ, ◌≡◌, ◌≢◌, refl, ◌⊎◌, inl, ◌↔◌, ◌+◌, ◌≤◌, Option, some, codes, true, ◌==◌, arith,
}
use auth_oidc.Prelude.Int.{ℤ, pos, ◌≤ℤ◌, IsI64, ◌+ℤ◌, i64_max, ltb_ℤ}
use auth_oidc.Error.{Error, ok, err}
use auth_oidc.Json.{Value, string, array, cons, nil, get, lookup}
use auth_oidc.Config.{max_cache_ttl_secs}
use auth_oidc.Jwt.{split, verify_signature}
use auth_oidc.Jwt.Split.{IsCompact, split_iff}
use auth_oidc.Jwt.Signature.{Signs, verify_signature_iff}
use auth_oidc.Cache.{fresh_store}
use auth_oidc.Claims.{as_numeric_date, as_numeric_date_floor, validate_claims, now_unix}
use auth_oidc.Claims.Valid.{Admits, validate_claims_iff}
use auth_oidc.Claims.Cached.{cached-validate}
use auth_oidc.Claims.Life.{ttl_bounds, broken_clock}
use auth_oidc.Oidc.{pass, verify_with}
use auth_oidc.Oidc.Complete.{Earns, verify_with_iff}
use auth_oidc.Oidc.{identify}
use auth_oidc.Oidc.Sound.{Vouches, verify_with-identify, verify_with-eq-pass}
use auth_oidc.Tests.Fixture.{
  ext, verifier, oidc, today, alice, token, parts, claims_doc, rsa_key, typed, skips,
}
use auth_oidc.Tests.Runs.{claims_valid, identified_alice}

today_range : IsI64 today
today_range = (omega arith, omega arith)

verify_with-identify_example :
    Vouches ext oidc verifier token today 100 fresh_store
      (verify_with ext oidc verifier token today 100 fresh_store).1
      alice
verify_with-identify_example =
    verify_with-identify ext oidc verifier token today 100 fresh_store alice typed skips today_range
      (omega arith) (inl (refl, refl)) (rw identified_alice refl)

verify_with-eq-pass_example :
    ((verify_with ext oidc verifier (codes "opaque") today 100 fresh_store).0 ≡ pass)
    ↔ ((e : Error) × (split ext (codes "opaque") ≡ err e))
verify_with-eq-pass_example =
    verify_with-eq-pass ext oidc verifier (codes "opaque") today 100 fresh_store

validate_claims_iff_example :
    (validate_claims ext verifier claims_doc today ≡ ok alice)
    ↔ Admits ext verifier claims_doc today alice
validate_claims_iff_example =
    validate_claims_iff ext verifier claims_doc today typed today_range alice

verify_signature_iff_example :
    (verify_signature ext parts rsa_key ≡ ok tt) ↔ Signs ext parts rsa_key
verify_signature_iff_example = verify_signature_iff ext parts rsa_key (inl refl)

split_iff_example : (split ext token ≡ ok parts) ↔ IsCompact ext token parts
split_iff_example = split_iff ext token parts

ttl_bounds_example :
    (exp : ℤ) × (ttl : ℕ) × (as_numeric_date_floor ext (get (codes "exp") claims_doc) ≡ some exp)
    × (alice.ttl_secs ≡ some ttl)
    × (ttl ≤ max_cache_ttl_secs)
    × ((ttl ≡ 0) ⊎ (pos (ttl + 1_780_000_000) ≤ℤ exp))
ttl_bounds_example =
    ttl_bounds ext verifier claims_doc alice typed 1_780_000_000 today_range claims_valid

exp_read : as_numeric_date_floor ext (get (codes "exp") claims_doc) ≡ some (pos 2_000_000_000)
unfolding as_numeric_date_floor as_numeric_date get lookup ◌==◌
exp_read = refl

exp_far : ltb_ℤ (pos 2_000_000_000 +ℤ pos 60) i64_max ≡ true
unfolding ◌+ℤ◌
exp_far = refl

broken_clock_example : validate_claims ext verifier claims_doc (now_unix (some 1000)) ≢ ok alice
broken_clock_example =
    broken_clock ext verifier claims_doc alice typed (some 1000) (pos 2_000_000_000) (omega arith)
      exp_read exp_far

aud : Option (Value ℤ)
aud = some (array (cons (string (codes "app")) (cons (string (codes "other")) nil)))

cached-validate_example :
    (left : ℕ) × (validate_claims ext verifier claims_doc (pos 1_780_000_250)
      ≡ ok (record alice { ttl_secs = some left }))
cached-validate_example =
    cached-validate ext verifier claims_doc typed 1_780_000_000 1_780_000_250 300 alice today_range
      (omega arith, omega arith) claims_valid refl (omega arith) (omega arith)

verify_with_iff_example :
    ((verify_with ext oidc verifier token today 100 fresh_store).0 ≡ identify alice)
    ↔ Earns ext oidc verifier token today 100 fresh_store alice
verify_with_iff_example =
    verify_with_iff ext oidc verifier token today 100 fresh_store skips (inl (refl, refl)) typed
      today_range (omega arith) (omega arith) alice
