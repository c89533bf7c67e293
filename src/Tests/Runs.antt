-- ===== src/Tests/Runs.antt =====
-- Runs of the code on the fixture.
use auth_oidc.Prelude.{◌≡◌, refl, ◌==◌, is, codes}
use auth_oidc.Prelude.Int.{saturating_add, saturating_sub, clamp_u64, ◌+ℤ◌, ◌-ℤ◌}
use auth_oidc.Error.{ok, err, request_failed}
use auth_oidc.Json.{lookup, get}
use auth_oidc.Jwks.{
  selects, find_all, parse, non_empty, b64, rsa_material, ec_material, from_jwk, material,
}
use auth_oidc.Jwt.{
  extend_first, split_on, rfind, three, decode, split, verify_rsa, verify_ec, verify_rs256,
  verify_es256, verify_signature, claims,
}
use auth_oidc.Cache.{
  fresh_store, try_all, snapshot, permits_attempt, past_ceiling, serve_within_ceiling, admit,
  recheck, settle, fetched, fetch_and_settle, under_gate, refresh, current_keys, with_key,
}
use auth_oidc.Claims.{
  is_blank, check_issuer, claim_str, audience_ok, marks_overage, is_groups_overage, non_empty_claim,
  extract_string_list, subject_of, display_name, check_exp, cache_ttl, as_numeric_date,
  as_numeric_date_floor, check_nbf, validate_claims,
}
use auth_oidc.Oidc.{identify, verify_with}
use auth_oidc.Tests.Fixture.{
  ext, cache, verifier, oidc, today, alice, token, parts, warm, claims_doc, rsa_key, key_set,
}

pub split_token : split ext token ≡ ok parts
unfolding split split_on extend_first three decode rfind ◌==◌
split_token = refl

pub token_signed : verify_signature ext parts rsa_key ≡ ok tt
unfolding verify_signature verify_rs256 verify_es256 verify_rsa verify_ec material from_jwk
    rsa_material ec_material b64 ◌==◌ is
token_signed = refl

pub claims_valid : validate_claims ext verifier claims_doc today ≡ ok alice
unfolding validate_claims check_issuer claim_str audience_ok marks_overage is_groups_overage
    non_empty_claim extract_string_list subject_of display_name check_exp cache_ttl as_numeric_date
    as_numeric_date_floor check_nbf lookup get ◌==◌ is is_blank saturating_add saturating_sub
    clamp_u64 ◌+ℤ◌ ◌-ℤ◌
claims_valid = refl

pub first_answer : fetched ext cache 0 ≡ ok key_set
unfolding fetched parse non_empty ◌==◌
first_answer = refl

pub later_answer : fetched ext cache 1 ≡ err (request_failed (codes "down"))
unfolding fetched
later_answer = refl

pub cold_lookup :
    with_key ext cache (codes "k1") 100 (verify_signature ext parts) fresh_store ≡ (ok tt, warm)
unfolding with_key current_keys snapshot refresh admit under_gate recheck permits_attempt
    past_ceiling serve_within_ceiling settle fetch_and_settle fetched parse non_empty try_all
    find_all selects verify_signature verify_rs256 verify_es256 verify_rsa verify_ec material
    from_jwk rsa_material ec_material b64 ◌==◌ is
cold_lookup = refl

pub identified_alice :
    verify_with ext oidc verifier token today 100 fresh_store ≡ (identify alice, warm)
unfolding verify_with claims ◌==◌
identified_alice = rw (split_token, cold_lookup) (rw claims_valid refl)
