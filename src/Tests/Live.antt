-- ===== src/Tests/Live.antt =====
-- The theorems on the live check, at one tenant.
use auth_oidc.Prelude.{◌≡◌, ◌↔◌, refl, some, none, codes, ◌==◌, is, true, false}
use auth_oidc.Prelude.Int.{saturating_add, saturating_sub, clamp_u64, ◌+ℤ◌, ◌-ℤ◌}
use auth_oidc.Error.{value}
use auth_oidc.Json.{lookup, get}
use auth_oidc.Cache.{Fetcher}
use auth_oidc.Discovery.{
  discovery_url, trim_end_matches, keep_before, fetch_discovery_doc, discovered_jwks_url,
  resolve_jwks_url,
}
use auth_oidc.LiveCheck.{
  Surroundings, passed, first_three, tamper, request_token, tampered_token, check_token, live_doc,
  live_check, env_or_skip, credentials, main,
}
use auth_oidc.Oidc.{new, authenticate, verify, verify_with}
use auth_oidc.Jwks.{
  selects, find_all, parse, non_empty, b64, rsa_material, ec_material, from_jwk, material,
}
use auth_oidc.Jwt.{
  extend_first, split_on, rfind, three, decode, split, verify_rsa, verify_ec, verify_rs256,
  verify_es256, verify_signature, claims,
}
use auth_oidc.Cache.{
  try_all, snapshot, permits_attempt, past_ceiling, serve_within_ceiling, admit, recheck, settle,
  fetched, fetch_and_settle, under_gate, refresh, current_keys, with_key,
}
use auth_oidc.Claims.{
  now_unix, wrap_i64, is_blank, check_issuer, claim_str, audience_ok, marks_overage,
  is_groups_overage, non_empty_claim, extract_string_list, subject_of, display_name, check_exp,
  cache_ttl, as_numeric_date, as_numeric_date_floor, check_nbf, validate_claims,
  clock_or_fail_closed, is_clock_sane,
}
use auth_oidc.LiveCheck.Verdict.{IsProvenLive, main_iff}
use auth_oidc.Fetcher.{read_to_end, read_capped, take_response, fetch}
use auth_oidc.Fetcher.Client.{new_client, fetch_with}
use auth_oidc.Tests.Opening.{web}
use auth_oidc.Tests.Fixture.{ext, config, typed, skips}

abbrev tenant : Surroundings ext
tenant = record {
  var = λ key. some (codes "x");
  is_set = λ key. false;
  post = λ url form. value (record { status = 200; text = value (codes "token") });
  web = web;
  web2 = web;
  config_from_value = λ doc. value config;
  is_utf8 = λ bytes. true;
  clock = some 1_780_000_000;
  clock2 = some 1_780_000_000;
  mono = 100;
  mono2 = 200;
}

passes : main ext tenant ≡ passed
unfolding new_client fetch_with fetch take_response read_capped read_to_end discovery_url
    trim_end_matches keep_before main credentials env_or_skip live_check request_token check_token
    tampered_token live_doc first_three tamper resolve_jwks_url discovered_jwks_url
    fetch_discovery_doc new auth_oidc.Cache.new authenticate verify verify_with split split_on
    extend_first three decode rfind ◌==◌ with_key current_keys snapshot refresh admit under_gate
    recheck permits_attempt past_ceiling serve_within_ceiling settle fetch_and_settle fetched parse
    non_empty try_all find_all selects verify_signature verify_rs256 verify_es256 verify_rsa
    verify_ec material from_jwk rsa_material ec_material b64 is claims validate_claims check_issuer
    claim_str audience_ok marks_overage is_groups_overage non_empty_claim extract_string_list
    subject_of display_name check_exp cache_ttl as_numeric_date as_numeric_date_floor check_nbf
    lookup get is_blank saturating_add saturating_sub clamp_u64 ◌+ℤ◌ ◌-ℤ◌ now_unix wrap_i64
    clock_or_fail_closed is_clock_sane
passes = refl

main_iff_example : (main ext tenant ≡ passed) ↔ IsProvenLive ext tenant
main_iff_example = main_iff ext tenant typed skips

-- No variable is set, outside CI.
abbrev bare : Surroundings ext
bare = record tenant { var = λ key. none }
