-- ===== src/Config.antt =====
-- `OidcConfig` of auth-oidc/src/lib.rs and its serde defaults. Durations are in nanoseconds, except
-- for the configured numbers of seconds.
use auth_oidc.Prelude.{ℕ, Option, List, Text, codes}

pub record OidcConfig : Type 0 where
  pub issuer : Text
  pub audience : Text
  pub jwks_url : Option Text
  pub role_claim : Text
  pub jwks_min_refetch_secs : ℕ
  pub jwks_ttl_secs : ℕ
  pub ca_cert_pem : Option Text
  pub client_id : Option Text
  pub scopes : List Text
  pub authorization_endpoint : Option Text
  pub token_endpoint : Option Text

abbrev pub default_role_claim : Text
default_role_claim = codes "groups"

abbrev pub default_min_refetch_secs : ℕ
default_min_refetch_secs = 60

abbrev pub default_ttl_secs : ℕ
default_ttl_secs = 3600

-- The clock skew that `exp` and `nbf` tolerate, and the bound on the suggested cache lifetime.
abbrev pub clock_skew_secs : ℕ
clock_skew_secs = 60

abbrev pub max_cache_ttl_secs : ℕ
max_cache_ttl_secs = 300

-- 2026-01-01T00:00:00Z
abbrev pub clock_sanity_floor_unix : ℕ
clock_sanity_floor_unix = 1_767_225_600
