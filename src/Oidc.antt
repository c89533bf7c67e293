-- ===== src/Oidc.antt =====
-- `OidcModule` of auth-oidc/src/lib.rs and its `AuthModule`: the verification of a bearer token. The
-- clock readings are arguments; the cache's store is passed on.
pub mod Sound
pub mod Concurrent
pub mod Genuine
pub mod Order
pub mod Complete
use auth_oidc.Prelude.{
  ℕ, ◌*◌, List, [], Bool, true, Option, none, some, Text, codes, if◌then◌else◌, not, ◌&&◌, leb, ltb,
  and_then, unwrap_or, eqb, is_none,
}
use auth_oidc.Prelude.Int.{ℤ}
use auth_oidc.Error.{Result, ok, err, Reply, value, failure}
use auth_oidc.External.{External}
use auth_oidc.Json.{Value, get, as_str}
use auth_oidc.Config.{OidcConfig}
use auth_oidc.Jwt.Token.{Parts}
use auth_oidc.Jwt.{split, verify_signature, claims}
use auth_oidc.Cache.{JwksCache, Fetcher, Store, nanos_per_sec, with_key}
use auth_oidc.Claims.{new_verifier, OidcVerifier, Principal, validate_claims, now_unix}

-- busbar's verdict on a credential.
pub data AuthVerdict : Type 0 where
  identify : Principal → AuthVerdict
  reject : AuthVerdict
  pass : AuthVerdict

pub record OidcModule : Type 0 where
  pub verifier : OidcVerifier
  pub login_verifier : OidcVerifier
  pub jwks : JwksCache
  pub cfg : OidcConfig

abbrev pub resolved_client_id : OidcConfig → Text
resolved_client_id cfg = unwrap_or cfg.client_id cfg.audience

unfoldable pub new : OidcConfig → Text → Fetcher → OidcModule
new cfg jwks_url fetcher = record {
  verifier = new_verifier cfg.issuer cfg.audience cfg.role_claim;
  login_verifier = new_verifier cfg.issuer (resolved_client_id cfg) cfg.role_claim;
  jwks =
      auth_oidc.Cache.new jwks_url fetcher (cfg.jwks_min_refetch_secs * nanos_per_sec)
        (cfg.jwks_ttl_secs * nanos_per_sec);
  cfg = cfg;
}

module _ (ext : External) where
  open ext use {Number, value_from_str}

  abbrev pub verdict_of : Result Principal → AuthVerdict
  verdict_of (ok p) = identify p
  verdict_of (err e) = reject

  abbrev pub on_claims : OidcVerifier → ℤ → Result (Value Number) → AuthVerdict
  on_claims verifier now (err e) = reject
  on_claims verifier now (ok cs) = verdict_of (validate_claims ext verifier cs now)

  abbrev pub on_signature : OidcVerifier → ℤ → Parts → Result (Unit {0}) → AuthVerdict
  on_signature verifier now parts (err e) = reject
  on_signature verifier now parts (ok u) = on_claims verifier now (claims ext parts)

  module _ (m : OidcModule) where
    abbrev pub check_signature : Parts → ℕ → Store → Result (Unit {0}) × Store
    check_signature parts now_mono =
        with_key ext m.jwks (unwrap_or parts.header.kid []) now_mono (verify_signature ext parts)

    abbrev pub on_split : OidcVerifier → ℤ → ℕ → Store → Result Parts → AuthVerdict × Store
    on_split verifier now_unix now_mono s (err e) = (pass, s)
    on_split verifier now_unix now_mono s (ok parts) =
        let (signature, s') = check_signature parts now_mono s in
        (on_signature verifier now_unix parts signature, s')

    unfoldable pub verify_with : OidcVerifier → Text → ℤ → ℕ → Store → AuthVerdict × Store
    verify_with verifier token now_unix now_mono s =
        on_split verifier now_unix now_mono s (split ext token)

    -- `verify`, on the bearer path.
    unfoldable pub verify : Text → ℤ → ℕ → Store → AuthVerdict × Store
    verify = verify_with m.verifier

    -- `clock` is the reading of the host clock.
    unfoldable pub authenticate : Option Text → Option ℕ → ℕ → Store → AuthVerdict × Store
    authenticate none clock now_mono s = (pass, s)
    authenticate (some token) clock now_mono s = verify token (now_unix clock) now_mono s

-- What the module tells the engine of itself: its name, and that its verdicts may be cached.
abbrev pub name : OidcModule → Text
name m = codes "oidc"

abbrev pub cacheable : OidcModule → Bool
cacheable m = true
