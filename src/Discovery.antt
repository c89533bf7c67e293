-- ===== src/Discovery.antt =====
-- The resolution of the provider's URLs in auth-oidc/src/lib.rs, and `open` of
-- auth-oidc-plugin/src/lib.rs, which runs it.
pub mod Trust
pub mod Opened
pub mod Https
use auth_oidc.Prelude.{
  ℕ, ◌++◌, List, [], ◌∷◌, Option, none, some, Text, codes, ◌==◌, if◌then◌else◌, Bool, true, false,
  not, ◌&&◌, eqb, and_then, or_else, is_some,
}
use auth_oidc.Error.{
  Error, Result, ok, err, ◌>>=◌, ◌>>◌, ok_or, refuse_if, or_error, map_err, invalid_jwks_url,
  jwks_url_not_https, no_jwks_uri, no_discovery_issuer, discovery_not_json, wrong_discovery_issuer,
  discovery_failed, no_config, invalid_config,
}
use auth_oidc.External.{External}
use auth_oidc.Json.{Value, get, as_str}
use auth_oidc.Config.{OidcConfig}
use auth_oidc.Cache.{Fetcher}
use auth_oidc.Claims.{is_blank}
use auth_oidc.Oidc.{OidcModule, new}

-- The answer of the provider to one request.
abbrev pub Fetch : Type 0
Fetch = Text → Result Text

abbrev pub slash : ℕ
slash = b'/'

-- `str::trim_end_matches` of one byte: a byte is dropped if it and all that follows are that byte.
unfoldable pub keep_before : ℕ → ℕ → Text → Text
keep_before d c [] = if eqb c d then [] else c ∷ []
keep_before d c (a ∷ s) = c ∷ a ∷ s

unfoldable pub trim_end_matches : ℕ → Text → Text
unfolding keep_before
trim_end_matches d [] = []
trim_end_matches d (c ∷ s) = keep_before d c (trim_end_matches d s)

abbrev pub well_known : Text
well_known = codes "/.well-known/openid-configuration"

abbrev pub https : Text
https = codes "https"

unfoldable pub discovery_url : Text → Text
unfolding trim_end_matches
discovery_url issuer = trim_end_matches slash issuer ++ well_known

-- The endpoints for the browser login.
abbrev pub Endpoints : Type 0
Endpoints = Option Text × Option Text

module _ (ext : External) where
  open ext use {Number, value_from_str, config_from_str, url_scheme}

  abbrev pub str_field : Text → Value Number → Option Text
  str_field name doc = and_then (get name doc) as_str

  abbrev pub check_discovery_issuer : Option Text → Text → Result (Unit {0})
  check_discovery_issuer none issuer = err no_discovery_issuer
  check_discovery_issuer (some iss) issuer =
      if iss == issuer then ok tt else err (wrong_discovery_issuer iss)

  unfoldable pub fetch_discovery_doc : OidcConfig → Fetch → Result (Value Number)
  unfolding ◌==◌
  fetch_discovery_doc cfg fetch = do
    body ← map_err discovery_failed (fetch (discovery_url cfg.issuer))
    doc ← or_error (value_from_str body) discovery_not_json
    check_discovery_issuer (str_field (codes "issuer") doc) cfg.issuer
    ok doc

  unfoldable pub configured_jwks_url : Text → Result Text
  unfolding ◌==◌
  configured_jwks_url url = do
    scheme ← or_error (url_scheme url) invalid_jwks_url
    refuse_if (not (scheme == https)) (jwks_url_not_https scheme)
    ok url

  unfoldable pub discovered_jwks_url : OidcConfig → Fetch → Result Text
  discovered_jwks_url cfg fetch = do
    doc ← fetch_discovery_doc cfg fetch
    ok_or (str_field (codes "jwks_uri") doc) no_jwks_uri

  unfoldable pub resolve_jwks_url : OidcConfig → Fetch → Result Text
  resolve_jwks_url cfg fetch = elim cfg.jwks_url [
    | some url ↦ configured_jwks_url url
    | none ↦ discovered_jwks_url cfg fetch
  ]

  abbrev pub fill_endpoints : OidcConfig → Value Number → Endpoints
  fill_endpoints cfg doc = (
    or_else cfg.authorization_endpoint (str_field (codes "authorization_endpoint") doc),
    or_else cfg.token_endpoint (str_field (codes "token_endpoint") doc),
  )

  unfoldable pub resolve_login_endpoints : OidcConfig → Fetch → Result Endpoints
  resolve_login_endpoints cfg fetch =
      if is_some cfg.authorization_endpoint && is_some cfg.token_endpoint
      then ok (cfg.authorization_endpoint, cfg.token_endpoint)
      else (fetch_discovery_doc cfg fetch >>= λ doc. ok (fill_endpoints cfg doc))

  -- A failed resolution of the endpoints is logged, and leaves the configuration as it was.
  abbrev pub merge_endpoints : OidcConfig → Result Endpoints → OidcConfig
  merge_endpoints cfg (err e) = cfg
  merge_endpoints cfg (ok (authorization, token)) = record cfg {
    authorization_endpoint = or_else cfg.authorization_endpoint authorization;
    token_endpoint = or_else cfg.token_endpoint token;
  }

  -- `jwks` and `login` answer the requests of the two resolutions; `cache_fetcher` builds the
  -- fetcher of the live cache.
  unfoldable pub open_with :
      OidcConfig → (jwks login : Fetch) → (OidcConfig → Result Fetcher) → Result OidcModule
  open_with cfg jwks login cache_fetcher = do
    jwks_url ← resolve_jwks_url cfg jwks
    let merged = merge_endpoints cfg (resolve_login_endpoints cfg login)
    fetcher ← cache_fetcher merged
    ok (new merged jwks_url fetcher)

  -- `connect` builds a client for the root certificate that the configuration adds; the client for
  -- the resolutions answers their requests, numbered 0 and 1.
  unfoldable pub open_plugin : Text → (OidcConfig → Result Fetcher) → Result OidcModule
  open_plugin text connect = do
    refuse_if (is_blank text) no_config
    cfg ← or_error (config_from_str text) invalid_config
    fetcher ← connect cfg
    open_with cfg (fetcher 0) (fetcher 1) connect
