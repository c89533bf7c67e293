-- ===== src/Tests/Logins.antt =====
-- The theorems on the login and on discovery, at the fixture.
use auth_oidc.Prelude.{◌≡◌, refl, inl, ◌↔◌, none, some, Text, codes, true, false, ◌==◌, arith}
use auth_oidc.Error.{Result, ok, err, request_failed}
use auth_oidc.Json.{get, lookup}
use auth_oidc.Config.{OidcConfig}
use auth_oidc.Cache.{Fetcher, fresh_store}
use auth_oidc.Oidc.{OidcModule, new}
use auth_oidc.Discovery.{
  Fetch, resolve_jwks_url, resolve_login_endpoints, open_with, discovered_jwks_url,
  fetch_discovery_doc, discovery_url, trim_end_matches, keep_before,
}
use auth_oidc.Discovery.Trust.{IsTrusted, resolve_jwks_url_iff}
use auth_oidc.Discovery.Opened.{IsOpened, open_with-IsOpened, open_with_iff, merged}
use auth_oidc.Login.{LoginHttpResponse, identified, identity_from_token_response}
use auth_oidc.Login.Callback.{VouchesLogin, identity-identified}
use auth_oidc.Login.{CompleteLogin, LoginHop, build_token_exchange, complete_login, exchange}
use auth_oidc.Login.Exchange.{Asks, with_code, complete_login-exchange}
use auth_oidc.Prelude.Int.{IsI64}
use auth_oidc.Tests.Fixture.{ext, config, oidc, today, alice, typed, skips, answers_once}
use auth_oidc.Tests.Runs.{identified_alice}

-- A provider that serves its discovery document at its own address only.
fetch : Fetch
unfolding ◌==◌
fetch url = elim (url == codes "https://idp/.well-known/openid-configuration") [
  | true ↦ ok (codes "discovery")
  | false ↦ err (request_failed (codes "not found"))
]

abbrev keys_url : Text
keys_url = codes "https://idp/keys"

resolve_jwks_url_iff_example :
    (resolve_jwks_url ext config fetch ≡ ok keys_url) ↔ IsTrusted ext config fetch keys_url
resolve_jwks_url_iff_example = resolve_jwks_url_iff ext config fetch keys_url

resolved : resolve_jwks_url ext config fetch ≡ ok keys_url
unfolding resolve_jwks_url discovered_jwks_url fetch_discovery_doc discovery_url trim_end_matches
    keep_before fetch get lookup ◌==◌
resolved = refl

abbrev down : Fetch
down url = err (request_failed (codes "down"))

abbrev connect : OidcConfig → Result Fetcher
connect cfg = ok answers_once

opened : open_with ext config fetch down connect ≡ ok (new config keys_url answers_once)
unfolding open_with resolve_login_endpoints fetch_discovery_doc
opened = rw resolved refl

open_with-IsOpened_example : IsOpened ext config fetch down (new config keys_url answers_once)
open_with-IsOpened_example =
    open_with-IsOpened ext config fetch down connect (new config keys_url answers_once) opened

open_with_iff_example : ((m : OidcModule) × (open_with ext config fetch down connect ≡ ok m)) ↔ (
    ((url : Text) × IsTrusted ext config fetch url)
    × ((fetcher : Fetcher) × (connect (merged ext config fetch down) ≡ ok fetcher)))
open_with_iff_example = open_with_iff ext config fetch down connect

abbrev response : LoginHttpResponse
response = record { status = 200; body = codes "token" }

today_range : IsI64 today
today_range = (omega arith, omega arith)

logged_in :
    (identity_from_token_response ext oidc response today 100 fresh_store).0 ≡ identified alice
unfolding identity_from_token_response get lookup ◌==◌
logged_in = rw identified_alice refl

identity-identified_example :
    VouchesLogin ext oidc today 100 fresh_store response
      (identity_from_token_response ext oidc response today 100 fresh_store).1
      alice
identity-identified_example =
    identity-identified ext oidc today 100 fresh_store response alice typed skips today_range
      (omega arith) (inl (refl, refl)) logged_in

-- The module with a token endpoint.
abbrev with_endpoint : OidcModule
with_endpoint = record oidc {
  cfg = record config { token_endpoint = some (codes "https://idp/token") };
}

abbrev hop : LoginHop
hop = build_token_exchange with_endpoint.cfg (codes "code") (codes "https://app/cb") (codes "v")

abbrev callback : CompleteLogin
callback = with_code (codes "code") (codes "https://app/cb") (codes "v")

complete_login-exchange_example :
    (((complete_login ext with_endpoint callback none 100 fresh_store).0 ≡ exchange hop)
      ↔ Asks ext with_endpoint callback hop)
    × ((complete_login ext with_endpoint callback none 100 fresh_store
          ≡ (exchange hop, fresh_store))
        ↔ Asks ext with_endpoint callback hop)
complete_login-exchange_example =
    complete_login-exchange ext with_endpoint callback none 100 fresh_store hop
