-- ===== src/Tests/Opening.antt =====
-- The theorem on the scheme of the key set's URL, at the fixture's provider.
use auth_oidc.Prelude.{
  ◌≡◌, refl, Text, codes, ◌==◌, if◌then◌else◌, Bool, true, not, ◌&&◌, none, some, take, arith,
  Bool-cases, inl, inr,
}
use auth_oidc.Error.{ok, value, failure}
use auth_oidc.External.{External}
use auth_oidc.Jwks.{parse, non_empty}
use auth_oidc.Cache.{Fetcher, fetched}
use auth_oidc.Claims.{is_blank}
use auth_oidc.Config.{OidcConfig}
use auth_oidc.Json.{get, lookup}
use auth_oidc.Fetcher.{Response, read_to_end, read_capped, take_response, fetch}
use auth_oidc.Fetcher.Client.{
  ClientBuilder, Reqwest, https_builder, new_client, fetch_with, connect,
}
use auth_oidc.Oidc.{OidcModule, new}
use auth_oidc.Discovery.{
  https, trim_end_matches, keep_before, discovery_url, fetch_discovery_doc, discovered_jwks_url,
  resolve_jwks_url, resolve_login_endpoints, open_with, open_plugin,
}
use auth_oidc.Discovery.Https.{RefusesPlain, open_plugin-https}
use auth_oidc.Tests.Fixture.{config, key_set}

abbrev is_https : Text → Bool
is_https url = take 5 url == https

abbrev ext : External
ext = record auth_oidc.Tests.Fixture.ext {
  url_scheme = λ url. value (if is_https url then https else codes "http");
}

abbrev page : Text → Response
page url = record {
  status = 200;
  body = record {
    bytes = if url == codes "https://idp/keys" then codes "keys" else codes "discovery";
    fault = none;
  };
}

abbrev pub web : Reqwest
web = record {
  Certificate = Unit {0};
  Client = ClientBuilder (Unit {0});
  from_pem = λ pem. value tt;
  build = value;
  send = λ client n url.
      if client.https_only && not (is_https url)
      then failure (codes "URL scheme is not allowed")
      else value (page url);
  is_utf8 = λ bytes. true;
}

refuses : RefusesPlain ext web
refuses builder client n url resp built only sent = elim (Bool-cases (is_https url)) [
  | inl secure ↦ rw secure refl
  | inr plain ↦ absurd (ground arith)
]

-- The configuration with the endpoint that is discovered.
abbrev merged : OidcConfig
merged = record config { token_endpoint = some (codes "https://idp/token") }

abbrev opened : OidcModule
opened = new merged (codes "https://idp/keys") (fetch_with web (https_builder web 10_000_000_000))

opens : open_plugin ext (codes "config") (connect web) ≡ ok opened
unfolding open_plugin open_with connect new_client fetch_with fetch take_response read_capped
    read_to_end resolve_jwks_url discovered_jwks_url resolve_login_endpoints fetch_discovery_doc
    discovery_url trim_end_matches keep_before is_blank get lookup ◌==◌ new auth_oidc.Cache.new
opens = refl

keys_fetched : fetched ext opened.jwks 0 ≡ ok key_set
unfolding fetched parse non_empty new auth_oidc.Cache.new fetch_with fetch take_response read_capped
    read_to_end ◌==◌
keys_fetched = refl

open_plugin-https_example : ext.url_scheme opened.jwks.url ≡ value https
open_plugin-https_example =
    open_plugin-https ext web refuses (codes "config") opened 0 key_set opens keys_fetched
