-- ===== src/Fetcher/Client.antt =====
-- `ReqwestFetcher` of auth-oidc/src/reqwest_fetcher.rs, and the fetchers that `open` of
-- auth-oidc-plugin/src/lib.rs builds. reqwest's client is an argument.
use auth_oidc.Prelude.{ℕ, ◌*◌, List, [], ◌∷◌, Option, none, some, Text, Bool, true}
use auth_oidc.Error.{Result, ok, ◌>>=◌, Reply, or_error, invalid_ca_cert, client_not_built}
use auth_oidc.Config.{OidcConfig}
use auth_oidc.Cache.{nanos_per_sec, Fetcher}
use auth_oidc.Fetcher.{Response, fetch}

-- What is set on `reqwest::blocking::Client::builder()`, whose own root certificates are kept.
pub record ClientBuilder (Certificate : Type 0) : Type 0 where
  pub timeout : ℕ
  pub connect_timeout : ℕ
  pub https_only : Bool
  pub extra_roots : List Certificate

-- reqwest: a client answers the request of each number.
pub record Reqwest : Type 1 where
  pub Certificate : Type 0
  pub Client : Type 0
  pub from_pem : Text → Reply Certificate
  pub build : ClientBuilder Certificate → Reply Client
  pub send : Client → ℕ → Text → Reply Response
  pub is_utf8 : List ℕ → Bool

abbrev pub jwks_fetch_timeout : ℕ
jwks_fetch_timeout = 10 * nanos_per_sec

module _ (web : Reqwest) where
  open web use {Certificate, Client, from_pem, build, send, is_utf8}

  abbrev pub https_builder : (timeout : ℕ) → ClientBuilder Certificate
  https_builder timeout = record {
    timeout = timeout;
    connect_timeout = timeout;
    https_only = true;
    extra_roots = [];
  }

  abbrev pub with_root :
      ClientBuilder Certificate → Option Text → Result (ClientBuilder Certificate)
  with_root builder none = ok builder
  with_root builder (some pem) = do
    cert ← or_error (from_pem pem) invalid_ca_cert
    ok (record builder { extra_roots = cert ∷ builder.extra_roots })

  unfoldable pub new_client : (timeout : ℕ) (extra_root_cert_pem : Option Text) → Result Client
  new_client timeout extra_root_cert_pem = do
    builder ← with_root (https_builder timeout) extra_root_cert_pem
    or_error (build builder) client_not_built

  unfoldable pub fetch_with : Client → Fetcher
  unfolding fetch
  fetch_with client n url = fetch is_utf8 (send client n) url

  -- The fetcher that `open` builds for a configuration.
  unfoldable pub connect : OidcConfig → Result Fetcher
  unfolding new_client fetch_with
  connect cfg = do client ← new_client jwks_fetch_timeout cfg.ca_cert_pem; ok (fetch_with client)
