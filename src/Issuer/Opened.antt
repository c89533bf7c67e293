-- ===== src/Issuer/Opened.antt =====
-- The plugin that opens with the settings of the local issuer, and its first fetch.
use auth_oidc.Prelude.{ℕ, ◌≤◌, ◌≡◌, refl, inl, List, [], ◌∷◌, Text, arith, true, false, length}
use auth_oidc.Error.{ok, value}
use auth_oidc.External.{External}
use auth_oidc.Config.{OidcConfig}
use auth_oidc.Cache.{Fetcher, fresh_store, fetched}
use auth_oidc.Fetcher.{max_jwks_bytes}
use auth_oidc.Fetcher.Capped.{fetch_iff}
use auth_oidc.Claims.{is_blank}
use auth_oidc.Fetcher.Client.{
  Reqwest, https_builder, jwks_fetch_timeout, new_client, fetch_with, connect,
}
use auth_oidc.Oidc.{OidcModule, new}
use auth_oidc.Discovery.{https, resolve_login_endpoints, open_with, open_plugin}
use auth_oidc.Discovery.Trust.{IsTrusted, resolve_jwks_url_iff}
use auth_oidc.Issuer.{Kit, Issuer, respond, settings, key_set_doc}
use auth_oidc.Issuer.Laws.{ReadsKey, served_key, served_config}
use auth_oidc.Issuer.Keys.{parse-served}

module _ (ext : External) (kit : Kit ext) (web : Reqwest) (i : Issuer ext kit) (x y : List ℕ)
    (aud : Text) where
  open ext use {config_from_str, url_scheme}
  open kit use {b64_encode, to_string}
  open web use {Certificate, Client, from_pem, build, send, is_utf8}

  abbrev pub jwks : Text
  jwks = to_string (key_set_doc i.kid (b64_encode x) (b64_encode y))

  abbrev pub settings_text : Text
  settings_text = to_string (settings ext kit i aud)

  -- The key set is a text that the fetcher takes; the settings are read to a configuration, and the
  -- URL that they have is one of scheme https; a client that is built to trust the certificate gets
  -- the response of the server.
  pub record IsReachable : Type 0 where
    pub utf8 : is_utf8 jwks ≡ true
    pub size : length jwks ≤ max_jwks_bytes
    pub reads_keys : ReadsKey ext kit i.kid (b64_encode x) (b64_encode y)
    pub reads_settings : config_from_str settings_text ≡ value (served_config ext kit i aud)
    pub not_blank : is_blank settings_text ≡ false
    pub secure : url_scheme i.jwks_url ≡ value https
    pub certificate : Certificate
    pub reads_certificate : from_pem i.cert_pem ≡ value certificate
    pub client : Client
    pub builds :
        build (record (https_builder web jwks_fetch_timeout) { extra_roots = certificate ∷ [] })
        ≡ value client
    pub answers : (n : ℕ) → send client n i.jwks_url ≡ value (respond jwks)

  module _ (reach : IsReachable) where
    abbrev cfg : OidcConfig
    cfg = served_config ext kit i aud

    abbrev fetcher : Fetcher
    fetcher = fetch_with web reach.client

    abbrev pub opened : OidcModule
    opened = new cfg i.jwks_url fetcher

    connected : connect web cfg ≡ ok fetcher
    unfolding connect new_client
    connected = rw (reach.reads_certificate, reach.builds) refl

    pub opens : open_plugin ext settings_text (connect web) ≡ ok opened
    unfolding open_plugin open_with resolve_login_endpoints
    opens =
        let found =
          (resolve_jwks_url_iff ext cfg (fetcher 0) i.jwks_url).1
            (unfold IsTrusted in (inl (refl, reach.secure))) in
        rw (reach.not_blank, reach.reads_settings, connected, found) refl

    answered : (n : ℕ) → fetcher n i.jwks_url ≡ ok jwks
    unfolding fetch_with
    answered n = (fetch_iff is_utf8 (send reach.client n) i.jwks_url jwks).1 (
      respond jwks,
      reach.answers n,
      (
        omega arith,
        omega arith,
        record { content = refl; ends = refl; bounded = reach.size; utf8 = reach.utf8 },
      ),
    )

    pub fetches :
        (n : ℕ)
        → fetched ext opened.jwks n
          ≡ ok (record { keys = served_key i.kid (b64_encode x) (b64_encode y) ∷ [] })
    unfolding fetched new auth_oidc.Cache.new
    fetches n =
        rw (answered n) (parse-served ext kit i.kid (b64_encode x) (b64_encode y) reach.reads_keys)
