-- ===== src/Discovery/Https.antt =====
-- The plugin that opens with the real fetcher reads its keys over HTTPS.
use auth_oidc.Prelude.{ℕ, ◌≡◌, ap, ◌∙◌, subst, true, Option, none, some, Text, arith, inl, inr}
use auth_oidc.Error.{
  ok, value, Reply, failure, >>=-eq-ok, Result-cases, or_error, client_not_built, invalid_ca_cert,
  refuse_if, no_config, invalid_config,
}
use auth_oidc.External.{External}
use auth_oidc.Config.{OidcConfig}
use auth_oidc.Jwks.Key.{JwkSet}
use auth_oidc.Cache.{Fetcher, fetched}
use auth_oidc.Fetcher.{Response}
use auth_oidc.Fetcher.Capped.{fetch_iff}
use auth_oidc.Fetcher.Client.{
  ClientBuilder, Reqwest, https_builder, jwks_fetch_timeout, with_root, new_client, fetch_with,
  connect,
}
use auth_oidc.Claims.{is_blank}
use auth_oidc.Oidc.{OidcModule, new}
use auth_oidc.Discovery.{
  https, resolve_jwks_url, merge_endpoints, resolve_login_endpoints, open_with, open_plugin,
}

ok-inj : {A : Type 0} {a b : A} → ok a ≡ ok b → a ≡ b
ok-inj h = ground arith

module _ (ext : External) (web : Reqwest) where
  open ext use {url_scheme}
  open web use {Certificate, Client, build, send}

  -- A client built with `https_only` gets no response to a request for a URL of another scheme.
  abbrev pub RefusesPlain : Type 0
  RefusesPlain =
      (builder : ClientBuilder Certificate) (client : Client) (n : ℕ) (url : Text) (resp : Response)
      → build builder ≡ value client
      → builder.https_only ≡ true
      → send client n url ≡ value resp
      → url_scheme url ≡ value https

  build-eq-ok :
      (builder : ClientBuilder Certificate) (client : Client)
      → or_error (build builder) client_not_built ≡ ok client
      → build builder ≡ value client
  build-eq-ok builder client h = go (build builder) h
    where
      go : (r : Reply Client) → or_error r client_not_built ≡ ok client → r ≡ value client
      go (value x) h = ground arith
      go (failure reason) h = cc

  with_root-https :
      (b b' : ClientBuilder Certificate) (extra : Option Text)
      → with_root web b extra ≡ ok b'
      → b'.https_only ≡ b.https_only
  with_root-https b b' none h = ground arith
  with_root-https b b' (some pem) h =
      let (cert, _, same) = >>=-eq-ok (or_error (web.from_pem pem) invalid_ca_cert) _ h in
      ground arith

  module _ (refuses : RefusesPlain) where
    fetch_with-https :
        (timeout : ℕ) (extra : Option Text) (client : Client) (n : ℕ) (url body : Text)
        → new_client web timeout extra ≡ ok client
        → fetch_with web client n url ≡ ok body
        → url_scheme url ≡ value https
    unfolding new_client fetch_with
    fetch_with-https timeout extra client n url body built h =
        let (builder, rooted, made) =
          >>=-eq-ok (with_root web (https_builder web timeout) extra) _ built in
        let (resp, sent, _) = (fetch_iff web.is_utf8 (send client n) url body).0 h in
        refuses builder client n url resp (build-eq-ok builder client made)
          (with_root-https _ builder extra rooted) sent

    connect-https :
        (cfg : OidcConfig) (fetcher : Fetcher) (n : ℕ) (url body : Text)
        → connect web cfg ≡ ok fetcher
        → fetcher n url ≡ ok body
        → url_scheme url ≡ value https
    unfolding connect
    connect-https cfg fetcher n url body h answered =
        let (client, built, same) =
          >>=-eq-ok (new_client web jwks_fetch_timeout cfg.ca_cert_pem) _ h in
        fetch_with-https _ cfg.ca_cert_pem client n url body built
          (ap (λ f. f n url) (ok-inj same) ∙ answered)

    open_with-fetcher :
        (cfg : OidcConfig) (fetcher : Fetcher) (m : OidcModule)
        → open_with ext cfg (fetcher 0) (fetcher 1) (connect web) ≡ ok m
        → (cfg' : OidcConfig) × (connect web cfg' ≡ ok m.jwks.fetcher)
    unfolding open_with new auth_oidc.Cache.new
    open_with-fetcher cfg fetcher m h =
        let merged = merge_endpoints ext cfg (resolve_login_endpoints ext cfg (fetcher 1)) in
        let (url, _, h) = >>=-eq-ok (resolve_jwks_url ext cfg (fetcher 0)) _ h in
        let (cached, connected, h) = >>=-eq-ok (connect web merged) _ h in
        (merged, subst (λ x. connect web merged ≡ ok x.jwks.fetcher) (ok-inj h) connected)

    -- Whatever set of keys the cache of an opened plugin has fetched, it came from a URL of scheme
    -- https, be it configured or discovered, if reqwest's client refuses the others as it is told to.
    pub open_plugin-https :
        (text : Text) (m : OidcModule) (n : ℕ) (set : JwkSet)
        → open_plugin ext text (connect web) ≡ ok m
        → fetched ext m.jwks n ≡ ok set
        → url_scheme m.jwks.url ≡ value https
    unfolding open_plugin fetched
    open_plugin-https text m n set h got =
        let (_, _, h) = >>=-eq-ok (refuse_if (is_blank text) no_config) _ h in
        let (cfg, _, h) = >>=-eq-ok (or_error (ext.config_from_str text) invalid_config) _ h in
        let (fetcher, _, h) = >>=-eq-ok (connect web cfg) _ h in
        let (cfg', connected) = open_with-fetcher cfg fetcher m h in
        elim (Result-cases (m.jwks.fetcher n m.jwks.url)) [
          | inl (body, answered) ↦
              connect-https cfg' m.jwks.fetcher n m.jwks.url body connected answered
          | inr (why, e) ↦ absurd (ground arith)
        ]
