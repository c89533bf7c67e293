-- ===== src/Discovery/Opened.antt =====
-- What a plugin that opens has checked.
use auth_oidc.Prelude.{
  ◌≡◌, refl, ◌↔◌, ◌⊎◌, inl, inr, Option, none, some, Text, codes, arith, Option-cases, ◌<◌, subst,
}
use auth_oidc.Error.{Result, ok, err, Result-cases}
use auth_oidc.External.{External}
use auth_oidc.Json.{Value}
use auth_oidc.Config.{OidcConfig}
use auth_oidc.Cache.{Fetcher}
use auth_oidc.Oidc.{OidcModule, new, resolved_client_id}
use auth_oidc.Discovery.{
  Fetch, Endpoints, str_field, fetch_discovery_doc, resolve_jwks_url, resolve_login_endpoints,
  open_with, merge_endpoints,
}
use auth_oidc.Discovery.Trust.{
  IsDiscovered, IsTrusted, fetch_discovery_doc_iff, resolve_jwks_url_iff,
}

module _ (ext : External) (cfg : OidcConfig) (jwks login : Fetch) where
  -- The endpoint is the configured one, or none is configured and the document that names the issuer
  -- has it under `name`.
  pub IsTrustedEndpoint : Text → Option Text → Text → Type 0
  IsTrustedEndpoint name configured url =
      (configured ≡ some url)
      ⊎ ((configured ≡ none)
          × ((doc : Value ext.Number) × IsDiscovered ext cfg login doc
              × (str_field ext name doc ≡ some url)))

  -- What an opened module is: its key set comes from a trusted URL and its ceiling is not zero, its
  -- verifiers check the configured issuer, audience and client, and the endpoints that it has for the
  -- login are the trusted ones.
  pub record IsOpened (m : OidcModule) : Type 0 where
    pub jwks_url : IsTrusted ext cfg jwks m.jwks.url
    pub ceiling : 0 < m.jwks.max_stale
    pub verifier :
        m.verifier
        ≡ record { issuer = cfg.issuer; audience = cfg.audience; role_claim = cfg.role_claim }
    pub login_verifier : m.login_verifier ≡ record {
      issuer = cfg.issuer;
      audience = resolved_client_id cfg;
      role_claim = cfg.role_claim;
    }
    pub authorization :
        (url : Text)
        → (m.cfg.authorization_endpoint ≡ some url)
          ↔ IsTrustedEndpoint (codes "authorization_endpoint") cfg.authorization_endpoint url
    pub token :
        (url : Text)
        → (m.cfg.token_endpoint ≡ some url)
          ↔ IsTrustedEndpoint (codes "token_endpoint") cfg.token_endpoint url

  abbrev pub merged : OidcConfig
  merged = merge_endpoints ext cfg (resolve_login_endpoints ext cfg login)

  merged-authorization :
      (url : Text)
      → merged.authorization_endpoint ≡ some url
      → IsTrustedEndpoint (codes "authorization_endpoint") cfg.authorization_endpoint url
  unfolding resolve_login_endpoints IsTrustedEndpoint
  merged-authorization url h = elim (Option-cases cfg.authorization_endpoint) [
    | inr (given, set) ↦ inl (given_authorization given set)
    | inl unset ↦ elim (Result-cases (fetch_discovery_doc ext cfg login)) [
      | inr (why, e) ↦ absurd (ground arith)
      | inl (doc, e) ↦
          inr (unset, (doc, (fetch_discovery_doc_iff ext cfg login doc).0 e, ground arith))
    ]
  ]
    where
      given_authorization :
          (given : Text)
          → cfg.authorization_endpoint ≡ some given
          → cfg.authorization_endpoint ≡ some url
      given_authorization given set = elim (Result-cases (resolve_login_endpoints ext cfg login)) [
        | inr (why, e) ↦ ground arith
        | inl ((a, t), e) ↦ ground arith
      ]

  merged-token :
      (url : Text)
      → merged.token_endpoint ≡ some url
      → IsTrustedEndpoint (codes "token_endpoint") cfg.token_endpoint url
  unfolding resolve_login_endpoints IsTrustedEndpoint
  merged-token url h = elim (Option-cases cfg.token_endpoint) [
    | inr (given, set) ↦ inl (given_token given set)
    | inl unset ↦ elim (Result-cases (fetch_discovery_doc ext cfg login)) [
      | inr (why, e) ↦ absurd (ground arith)
      | inl (doc, e) ↦
          inr (unset, (doc, (fetch_discovery_doc_iff ext cfg login doc).0 e, ground arith))
    ]
  ]
    where
      given_token : (given : Text) → cfg.token_endpoint ≡ some given → cfg.token_endpoint ≡ some url
      given_token given set = elim (Result-cases (resolve_login_endpoints ext cfg login)) [
        | inr (why, e) ↦ ground arith
        | inl ((a, t), e) ↦ ground arith
      ]

  authorization-merged :
      (url : Text)
      → IsTrustedEndpoint (codes "authorization_endpoint") cfg.authorization_endpoint url
      → merged.authorization_endpoint ≡ some url
  unfolding resolve_login_endpoints IsTrustedEndpoint
  authorization-merged url (inl set) = elim (Result-cases (resolve_login_endpoints ext cfg login)) [
    | inr (why, e) ↦ ground arith
    | inl ((a, t), e) ↦ ground arith
  ]
  authorization-merged url (inr (unset, (doc, named, has))) =
      let found = (fetch_discovery_doc_iff ext cfg login doc).1 named in ground arith

  token-merged :
      (url : Text)
      → IsTrustedEndpoint (codes "token_endpoint") cfg.token_endpoint url
      → merged.token_endpoint ≡ some url
  unfolding resolve_login_endpoints IsTrustedEndpoint
  token-merged url (inl set) = elim (Result-cases (resolve_login_endpoints ext cfg login)) [
    | inr (why, e) ↦ ground arith
    | inl ((a, t), e) ↦ ground arith
  ]
  token-merged url (inr (unset, (doc, named, has))) =
      let found = (fetch_discovery_doc_iff ext cfg login doc).1 named in ground arith

  merge_keeps :
      (r : Result Endpoints)
      → let cfg' = merge_endpoints ext cfg r in
        (cfg'.issuer ≡ cfg.issuer)
        × (cfg'.audience ≡ cfg.audience)
        × (cfg'.role_claim ≡ cfg.role_claim)
        × (cfg'.client_id ≡ cfg.client_id)
  merge_keeps (ok (authorization, token)) = (refl, refl, refl, refl)
  merge_keeps (err why) = (refl, refl, refl, refl)

  new-IsOpened :
      (url : Text) (fetcher : Fetcher)
      → IsTrusted ext cfg jwks url
      → IsOpened (new merged url fetcher)
  unfolding new auth_oidc.Cache.new
  new-IsOpened url fetcher trusted =
      let (issuer, audience, role_claim, client_id) =
        merge_keeps (resolve_login_endpoints ext cfg login) in
      record {
        jwks_url = trusted;
        ceiling = omega arith;
        verifier = rw (issuer, audience, role_claim) refl;
        login_verifier = rw (issuer, audience, role_claim, client_id) refl;
        authorization = λ url. (merged-authorization url, authorization-merged url);
        token = λ url. (merged-token url, token-merged url);
      }

  -- A plugin that opens reads its key set from a trusted URL, under a ceiling that is not zero; its
  -- verifiers check the configured issuer, audience and client; and it has exactly those endpoints for
  -- the login that are configured, or that the document that names the issuer has where none is.
  pub open_with-IsOpened :
      (cache_fetcher : OidcConfig → Result Fetcher) (m : OidcModule)
      → open_with ext cfg jwks login cache_fetcher ≡ ok m
      → IsOpened m
  unfolding open_with
  open_with-IsOpened cache_fetcher m h = elim (Result-cases (resolve_jwks_url ext cfg jwks)) [
    | inr (why, e) ↦ absurd (ground arith)
    | inl (url, e) ↦ elim (Result-cases (cache_fetcher merged)) [
      | inr (why, e') ↦ absurd (ground arith)
      | inl (fetcher, e') ↦
          let same : new merged url fetcher ≡ m = ground arith in
          subst IsOpened same
            (new-IsOpened url fetcher ((resolve_jwks_url_iff ext cfg jwks url).0 e))
    ]
  ]

  -- The plugin opens exactly if there is a trusted URL for its key set and the fetcher of its cache can
  -- be built: a failure to discover the endpoints for the login does not keep it from opening.
  pub open_with_iff :
      (cache_fetcher : OidcConfig → Result Fetcher)
      → ((m : OidcModule) × (open_with ext cfg jwks login cache_fetcher ≡ ok m)) ↔ (
          ((url : Text) × IsTrusted ext cfg jwks url)
          × ((fetcher : Fetcher) × (cache_fetcher merged ≡ ok fetcher)))
  unfolding open_with
  open_with_iff cache_fetcher = (to, from)
    where
      to :
          (m : OidcModule) × (open_with ext cfg jwks login cache_fetcher ≡ ok m)
          → ((url : Text) × IsTrusted ext cfg jwks url)
            × ((fetcher : Fetcher) × (cache_fetcher merged ≡ ok fetcher))
      to (m, h) = elim (Result-cases (resolve_jwks_url ext cfg jwks)) [
        | inr (why, e) ↦ absurd (ground arith)
        | inl (url, e) ↦ elim (Result-cases (cache_fetcher merged)) [
          | inr (why, e') ↦ absurd (ground arith)
          | inl (fetcher, e') ↦ ((url, (resolve_jwks_url_iff ext cfg jwks url).0 e), (fetcher, e'))
        ]
      ]

      from :
          ((url : Text) × IsTrusted ext cfg jwks url)
            × ((fetcher : Fetcher) × (cache_fetcher merged ≡ ok fetcher))
          → (m : OidcModule) × (open_with ext cfg jwks login cache_fetcher ≡ ok m)
      from ((url, trusted), (fetcher, built)) =
          let found = (resolve_jwks_url_iff ext cfg jwks url).1 trusted in
          (new merged url fetcher, rw (found, built) refl)
