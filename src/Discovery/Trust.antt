-- ===== src/Discovery/Trust.antt =====
-- Whose URLs the module trusts.
use auth_oidc.Prelude.{
  ◌≡◌, ◌⊎◌, inl, inr, ◌↔◌, Option, none, some, Text, codes, arith, ◌==◌, not, ==_iff, Option-cases,
}
use auth_oidc.Error.{
  ok, value, Result-cases, ◌>>=◌, ◌>>◌, or_error, refuse_if, invalid_jwks_url, jwks_url_not_https,
  Reply, failure,
}
use auth_oidc.External.{External}
use auth_oidc.Json.{Value}
use auth_oidc.Config.{OidcConfig}
use auth_oidc.Discovery.{
  Fetch, https, discovery_url, str_field, fetch_discovery_doc, resolve_jwks_url,
  configured_jwks_url, discovered_jwks_url, check_discovery_issuer,
}

module _ (ext : External) (cfg : OidcConfig) (fetch : Fetch) where
  open ext use {Number, value_from_str, url_scheme}

  -- The document that stands at the issuer's well-known address, and that names the issuer.
  pub record IsDiscovered (doc : Value Number) : Type 0 where
    pub body : Text
    pub answered : fetch (discovery_url cfg.issuer) ≡ ok body
    pub read : value_from_str body ≡ value doc
    pub issuer : str_field ext (codes "issuer") doc ≡ some cfg.issuer

  -- The URL is the configured one, with scheme https, or none is configured and it is the `jwks_uri`
  -- of the document that names the issuer.
  unfoldable pub IsTrusted : Text → Type 0
  IsTrusted url =
      ((cfg.jwks_url ≡ some url) × (url_scheme url ≡ value https))
      ⊎ ((cfg.jwks_url ≡ none)
          × ((doc : Value Number) × IsDiscovered doc
              × (str_field ext (codes "jwks_uri") doc ≡ some url)))

  issuer_iff :
      (o : Option Text) (issuer : Text)
      → (check_discovery_issuer ext o issuer ≡ ok tt) ↔ (o ≡ some issuer)
  issuer_iff none issuer = ground arith
  issuer_iff (some iss) issuer = ground (arith, ==_iff iss issuer)

  pub fetch_discovery_doc_iff :
      (doc : Value Number) → (fetch_discovery_doc ext cfg fetch ≡ ok doc) ↔ IsDiscovered doc
  unfolding fetch_discovery_doc
  fetch_discovery_doc_iff doc = (sound, complete)
    where
      sound : fetch_discovery_doc ext cfg fetch ≡ ok doc → IsDiscovered doc
      sound h = elim (Result-cases (fetch (discovery_url cfg.issuer))) [
        | inr (why, e) ↦ absurd (ground arith)
        | inl (body, e) ↦ record {
          body = body;
          answered = e;
          read = ground arith;
          issuer = (issuer_iff _ _).0 (ground arith);
        }
      ]

      complete : IsDiscovered doc → fetch_discovery_doc ext cfg fetch ≡ ok doc
      complete d = ground (arith, d.answered, d.read, (issuer_iff _ _).1 d.issuer)

  configured_iff :
      (url url' : Text)
      → (configured_jwks_url ext url ≡ ok url') ↔ ((url ≡ url') × (url_scheme url ≡ value https))
  unfolding configured_jwks_url
  configured_iff url url' = go (url_scheme url)
    where
      go :
          (reply : Reply Text)
          → ((or_error reply invalid_jwks_url >>= λ scheme.
                refuse_if (not (scheme == https)) (jwks_url_not_https scheme) >> ok url)
              ≡ ok url')
            ↔ ((url ≡ url') × (reply ≡ value https))
      go (failure reason) = ground arith
      go (value scheme) = ground (arith, ==_iff scheme https)

  -- The resolution of the key set's URL succeeds exactly with a trusted URL: a configured one with
  -- scheme https, or else the `jwks_uri` of the document at the issuer's address that names the
  -- issuer.
  pub resolve_jwks_url_iff :
      (url : Text) → (resolve_jwks_url ext cfg fetch ≡ ok url) ↔ IsTrusted url
  unfolding resolve_jwks_url discovered_jwks_url IsTrusted
  resolve_jwks_url_iff url = elim (Option-cases cfg.jwks_url) [
    | inr (given, e) ↦ (
      λ h. inl (ground (arith, configured_iff given url)),
      λ h. ground (arith, configured_iff given url, h),
    )
    | inl unset ↦ (λ h. inr (unset, discovered unset h), λ h. complete unset h)
  ]
    where
      discovered :
          cfg.jwks_url ≡ none
          → resolve_jwks_url ext cfg fetch ≡ ok url
          → (doc : Value Number) × IsDiscovered doc
            × (str_field ext (codes "jwks_uri") doc ≡ some url)
      discovered unset h = elim (Result-cases (fetch_discovery_doc ext cfg fetch)) [
        | inr (why, e) ↦ absurd (ground arith)
        | inl (doc, e) ↦ (doc, (fetch_discovery_doc_iff doc).0 e, ground arith)
      ]

      complete : cfg.jwks_url ≡ none → IsTrusted url → resolve_jwks_url ext cfg fetch ≡ ok url
      complete unset (inl (given, _)) = cc
      complete unset (inr (_, (doc, found, uri))) =
          ground (arith, (fetch_discovery_doc_iff doc).1 found)
