-- ===== src/Login/Exchange.antt =====
-- The redirect to the provider, and the request that exchanges the callback's code.
use auth_oidc.Prelude.{
  ℕ, ◌≡◌, ◌≢◌, refl, ap, subst, ◌++◌, ◌↔◌, inl, inr, [], ◌∷◌, Option, none, some, Text, codes,
  arith, Option-cases,
}
use auth_oidc.Prelude.Int.{ℤ}
use auth_oidc.External.{External}
use auth_oidc.Config.{OidcConfig}
use auth_oidc.Cache.{Store}
use auth_oidc.Claims.{now_unix}
use auth_oidc.Oidc.{
  OidcModule, resolved_client_id, AuthVerdict, identify, reject, pass, verify_with,
}
use auth_oidc.Login.{
  BeginLogin, CompleteLogin, LoginHop, LoginHttpResponse, authorize, exchange, begin_login,
  build_authorize_url, build_token_exchange, request_exchange, complete_login,
  identity_from_token_response, login_outcome, id_token,
}

-- The browser is sent to the address, with a query.
abbrev pub BeginsAt : OidcModule → Text → BeginLogin → Type 0
BeginsAt m endpoint req = (query : Text) × (begin_login m req ≡ authorize (endpoint ++ query))

pub begins :
    (m : OidcModule) (req : BeginLogin) (endpoint : Text)
    → m.cfg.authorization_endpoint ≡ some endpoint
    → BeginsAt m endpoint req
unfolding begin_login build_authorize_url
begins m req endpoint set = rw set (_, refl)

-- The first call of the callback.
abbrev pub with_code : (code redirect_uri code_verifier : Text) → CompleteLogin
with_code code redirect_uri code_verifier = record {
  code = some code;
  redirect_uri = some redirect_uri;
  code_verifier = some code_verifier;
  token_response = none;
}

-- The hop posts the code, the redirect URI, the PKCE verifier and the client's name to the token
-- endpoint, and has an empty field for the secret, which busbar fills in.
pub record IsExchange (cfg : OidcConfig) (code redirect_uri code_verifier : Text) (hop : LoginHop)
    : Type 0 where
  pub method : hop.method ≡ codes "POST"
  pub address : cfg.token_endpoint ≡ some hop.url
  pub form :
      hop.form
      ≡ (codes "grant_type", codes "authorization_code")
        ∷ (codes "code", code)
        ∷ (codes "redirect_uri", redirect_uri)
        ∷ (codes "code_verifier", code_verifier)
        ∷ (codes "client_id", resolved_client_id cfg)
        ∷ (codes "client_secret", [])
        ∷ []
  pub secret : hop.secret_form_field ≡ some (codes "client_secret")
  pub headers : hop.headers ≡ []

module _ (ext : External) (m : OidcModule) where
  -- The callback has no token response yet, but a code, a redirect URI and a PKCE verifier.
  pub record Asks (req : CompleteLogin) (hop : LoginHop) : Type 0 where
    pub code : Text
    pub redirect_uri : Text
    pub code_verifier : Text
    pub carries : req ≡ with_code code redirect_uri code_verifier
    pub exchanges : IsExchange m.cfg code redirect_uri code_verifier hop

  hop-IsExchange :
      (code redirect_uri code_verifier url : Text)
      → m.cfg.token_endpoint ≡ some url
      → IsExchange m.cfg code redirect_uri code_verifier
          (build_token_exchange m.cfg code redirect_uri code_verifier)
  unfolding build_token_exchange
  hop-IsExchange code redirect_uri code_verifier url set = record {
    method = refl;
    address = rw set refl;
    form = refl;
    secret = refl;
    headers = refl;
  }

  IsExchange-eq :
      (code redirect_uri code_verifier : Text) (hop : LoginHop)
      → IsExchange m.cfg code redirect_uri code_verifier hop
      → build_token_exchange m.cfg code redirect_uri code_verifier ≡ hop
  unfolding build_token_exchange
  IsExchange-eq code redirect_uri code_verifier hop x =
      rw (x.address) (cc (x.method, x.form, x.secret, x.headers))

  asked :
      (code redirect_uri code_verifier : Option Text) (hop : LoginHop)
      → request_exchange ext m code redirect_uri code_verifier ≡ exchange hop
      → (c : Text) × (r : Text) × (v : Text) × (code ≡ some c)
        × (redirect_uri ≡ some r)
        × (code_verifier ≡ some v)
        × IsExchange m.cfg c r v hop
  asked none redirect_uri code_verifier hop h = cc
  asked (some c) none code_verifier hop h = cc
  asked (some c) (some r) none hop h = cc
  asked (some c) (some r) (some v) hop h = elim (Option-cases m.cfg.token_endpoint) [
    | inl missing ↦ absurd (ground arith)
    | inr (url, set) ↦
        let same : build_token_exchange m.cfg c r v ≡ hop = ground arith in
        (
          c,
          r,
          v,
          refl,
          refl,
          refl,
          subst (IsExchange m.cfg c r v) same (hop-IsExchange c r v url set),
        )
  ]

  answers :
      (c r v : Text) (hop : LoginHop)
      → IsExchange m.cfg c r v hop
      → request_exchange ext m (some c) (some r) (some v) ≡ exchange hop
  answers c r v hop x = ground (arith, x.address, IsExchange-eq c r v hop x)

  open ext use {value_from_str}

  outcome-ne-exchange : (v : AuthVerdict) (hop : LoginHop) → login_outcome ext m v ≢ exchange hop
  outcome-ne-exchange (identify p) hop = λ h. cc
  outcome-ne-exchange reject hop = λ h. cc
  outcome-ne-exchange pass hop = λ h. cc

  response-ne-exchange :
      (resp : LoginHttpResponse) (now_unix : ℤ) (now_mono : ℕ) (s : Store) (hop : LoginHop)
      → (identity_from_token_response ext m resp now_unix now_mono s).0 ≢ exchange hop
  unfolding identity_from_token_response
  response-ne-exchange resp now_unix now_mono s hop h =
      elim (Option-cases (id_token ext m (value_from_str resp.body))) [
        | inl missing ↦ ground arith
        | inr (token, carried) ↦ ground (
          arith,
          outcome-ne-exchange (verify_with ext m m.login_verifier token now_unix now_mono s).0 hop,
        )
      ]

  outcome_iff :
      (req : CompleteLogin) (clock : Option ℕ) (mono : ℕ) (s : Store) (hop : LoginHop)
      → ((complete_login ext m req clock mono s).0 ≡ exchange hop) ↔ Asks req hop
  unfolding complete_login
  outcome_iff req clock mono s hop = elim (Option-cases req.token_response) [
    | inr (resp, responded) ↦ (
      λ h. absurd (response-ne-exchange resp (now_unix clock) mono s hop (ground arith)),
      λ a. absurd (ground (arith, a.carries)),
    )
    | inl open_yet ↦ (
      λ h.
          let (c, r, v, has_code, has_redirect, has_verifier, x) =
            asked req.code req.redirect_uri req.code_verifier hop (ground arith) in
          record {
            code = c;
            redirect_uri = r;
            code_verifier = v;
            carries = cc (has_code, has_redirect, has_verifier, open_yet);
            exchanges = x;
          },
      λ a. rw a.carries (answers a.code a.redirect_uri a.code_verifier hop a.exchanges),
    )
  ]

  Asks-keeps :
      (req : CompleteLogin) (clock : Option ℕ) (mono : ℕ) (s : Store) (hop : LoginHop)
      → Asks req hop
      → complete_login ext m req clock mono s ≡ (exchange hop, s)
  unfolding complete_login
  Asks-keeps req clock mono s hop a =
      rw a.carries (rw (answers a.code a.redirect_uri a.code_verifier hop a.exchanges) refl)

  -- The callback asks for a hop exactly if it has no token response yet, but a code, a redirect URI
  -- and a PKCE verifier, a token endpoint is set, and the hop posts these to that endpoint with the
  -- secret left for busbar to fill in; and exactly then it asks for the hop and leaves the cache as
  -- it was.
  pub complete_login-exchange :
      (req : CompleteLogin) (clock : Option ℕ) (mono : ℕ) (s : Store) (hop : LoginHop)
      → (((complete_login ext m req clock mono s).0 ≡ exchange hop) ↔ Asks req hop)
        × ((complete_login ext m req clock mono s ≡ (exchange hop, s)) ↔ Asks req hop)
  complete_login-exchange req clock mono s hop =
      let iff = outcome_iff req clock mono s hop in
      (iff, (λ h. iff.0 (ap (λ p. p.0) h), Asks-keeps req clock mono s hop))

  -- With the code, the callback asks to post it to the address, and leaves the cache alone.
  pub record AsksAt (endpoint code redirect_uri code_verifier : Text) (clock : Option ℕ) (mono : ℕ)
      (s : Store) : Type 0 where
    pub hop : LoginHop
    pub asks :
        complete_login ext m (with_code code redirect_uri code_verifier) clock mono s
        ≡ (exchange hop, s)
    pub address : hop.url ≡ endpoint
    pub exchanges : IsExchange m.cfg code redirect_uri code_verifier hop

  pub asks_at :
      (endpoint code redirect_uri code_verifier : Text) (clock : Option ℕ) (mono : ℕ) (s : Store)
      → m.cfg.token_endpoint ≡ some endpoint
      → AsksAt endpoint code redirect_uri code_verifier clock mono s
  unfolding complete_login build_token_exchange
  asks_at endpoint code redirect_uri code_verifier clock mono s set = record {
    hop = build_token_exchange m.cfg code redirect_uri code_verifier;
    asks = ground arith;
    address = ground arith;
    exchanges = hop-IsExchange code redirect_uri code_verifier endpoint set;
  }
