-- ===== src/Tests/LoggingIn.antt =====
-- The theorem on the login with a minted token, at the token of the issuer.
use auth_oidc.Prelude.{◌≡◌, refl, [], ◌∷◌, none, codes, ◌==◌, arith}
use auth_oidc.Error.{ok}
use auth_oidc.Json.{get, lookup}
use auth_oidc.Oidc.{OidcModule}
use auth_oidc.Issuer.{mint, head_doc, claims_doc}
use auth_oidc.Issuer.{checked_add, checked_sub, sign}
use auth_oidc.Login.{BeginLogin, LoginHttpResponse}
use auth_oidc.Issuer.Minted.{served_module}
use auth_oidc.Tests.Issuing.{
  ext, kit, kid, idp, left, right, served, web, minted_token, typed, point, lawful, reachable,
  filled,
}

pub made :
    mint ext kit served 5 1_780_000_000 (codes "alice") (codes "admin" ∷ []) (codes "app")
    ≡ ok minted_token
unfolding mint sign checked_add checked_sub head_doc claims_doc get lookup ◌==◌
made = refl

abbrev granted : LoginHttpResponse
granted = record { status = 200; body = codes "granted" }

abbrev begin_request : BeginLogin
begin_request = record {
  redirect_uri = codes "https://app/cb";
  state = codes "s";
  code_challenge = codes "c";
  nonce = none;
  scopes = [];
}

abbrev login_module : OidcModule
login_module =
    served_module ext kit idp kid tt (codes "cert") (codes "127.0.0.1:9") left right web
      (codes "app") reachable lawful typed point 5 (codes "alice") (codes "admin" ∷ [])
      1_780_000_000 filled (omega arith) (omega arith)
