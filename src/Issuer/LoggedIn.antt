-- ===== src/Issuer/LoggedIn.antt =====
-- The callback of a browser login against the local issuer.
use auth_oidc.Prelude.{ℕ, ◌+◌, ◌^◌, ◌≤◌, ◌<◌, ◌≡◌, List, Text, false}
use auth_oidc.External.{External}
use auth_oidc.Json.{Value}
use auth_oidc.Claims.{is_blank}
use auth_oidc.Claims.Times.{IsTyped}
use auth_oidc.Oidc.{OidcModule}
use auth_oidc.Issuer.{Kit, Issuer}
use auth_oidc.Issuer.Laws.{IsPoint, IsLawful}
use auth_oidc.Issuer.Opened.{IsReachable}
use auth_oidc.Issuer.Window.{claims_at}
use auth_oidc.Issuer.Minted.{issuer, served_module}
use auth_oidc.Fetcher.Client.{Reqwest}

module _ (ext : External) (kit : Kit ext) where
  open ext use {header_from_slice, value_from_slice, value_from_str}
  open kit use {KeyPair, public_key}

  module _ (iss kid : Text) (key : KeyPair) (cert addr : Text) (x y : List ℕ) (web : Reqwest)
      (aud : Text)
      (reach : IsReachable ext kit web (issuer ext kit iss kid key cert addr x y) x y aud)
      (lawful : IsLawful ext kit) (typed : IsTyped ext) (point : IsPoint (public_key key) x y)
      (seed : ℕ) (sub : Text) (roles : List Text) (now : ℕ) (filled : is_blank sub ≡ false)
      (past : 10 ≤ now) (soon : now + 3600 < 2 ^ 63) where
    abbrev m : OidcModule
    m =
        served_module ext kit iss kid key cert addr x y web aud reach lawful typed point seed sub
          roles now filled past soon

    abbrev i : Issuer ext kit
    i = issuer ext kit iss kid key cert addr x y

    abbrev cs : Value ext.Number
    cs = claims_at ext kit iss sub roles aud now
