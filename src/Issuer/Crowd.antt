-- ===== src/Issuer/Crowd.antt =====
-- Tokens of the local issuer, when any number of requests are verified at once.
use auth_oidc.Prelude.{ℕ, ◌+◌, ◌^◌, ◌≤◌, ◌<◌, ◌≡◌, List, [], ◌∷◌, Text, false}
use auth_oidc.Prelude.Int.{pos}
use auth_oidc.Error.{ok}
use auth_oidc.External.{External}
use auth_oidc.Jwks.Key.{JwkSet}
use auth_oidc.Jwt.{split}
use auth_oidc.Cache.{JwksCache, fetched}
use auth_oidc.Callers.Onward.{Onward}
use auth_oidc.Claims.{OidcVerifier, is_blank}
use auth_oidc.Claims.Times.{IsTyped}
use auth_oidc.Oidc.Concurrent.{Request}
use auth_oidc.Issuer.{Kit, Issuer}
use auth_oidc.Issuer.Laws.{IsPoint, IsLawful, served_key}
use auth_oidc.Fetcher.Client.{Reqwest}
use auth_oidc.Issuer.Opened.{IsReachable, opened}
use auth_oidc.Issuer.Minted.{issuer}

-- The fetcher of the cache brings the key set.
abbrev pub Brings : External → JwksCache → JwkSet → Type 0
Brings ext c set = (n : ℕ) × (fetched ext c n ≡ ok set)

-- A request for the token at second `t`, to the verifier of the module.
pub record Presents (ext : External) (verifier : OidcVerifier) (token : Text) (t : ℕ) (r : Request)
    : Type 0 where
  pub sent : r.token ≡ token
  pub splits : split ext r.token ≡ ok r.parts
  pub to : r.verifier ≡ verifier
  pub clock : r.now_unix ≡ pos t

module _ (ext : External) (kit : Kit ext) where
  open ext use {header_from_slice, value_from_slice}
  open kit use {KeyPair, public_key, b64_encode}

  module _ (iss kid : Text) (key : KeyPair) (cert addr : Text) (x y : List ℕ) where
    abbrev iss_of : Issuer ext kit
    iss_of = issuer ext kit iss kid key cert addr x y

    module _ (web : Reqwest) (aud : Text) (reach : IsReachable ext kit web iss_of x y aud)
        (lawful : IsLawful ext kit) (typed : IsTyped ext) (point : IsPoint (public_key key) x y)
        (seed : ℕ) (sub : Text) (roles : List Text) (now : ℕ) (filled : is_blank sub ≡ false)
        (past : 10 ≤ now) (soon : now + 3600 < 2 ^ 63) where
      abbrev pub served_cache : JwksCache
      served_cache = (opened ext kit web iss_of x y aud reach).jwks

      abbrev served_set : JwkSet
      served_set = record { keys = served_key kid (b64_encode x) (b64_encode y) ∷ [] }
