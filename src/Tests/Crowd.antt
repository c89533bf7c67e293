-- ===== src/Tests/Crowd.antt =====
-- The theorem on concurrent requests with minted tokens, at the token of the issuer.
use auth_oidc.Prelude.{ℕ, [], ◌∷◌, codes, arith}
use auth_oidc.Prelude.Int.{pos}
use auth_oidc.Jwt.Token.{Parts}
use auth_oidc.Cache.{JwksCache}
use auth_oidc.Oidc.Concurrent.{Request}
use auth_oidc.Callers.Onward.{Onward}
use auth_oidc.Issuer.Laws.{signed_header}
use auth_oidc.Issuer.Window.{served_verifier}
use auth_oidc.Issuer.Crowd.{served_cache}
use auth_oidc.Tests.Issuing.{
  ext, kit, kid, idp, left, right, web, minted_token, signed, typed, point, lawful, reachable,
  filled,
}

abbrev minted_parts : Parts
minted_parts = record {
  header = signed_header kid;
  payload = codes "body";
  signing_input = signed;
  signature = signed;
}

-- Every request has the token, with a clock of its own.
abbrev crowd : ℕ → Request
crowd i = record {
  token = minted_token;
  parts = minted_parts;
  verifier = served_verifier idp (codes "app");
  now_unix = pos 1_780_000_100;
  now_mono = i;
}

abbrev crowd_cache : JwksCache
crowd_cache =
    served_cache ext kit idp kid tt (codes "cert") (codes "127.0.0.1:9") left right web
      (codes "app") reachable lawful typed point 5 (codes "alice") (codes "admin" ∷ [])
      1_780_000_000 filled (omega arith) (omega arith)
