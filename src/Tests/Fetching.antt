-- ===== src/Tests/Fetching.antt =====
-- The theorem on the fetcher, at one response.
use auth_oidc.Prelude.{◌≡◌, ◌↔◌, List, ℕ, Bool, true, none, Text, codes}
use auth_oidc.Error.{ok, Reply, value}
use auth_oidc.Fetcher.{Response, fetch, max_jwks_bytes}
use auth_oidc.Fetcher.Capped.{IsTaken, fetch_iff}

abbrev is_utf8 : List ℕ → Bool
is_utf8 bytes = true

abbrev send : Text → Reply Response
send url = value (record { status = 200; body = record { bytes = codes "keys"; fault = none } })

fetch_iff_example : (fetch is_utf8 send (codes "https://idp/keys") ≡ ok (codes "keys")) ↔ (
    (resp : Response) × (send (codes "https://idp/keys") ≡ value resp)
    × IsTaken is_utf8 max_jwks_bytes resp (codes "keys"))
fetch_iff_example = fetch_iff is_utf8 send (codes "https://idp/keys") (codes "keys")
