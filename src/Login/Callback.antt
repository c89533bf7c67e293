-- ===== src/Login/Callback.antt =====
-- Whom a login's callback identifies.
use auth_oidc.Prelude.{
  ℕ, ◌≤◌, ◌<◌, ◌≡◌, inl, inr, some, Text, true, arith, Option-cases, leb, ltb, ◌&&◌,
}
use auth_oidc.Prelude.Int.{ℤ, IsI64}
use auth_oidc.External.{External}
use auth_oidc.Cache.{Store}
use auth_oidc.Cache.Ceiling.{IsSound}
use auth_oidc.Claims.{Principal}
use auth_oidc.Claims.Times.{IsTyped}
use auth_oidc.Oidc.{AuthVerdict, identify, reject, pass, OidcModule}
use auth_oidc.Oidc.Sound.{SkipsMemo, Vouches, verify_with-identify}
use auth_oidc.Login.{
  LoginHttpResponse, identified, login_outcome, id_token, identity_from_token_response,
}

module _ (ext : External) (m : OidcModule) (now_unix : ℤ) (now_mono : ℕ) (s : Store) where
  open ext use {value_from_str}

  -- The response is a success, and its `id_token` is one that vouches for the principal to the OAuth
  -- client.
  pub record VouchesLogin (resp : LoginHttpResponse) (after : Store) (p : Principal) : Type 0 where
    pub success : (200 ≤ resp.status) × (resp.status < 300)
    pub token : Text
    pub carried : id_token ext m (value_from_str resp.body) ≡ some token
    pub vouches : Vouches ext m m.login_verifier token now_unix now_mono s after p

  verdict-eq-identified :
      (verdict : AuthVerdict) (p : Principal)
      → login_outcome ext m verdict ≡ identified p
      → verdict ≡ identify p
  verdict-eq-identified (identify q) p h = ground arith
  verdict-eq-identified reject p h = cc
  verdict-eq-identified pass p h = cc

  -- A token response identifies a principal only if it is a success whose `id_token` vouches for it
  -- to the OAuth client, where the cache is sound, the ceiling is not zero, the clock and the numbers
  -- that are read are `i64`, and the deserialiser leaves the memo of a key empty.
  pub identity-identified :
      (resp : LoginHttpResponse) (p : Principal)
      → IsTyped ext
      → SkipsMemo ext
      → IsI64 now_unix
      → 0 < m.jwks.max_stale
      → IsSound ext m.jwks s
      → (identity_from_token_response ext m resp now_unix now_mono s).0 ≡ identified p
      → VouchesLogin resp (identity_from_token_response ext m resp now_unix now_mono s).1 p
  unfolding identity_from_token_response
  identity-identified resp p typed skips in_range ceiling sound h =
      elim (Option-cases (id_token ext m (value_from_str resp.body))) [
        | inl missing ↦ absurd (ground arith)
        | inr (token, carried) ↦
            let good : (leb 200 resp.status && ltb resp.status 300) ≡ true = ground arith in
            record {
              success = ground arith;
              token = token;
              carried = carried;
              vouches =
                  rw (good, carried)
                    (verify_with-identify ext m m.login_verifier token now_unix now_mono s p typed
                      skips in_range ceiling sound (verdict-eq-identified _ p (ground arith)));
            }
      ]
