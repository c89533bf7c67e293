-- ===== src/LiveCheck/Verdict.antt =====
-- When the live check passes.
use auth_oidc.Prelude.{◌≡◌, ◌↔◌, refl, inl, inr, ◌++◌, codes, Text, arith, Option-cases}
use auth_oidc.Error.{Result, ok, err, value, >>=-eq-ok}
use auth_oidc.External.{External}
use auth_oidc.Config.{OidcConfig}
use auth_oidc.Claims.Times.{IsTyped}
use auth_oidc.Oidc.Sound.{SkipsMemo}
use auth_oidc.Issuer.{expect}
use auth_oidc.LiveCheck.{
  Surroundings, passed, end_of, request_token, live_doc, live_check, credentials, main,
}
use auth_oidc.LiveCheck.Granted.{AreGiven, Grants, credentials_iff, granted, Grants-request_token}
use auth_oidc.Json.{string, object, end, field}
use auth_oidc.LiveCheck.Sound.{IsProven, expect-eq-ok, check_token-IsProven, IsProven-check_token}

module _ (ext : External) (at : Surroundings ext) where
  open at use {config_from_value}

  live_check-IsProven :
      (tenant client_id username password : Text)
      → IsTyped ext
      → SkipsMemo ext
      → live_check ext at tenant client_id username password ≡ ok tt
      → (cfg : OidcConfig) × (token : Text) × (config_from_value (live_doc ext at tenant client_id)
          ≡ value cfg)
        × (request_token ext at tenant client_id username password ≡ ok token)
        × IsProven ext at cfg token
  unfolding live_check
  live_check-IsProven tenant client_id username password typed skips h =
      let (token, granted, h) =
        >>=-eq-ok (request_token ext at tenant client_id username password) _ h in
      let (cfg, read, h) =
        >>=-eq-ok (expect (config_from_value (live_doc ext at tenant client_id))) _ h in
      (
        cfg,
        token,
        expect-eq-ok _ read,
        granted,
        check_token-IsProven ext at cfg token typed skips h,
      )

  end_of-passed : (r : Result (Unit {0})) → end_of ext at r ≡ passed → r ≡ ok tt
  end_of-passed (ok u) h = refl
  end_of-passed (err e) h = cc

  -- The four variables are set and not empty; the tenant's response to them is a success that carries
  -- a token; the settings, of the tenant's issuer and the client's name, are read; and the module is
  -- proven on the token.
  pub record IsProvenLive : Type 0 where
    pub tenant : Text
    pub client_id : Text
    pub username : Text
    pub password : Text
    pub given : AreGiven ext at tenant client_id username password
    pub token : Text
    pub granted : Grants ext at tenant client_id username password token
    pub cfg : OidcConfig
    pub read :
        config_from_value (
          object (
            field (codes "audience") (string client_id) (
              field
                (codes "issuer")
                (string (codes "https://login.microsoftonline.com/" ++ tenant ++ codes "/v2.0"))
                end)))
        ≡ value cfg
    pub proven : IsProven ext at cfg token

  -- The check passes exactly if: the four variables are set to texts that are not empty; the tenant
  -- answers the password grant for them with a success status and a document with an `id_token`; the
  -- settings with the tenant's issuer and the client's name are read, and both clients are built;
  -- the module identifies the token, by keys from a trusted URL, which vouch for it; and it rejects
  -- the copy in which the first byte of the signature is changed, to `A`, or from `A` to `B`. The
  -- numbers that are read are `i64`, and the deserialiser leaves the memo of a key empty.
  pub main_iff : IsTyped ext → SkipsMemo ext → (main ext at ≡ passed) ↔ IsProvenLive
  unfolding main live_check live_doc
  main_iff typed skips = (to, from)
    where
      to : main ext at ≡ passed → IsProvenLive
      to h = elim (Option-cases (credentials ext at)) [
        | inl missing ↦ absurd (ground arith)
        | inr ((tenant, client_id, username, password), e) ↦
            let (cfg, token, read, grants, proven) =
              live_check-IsProven tenant client_id username password typed skips (
                end_of-passed (live_check ext at tenant client_id username password)
                  (ground arith)) in
            record {
              tenant = tenant;
              client_id = client_id;
              username = username;
              password = password;
              given = (credentials_iff ext at tenant client_id username password).0 e;
              token = token;
              granted = granted ext at tenant client_id username password token grants;
              cfg = cfg;
              read = unfold live_doc in read;
              proven = proven;
            }
      ]

      from : IsProvenLive → main ext at ≡ passed
      from l =
          let given =
            (credentials_iff ext at l.tenant l.client_id l.username l.password).1 l.given in
          let grants =
            Grants-request_token ext at l.tenant l.client_id l.username l.password l.token
              l.granted in
          rw (given, main)
            (rw (grants, l.read, IsProven-check_token ext at l.cfg l.token l.proven) refl)
