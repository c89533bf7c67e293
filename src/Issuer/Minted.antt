-- ===== src/Issuer/Minted.antt =====
-- The whole path of a token that the local issuer mints: the module that opens with its settings
-- fetches its key set, and identifies the caller.
use auth_oidc.Prelude.{
  ℕ, ◌+◌, ◌^◌, ◌-◌, ◌≤◌, ◌<◌, ◌≡◌, unwrap_or, refl, ap, ◌++◌, ◌↔◌, List, [], ◌∷◌, some, Text, codes,
  arith, false,
}
use auth_oidc.Prelude.Int.{pos}
use auth_oidc.Error.{ok}
use auth_oidc.External.{External}
use auth_oidc.Config.{clock_sanity_floor_unix}
use auth_oidc.Json.{Value}
use auth_oidc.Jwks.Key.{JwkSet}
use auth_oidc.Jwt.Token.{Parts}
use auth_oidc.Jwt.{verify_signature}
use auth_oidc.Cache.{Fetcher, fresh_store, fetched}
use auth_oidc.Cache.Cold.{kept, cold_lookup}
use auth_oidc.Claims.{is_blank, validate_claims}
use auth_oidc.Claims.Times.{IsTyped, now_unix_of_sane}
use auth_oidc.Oidc.{
  OidcModule, identify, new, authenticate, verify, verify_with, verdict_of, check_signature,
}
use auth_oidc.Oidc.Sound.{verdict_of-eq-identify}
use auth_oidc.Issuer.{Kit, Issuer, mint, head_doc, checked_add, checked_sub}
use auth_oidc.Issuer.Laws.{IsPoint, IsLawful, ReadsAs, served_key, signed_header}
use auth_oidc.Issuer.Keys.{try_all-served}
use auth_oidc.Issuer.Signing.{IsSigned, sign-IsSigned, served-verifies}
use auth_oidc.Fetcher.Client.{Reqwest}
use auth_oidc.Issuer.Opened.{jwks, IsReachable, opened, fetches}
use auth_oidc.Issuer.Window.{claims_at, minted_principal, minted_iff, served_verifier}

exp_in_range : (now : ℕ) → now + 3600 < 2 ^ 63 → checked_add now 3600 ≡ ok (now + 3600)
unfolding checked_add
exp_in_range now h = ground arith

nbf_in_range : (now : ℕ) → 10 ≤ now → checked_sub now 10 ≡ ok (now - 10)
unfolding checked_sub
nbf_in_range now h = ground arith

module _ (ext : External) (kit : Kit ext) where
  open ext use {header_from_slice, value_from_slice, config_from_str, url_scheme}
  open kit use {KeyPair, public_key, b64_encode, to_string}

  module _ (iss kid : Text) (key : KeyPair) (cert addr : Text) (x y : List ℕ) where
    abbrev pub issuer : Issuer ext kit
    issuer = record {
      issuer = iss;
      kid = kid;
      key = key;
      jwks_url = codes "https://" ++ addr ++ codes "/jwks";
      cert_pem = cert;
    }

    module _ (web : Reqwest) (aud : Text) (reach : IsReachable ext kit web issuer x y aud)
        (lawful : IsLawful ext kit) (typed : IsTyped ext) (point : IsPoint (public_key key) x y)
        (seed : ℕ) (sub : Text) (roles : List Text) (now : ℕ) (filled : is_blank sub ≡ false)
        (past : 10 ≤ now) (soon : now + 3600 < 2 ^ 63) where
      abbrev pub served_module : OidcModule
      served_module = opened ext kit web issuer x y aud reach

      abbrev set : JwkSet
      set = record { keys = served_key kid (b64_encode x) (b64_encode y) ∷ [] }

      abbrev pub claim_set : Value ext.Number
      claim_set = claims_at ext kit iss sub roles aud now

      pub mints :
          ReadsAs ext kit header_from_slice (head_doc kid) (signed_header kid)
          → ReadsAs ext kit value_from_slice claim_set claim_set
          → (token : Text) × (parts : Parts) × (mint ext kit issuer seed now sub roles aud
              ≡ ok token)
            × IsSigned ext kit issuer token parts claim_set
      unfolding mint
      mints head body =
          let (token, parts, signed, good) =
            sign-IsSigned ext kit lawful issuer seed claim_set head body in
          (token, parts, rw (exp_in_range now soon, nbf_in_range now past) signed, good)

      module _ (token : Text) (parts : Parts)
          (signed : IsSigned ext kit issuer token parts claim_set) (t mono : ℕ)
          (sane : clock_sanity_floor_unix ≤ t) (late : t < 2 ^ 63) where
        looked_up :
            check_signature ext served_module parts mono fresh_store ≡ (ok tt, kept set mono)
        unfolding new auth_oidc.Cache.new
        looked_up = rw (ap (λ h. unwrap_or h.kid []) signed.header) (
            cold_lookup ext served_module.jwks set (fetches ext kit web issuer x y aud reach 0) kid
              mono (verify_signature ext parts) (ok tt)
              (try_all-served ext kit kid (b64_encode x) (b64_encode y) (verify_signature ext parts)
                tt (served-verifies ext kit lawful issuer x y token parts claim_set point signed)))

        verdict :
            (authenticate ext served_module (some token) (some t) mono fresh_store).0
            ≡ verdict_of ext (validate_claims ext (served_verifier iss aud) claim_set (pos t))
        unfolding authenticate verify verify_with new
        verdict = rw (now_unix_of_sane t sane late, signed.splits, looked_up, signed.payload) refl

        pub identified_at :
            ((authenticate ext served_module (some token) (some t) mono fresh_store).0
              ≡ identify (minted_principal sub roles now t))
            ↔ ((t ≤ now + 3660) × (now ≤ t + 70))
        identified_at =
            let (to, from) =
              minted_iff ext kit lawful typed iss sub roles aud now t filled soon late past in
            rw verdict
              (λ h. to (verdict_of-eq-identify ext _ _ h), λ h. ap (verdict_of ext) (from h))
