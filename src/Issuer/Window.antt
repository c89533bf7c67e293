-- ===== src/Issuer/Window.antt =====
-- When the claims that the local issuer mints are admitted.
use auth_oidc.Prelude.{
  ℕ, ◌+◌, ◌-◌, ◌^◌, ◌≤◌, ◌<◌, min, ◌≡◌, ◌≢◌, refl, ap, ◌++◌, ◌↔◌, inl, inr, List, [], ◌∷◌, none,
  some, Text, codes, arith, false, ◌==◌, filter_map,
}
use auth_oidc.Prelude.Int.{pos, ◌+ℤ◌, ◌-ℤ◌}
use auth_oidc.Error.{ok}
use auth_oidc.External.{External}
use auth_oidc.Json.{Value, get, lookup, items, as_str}
use auth_oidc.Config.{default_role_claim, max_cache_ttl_secs}
use auth_oidc.Claims.{
  OidcVerifier, Principal, is_blank, claim_str, display_name, extract_string_list, principal_prefix,
  as_numeric_date, as_numeric_date_floor, as_numeric_date_ceil, validate_claims, cache_ttl,
}
use auth_oidc.Claims.Times.{IsTyped, cache_ttl_lem}
use auth_oidc.Claims.Valid.{Admits, validate_claims_iff}
use auth_oidc.Issuer.{Kit, claims_doc, strings}
use auth_oidc.Issuer.Laws.{IsLawful}

roles_not_groups : codes "roles" ≢ default_role_claim
roles_not_groups e = cc

strings-read : (N : Type 0) (ss : List Text) → filter_map as_str (items (strings {N = N} ss)) ≡ ss
strings-read N [] = refl
strings-read N (s ∷ ss) = ap (◌∷◌ s) (strings-read N ss)

-- The verifier for one audience of the issuer, and the principal that a minted token names.
abbrev pub served_verifier : (iss aud : Text) → OidcVerifier
served_verifier iss aud = record { issuer = iss; audience = aud; role_claim = codes "roles" }

abbrev pub minted_principal : (sub : Text) (roles : List Text) (now t : ℕ) → Principal
minted_principal sub roles now t = record {
  id = principal_prefix ++ sub;
  name = none;
  roles = roles;
  ttl_secs = some (min max_cache_ttl_secs (now + 3600 - t));
}

-- The claims that the issuer mints at the time `now`.
abbrev pub claims_at :
    (ext : External) (kit : Kit ext)
    → (iss sub : Text) (roles : List Text) (aud : Text) (now : ℕ) → Value ext.Number
claims_at ext kit iss sub roles aud now =
    claims_doc iss sub roles aud (kit.from_u64 (now + 3600)) (kit.from_u64 (now - 10))

module _ (ext : External) (kit : Kit ext) (lawful : IsLawful ext kit) (typed : IsTyped ext)
    (iss sub : Text) (roles : List Text) (aud : Text) (now t : ℕ) where
  open ext use {Number}

  abbrev minted_claims : Value Number
  minted_claims = claims_at ext kit iss sub roles aud now

  module _ (filled : is_blank sub ≡ false) (soon : now + 3600 < 2 ^ 63) (late : t < 2 ^ 63) where
    exp_read : as_numeric_date_floor ext (get (codes "exp") minted_claims) ≡ some (pos (now + 3600))
    unfolding as_numeric_date_floor as_numeric_date get lookup claims_doc ◌==◌
    exp_read = rw (lawful.small (now + 3600) soon) refl

    nbf_read : as_numeric_date_ceil ext (get (codes "nbf") minted_claims) ≡ some (pos (now - 10))
    unfolding as_numeric_date_ceil as_numeric_date get lookup claims_doc ◌==◌
    nbf_read = rw (lawful.small (now - 10) (omega arith)) refl

    abbrev p : Principal
    p = minted_principal sub roles now t

    named : p ≡ record {
      id = principal_prefix ++ sub;
      name = display_name minted_claims;
      roles = extract_string_list (get (codes "roles") minted_claims);
      ttl_secs = some (cache_ttl (pos (now + 3600)) (pos t));
    }
    unfolding display_name claim_str extract_string_list get lookup claims_doc ◌==◌
    named =
        rw
          (cache_ttl_lem (pos (now + 3600)) t (omega arith, omega arith), strings-read Number roles)
          refl

    abbrev Admission : Type 0
    Admission = Admits ext (served_verifier iss aud) minted_claims (pos t) p

    in_window : 10 ≤ now → t ≤ now + 3660 → now ≤ t + 70 → Admission
    unfolding claim_str get lookup claims_doc ◌==◌
    in_window past before after = record {
      issuer = refl;
      audience = refl;
      exp = pos (now + 3600);
      expires = exp_read;
      unexpired = unfold ◌+ℤ◌ in (ground arith);
      begun = inr (inr (pos (now - 10), nbf_read, unfold ◌-ℤ◌ in (ground arith)));
      groups_listed = inl roles_not_groups;
      subject = sub;
      anchored = inr (λ s h. cc (h.0), (refl, filled));
      named = named;
    }

    window : 10 ≤ now → Admission → (t ≤ now + 3660) × (now ≤ t + 70)
    unfolding get lookup claims_doc ◌==◌
    window past a = (
      before,
      elim a.begun [
        | inl missing ↦ absurd (ground arith)
        | inr (inl missing) ↦ absurd (ground arith)
        | inr (inr (nbf, read, begun)) ↦
            let same : nbf ≡ pos (now - 10) = ground (arith, nbf_read) in
            unfold ◌-ℤ◌ in (ground arith)
      ],
    )
      where
        before : t ≤ now + 3660
        before =
            let same : a.exp ≡ pos (now + 3600) = ground (arith, a.expires, exp_read) in
            let unexpired = a.unexpired in unfold ◌+ℤ◌ in (ground arith)

    -- The minted claims name their principal from 70 seconds before they are minted to an hour and a
    -- minute after, and at no other time.
    pub minted_iff :
        10 ≤ now
        → (validate_claims ext (served_verifier iss aud) minted_claims (pos t) ≡ ok p)
          ↔ ((t ≤ now + 3660) × (now ≤ t + 70))
    minted_iff past =
        let (sound, complete) =
          validate_claims_iff ext (served_verifier iss aud) minted_claims (pos t) typed
            (omega arith) p in
        (λ h. window past (sound h), λ (before, after). complete (in_window past before after))
