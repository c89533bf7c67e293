-- ===== src/Claims/Valid.antt =====
-- What the claim checks accept as a whole, and the principal that they make.
use auth_oidc.Prelude.{
  ◌++◌, ◌≡◌, ◌≢◌, ◌⊎◌, inl, inr, ◌↔◌, Option, none, some, Text, codes, arith, Option-cases, ==_iff,
}
use auth_oidc.Prelude.Int.{ℤ, pos, ◌+ℤ◌, ◌≤ℤ◌, IsI64}
use auth_oidc.Error.{ok, Result-cases}
use auth_oidc.Json.{Value, get}
use auth_oidc.Config.{default_role_claim, clock_skew_secs}
use auth_oidc.External.{External}
use auth_oidc.Claims.{
  OidcVerifier, Principal, claim_str, subject_of, display_name, extract_string_list, check_issuer,
  check_exp, cache_ttl, principal_prefix, as_numeric_date_floor, validate_claims,
}
use auth_oidc.Claims.Audience.{NamesTrusted, audience_ok_iff}
use auth_oidc.Claims.Times.{IsTyped, HasBegun, check_exp_iff, check_nbf_iff, as_numeric_date-IsI64}
use auth_oidc.Claims.Subject.{Anchors, subject_of_iff, IsOverage, is_groups_overage_iff}

check_issuer_iff :
    (o : Option Text) (issuer : Text) → (check_issuer o issuer ≡ ok tt) ↔ (o ≡ some issuer)
unfolding check_issuer
check_issuer_iff none issuer = ground arith
check_issuer_iff (some iss) issuer = ground (arith, ==_iff iss issuer)

module _ (ext : External) (verifier : OidcVerifier) (claims : Value ext.Number) (now : ℤ) where
  -- What the claims of a token must say, and the principal that they name.
  pub record Admits (p : Principal) : Type 0 where
    pub issuer : claim_str (codes "iss") claims ≡ some verifier.issuer
    pub audience :
        NamesTrusted verifier.audience (get (codes "aud") claims) (claim_str (codes "azp") claims)
    pub exp : ℤ
    pub expires : as_numeric_date_floor ext (get (codes "exp") claims) ≡ some exp
    pub unexpired : now ≤ℤ exp +ℤ pos clock_skew_secs
    pub begun : HasBegun ext (get (codes "nbf") claims) now
    pub groups_listed : (verifier.role_claim ≢ default_role_claim) ⊎ (¬ IsOverage claims)
    pub subject : Text
    pub anchored : Anchors claims subject
    pub named : p ≡ record {
      id = principal_prefix ++ subject;
      name = display_name claims;
      roles = extract_string_list (get verifier.role_claim claims);
      ttl_secs = some (cache_ttl exp now);
    }

  module _ (typed : IsTyped ext) (in_range : IsI64 now) where
    abbrev expiry : Option ℤ
    expiry = as_numeric_date_floor ext (get (codes "exp") claims)

    exp_iff :
        (exp : ℤ)
        → (check_exp expiry now ≡ ok exp)
          ↔ ((expiry ≡ some exp) × (now ≤ℤ exp +ℤ pos clock_skew_secs))
    unfolding as_numeric_date_floor
    exp_iff exp =
        check_exp_iff expiry now exp in_range
          (as_numeric_date-IsI64 ext typed (get (codes "exp") claims) ext.floor)

    validate-Admits : (p : Principal) → validate_claims ext verifier claims now ≡ ok p → Admits p
    unfolding validate_claims
    validate-Admits p h = elim (Result-cases (check_exp expiry now)) [
      | inr (why, e) ↦ absurd (ground arith)
      | inl (exp, e) ↦ elim (Option-cases (subject_of claims)) [
        | inl e' ↦ absurd (ground arith)
        | inr (subject, e') ↦ record {
          issuer = (check_issuer_iff _ _).0 (ground arith);
          audience = (audience_ok_iff verifier.audience _ _).0 (ground arith);
          exp = exp;
          expires = ((exp_iff exp).0 e).0;
          unexpired = ((exp_iff exp).0 e).1;
          begun = (check_nbf_iff ext typed _ now in_range).0 (ground arith);
          groups_listed =
              ground (
                arith,
                ==_iff verifier.role_claim default_role_claim,
                is_groups_overage_iff claims,
              );
          subject = subject;
          anchored = (subject_of_iff claims subject).0 e';
          named = ground arith;
        }
      ]
    ]

    Admits-validate : (p : Principal) → Admits p → validate_claims ext verifier claims now ≡ ok p
    unfolding validate_claims
    Admits-validate p a = ground (
      arith,
      (check_issuer_iff _ _).1 a.issuer,
      (audience_ok_iff verifier.audience _ _).1 a.audience,
      (exp_iff a.exp).1 (a.expires, a.unexpired),
      (check_nbf_iff ext typed _ now in_range).1 a.begun,
      a.groups_listed,
      ==_iff verifier.role_claim default_role_claim,
      is_groups_overage_iff claims,
      (subject_of_iff claims a.subject).1 a.anchored,
      a.named,
    )

    -- The claim checks succeed exactly on the claims that meet each requirement: the issuer, the
    -- audience (with the authorized party, where there are others), an expiry that has not passed, a
    -- not-before time that has, each with a minute of skew, no marker of omitted groups where the
    -- groups are read, and a filled subject; and the principal is made of exactly those claims. The
    -- clock and the numbers that are read are `i64`.
    pub validate_claims_iff :
        (p : Principal) → (validate_claims ext verifier claims now ≡ ok p) ↔ Admits p
    validate_claims_iff p = (validate-Admits p, Admits-validate p)
