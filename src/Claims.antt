-- ===== src/Claims.antt =====
-- The claim checks of auth-oidc/src/lib.rs: `OidcVerifier` and the readers of claims that it uses.
pub mod Audience
pub mod Times
pub mod Subject
pub mod Valid
pub mod Life
pub mod Cached
use auth_oidc.Prelude.{
  ℕ, ◌-◌, ◌%◌, ◌^◌, ltb, ◌++◌, List, [], ◌∷◌, Option, none, some, Text, codes, ◌==◌, is,
  if◌then◌else◌, Bool, true, false, not, ◌&&◌, ◌||◌, eqb, leb, any, filter_map, and_then, or_else,
  is_some, is_none,
}
use auth_oidc.Prelude.Int.{
  ℤ, pos, negsuc, leb_ℤ, ltb_ℤ, i64_max, saturating_add, saturating_sub, clamp_u64,
}
use auth_oidc.Error.{
  Error, Result, ok, err, ◌>>=◌, ◌>>◌, ok_or, refuse_if, wrong_issuer, no_issuer, wrong_audience,
  expired, no_exp, not_yet_valid, malformed_nbf, groups_overage, no_subject,
}
use auth_oidc.Json.{
  Value, null, bool, number, string, array, object, Items, items, Fields, lookup, get, as_str,
  as_object,
}
use auth_oidc.Config.{
  default_role_claim, clock_skew_secs, max_cache_ttl_secs, clock_sanity_floor_unix,
}
use auth_oidc.External.{External}

pub record OidcVerifier : Type 0 where
  pub issuer : Text
  pub audience : Text
  pub role_claim : Text

abbrev pub new_verifier : (issuer audience role_claim : Text) → OidcVerifier
new_verifier issuer audience role_claim = record {
  issuer = issuer;
  audience = audience;
  role_claim = role_claim;
}

-- The fields of busbar's `Principal` that this module sets.
pub record Principal : Type 0 where
  pub id : Text
  pub name : Option Text
  pub roles : List Text
  pub ttl_secs : Option ℕ

-- White space of one byte, and of two or three bytes of UTF-8.
abbrev is_space : ℕ → Bool
is_space a = (leb 9 a && leb a 13) || eqb a 32

abbrev is_space₂ : ℕ → ℕ → Bool
is_space₂ a b = eqb a 0xC2 && (eqb b 0x85 || eqb b 0xA0)

abbrev is_space₃ : ℕ → ℕ → ℕ → Bool
is_space₃ a b c =
    (eqb a 0xE1 && eqb b 0x9A && eqb c 0x80)
    || (eqb a 0xE2
        && eqb b 0x80
        && ((leb 0x80 c && leb c 0x8A) || eqb c 0xA8 || eqb c 0xA9 || eqb c 0xAF))
    || (eqb a 0xE2 && eqb b 0x81 && eqb c 0x9F)
    || (eqb a 0xE3 && eqb b 0x80 && eqb c 0x80)

-- `s.trim().is_empty()`
unfoldable pub is_blank : Text → Bool
is_blank [] = true
is_blank (a ∷ []) = is_space a
is_blank (a ∷ b ∷ []) = elim (is_space a) [ true ↦ is_blank (b ∷ []) | false ↦ is_space₂ a b ]
is_blank (a ∷ b ∷ c ∷ s) = elim (is_space a) [
  | true ↦ is_blank (b ∷ c ∷ s)
  | false ↦ elim (is_space₂ a b) [
    | true ↦ is_blank (c ∷ s)
    | false ↦ elim (is_space₃ a b c) [ true ↦ is_blank s | false ↦ false ]
  ]
]

abbrev keep_filled : Text → Option Text
keep_filled s = if is_blank s then none else some s

unfoldable pub check_issuer : Option Text → Text → Result (Unit {0})
unfolding ◌==◌
check_issuer none issuer = err no_issuer
check_issuer (some iss) issuer = if iss == issuer then ok tt else err (wrong_issuer iss)

module _ {N : Type 0} where
  -- A claim that is a string.
  unfoldable pub claim_str : Text → Value N → Option Text
  claim_str name claims = and_then (get name claims) as_str

  abbrev names : Text → Value N → Bool
  names trusted v = is (as_str v) trusted

  -- The audience check; `azp` is the `azp` claim.
  unfoldable pub audience_ok : Option (Value N) → Option Text → Text → Bool
  unfolding is ◌==◌
  audience_ok none azp trusted = false
  audience_ok (some null) azp trusted = false
  audience_ok (some (bool b)) azp trusted = false
  audience_ok (some (number n)) azp trusted = false
  audience_ok (some (string s)) azp trusted = s == trusted
  audience_ok (some (array vs)) azp trusted =
      let trusted_present = any (names trusted) (items vs) in
      let has_untrusted_extra = any (λ v. not (names trusted v)) (items vs) in
      if not trusted_present then false else if has_untrusted_extra then is azp trusted else true
  audience_ok (some (object fs)) azp trusted = false

  -- The claims `_claim_names`, `_claim_sources` and `groups`.
  unfoldable pub marks_overage : Option (Value N) → Option (Value N) → Option (Value N) → Bool
  marks_overage claim_names claim_sources groups =
      let names_has_groups =
        is_some (and_then (and_then claim_names as_object) (λ fs. lookup (codes "groups") fs)) in
      names_has_groups || (is_some claim_sources && is_none groups && is_some claim_names)

  unfoldable pub is_groups_overage : Value N → Bool
  is_groups_overage claims =
      marks_overage (get (codes "_claim_names") claims) (get (codes "_claim_sources") claims)
        (get (codes "groups") claims)

  unfoldable pub non_empty_claim : Option (Value N) → Option Text
  unfolding is_blank
  non_empty_claim v = and_then (and_then v as_str) keep_filled

  unfoldable pub extract_string_list : Option (Value N) → List Text
  extract_string_list none = []
  extract_string_list (some null) = []
  extract_string_list (some (bool b)) = []
  extract_string_list (some (number n)) = []
  extract_string_list (some (string s)) = s ∷ []
  extract_string_list (some (array vs)) = filter_map as_str (items vs)
  extract_string_list (some (object fs)) = []

  -- The subject: the object id, or else the `sub` claim, if it is not blank.
  unfoldable pub subject_of : Value N → Option Text
  subject_of claims =
      or_else (non_empty_claim (get (codes "oid") claims))
        (non_empty_claim (get (codes "sub") claims))

  unfoldable pub display_name : Value N → Option Text
  unfolding claim_str
  display_name claims = or_else (claim_str (codes "name") claims) (
      or_else (claim_str (codes "preferred_username") claims)
        (or_else (claim_str (codes "upn") claims) (claim_str (codes "email") claims)))

unfoldable pub check_exp : Option ℤ → ℤ → Result ℤ
unfolding saturating_add
check_exp none now = err no_exp
check_exp (some exp) now =
    if leb_ℤ now (saturating_add exp (pos clock_skew_secs)) then ok exp else err expired

unfoldable pub cache_ttl : ℤ → ℤ → ℕ
unfolding clamp_u64 saturating_sub
cache_ttl exp now = clamp_u64 (saturating_sub exp now) max_cache_ttl_secs

abbrev pub principal_prefix : Text
principal_prefix = codes "oidc:"

-- The fail-closed reading of the host clock.
unfoldable pub is_clock_sane : ℤ → Bool
is_clock_sane t = leb_ℤ (pos clock_sanity_floor_unix) t

unfoldable pub clock_or_fail_closed : ℤ → ℤ
unfolding is_clock_sane
clock_or_fail_closed t = if is_clock_sane t then t else i64_max

-- `as i64` of a `u64`: two's complement.
unfoldable pub wrap_i64 : ℕ → ℤ
wrap_i64 n = let w = n % 2 ^ 64 in if ltb w (2 ^ 63) then pos w else negsuc (2 ^ 64 - 1 - w)

-- The seconds since 1970 that the host clock reads, or nothing if it stands before 1970.
unfoldable pub now_unix : Option ℕ → ℤ
unfolding clock_or_fail_closed wrap_i64
now_unix none = clock_or_fail_closed i64_max
now_unix (some secs) = clock_or_fail_closed (wrap_i64 secs)

module _ (ext : External) where
  open ext use {Number, Float, as_i64, as_f64, floor, ceil, to_i64}

  -- A number as whole seconds: an integer, or a fraction that `round` rounds.
  unfoldable pub as_numeric_date : Option (Value Number) → (Float → Float) → Option ℤ
  as_numeric_date none round = none
  as_numeric_date (some null) round = none
  as_numeric_date (some (bool b)) round = none
  as_numeric_date (some (number n)) round =
      or_else (as_i64 n) (and_then (as_f64 n) (λ f. some (to_i64 (round f))))
  as_numeric_date (some (string s)) round = none
  as_numeric_date (some (array vs)) round = none
  as_numeric_date (some (object fs)) round = none

  unfoldable pub as_numeric_date_floor : Option (Value Number) → Option ℤ
  unfolding as_numeric_date
  as_numeric_date_floor v = as_numeric_date v floor

  unfoldable pub as_numeric_date_ceil : Option (Value Number) → Option ℤ
  unfolding as_numeric_date
  as_numeric_date_ceil v = as_numeric_date v ceil

  abbrev pub check_not_before : Option ℤ → ℤ → Result (Unit {0})
  check_not_before none now = err malformed_nbf
  check_not_before (some nbf) now =
      refuse_if (ltb_ℤ now (saturating_sub nbf (pos clock_skew_secs))) not_yet_valid

  unfoldable pub check_nbf : Option (Value Number) → ℤ → Result (Unit {0})
  unfolding as_numeric_date_ceil saturating_sub
  check_nbf none now = ok tt
  check_nbf (some null) now = ok tt
  check_nbf (some (bool b)) now = check_not_before (as_numeric_date_ceil (some (bool b))) now
  check_nbf (some (number n)) now = check_not_before (as_numeric_date_ceil (some (number n))) now
  check_nbf (some (string s)) now = check_not_before (as_numeric_date_ceil (some (string s))) now
  check_nbf (some (array vs)) now = check_not_before (as_numeric_date_ceil (some (array vs))) now
  check_nbf (some (object fs)) now = check_not_before (as_numeric_date_ceil (some (object fs))) now

  unfoldable pub validate_claims : OidcVerifier → Value Number → ℤ → Result Principal
  validate_claims verifier claims now = do
    let audience = get (codes "aud") claims
    let azp = claim_str (codes "azp") claims
    check_issuer (claim_str (codes "iss") claims) verifier.issuer
    refuse_if (not (audience_ok audience azp verifier.audience)) wrong_audience
    exp ← check_exp (as_numeric_date_floor (get (codes "exp") claims)) now
    check_nbf (get (codes "nbf") claims) now
    refuse_if (verifier.role_claim == default_role_claim && is_groups_overage claims) groups_overage
    subject ← ok_or (subject_of claims) no_subject
    ok (record {
      id = principal_prefix ++ subject;
      name = display_name claims;
      roles = extract_string_list (get verifier.role_claim claims);
      ttl_secs = some (cache_ttl exp now);
    })
