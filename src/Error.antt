-- ===== src/Error.antt =====
-- The `Err(String)` results of auth-oidc/src/*.rs, with one constructor for each message. A message
-- carries what the source formats into it; the text of a library's own error is `reason`.
use auth_oidc.Prelude.{
  ℕ, ◌≡◌, refl, ◌⊎◌, inl, inr, Bool, true, false, Option, none, some, List, Text,
}

pub data Error : Type 0 where
  -- jwt.rs
  not_three_segments header_not_base64url payload_not_base64url signature_not_base64url : Error
  malformed_header malformed_claims : (reason : Text) → Error
  critical_extensions : (crit : List Text) → Error
  encryption_only_key verification_failed material_kty_mismatch : Error
  alg_kty_mismatch : (alg kty : Text) → Error
  wrong_curve : (crv : Option Text) → Error
  forbidden_alg : (alg : Text) → Error
  -- an `expect` that fails, or arithmetic out of range
  panicked : Error
  -- jwks.rs
  missing_field field_not_base64url : (what : Text) → Error
  unsupported_kty : (kty : Text) → Error
  invalid_jwks : (reason : Text) → Error
  no_keys : Error
  -- cache.rs
  no_jwks_yet : (url : Text) → Error
  unknown_kid : (kid : Text) → Error
  stale_jwks : (url : Text) (max_stale : ℕ) → Error
  -- the claim checks of lib.rs
  wrong_issuer : (iss : Text) → Error
  no_issuer wrong_audience expired no_exp not_yet_valid malformed_nbf groups_overage : Error
  no_subject : Error
  -- discovery in lib.rs
  invalid_jwks_url : (reason : Text) → Error
  jwks_url_not_https : (scheme : Text) → Error
  no_jwks_uri no_discovery_issuer : Error
  discovery_not_json : (reason : Text) → Error
  wrong_discovery_issuer : (iss : Text) → Error
  discovery_failed : (cause : Error) → Error
  -- reqwest_fetcher.rs
  request_failed read_failed : (reason : Text) → Error
  http_status : (status : ℕ) → Error
  body_over_cap : (cap : ℕ) → Error
  body_not_utf8 : Error
  -- the plugin's lib.rs
  no_config : Error
  invalid_config : (reason : Text) → Error
  invalid_ca_cert client_not_built : (reason : Text) → Error

pub data Result {ℓ} (T : Type ℓ) : Type ℓ where
  ok : T → Result T
  err : (why : Error) → Result T

-- An early `return Err(e)` when the test holds.
abbrev pub refuse_if : Bool → Error → Result (Unit {0})
refuse_if true e = err e
refuse_if false e = ok tt

abbrev pub ok_or {ℓ} : {A : Type ℓ} → Option A → Error → Result A
ok_or none e = err e
ok_or (some a) e = ok a

-- The `?` operator: go on with the value, or return the error.
infixl 5 ◌>>=◌
abbrev pub ◌>>=◌ {ℓ κ} : {T : Type ℓ} {U : Type κ} → Result T → (T → Result U) → Result U
err why >>= next = err why
ok t >>= next = next t

-- `map_err`
abbrev pub map_err {ℓ} : {A : Type ℓ} → (Error → Error) → Result A → Result A
map_err f (ok a) = ok a
map_err f (err e) = err (f e)

-- `Result::and_then`
abbrev pub ok_then {ℓ κ} : {A : Type ℓ} {B : Type κ} → Result A → (A → Result B) → Result B
ok_then (ok a) f = f a
ok_then (err e) f = err e

-- `Result::ok`
abbrev pub to_option {ℓ} : {A : Type ℓ} → Result A → Option A
to_option (ok a) = some a
to_option (err e) = none

-- A check, and what follows it.
infixl 5 ◌>>◌
abbrev pub ◌>>◌ {κ} : {U : Type κ} → Result (Unit {0}) → Result U → Result U
check >> after = check >>= λ u. after

-- What a library's fallible call returns: a value, or the text of its own error.
pub data Reply {ℓ} (A : Type ℓ) : Type ℓ where
  value : A → Reply A
  failure : (reason : Text) → Reply A

abbrev pub or_error {ℓ} : {A : Type ℓ} → Reply A → (Text → Error) → Result A
or_error (value a) e = ok a
or_error (failure reason) e = err (e reason)

-- Where `?` did not return: the value that it went on with.
pub >>=-eq-ok {ℓ κ} :
    {T : Type ℓ} {U : Type κ} (r : Result T) (next : T → Result U) {u : U}
    → (r >>= next) ≡ ok u
    → (t : T) × (r ≡ ok t) × (next t ≡ ok u)
>>=-eq-ok (err why) next done = cc
>>=-eq-ok (ok t) next done = (t, refl, done)

pub Result-cases {ℓ} :
    {A : Type ℓ} (r : Result A) → ((a : A) × (r ≡ ok a)) ⊎ ((e : Error) × (r ≡ err e))
Result-cases (ok a) = inl (a, refl)
Result-cases (err e) = inr (e, refl)

pub ok_or-eq-ok {ℓ} :
    {A : Type ℓ} (o : Option A) (e : Error) {a : A} → ok_or o e ≡ ok a → o ≡ some a
ok_or-eq-ok none e h = cc
ok_or-eq-ok (some x) e h = cc
