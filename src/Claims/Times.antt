-- ===== src/Claims/Times.antt =====
-- The times that the claim checks accept, and the lifetime that they suggest.
use auth_oidc.Prelude.{
  ◌≤◌, ◌<◌, ◌^◌, ℕ, ◌-◌, min, ◌≡◌, refl, ◌⊎◌, inl, inr, ◌↔◌, Option, none, some, subst, arith,
  Option-cases,
}
use auth_oidc.Prelude.Int.{
  ℤ, pos, pos_part, ◌+ℤ◌, ◌-ℤ◌, ◌≤ℤ◌, i64_max, IsI64, le-saturating_add, saturating_sub-lt,
  clamp_u64-saturating_sub,
}
use auth_oidc.Error.{ok}
use auth_oidc.Json.{Value, null, number}
use auth_oidc.Config.{clock_skew_secs, max_cache_ttl_secs, clock_sanity_floor_unix}
use auth_oidc.External.{External}
use auth_oidc.Claims.{
  now_unix, wrap_i64, is_clock_sane, check_exp, check_nbf, cache_ttl, clock_or_fail_closed,
  as_numeric_date, as_numeric_date_ceil, check_not_before,
}

-- An expiry is accepted exactly if it is there and the time, less the skew, has not passed it.
pub check_exp_iff :
    (o : Option ℤ) (now exp : ℤ)
    → IsI64 now
    → ((e : ℤ) → o ≡ some e → IsI64 e)
    → (check_exp o now ≡ ok exp) ↔ ((o ≡ some exp) × (now ≤ℤ exp +ℤ pos clock_skew_secs))
unfolding check_exp
check_exp_iff none now exp h k = ground arith
check_exp_iff (some e) now exp h k = ground (arith, le-saturating_add now e 60 h (k e refl))

-- At a time that is not negative the suggested lifetime is what is left of the token, cut to the
-- ceiling.
pub cache_ttl_lem :
    (exp : ℤ) (t : ℕ)
    → IsI64 exp
    → cache_ttl exp (pos t) ≡ min max_cache_ttl_secs (pos_part exp - t)
unfolding cache_ttl
cache_ttl_lem exp t h = clamp_u64-saturating_sub exp t max_cache_ttl_secs h (omega arith)

-- The clock that the checks see is an `i64`, and passes a reading of 2026 or later on.
pub now_unix-IsI64 : (clock : Option ℕ) → IsI64 (now_unix clock)
unfolding now_unix clock_or_fail_closed is_clock_sane wrap_i64
now_unix-IsI64 none = ground arith
now_unix-IsI64 (some secs) = ground (arith)

pub now_unix_of_sane :
    (t : ℕ) → clock_sanity_floor_unix ≤ t → t < 2 ^ 63 → now_unix (some t) ≡ pos t
unfolding now_unix clock_or_fail_closed is_clock_sane wrap_i64
now_unix_of_sane t sane late = ground arith

-- A clock that stands before 1970, or reads before 2026.
abbrev pub IsBroken : Option ℕ → Type 0
IsBroken none = Unit
IsBroken (some secs) = secs < clock_sanity_floor_unix

pub now_unix_of_IsBroken : (clock : Option ℕ) → IsBroken clock → now_unix clock ≡ i64_max
unfolding now_unix clock_or_fail_closed is_clock_sane wrap_i64
now_unix_of_IsBroken none h = ground arith
now_unix_of_IsBroken (some secs) h = ground arith

module _ (ext : External) where
  open ext use {Number, Float, as_i64, as_f64, ceil, to_i64}

  -- What Rust's types say of the numbers read: they are `i64`.
  pub record IsTyped : Type 0 where
    pub as_i64_range : (n : Number) (z : ℤ) → as_i64 n ≡ some z → IsI64 z
    pub to_i64_range : (f : Float) → IsI64 (to_i64 f)

  pub as_numeric_date-IsI64 :
      IsTyped
      → (o : Option (Value Number)) (round : Float → Float) (z : ℤ)
      → as_numeric_date ext o round ≡ some z
      → IsI64 z
  unfolding as_numeric_date
  as_numeric_date-IsI64 typed (some (number n)) round z h = elim (Option-cases (as_i64 n)) [
    | inr (y, e) ↦ typed.as_i64_range n z (ground arith)
    | inl fraction ↦ elim (Option-cases (as_f64 n)) [
      | inl e ↦ absurd (ground arith)
      | inr (x, e) ↦
          let same : to_i64 (round x) ≡ z = ground arith in
          subst IsI64 same (typed.to_i64_range (round x))
    ]
  ]
  as_numeric_date-IsI64 typed _ round z h = cc

  -- The claim is absent or null, or it is a number of seconds that has passed, less the skew.
  abbrev pub HasBegun : Option (Value Number) → ℤ → Type 0
  HasBegun o now =
      (o ≡ none)
      ⊎ (o ≡ some null)
      ⊎ ((nbf : ℤ) × (as_numeric_date_ceil ext o ≡ some nbf) × (nbf -ℤ pos clock_skew_secs ≤ℤ now))

  not_before_iff :
      (o : Option ℤ) (now : ℤ)
      → IsI64 now
      → ((z : ℤ) → o ≡ some z → IsI64 z)
      → (check_not_before ext o now ≡ ok tt)
        ↔ ((nbf : ℤ) × (o ≡ some nbf) × (nbf -ℤ pos clock_skew_secs ≤ℤ now))
  not_before_iff none now h k = (λ e. cc, λ e. absurd (ground (arith, e.1)))
  not_before_iff (some nbf) now h k = (
    λ e. (nbf, refl, ground (arith, saturating_sub-lt now nbf 60 h (k nbf refl))),
    λ (z, e, begun). ground (arith, saturating_sub-lt now nbf 60 h (k nbf refl)),
  )

  -- The `nbf` check accepts a claim exactly if it is absent or null, or a number of seconds, a
  -- fraction rounded up, that has passed, less the skew; the clock and the numbers are `i64`.
  pub check_nbf_iff :
      IsTyped
      → (o : Option (Value Number)) (now : ℤ) → IsI64 now
      → (check_nbf ext o now ≡ ok tt) ↔ HasBegun o now
  unfolding check_nbf
  check_nbf_iff typed none now h = ground arith
  check_nbf_iff typed (some null) now h = ground arith
  check_nbf_iff typed (some (number n)) now h = (λ e. inr (inr (to e)), complete)
    where
      o : Option (Value Number)
      o = some (number n)

      open (not_before_iff
          (as_numeric_date_ceil ext o)
          now
          h
          (as_numeric_date-IsI64 typed o ceil)) use {«0» as to, «1» as from}

      complete : HasBegun (some (number n)) now → check_nbf ext (some (number n)) now ≡ ok tt
      complete (inl e) = cc
      complete (inr (inl e)) = cc
      complete (inr (inr begun)) = from begun
  check_nbf_iff typed _ now h = (λ e. cc, λ e. ground (arith, e))
