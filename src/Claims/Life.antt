-- ===== src/Claims/Life.antt =====
-- How long an accepted token may be cached, and what a broken clock does.
use auth_oidc.Prelude.{
  Option, zero, suc, subst, ℕ, ◌+◌, ◌-◌, ◌≤◌, ◌≡◌, ◌≢◌, refl, ap, ◌⊎◌, inl, inr, some, codes, true,
  arith, min,
}
use auth_oidc.Prelude.Int.{ℤ, pos, negsuc, pos_part, ◌+ℤ◌, ◌≤ℤ◌, ltb_ℤ, i64_max, IsI64}
use auth_oidc.Error.{ok}
use auth_oidc.Json.{Value, get}
use auth_oidc.Config.{clock_skew_secs, max_cache_ttl_secs}
use auth_oidc.External.{External}
use auth_oidc.Claims.{
  OidcVerifier, Principal, cache_ttl, as_numeric_date_floor, now_unix, validate_claims,
}
use auth_oidc.Claims.Times.{
  IsTyped, cache_ttl_lem, now_unix_of_IsBroken, IsBroken, as_numeric_date-IsI64,
}
use auth_oidc.Claims.Valid.{validate_claims_iff}

within :
    (exp : ℤ) (t ttl : ℕ)
    → ttl ≡ min max_cache_ttl_secs (pos_part exp - t)
    → (ttl ≡ 0) ⊎ (pos (ttl + t) ≤ℤ exp)
within exp t zero e = inl refl
within (pos x) t (suc ttl) e = inr (omega arith)
within (negsuc x) t (suc ttl) e = absurd (omega arith)

module _ (ext : External) (verifier : OidcVerifier) (claims : Value ext.Number) (p : Principal)
    (typed : IsTyped ext) where
  abbrev ExpiryAt : ℤ → Type 0
  ExpiryAt exp = as_numeric_date_floor ext (get (codes "exp") claims) ≡ some exp

  -- A principal accepted at time `t` may be cached for at most five minutes, and never beyond the
  -- expiry of its token: the lifetime is zero, or ends by the expiry. The clock and the numbers that
  -- are read are `i64`, and the time is not negative.
  pub ttl_bounds :
      (t : ℕ)
      → IsI64 (pos t)
      → validate_claims ext verifier claims (pos t) ≡ ok p
      → (exp : ℤ) × (ttl : ℕ) × ExpiryAt exp
        × (p.ttl_secs ≡ some ttl)
        × (ttl ≤ max_cache_ttl_secs)
        × ((ttl ≡ 0) ⊎ (pos (ttl + t) ≤ℤ exp))
  unfolding as_numeric_date_floor
  ttl_bounds t in_range h =
      let a = (validate_claims_iff ext verifier claims (pos t) typed in_range p).0 h in
      let range =
        as_numeric_date-IsI64 ext typed (get (codes "exp") claims) ext.floor a.exp a.expires in
      let ttl = cache_ttl_lem a.exp t range in
      (
        a.exp,
        cache_ttl a.exp (pos t),
        a.expires,
        ap (λ q. q.ttl_secs) a.named,
        omega (arith, ttl),
        within a.exp t (cache_ttl a.exp (pos t)) ttl,
      )

  -- With a clock that stands before 1970 or reads before 2026 no token is accepted whose expiry
  -- leaves more than the skew to the end of time, where the numbers that are read are `i64`.
  pub broken_clock :
      (clock : Option ℕ) (exp : ℤ)
      → IsBroken clock
      → ExpiryAt exp
      → ltb_ℤ (exp +ℤ pos clock_skew_secs) i64_max ≡ true
      → validate_claims ext verifier claims (now_unix clock) ≢ ok p
  broken_clock clock exp broken e far h =
      let late = now_unix_of_IsBroken clock broken in
      let h' = subst (λ now. validate_claims ext verifier claims now ≡ ok p) late h in
      let a = (validate_claims_iff ext verifier claims i64_max typed (omega arith) p).0 h' in
      let same : a.exp ≡ exp = cc (a.expires) in ground (arith, a.unexpired, same)
