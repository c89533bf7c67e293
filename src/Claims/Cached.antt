-- ===== src/Claims/Cached.antt =====
-- What a verdict that is cached for its lifetime still says.
use auth_oidc.Prelude.{
  ℕ, ◌+◌, ◌-◌, ◌≤◌, ◌≡◌, sym, ap, ◌∙◌, inl, inr, Option, some, codes, arith, min,
}
use auth_oidc.Prelude.Int.{ℤ, pos, negsuc, pos_part, ◌+ℤ◌, ◌≤ℤ◌, IsI64}
use auth_oidc.Error.{ok}
use auth_oidc.Json.{Value, get}
use auth_oidc.Config.{clock_skew_secs, max_cache_ttl_secs}
use auth_oidc.External.{External}
use auth_oidc.Claims.{OidcVerifier, Principal, cache_ttl, as_numeric_date_floor, validate_claims}
use auth_oidc.Claims.Times.{IsTyped, HasBegun, cache_ttl_lem, as_numeric_date-IsI64}
use auth_oidc.Claims.Valid.{validate_claims_iff}

-- Within the lifetime the expiry, with its skew, does not pass.
unexpired_later :
    (exp : ℤ) (t later : ℕ)
    → pos t ≤ℤ exp +ℤ pos clock_skew_secs
    → later ≤ t + min max_cache_ttl_secs (pos_part exp - t)
    → pos later ≤ℤ exp +ℤ pos clock_skew_secs
unfolding ◌+ℤ◌
unexpired_later (pos x) t later h k = ground arith
unexpired_later (negsuc x) t later h k = ground arith

module _ (ext : External) (verifier : OidcVerifier) (claims : Value ext.Number)
    (typed : IsTyped ext) where
  begun_later :
      (o : Option (Value ext.Number)) (t later : ℕ)
      → t ≤ later
      → HasBegun ext o (pos t)
      → HasBegun ext o (pos later)
  begun_later o t later h (inl absent) = inl absent
  begun_later o t later h (inr (inl absent)) = inr (inl absent)
  begun_later o t later h (inr (inr (nbf, read, begun))) = inr (inr (nbf, read, omega arith))

  -- A principal that is accepted may be served from a cache for its lifetime: at every time until that
  -- has passed, the same claims are still accepted, with the same name, display name and roles. The
  -- clock and the numbers that are read are `i64`, and the time is not negative.
  pub cached-validate :
      (t later ttl : ℕ) (p : Principal)
      → IsI64 (pos t)
      → IsI64 (pos later)
      → validate_claims ext verifier claims (pos t) ≡ ok p
      → p.ttl_secs ≡ some ttl
      → t ≤ later
      → later ≤ t + ttl
      → (left : ℕ) × (validate_claims ext verifier claims (pos later)
          ≡ ok (record p { ttl_secs = some left }))
  unfolding as_numeric_date_floor
  cached-validate t later ttl p in_range in_range' h lives after before =
      let a = (validate_claims_iff ext verifier claims (pos t) typed in_range p).0 h in
      let range =
        as_numeric_date-IsI64 ext typed (get (codes "exp") claims) ext.floor a.exp a.expires in
      let left = cache_ttl a.exp (pos later) in
      let same : some ttl ≡ some (cache_ttl a.exp (pos t)) =
        sym lives ∙ ap (λ q. q.ttl_secs) a.named in
      let whole : ttl ≡ cache_ttl a.exp (pos t) = ground arith in
      let span : ttl ≡ min max_cache_ttl_secs (pos_part a.exp - t) =
        whole ∙ cache_ttl_lem a.exp t range in
      (
        left,
        (validate_claims_iff ext verifier claims (pos later) typed in_range'
              (record p { ttl_secs = some left })).1
            (record {
              issuer = a.issuer;
              audience = a.audience;
              exp = a.exp;
              expires = a.expires;
              unexpired = unexpired_later a.exp t later a.unexpired (omega (arith, span));
              begun = begun_later _ t later after a.begun;
              groups_listed = a.groups_listed;
              subject = a.subject;
              anchored = a.anchored;
              named =
                  ap {A = Principal} {B = Principal} (λ q. record q { ttl_secs = some left })
                    a.named;
            }),
      )
