-- ===== src/Callers/Entered.antt =====
-- A caller that is in a refresh has entered it.
use auth_oidc.Prelude.{
  ℕ, ◌≡◌, ◌≢◌, refl, sym, subst, ◌⊎◌, inl, inr, Bool, true, false, ◌||◌, Option, none, some, arith,
  eqb, is_none, if◌then◌else◌, Bool-cases,
}
use auth_oidc.Error.{Result, ok, err}
use auth_oidc.Jwks.Key.{JwkSet}
use auth_oidc.Cache.{JwksCache, snapshot, try_all}
use auth_oidc.Cache.Limit.{Call}
use auth_oidc.Threads.{is_running, Shared, Pc, idle, panicked, Move, call}
use auth_oidc.Callers.{
  Caller, starting, refreshing, finished, or_refresh, look_in, after_snapshot, after_refresh,
  CallMove, look, inside, leave, CallSystem, set_at, CallStep, CallReach,
}
use auth_oidc.Callers.Next.{HasPanicked, IsLive}

module _ (c : JwksCache) {T : Type 0} (calls : ℕ → Call T) where
  -- A caller is never in a refresh that it has not entered.
  abbrev pub IsEntered : Caller T → Type 0
  IsEntered starting = Unit
  IsEntered (refreshing rotated p) = p ≢ idle
  IsEntered (finished result) = Unit

  or_refresh-IsEntered : (asked : Call T) (o : Option (Result T)) → IsEntered (or_refresh c asked o)
  or_refresh-IsEntered asked none = λ e. cc
  or_refresh-IsEntered asked (some r) = tt

  look_in-IsEntered : (asked : Call T) (keys : Option JwkSet) → IsEntered (look_in c asked keys)
  look_in-IsEntered asked none = tt
  look_in-IsEntered asked (some set) =
      or_refresh-IsEntered asked (try_all set asked.kid asked.check)

  after_snapshot-IsEntered :
      (asked : Call T) (o : Option JwkSet × Bool × Bool) → IsEntered (after_snapshot c asked o)
  unfolding after_snapshot
  after_snapshot-IsEntered asked (cached, stale, expired) =
      let keys = if expired then none else cached in
      elim (Bool-cases (is_none keys || stale)) [
        | inl refresh ↦ rw refresh (λ e. cc)
        | inr enough ↦ rw enough (look_in-IsEntered asked keys)
      ]

  after_refresh-IsEntered :
      (asked : Call T) (rotated : Bool) (result : Result (Option JwkSet))
      → IsEntered (after_refresh c asked rotated result)
  unfolding after_refresh
  after_refresh-IsEntered asked true (err why) = tt
  after_refresh-IsEntered asked false (err why) = tt
  after_refresh-IsEntered asked false (ok keys) = look_in-IsEntered asked keys
  after_refresh-IsEntered asked true (ok keys) = tt

  Move-ne-idle :
      {i : ℕ} {m m' : Shared} {p p' : Pc} → is_running p ≡ true → Move c i m p m' p' → p' ≢ idle
  Move-ne-idle running (call now wait) = cc
  Move-ne-idle running mv = λ e. ground arith

  CallMove-IsEntered :
      {i : ℕ} {m m' : Shared} {w : Caller T} (asked : Call T) {w' : Caller T}
      → CallMove c i asked m w m' w'
      → IsEntered w'
  CallMove-IsEntered {m = m} asked look =
      after_snapshot-IsEntered asked (snapshot c m.inner asked.now)
  CallMove-IsEntered asked (inside running mv) = Move-ne-idle running mv
  CallMove-IsEntered asked (leave {rotated} {now} {result}) =
      after_refresh-IsEntered asked rotated result

  pub CallReach-IsEntered : {s : CallSystem T} → CallReach c calls s → (j : ℕ) → IsEntered (s.at j)
  CallReach-IsEntered CallReach.start j = tt
  CallReach-IsEntered (CallReach.later r (CallStep.pick i mv)) j = elim (Bool-cases (eqb i j)) [
    | inl same ↦ rw same (CallMove-IsEntered (calls i) mv)
    | inr other ↦ rw other (CallReach-IsEntered r j)
  ]

  pub stepped :
      (s : CallSystem T) (i : ℕ) {w w' : Caller T} {m' : Shared}
      → s.at i ≡ w
      → CallMove c i (calls i) s.mem w m' w'
      → CallStep c calls s (record { mem = m'; at = set_at s.at i w' })
  stepped s i {w' = w'} {m'} here mv =
      CallStep.pick i (subst (λ u. CallMove c i (calls i) s.mem u m' w') (sym here) mv)

  -- A caller has panicked, or is live.
  pub entered_cases : (w : Caller T) → IsEntered w → HasPanicked w ⊎ IsLive w
  entered_cases (refreshing rotated (panicked at)) h = inl (rotated, at, refl)
  entered_cases (refreshing rotated idle) h = absurd (h refl)
  entered_cases w h = inr tt
