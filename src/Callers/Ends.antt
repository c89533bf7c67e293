-- ===== src/Callers/Ends.antt =====
-- A call of `with_key` takes a bounded number of steps.
use auth_oidc.Prelude.{
  ℕ, ◌+◌, ◌≤◌, ◌<◌, ◌≡◌, ap, inl, inr, Bool, true, false, ◌||◌, Option, none, some, arith, eqb,
  eqb_iff, is_none, if◌then◌else◌, Bool-cases,
}
use auth_oidc.Error.{Result, ok, err}
use auth_oidc.Jwks.Key.{JwkSet}
use auth_oidc.Cache.{JwksCache, snapshot, try_all}
use auth_oidc.Cache.Limit.{Call}
use auth_oidc.Threads.{
  is_running, Shared, Pc, idle, entering, at_gate, turned_back, queued, holding, fetching, settling,
  releasing, returned, panicked, Move, call,
}
use auth_oidc.Callers.{
  Caller, starting, refreshing, finished, or_refresh, look_in, after_snapshot, after_refresh,
  CallMove, look, inside, leave, CallSystem, CallStep, CallReach, all_starting,
}

-- How many steps a call of `refresh` may still take, its return included.
abbrev rank : Pc → ℕ
rank idle = 0
rank (entering now wait) = 8
rank (at_gate now desperate) = 7
rank (turned_back now) = 2
rank (queued now) = 6
rank (holding now desperate) = 5
rank (fetching now) = 4
rank (settling now answer) = 3
rank (releasing now result) = 2
rank (returned now result) = 1
rank (panicked now) = 0

Move-rank :
    {c : JwksCache} {i : ℕ} {m m' : Shared} {p p' : Pc}
    → is_running p ≡ true
    → Move c i m p m' p'
    → rank p' < rank p
Move-rank running (call now wait) = cc
Move-rank running mv = ground arith

module _ {T : Type 0} where
  abbrev pub budget : Caller T → ℕ
  budget starting = 17
  budget (refreshing true p) = rank p
  budget (refreshing false p) = 8 + rank p
  budget (finished result) = 0

  module _ (c : JwksCache) (asked : Call T) where
    budget-or_refresh : (o : Option (Result T)) → budget (or_refresh c asked o) ≤ 8
    budget-or_refresh none = omega arith
    budget-or_refresh (some r) = omega arith

    budget-look_in : (keys : Option JwkSet) → budget (look_in c asked keys) ≤ 8
    budget-look_in none = omega arith
    budget-look_in (some set) = budget-or_refresh (try_all set asked.kid asked.check)

    budget-after_snapshot :
        (o : Option JwkSet × Bool × Bool) → budget (after_snapshot c asked o) < 17
    unfolding after_snapshot
    budget-after_snapshot (cached, stale, expired) =
        let keys = if expired then none else cached in
        elim (Bool-cases (is_none keys || stale)) [
          | inl refresh ↦ rw refresh (omega arith)
          | inr enough ↦ rw enough (omega (arith, budget-look_in keys))
        ]

    budget-after_refresh :
        (rotated : Bool) (now : ℕ) (result : Result (Option JwkSet))
        → budget (after_refresh c asked rotated result)
          < budget (refreshing rotated (returned now result))
    unfolding after_refresh
    budget-after_refresh true now (err why) = omega arith
    budget-after_refresh false now (err why) = omega arith
    budget-after_refresh false now (ok keys) = omega (arith, budget-look_in keys)
    budget-after_refresh true now (ok keys) = omega arith

    budget-inside :
        (rotated : Bool) (p p' : Pc)
        → rank p' < rank p
        → budget (refreshing rotated p') < budget (refreshing rotated p)
    budget-inside true p p' h = h
    budget-inside false p p' h = omega arith

    pub CallMove-budget :
        {i : ℕ} {m m' : Shared} {w w' : Caller T}
        → CallMove c i asked m w m' w'
        → budget w' < budget w
    CallMove-budget {m = m} look = budget-after_snapshot (snapshot c m.inner asked.now)
    CallMove-budget (inside {rotated} {p} {p'} running mv) =
        budget-inside rotated p p' (Move-rank running mv)
    CallMove-budget (leave {rotated} {now} {result}) = budget-after_refresh rotated now result

module _ (c : JwksCache) {T : Type 0} (calls : ℕ → Call T) where
  -- A schedule: the steps of the callers, in the order in which they are taken.
  pub data Schedule : CallSystem T → Type 0 where
    nothing : Schedule all_starting
    then_ : {s t : CallSystem T} → Schedule s → CallStep c calls s t → Schedule t

  unfoldable pub Schedule-CallReach : {s : CallSystem T} → Schedule s → CallReach c calls s
  Schedule-CallReach nothing = CallReach.start
  Schedule-CallReach (then_ schedule st) = CallReach.later (Schedule-CallReach schedule) st

  abbrev pub steps_of : {s : CallSystem T} → Schedule s → ℕ → ℕ
  steps_of nothing j = 0
  steps_of (then_ earlier (CallStep.pick i mv)) j = steps_of earlier j + (if eqb i j then 1 else 0)

  steps-budget-le :
      {s : CallSystem T} (schedule : Schedule s) (j : ℕ)
      → steps_of schedule j + budget (s.at j) ≤ 17
  steps-budget-le nothing j = omega arith
  steps-budget-le (then_ {s} earlier (CallStep.pick i {m} {w} mv)) j = elim (Bool-cases (eqb i j)) [
    | inl same ↦ rw same (
        omega (
          arith,
          CallMove-budget c (calls i) mv,
          steps-budget-le earlier j,
          ap (λ k. budget (s.at k)) ((eqb_iff i j).0 same),
        ))
    | inr other ↦ rw other (omega (arith, steps-budget-le earlier j))
  ]

  -- In every schedule, and whatever the provider answers, a call of `with_key` takes at most
  -- seventeen steps.
  pub steps-le : (s : CallSystem T) (schedule : Schedule s) (j : ℕ) → steps_of schedule j ≤ 17
  steps-le s schedule j = omega (arith, steps-budget-le schedule j)
