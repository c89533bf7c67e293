-- ===== src/Callers/Undisturbed.antt =====
-- A call of `with_key` that no other caller disturbs, against the sequential `with_key`.
use auth_oidc.Prelude.{
  ℕ, zero, suc, ◌≤◌, ◌≡◌, refl, sym, ap, ◌∙◌, ◌↔◌, inl, inr, Bool, true, false, Option, none, subst,
  arith,
}
use auth_oidc.Error.{Result}
use auth_oidc.External.{External}
use auth_oidc.Cache.{JwksCache, Store, fetched, snapshot, with_key}
use auth_oidc.Cache.Limit.{Call}
use auth_oidc.Threads.{
  Shared, Pc, critical, is_running, Move, call, turned_away, admitted, try_lock, try_poisoned,
  would_block, read_back, queue, wake, satisfied, claim, answered, panics, settled, release, finish,
  caught,
}
use auth_oidc.Callers.{
  Caller, starting, refreshing, finished, after_snapshot, CallMove, look, inside, leave,
}
use auth_oidc.Callers.Answers.{MoveAnswers}
use auth_oidc.Callers.Refines.{pc_of}
use auth_oidc.Callers.Ends.{budget, CallMove-budget}
use auth_oidc.Callers.Next.{IsLive, Next, live-Next, after_snapshot-IsLive}
use auth_oidc.Callers.Solo.{CallRun, there, on, counted, counted_in, Fetches}
use auth_oidc.Callers.Meaning.{store_of, meaning, CallMove-meaning}

module _ (ext : External) (c : JwksCache) {T : Type 0} (asked : Call T) (i : ℕ) where
  -- Nobody but the caller has the gate.
  abbrev IsAlone : Shared → Caller T → Type 0
  IsAlone m w = critical (pc_of w) ≡ false → m.gate ≡ none

  Move-gate :
      {m m' : Shared} {p p' : Pc}
      → is_running p ≡ true
      → Move c i m p m' p'
      → (critical p ≡ false → m.gate ≡ none)
      → critical p' ≡ false
      → m'.gate ≡ none
  Move-gate running (call now wait) free out = cc
  Move-gate running (turned_away e) free out = free refl
  Move-gate running (admitted e) free out = free refl
  Move-gate running (try_lock untaken clean) free out = cc
  Move-gate running (try_poisoned untaken dirty) free out = cc
  Move-gate running (would_block taken) free out = free refl
  Move-gate running read_back free out = free refl
  Move-gate running (queue taken) free out = free refl
  Move-gate running (wake untaken) free out = cc
  Move-gate running (satisfied e) free out = cc
  Move-gate running (claim e) free out = cc
  Move-gate running (answered answer) free out = cc
  Move-gate running panics free out = refl
  Move-gate running settled free out = cc
  Move-gate running release free out = refl
  Move-gate running finish free out = cc
  Move-gate running caught free out = cc

  CallMove-IsAlone :
      {m m' : Shared} {w w' : Caller T} → CallMove c i asked m w m' w' → IsAlone m w → IsAlone m' w'
  CallMove-IsAlone look free out = free refl
  CallMove-IsAlone (inside running mv) free out = Move-gate running mv free out
  CallMove-IsAlone leave free out = free refl

  -- A run alone ends as the sequential code does from where it begins.
  run-meaning :
      {m' : Shared} {result : Result T} {m : Shared} {w : Caller T} (k : ℕ)
      (run : CallRun c i asked m' (finished result) m w)
      → Fetches ext k run
      → IsAlone m w
      → (meaning ext c asked m.inner k w ≡ (result, store_of ext c m'.inner (counted_in k run)))
        × (m'.gate ≡ none)
  run-meaning k there g free = (refl, free refl)
  run-meaning k (on mv rest) (g, gs) free =
      let (same, open_gate) = run-meaning (counted k mv) rest gs (CallMove-IsAlone mv free) in
      (sym (CallMove-meaning ext c asked k mv g free) ∙ same, open_gate)

  -- The caller alone, whose requests, numbered from `k`, have the answers of the cache's fetcher, can
  -- end with the result, leaving this in the store and the gate so.
  pub record CanEnd (m : Shared) (k : ℕ) (w : Caller T) (result : Result T) (s : Store)
      (gate : Option ℕ) : Type 0 where
    pub after : Shared
    pub run : CallRun c i asked after (finished result) m w
    pub fetches : Fetches ext k run
    pub leaves : store_of ext c after.inner (counted_in k run) ≡ s
    pub gate_after : after.gate ≡ gate

  moved-CanEnd :
      {m n : Shared} {w u : Caller T} (k : ℕ) {result : Result T} {s : Store} {gate : Option ℕ}
      (mv : CallMove c i asked m w n u)
      → MoveAnswers (λ answer. answer ≡ fetched ext c k) mv
      → CanEnd n (counted k mv) u result s gate
      → CanEnd m k w result s gate
  moved-CanEnd k mv g e = record {
    after = e.after;
    run = on mv e.run;
    fetches = (g, e.fetches);
    leaves = e.leaves;
    gate_after = e.gate_after;
  }

  -- A run alone exists.
  abbrev Ends : Shared → ℕ → Caller T → Type 0
  Ends m k w = (result : Result T) × (s : Store) × (gate : Option ℕ) × CanEnd m k w result s gate

  alone-Next :
      (m : Shared) (k : ℕ) (rotated : Bool) (p : Pc)
      → IsLive {T = T} (refreshing rotated p)
      → IsAlone m (refreshing rotated p)
      → Next c asked i (λ answer. answer ≡ fetched ext c k) m (refreshing rotated p)
  alone-Next m k rotated p live free =
      elim (live-Next c asked i (λ answer. answer ≡ fetched ext c k) (fetched ext c k) refl m
        rotated p live) [
          | inl next ↦ next
          | inr (now, holder, waits, taken) ↦
              absurd (ground (arith, free (ap critical waits), taken))
        ]

  ends :
      (n : ℕ) (m : Shared) (k : ℕ) (w : Caller T)
      → budget w ≤ n
      → IsLive w
      → IsAlone m w
      → Ends m k w
  ends n m k (finished result) bound live free = (
    result,
    store_of ext c m.inner k,
    m.gate,
    record { after = m; run = there; fetches = tt; leaves = refl; gate_after = refl },
  )
  ends zero m k starting bound live free = absurd (omega (arith, bound))
  ends (suc n) m k starting bound live free =
      let mv : CallMove c i asked m starting m
          (after_snapshot c asked (snapshot c m.inner asked.now)) =
        look in
      let (result, s, gate, e) =
        ends n m k (after_snapshot c asked (snapshot c m.inner asked.now))
          (omega (arith, CallMove-budget c asked mv))
          (after_snapshot-IsLive c asked (snapshot c m.inner asked.now)) (λ out. free refl) in
      (result, s, gate, moved-CanEnd k look tt e)
  ends zero m k (refreshing rotated p) bound live free =
      let (m', w', mv, alive, g) = alone-Next m k rotated p live free in
      absurd (omega (arith, CallMove-budget c asked mv))
  ends (suc n) m k (refreshing rotated p) bound live free =
      let (m', w', mv, alive, g) = alone-Next m k rotated p live free in
      let (result, s, gate, e) =
        ends n m' (counted k mv) w' (omega (arith, CallMove-budget c asked mv)) alive
          (CallMove-IsAlone mv free) in
      (result, s, gate, moved-CanEnd k mv g e)

  CanEnd-with_key :
      (m : Shared) (k : ℕ) (result : Result T) (s : Store) (gate : Option ℕ)
      → m.gate ≡ none
      → CanEnd m k starting result s gate
      → (with_key ext c asked.kid asked.now asked.check (store_of ext c m.inner k) ≡ (result, s))
        × (gate ≡ none)
  CanEnd-with_key m k result s gate free e =
      let (same, open_gate) = run-meaning k e.run e.fetches (λ out. free) in
      (same ∙ ap (λ t. (result, t)) e.leaves, sym e.gate_after ∙ open_gate)

  -- A call of `with_key` that finds the gate free, poisoned or not, and that no other caller
  -- disturbs, where the requests have the answers of the cache's fetcher and none panics: it can end
  -- with a result, a store and a gate exactly if the sequential `with_key` gives that result and that
  -- store, and the gate is free. So there is a run in which it ends, and each such run ends so.
  pub with_key-EndsAs :
      (m : Shared) (k : ℕ) (result : Result T) (s : Store) (gate : Option ℕ)
      → m.gate ≡ none
      → CanEnd m k starting result s gate ↔ (
          (with_key ext c asked.kid asked.now asked.check (store_of ext c m.inner k) ≡ (result, s))
          × (gate ≡ none))
  with_key-EndsAs m k result s gate free = (CanEnd-with_key m k result s gate free, from)
    where
      from :
          (with_key ext c asked.kid asked.now asked.check (store_of ext c m.inner k) ≡ (result, s))
            × (gate ≡ none)
          → CanEnd m k starting result s gate
      from (same, open_gate) =
          let (result', s', gate', e) =
            ends (budget {T = T} starting) m k starting (omega arith) tt (λ out. free) in
          let (same', open_gate') = CanEnd-with_key m k result' s' gate' free e in
          subst (CanEnd m k starting result s) (open_gate' ∙ sym open_gate)
            (subst (λ q. CanEnd m k starting q.0 q.1 gate') (sym same' ∙ same) e)
