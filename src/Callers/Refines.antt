-- ===== src/Callers/Refines.antt =====
-- The callers' steps are steps of the threads that refresh.
use auth_oidc.Prelude.{
  ℕ, ◌≡◌, refl, sym, ap, ◌∙◌, subst, fun_ext, inl, inr, Bool, true, false, eqb, eqb_iff,
  if◌then◌else◌, is_none, ◌||◌, Option, none, some, Bool-cases,
}
use auth_oidc.Error.{Result, ok, err}
use auth_oidc.Jwks.Key.{JwkSet}
use auth_oidc.Cache.{JwksCache, snapshot, try_all}
use auth_oidc.Cache.Limit.{Call}
use auth_oidc.Threads.{Shared, Pc, idle, Move, call, finish, System, update, Step, Reach}
use auth_oidc.Callers.{
  Caller, starting, refreshing, finished, or_refresh, look_in, after_snapshot, after_refresh,
  CallMove, look, inside, leave, CallSystem, set_at, CallStep, CallReach,
}
use auth_oidc.Threads.Solo.{Run, done, step}

module _ {T : Type 0} where
  -- Where the caller stands in `refresh`.
  abbrev pub pc_of : Caller T → Pc
  pc_of starting = idle
  pc_of (refreshing rotated p) = p
  pc_of (finished result) = idle

  abbrev pub threads_of : CallSystem T → System
  threads_of s = record { mem = s.mem; pc = λ j. pc_of (s.at j) }

module _ (c : JwksCache) where
  -- Functions that agree are the same.
  land :
      {m : Shared} {pc pc' : ℕ → Pc}
      → ((j : ℕ) → pc j ≡ pc' j)
      → Reach c (record { mem = m; pc = pc })
      → Reach c (record { mem = m; pc = pc' })
  land {m} h r = subst (λ pc. Reach c (record { mem = m; pc = pc })) (fun_ext h) r

  update_self : (pc : ℕ → Pc) (i : ℕ) (p : Pc) → pc i ≡ p → (j : ℕ) → pc j ≡ update pc i p j
  update_self pc i p here j = elim (Bool-cases (eqb i j)) [
    | inl same ↦ rw same (sym (ap pc ((eqb_iff i j).0 same)) ∙ here)
    | inr other ↦ rw other refl
  ]

  update_twice :
      (pc : ℕ → Pc) (i : ℕ) (p q : Pc) (j : ℕ) → update (update pc i p) i q j ≡ update pc i q j
  update_twice pc i p q j = elim (Bool-cases (eqb i j)) [
    | inl same ↦ rw same refl
    | inr other ↦ rw other refl
  ]

  update_here : (pc : ℕ → Pc) (i : ℕ) (p : Pc) → update pc i p i ≡ p
  update_here pc i p = rw ((eqb_iff i i).1 refl) refl

  Run-Reach :
      (i : ℕ) {m' : Shared} {p' : Pc} (pc : ℕ → Pc) {m : Shared} {p : Pc}
      → Run c i m' p' m p
      → pc i ≡ p
      → Reach c (record { mem = m; pc = pc })
      → Reach c (record { mem = m'; pc = update pc i p' })
  Run-Reach i {p' = p'} pc done here r = land (update_self pc i p' here) r
  Run-Reach i {p' = p'} pc (step {m = k} {n = n} {q = q} mv rest) here r =
      let moved = Reach.later r (Step.pick i (subst (λ p. Move c i k p n q) (sym here) mv)) in
      land (update_twice pc i q p') (Run-Reach i (update pc i q) rest (update_here pc i q) moved)

  module _ {T : Type 0} (i : ℕ) (asked : Call T) (m : Shared) where
    or_refresh-Run : (o : Option (Result T)) → Run c i m (pc_of (or_refresh c asked o)) m idle
    or_refresh-Run none = step (call asked.now false) done
    or_refresh-Run (some r) = done

    look_in-Run : (keys : Option JwkSet) → Run c i m (pc_of (look_in c asked keys)) m idle
    look_in-Run none = done
    look_in-Run (some set) = or_refresh-Run (try_all set asked.kid asked.check)

    after_snapshot-Run :
        (o : Option JwkSet × Bool × Bool) → Run c i m (pc_of (after_snapshot c asked o)) m idle
    unfolding after_snapshot
    after_snapshot-Run (cached, stale, expired) =
        let keys = if expired then none else cached in
        elim (Bool-cases (is_none keys || stale)) [
          | inl refresh ↦ rw refresh (step (call asked.now (is_none keys)) done)
          | inr enough ↦ rw enough (look_in-Run keys)
        ]

    after_refresh-Run :
        (rotated : Bool) (result : Result (Option JwkSet))
        → Run c i m (pc_of (after_refresh c asked rotated result)) m idle
    unfolding after_refresh
    after_refresh-Run rotated (err why) = done
    after_refresh-Run false (ok keys) = look_in-Run keys
    after_refresh-Run true (ok keys) = done

    -- A step of a caller is no step, one or two of the thread that refreshes.
    CallMove-Run :
        {w w' : Caller T} {m' : Shared}
        → CallMove c i asked m w m' w'
        → Run c i m' (pc_of w') m (pc_of w)
    CallMove-Run look = after_snapshot-Run (snapshot c m.inner asked.now)
    CallMove-Run (inside running mv) = step mv done
    CallMove-Run (leave {rotated} {now} {result}) = step finish (after_refresh-Run rotated result)

  module _ {T : Type 0} (calls : ℕ → Call T) where
    pc_of-set_at :
        (at : ℕ → Caller T) (i : ℕ) (w : Caller T) (j : ℕ)
        → update (λ k. pc_of (at k)) i (pc_of w) j ≡ pc_of (set_at at i w j)
    pc_of-set_at at i w j = elim (Bool-cases (eqb i j)) [
      | inl same ↦ rw same refl
      | inr other ↦ rw other refl
    ]

    -- Whatever the callers do, the threads that refresh for them could do by themselves: forgetting
    -- the calls around the refreshes maps every state that the callers can reach to one that the
    -- threads can reach.
    pub CallReach-Reach : (s : CallSystem T) → CallReach c calls s → Reach c (threads_of s)
    CallReach-Reach s CallReach.start = Reach.start
    CallReach-Reach s (CallReach.later {s = t} r (CallStep.pick i {w = w} mv)) =
        land (pc_of-set_at t.at i w) (
          Run-Reach i (λ j. pc_of (t.at j)) (CallMove-Run i (calls i) t.mem mv) refl
            (CallReach-Reach t r))
