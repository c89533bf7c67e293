-- ===== src/Callers/Patient.antt =====
-- The places in a call of `with_key` from which it never queues for the gate.
use auth_oidc.Prelude.{
  ℕ, ◌≡◌, refl, inl, inr, Bool, true, false, Option, none, some, arith, Bool-cases, subst,
}
use auth_oidc.Error.{Result, ok, err}
use auth_oidc.Jwks.Key.{JwkSet}
use auth_oidc.Cache.{JwksCache, Inner, past, admit, proceed, snapshot, try_all}
use auth_oidc.Cache.Limit.{Call}
use auth_oidc.Threads.{
  is_running, Shared, Pc, idle, entering, at_gate, queued, Move, call, admitted, queue, finish,
  caught,
}
use auth_oidc.Callers.{
  Caller, starting, refreshing, finished, or_refresh, look_in, after_snapshot, after_refresh,
  CallMove, look, inside, leave,
}

-- A place in `refresh` from which no path leads into the queue for the gate.
abbrev pub IsPatient : Pc → Type 0
IsPatient idle = ⊥
IsPatient (entering now wait) = wait ≡ false
IsPatient (at_gate now desperate) = desperate ≡ false
IsPatient (queued now) = ⊥
IsPatient _ = Unit

abbrev pub NeverWaits : {T : Type 0} → Caller T → Type 0
NeverWaits starting = ⊥
NeverWaits (refreshing rotated p) = IsPatient p
NeverWaits (finished result) = Unit

module _ (c : JwksCache) where
  admit-patient :
      (inner : Inner) (now : ℕ) {desperate : Bool}
      → admit c inner now false ≡ proceed desperate
      → desperate ≡ false
  unfolding admit
  admit-patient inner now e = ground arith

  pub Move-IsPatient :
      {i : ℕ} {m m' : Shared} {p p' : Pc}
      → is_running p ≡ true
      → Move c i m p m' p'
      → IsPatient p
      → IsPatient p'
  Move-IsPatient running (call now wait) h = cc
  Move-IsPatient {m = m} running (admitted {now} {desperate = desperate} e) h =
      admit-patient m.inner now (subst (λ w. admit c m.inner now w ≡ proceed desperate) h e)
  Move-IsPatient running (queue taken) h = cc
  Move-IsPatient running finish h = cc
  Move-IsPatient running caught h = cc
  Move-IsPatient running mv h = tt

  module _ {T : Type 0} (asked : Call T) where
    or_refresh-NeverWaits : (o : Option (Result T)) → NeverWaits (or_refresh c asked o)
    or_refresh-NeverWaits none = refl
    or_refresh-NeverWaits (some r) = tt

    look_in-NeverWaits : (keys : Option JwkSet) → NeverWaits (look_in c asked keys)
    look_in-NeverWaits none = tt
    look_in-NeverWaits (some set) = or_refresh-NeverWaits (try_all set asked.kid asked.check)

    after_refresh-NeverWaits :
        (rotated : Bool) (result : Result (Option JwkSet))
        → NeverWaits (after_refresh c asked rotated result)
    unfolding after_refresh
    after_refresh-NeverWaits true (err why) = tt
    after_refresh-NeverWaits false (err why) = tt
    after_refresh-NeverWaits false (ok keys) = look_in-NeverWaits keys
    after_refresh-NeverWaits true (ok keys) = tt

    -- The first look at keys within the ceiling.
    pub look-NeverWaits :
        (inner : Inner) (set : JwkSet)
        → inner.keys ≡ some set
        → past inner.fetched_at asked.now c.max_stale false ≡ false
        → NeverWaits (after_snapshot c asked (snapshot c inner asked.now))
    unfolding after_snapshot snapshot
    look-NeverWaits inner set kept young =
        rw (young, kept)
          (elim (Bool-cases (past inner.fetched_at asked.now c.ttl true)) [
            | inl stale ↦ rw stale refl
            | inr enough ↦ rw enough (look_in-NeverWaits (some set))
          ])

    pub CallMove-NeverWaits :
        {i : ℕ} {m m' : Shared} {w w' : Caller T}
        → CallMove c i asked m w m' w'
        → NeverWaits w
        → NeverWaits w'
    CallMove-NeverWaits look h = absurd h
    CallMove-NeverWaits (inside running mv) h = Move-IsPatient running mv h
    CallMove-NeverWaits (leave {rotated} {now} {result}) h = after_refresh-NeverWaits rotated result
