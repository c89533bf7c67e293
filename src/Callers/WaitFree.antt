-- ===== src/Callers/WaitFree.antt =====
-- A caller that has keys to serve never queues for the gate.
use auth_oidc.Prelude.{
  ℕ, zero, suc, ◌≤◌, ◌≡◌, ◌≢◌, refl, sym, ◌⊎◌, inl, inr, Bool, false, some, arith, eqb, eqb_iff,
  Bool-cases, subst,
}
use auth_oidc.Error.{Result}
use auth_oidc.Jwks.Key.{JwkSet}
use auth_oidc.Cache.{JwksCache, past, snapshot}
use auth_oidc.Cache.Limit.{Call}
use auth_oidc.Threads.{Shared, Pc, idle, panicked, queued}
use auth_oidc.Callers.Ends.{budget, CallMove-budget}
use auth_oidc.Callers.{
  Caller, starting, refreshing, finished, after_snapshot, CallSystem, set_at, CallStep,
}
use auth_oidc.Callers.Solo.{CallRun, there, on, SoloAnswers}
use auth_oidc.Callers.Next.{HasPanicked, IsLive, Next, live-Next}
use auth_oidc.Callers.Later.{Later, yet, then_}
use auth_oidc.Callers.Patient.{IsPatient, NeverWaits, look-NeverWaits, CallMove-NeverWaits}

module _ (c : JwksCache) where
  module _ {T : Type 0} (asked : Call T) where
    -- The caller's own steps, with allowed answers and no panic, take it to its result.
    abbrev pub Finishes : (Result JwkSet → Type 0) → ℕ → Shared → Caller T → Type 0
    Finishes IsAllowed i m w =
        (m' : Shared) × (result : Result T) × (run : CallRun c i asked m' (finished result) m w)
        × SoloAnswers IsAllowed run

    module _ (IsAllowed : Result JwkSet → Type 0) (i : ℕ) (answer : Result JwkSet)
        (allowed : IsAllowed answer) where
      patient-Next :
          (m : Shared) (rotated : Bool) (p : Pc)
          → IsPatient p
          → IsLive {T = T} (refreshing rotated p)
          → Next c asked i IsAllowed m (refreshing rotated p)
      patient-Next m rotated p h live =
          elim (live-Next c asked i IsAllowed answer allowed m rotated p live) [
            | inl next ↦ next
            | inr (now, holder, here, taken) ↦ absurd (subst IsPatient here h)
          ]

      finishes :
          (n : ℕ) (m : Shared) (w : Caller T)
          → budget w ≤ n
          → NeverWaits w
          → IsLive w
          → Finishes IsAllowed i m w
      finishes n m starting bound h live = absurd h
      finishes n m (finished result) bound h live = (m, result, there, tt)
      finishes zero m (refreshing rotated p) bound h live =
          let (m', w', mv, alive, _) = patient-Next m rotated p h live in
          absurd (omega (arith, CallMove-budget c asked mv))
      finishes (suc n) m (refreshing rotated p) bound h live =
          let (m', w', mv, alive, g) = patient-Next m rotated p h live in
          let (last, result, run, given) =
            finishes n m' w' (omega (arith, CallMove-budget c asked mv))
              (CallMove-NeverWaits c asked mv h) alive in
          (last, result, on mv run, (g, given))

  module _ {T : Type 0} (calls : ℕ → Call T) where
    -- Caller `i` has looked at the cache.
    abbrev pub looked : CallSystem T → ℕ → CallSystem T
    looked s i =
        let w = after_snapshot c (calls i) (snapshot c s.mem.inner (calls i).now) in
        record { mem = s.mem; at = set_at s.at i w }

    Later-NeverWaits :
        {s t : CallSystem T} (i : ℕ) → Later c calls s t → NeverWaits (s.at i) → NeverWaits (t.at i)
    Later-NeverWaits i yet h = h
    Later-NeverWaits i (then_ {t = t} before (CallStep.pick j {m} {w} mv)) h =
        elim (Bool-cases (eqb j i)) [
          | inl same ↦
              let was : NeverWaits (t.at j) =
                subst (λ k. NeverWaits (t.at k)) (sym ((eqb_iff j i).0 same))
                  (Later-NeverWaits i before h) in
              rw same (CallMove-NeverWaits c (calls j) mv was)
          | inr other ↦ rw other (Later-NeverWaits i before h)
        ]

    IsLive-or : (w : Caller T) → NeverWaits w → HasPanicked w ⊎ IsLive w
    IsLive-or (refreshing rotated (panicked at)) h = inl (rotated, at, refl)
    IsLive-or (refreshing rotated idle) h = absurd h
    IsLive-or w h = inr tt

    NeverWaits-ne-queued :
        (w : Caller T) (rotated : Bool) (now : ℕ)
        → NeverWaits w
        → w ≢ refreshing rotated (queued now)
    NeverWaits-ne-queued w rotated now h = λ waits. subst NeverWaits waits h

    -- A caller looks at the cache while it holds keys within the ceiling. Whatever the others do
    -- after that and wherever they stop, also with the gate held: the caller is not in the queue for
    -- the gate; and whatever answers the provider is allowed to give, if there is one, the caller's
    -- own steps, in which it gives such answers and no fetch panics, take it to its result, unless
    -- the fetcher has panicked in its own refresh.
    pub look-Finishes :
        (s t : CallSystem T) (i : ℕ) (set : JwkSet) (IsAllowed : Result JwkSet → Type 0)
        (answer : Result JwkSet)
        → IsAllowed answer
        → s.mem.inner.keys ≡ some set
        → past s.mem.inner.fetched_at (calls i).now c.max_stale false ≡ false
        → Later c calls (looked s i) t
        → ((rotated : Bool) (now : ℕ) → t.at i ≢ refreshing rotated (queued now))
          × (HasPanicked (t.at i) ⊎ Finishes (calls i) IsAllowed i t.mem (t.at i))
    look-Finishes s t i set IsAllowed answer allowed kept young run =
        let first : NeverWaits ((looked s i).at i) =
          rw ((eqb_iff i i).1 refl) (look-NeverWaits c (calls i) s.mem.inner set kept young) in
        let patient = Later-NeverWaits i run first in
        (
          λ rotated now. NeverWaits-ne-queued (t.at i) rotated now patient,
          elim (IsLive-or (t.at i) patient) [
            | inl panic ↦ inl panic
            | inr live ↦ inr (
                finishes (calls i) IsAllowed i answer allowed (budget (t.at i)) t.mem (t.at i)
                  (omega arith) patient live)
          ],
        )
