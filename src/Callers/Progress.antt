-- ===== src/Callers/Progress.antt =====
-- The callers are never all stuck.
use auth_oidc.Prelude.{ℕ, ◌≡◌, refl, subst, ◌⊎◌, inl, inr, Bool, arith}
use auth_oidc.Error.{err, no_keys}
use auth_oidc.Cache.{JwksCache}
use auth_oidc.Cache.Limit.{Call}
use auth_oidc.Threads.{Pc, panicked}
use auth_oidc.Threads.Progress.{Reach-IsHeld}
use auth_oidc.Callers.{
  Caller, starting, refreshing, finished, look, CallSystem, CallStep, CallReach,
}
use auth_oidc.Callers.Refines.{CallReach-Reach}
use auth_oidc.Callers.Entered.{IsEntered, CallReach-IsEntered, entered_cases, stepped}
use auth_oidc.Callers.Next.{IsLive, live-Next}
use auth_oidc.Callers.Freed.{holder-HolderNext}

-- The caller has its result, or the fetch of its refresh has panicked.
abbrev pub IsOver : {T : Type 0} → Caller T → Type 0
IsOver starting = ⊥
IsOver (refreshing rotated p) = (now : ℕ) × (p ≡ panicked now)
IsOver (finished result) = Unit

module _ (c : JwksCache) {T : Type 0} (calls : ℕ → Call T) where
  -- In every state that the callers can reach, also after a panic in a fetch, each caller has its
  -- result, or has itself panicked, or some caller can take a step.
  pub finished_or_step :
      (s : CallSystem T) (i : ℕ)
      → CallReach c calls s
      → IsOver (s.at i) ⊎ ((t : CallSystem T) × CallStep c calls s t)
  finished_or_step s i r = go (s.at i) refl
    where
      live_step :
          (rotated : Bool) (p : Pc)
          → s.at i ≡ refreshing rotated p
          → IsLive {T = T} (refreshing rotated p)
          → (t : CallSystem T) × CallStep c calls s t
      live_step rotated p here live =
          elim (live-Next c (calls i) i (λ a. Unit) (err no_keys) tt s.mem rotated p live) [
            | inl (m', w', mv, alive, _) ↦ (_, stepped c calls s i here mv)
            | inr (now, holder, waits, taken) ↦
                let (m', w', mv, gives, _) =
                  holder-HolderNext c calls (λ a. Unit) (err no_keys) tt holder s.mem (s.at holder)
                    (Reach-IsHeld c (CallReach-Reach c calls s r) holder taken) in
                (_, CallStep.pick holder mv)
          ]

      go : (w : Caller T) → s.at i ≡ w → IsOver w ⊎ ((t : CallSystem T) × CallStep c calls s t)
      go starting here = inr (_, stepped c calls s i here look)
      go (finished result) here = inl tt
      go (refreshing rotated p) here =
          elim (entered_cases c calls (refreshing rotated p)
            (subst (IsEntered c calls) here (CallReach-IsEntered c calls r i))) [
              | inl (rotated', at, panic) ↦ inl (at, ground arith)
              | inr live ↦ inr (live_step rotated p here live)
            ]
