-- ===== src/Callers/Answers.antt =====
-- Which answers the provider gives while the callers run.
use auth_oidc.Prelude.{ℕ, ◌≡◌, sym, subst, false}
use auth_oidc.Error.{Result}
use auth_oidc.Jwks.Key.{JwkSet}
use auth_oidc.Cache.{JwksCache}
use auth_oidc.Cache.Limit.{Call}
use auth_oidc.Threads.{Shared, is_running}
use auth_oidc.Threads.Answers.{Answers}
use auth_oidc.Callers.{
  Caller, CallMove, look, inside, leave, CallSystem, set_at, CallStep, CallReach,
}
use auth_oidc.Callers.Refines.{pc_of}

module _ (IsAllowed : Result JwkSet → Type 0) {c : JwksCache} {T : Type 0} where
  abbrev pub MoveAnswers :
      {i : ℕ} {asked : Call T} {m m' : Shared} {w w' : Caller T}
      → CallMove c i asked m w m' w'
      → Type 0
  MoveAnswers (inside running mv) = Answers IsAllowed mv
  MoveAnswers _ = Unit

  abbrev pub StepAnswers : {calls : ℕ → Call T} {s t : CallSystem T} → CallStep c calls s t → Type 0
  StepAnswers (CallStep.pick i mv) = MoveAnswers mv

  -- A run in which every answer is an allowed one, and no fetch panics.
  abbrev pub RunAnswers : {calls : ℕ → Call T} {s : CallSystem T} → CallReach c calls s → Type 0
  RunAnswers CallReach.start = Unit
  RunAnswers (CallReach.later r st) = RunAnswers r × StepAnswers st

  -- A step outside the refreshes has no answer.
  pub outside-MoveAnswers :
      {i : ℕ} {asked : Call T} {m m' : Shared} {w w' : Caller T} (mv : CallMove c i asked m w m' w')
      → is_running (pc_of w) ≡ false
      → MoveAnswers mv
  outside-MoveAnswers look h = tt
  outside-MoveAnswers (inside running mv) h = cc
  outside-MoveAnswers leave h = tt

  -- The step of caller `i`, who stands at `w`.
  pub answered_step :
      (calls : ℕ → Call T) (s : CallSystem T) (i : ℕ) {w w' : Caller T} {m' : Shared}
      → s.at i ≡ w
      → (mv : CallMove c i (calls i) s.mem w m' w') → MoveAnswers mv
      → (st : CallStep c calls s (record { mem = m'; at = set_at s.at i w' })) × StepAnswers st
  answered_step calls s i {w' = w'} {m'} here mv g =
      let (mv', g') =
        subst (λ u. (mv : CallMove c i (calls i) s.mem u m' w') × MoveAnswers mv) (sym here)
          (mv, g) in
      (CallStep.pick i mv', g')
