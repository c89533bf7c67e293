-- ===== src/Callers/Onward.antt =====
-- What the callers can still do while the provider gives allowed answers.
use auth_oidc.Prelude.{ℕ}
use auth_oidc.Error.{Result}
use auth_oidc.Jwks.Key.{JwkSet}
use auth_oidc.Cache.{JwksCache}
use auth_oidc.Cache.Limit.{Call}
use auth_oidc.Callers.{CallSystem, CallStep, CallReach}
use auth_oidc.Callers.Answers.{StepAnswers, RunAnswers}

module _ (c : JwksCache) {T : Type 0} (calls : ℕ → Call T)
    (IsAllowed : Result JwkSet → Type 0) where
  -- What any callers do, in any order, from one state to another, while every answer is an allowed
  -- one and no fetch panics.
  pub data Onward (s : CallSystem T) : CallSystem T → Type 0 where
    still : Onward s s
    onward :
        {t u : CallSystem T}
        → Onward s t
        → (st : CallStep c calls t u) → StepAnswers IsAllowed st
        → Onward s u

  pub Onward-trans : {s t u : CallSystem T} → Onward s t → Onward t u → Onward s u
  Onward-trans before still = before
  Onward-trans before (onward after st g) = onward (Onward-trans before after) st g

  unfoldable pub Onward-CallReach :
      {s t : CallSystem T} → CallReach c calls s → Onward s t → CallReach c calls t
  Onward-CallReach r still = r
  Onward-CallReach r (onward before st g) = CallReach.later (Onward-CallReach r before) st

  pub Onward-RunAnswers :
      {s t : CallSystem T} (r : CallReach c calls s) (l : Onward s t)
      → RunAnswers IsAllowed r
      → RunAnswers IsAllowed (Onward-CallReach r l)
  unfolding Onward-CallReach
  Onward-RunAnswers r still given = given
  Onward-RunAnswers r (onward before st g) given = (Onward-RunAnswers r before given, g)
