-- ===== src/Callers/Later.antt =====
-- The states that the callers can reach from a state.
use auth_oidc.Prelude.{ℕ}
use auth_oidc.Cache.{JwksCache}
use auth_oidc.Cache.Limit.{Call}
use auth_oidc.Callers.{CallSystem, CallStep, CallReach}

module _ (c : JwksCache) {T : Type 0} (calls : ℕ → Call T) where
  -- What any callers do, in any order, from one state to another.
  pub data Later (s : CallSystem T) : CallSystem T → Type 0 where
    yet : Later s s
    then_ : {t u : CallSystem T} → Later s t → CallStep c calls t u → Later s u

  pub Later-trans : {s t u : CallSystem T} → Later s t → Later t u → Later s u
  Later-trans before yet = before
  Later-trans before (then_ after st) = then_ (Later-trans before after) st

  pub Later-CallReach : {s t : CallSystem T} → CallReach c calls s → Later s t → CallReach c calls t
  Later-CallReach r yet = r
  Later-CallReach r (then_ before st) = CallReach.later (Later-CallReach r before) st
