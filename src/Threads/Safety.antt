-- ===== src/Threads/Safety.antt =====
-- What the threads that share one cache can count on, in every interleaving.
use auth_oidc.Prelude.{ℕ, ◌<◌, ◌≡◌, sym, ◌∙◌, subst, some, true, arith}
use auth_oidc.Error.{ok}
use auth_oidc.Jwks.Key.{JwkSet}
use auth_oidc.Cache.{JwksCache}
use auth_oidc.Threads.{System, returned, critical, Reach}
use auth_oidc.Threads.Invariant.{Spaced, IsRecent, Returns}
use auth_oidc.Threads.Moves.{Reach-Inv, Reach-Returns}

module _ (c : JwksCache) where
  open c use {max_stale}

  -- At most one thread at a time is between the acquisition of the gate and its release, and so at
  -- most one fetch is under way.
  pub single_flight :
      (s : System) (i j : ℕ)
      → Reach c s
      → critical (s.pc i) ≡ true
      → critical (s.pc j) ≡ true
      → i ≡ j
  single_flight s i j r at_i at_j =
      let inv = Reach-Inv c r in
      let same : some i ≡ some j = sym (inv.owned i at_i) ∙ inv.owned j at_j in ground arith

  -- However the threads interleave, whatever times their calls are given and whatever the provider
  -- answers, each request came at least the refetch interval after the one before.
  pub requests-Spaced : (s : System) → Reach c s → Spaced c s.mem.attempts
  requests-Spaced s r = (Reach-Inv c r).spaced

  -- Whatever keys a refresh returns to a thread, some request has brought, less than the staleness
  -- ceiling before the time of that thread's call, where the ceiling is not zero.
  pub returned-IsRecent :
      (s : System) (i now : ℕ) (set : JwkSet)
      → 0 < max_stale
      → Reach c s
      → s.pc i ≡ returned now (ok (some set))
      → IsRecent c s.mem.installed now set
  returned-IsRecent s i now set ceiling r here =
      subst (Returns c s.mem.installed) here (Reach-Returns c ceiling r i)
