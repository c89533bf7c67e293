-- ===== src/Threads/Solo.antt =====
-- The steps of one thread alone.
use auth_oidc.Prelude.{ℕ, ◌≡◌, refl, ◌⊎◌, inl, inr, Option}
use auth_oidc.Error.{Result}
use auth_oidc.Jwks.Key.{JwkSet}
use auth_oidc.Cache.{JwksCache, Decision, serve, proceed}
use auth_oidc.Threads.{Shared, Pc, Move}

-- A run of steps of one thread.
pub data Run (c : JwksCache) (i : ℕ) (m' : Shared) (p' : Pc) : Shared → Pc → Type 0 where
  done : Run c i m' p' m' p'
  step : {m n : Shared} {p q : Pc} → Move c i m p n q → Run c i m' p' n q → Run c i m' p' m p

pub Decision-cases :
    {A : Type 0} (d : Decision A)
    → ((r : Result (Option JwkSet)) × (d ≡ serve r)) ⊎ ((a : A) × (d ≡ proceed a))
Decision-cases (serve r) = inl (r, refl)
Decision-cases (proceed a) = inr (a, refl)
