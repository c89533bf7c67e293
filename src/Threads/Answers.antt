-- ===== src/Threads/Answers.antt =====
-- Which answers the provider gives in a step.
use auth_oidc.Prelude.{ℕ}
use auth_oidc.Error.{Result}
use auth_oidc.Jwks.Key.{JwkSet}
use auth_oidc.Cache.{JwksCache}
use auth_oidc.Threads.{Shared, Pc, Move, answered, panics}

-- The fetcher does not panic, and an answer is an allowed one.
abbrev pub Answers :
    (IsAllowed : Result JwkSet → Type 0) {c : JwksCache} {i : ℕ} {m m' : Shared} {p p' : Pc}
    → Move c i m p m' p'
    → Type 0
Answers IsAllowed (answered answer) = IsAllowed answer
Answers IsAllowed panics = ⊥
Answers IsAllowed _ = Unit
