-- ===== src/Callers/Solo.antt =====
-- The steps of one caller alone.
use auth_oidc.Prelude.{ℕ, ◌+◌, ◌≡◌}
use auth_oidc.Error.{Result}
use auth_oidc.External.{External}
use auth_oidc.Jwks.Key.{JwkSet}
use auth_oidc.Cache.{JwksCache, fetched}
use auth_oidc.Cache.Limit.{Call}
use auth_oidc.Threads.{Shared, answered}
use auth_oidc.Callers.{Caller, CallMove, inside}
use auth_oidc.Callers.Answers.{MoveAnswers}

-- Steps of caller `i` alone.
pub data CallRun (c : JwksCache) (i : ℕ) {T : Type 0} (asked : Call T) (m' : Shared) (w' : Caller T)
    : Shared → Caller T → Type 0 where
  there : CallRun c i asked m' w' m' w'
  on :
      {m n : Shared} {w u : Caller T}
      → CallMove c i asked m w n u
      → CallRun c i asked m' w' n u
      → CallRun c i asked m' w' m w

-- In the run every answer is an allowed one, and no fetch panics.
abbrev pub SoloAnswers :
    (IsAllowed : Result JwkSet → Type 0) {c : JwksCache} {i : ℕ} {T : Type 0} {asked : Call T}
    {m' : Shared} {w' : Caller T} {m : Shared} {w : Caller T}
    → CallRun c i asked m' w' m w
    → Type 0
SoloAnswers IsAllowed there = Unit
SoloAnswers IsAllowed (on mv rest) = MoveAnswers IsAllowed mv × SoloAnswers IsAllowed rest

-- How many requests have an answer, after a step and after a run.
abbrev pub counted :
    {c : JwksCache} {i : ℕ} {T : Type 0} {asked : Call T} {m n : Shared} {w u : Caller T}
    → ℕ
    → CallMove c i asked m w n u
    → ℕ
counted k (inside running (answered answer)) = k + 1
counted k _ = k

abbrev pub counted_in :
    {c : JwksCache} {i : ℕ} {T : Type 0} {asked : Call T} {m' : Shared} {w' : Caller T} {m : Shared}
    {w : Caller T}
    → ℕ
    → CallRun c i asked m' w' m w
    → ℕ
counted_in k there = k
counted_in k (on mv rest) = counted_in (counted k mv) rest

-- The requests of the run, numbered from `k`, have the answers of the cache's fetcher.
abbrev pub Fetches :
    (ext : External) {c : JwksCache} {i : ℕ} {T : Type 0} {asked : Call T} {m' : Shared}
    {w' : Caller T} {m : Shared} {w : Caller T}
    → ℕ
    → CallRun c i asked m' w' m w
    → Type 0
Fetches ext k there = Unit
Fetches ext {c} k (on mv rest) =
    MoveAnswers (λ answer. answer ≡ fetched ext c k) mv × Fetches ext (counted k mv) rest
