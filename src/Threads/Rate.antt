-- ===== src/Threads/Rate.antt =====
-- How many requests the provider gets in a stretch of time, from all threads together.
use auth_oidc.Prelude.{
  ℕ, ◌+◌, ◌-◌, ◌*◌, ◌≤◌, ◌<◌, inl, inr, ◌&&◌, List, [], ◌∷◌, arith, leb, if◌then◌else◌, Bool-cases,
}
use auth_oidc.Cache.{JwksCache}
use auth_oidc.Threads.{System, Reach}
use auth_oidc.Threads.Invariant.{Spaced}
use auth_oidc.Threads.Safety.{requests-Spaced}

-- How many of the times lie between the two.
abbrev pub count_within : ℕ → ℕ → List ℕ → ℕ
count_within from to [] = 0
count_within from to (t ∷ ts) = (if leb from t && leb t to then 1 else 0) + count_within from to ts

Spaced-tail : (c : JwksCache) (t : ℕ) (ts : List ℕ) → Spaced c (t ∷ ts) → Spaced c ts
Spaced-tail c t [] spaced = tt
Spaced-tail c t (u ∷ ts) (gap, spaced) = spaced

module _ (c : JwksCache) (limited : 0 < c.min_refetch_interval) (from to : ℕ) where
  open c use {min_refetch_interval}

  abbrev room : ℕ → ℕ
  room t = if leb from t then (t - from) + min_refetch_interval else 0

  room-step :
      (n t u : ℕ)
      → min_refetch_interval ≤ t - u
      → n * min_refetch_interval ≤ room u
      → ((if leb from t && leb t to then 1 else 0) + n) * min_refetch_interval ≤ room t
  room-step n t u gap h = ground arith

  -- The requests up to one at `t`.
  Spaced-room :
      (t : ℕ) (ts : List ℕ)
      → Spaced c (t ∷ ts)
      → count_within from to (t ∷ ts) * min_refetch_interval ≤ room t
  Spaced-room t [] spaced = ground arith
  Spaced-room t (u ∷ ts) (gap, spaced) =
      room-step (count_within from to (u ∷ ts)) t u gap (Spaced-room u ts spaced)

  Spaced-le :
      (ts : List ℕ)
      → Spaced c ts
      → count_within from to ts * min_refetch_interval ≤ (to - from) + min_refetch_interval
  Spaced-le [] spaced = omega arith
  Spaced-le (t ∷ ts) spaced = elim (Bool-cases (leb t to)) [
    | inl in_time ↦ ground (arith, Spaced-room t ts spaced)
    | inr late ↦ rw late (ground (arith, Spaced-le ts (Spaced-tail c t ts spaced)))
  ]

  -- However many threads refresh, in whatever order their steps are taken and whatever the provider
  -- answers: the requests between two times, less one, times the refetch interval, fit between the
  -- two, if the interval is not zero.
  pub attempts-le :
      (s : System)
      → Reach c s
      → count_within from to s.mem.attempts * min_refetch_interval
        ≤ (to - from) + min_refetch_interval
  attempts-le s r = Spaced-le s.mem.attempts (requests-Spaced c s r)
