-- ===== src/Threads/Genuine/Moves.antt =====
-- What one step of a genuine run keeps.
use auth_oidc.Prelude.{ℕ, ◌≤◌, ◌<◌, ◌≡◌, refl, inl, inr, true, false, none, some, arith}
use auth_oidc.Error.{Result, ok, err}
use auth_oidc.Jwks.Key.{JwkSet}
use auth_oidc.Cache.{JwksCache, Inner, settle}
use auth_oidc.Threads.{
  Shared, Pc, entering, at_gate, turned_back, holding, fetching, settling, releasing, critical,
  is_running, Move, call, turned_away, admitted, try_lock, try_poisoned, would_block, read_back,
  queue, wake, satisfied, claim, answered, panics, settled, release, finish, caught,
}
use auth_oidc.Threads.Invariant.{recheck-eq-proceed}
use auth_oidc.Threads.Answers.{Answers}
use auth_oidc.Threads.Genuine.{
  IsAnswer, IsKept, InSync, Phase, IsServable, WillServe, IsFull, serve-IsFull, admit-serve,
  admit-proceed, claim-Phase, recheck-IsFull, settle-IsServable,
}

module _ (c : JwksCache) (IsGood : JwkSet → Type 0) (positive : 0 < c.min_refetch_interval)
    (interval : c.min_refetch_interval ≤ c.max_stale) where
  settle-IsKept :
      (inner : Inner) (now : ℕ) (answer : Result JwkSet)
      → IsAnswer IsGood answer
      → IsKept c IsGood (settle c inner now answer).0
  unfolding settle
  settle-IsKept inner now (ok set) good = inr (set, now, refl, refl, good)
  settle-IsKept inner now (err e) good = absurd good

  settle-InSync :
      (inner : Inner) (now : ℕ) (answer : Result JwkSet)
      → Phase c IsGood inner (settling now answer)
      → InSync c IsGood (settle c inner now answer).0
  unfolding settle
  settle-InSync inner now (ok set) (last, before, good) = last
  settle-InSync inner now (err e) (last, before, good) = absurd good

  settle-IsFull :
      (inner : Inner) (now : ℕ) (answer : Result JwkSet)
      → IsAnswer IsGood answer
      → IsFull c IsGood (settle c inner now answer).1
  unfolding settle
  settle-IsFull inner now (ok set) good = (set, refl, good)
  settle-IsFull inner now (err e) good = absurd good

  module _ {i : ℕ} {m : Shared} where
    pub Move-IsKept :
        {p p' : Pc} {m' : Shared}
        → Move c i m p m' p'
        → Phase c IsGood m.inner p
        → IsKept c IsGood m.inner
        → IsKept c IsGood m'.inner
    Move-IsKept (claim {now} {desperate} e) phase kept =
        rw (recheck-eq-proceed c m.inner now desperate e).1 kept
    Move-IsKept (settled {now} {answer}) (_, _, good) kept = settle-IsKept m.inner now answer good
    Move-IsKept _ phase kept = kept

    pub Move-IsServable :
        {p p' : Pc} {m' : Shared} (asked : ℕ)
        → Move c i m p m' p'
        → Phase c IsGood m.inner p
        → IsServable c IsGood m.inner asked
        → IsServable c IsGood m'.inner asked
    Move-IsServable asked (claim {now} {desperate} e) phase can =
        rw (recheck-eq-proceed c m.inner now desperate e).1 can
    Move-IsServable asked (settled {now} {answer}) phase can =
        settle-IsServable c IsGood positive interval m.inner now asked answer phase can
    Move-IsServable asked _ phase can = can

    pub Move-Phase :
        {p p' : Pc} {m' : Shared} (mv : Move c i m p m' p')
        → Answers (IsAnswer IsGood) mv
        → (m.gate ≡ none → InSync c IsGood m.inner)
        → Phase c IsGood m.inner p
        → Phase c IsGood m'.inner p'
    Move-Phase (call now wait) g free phase = tt
    Move-Phase (turned_away e) g free phase = tt
    Move-Phase (admitted e) g free phase = tt
    Move-Phase (try_lock none_holds clean) g free phase = free none_holds
    Move-Phase (try_poisoned none_holds dirty) g free phase = free none_holds
    Move-Phase (would_block taken) g free phase = tt
    Move-Phase read_back g free phase = tt
    Move-Phase (queue taken) g free phase = tt
    Move-Phase (wake none_holds) g free phase = free none_holds
    Move-Phase (satisfied e) g free phase = phase
    Move-Phase (claim {now} {desperate} e) g free phase =
        claim-Phase c IsGood positive interval m.inner now desperate e phase
    Move-Phase (answered answer) g free (last, before) = (last, before, g)
    Move-Phase panics g free phase = absurd g
    Move-Phase (settled {now} {answer}) g free phase = settle-InSync m.inner now answer phase
    Move-Phase release g free phase = tt
    Move-Phase finish g free phase = tt
    Move-Phase caught g free phase = tt

    -- Whenever the gate is free, the last attempt has brought what is kept.
    pub Move-InSync :
        {p p' : Pc} {m' : Shared} (mv : Move c i m p m' p')
        → Answers (IsAnswer IsGood) mv
        → (critical p ≡ true → m.gate ≡ some i)
        → (m.gate ≡ none → InSync c IsGood m.inner)
        → Phase c IsGood m.inner p
        → m'.gate ≡ none
        → InSync c IsGood m'.inner
    Move-InSync (try_lock none_holds clean) g held free phase e = cc
    Move-InSync (try_poisoned none_holds dirty) g held free phase e = cc
    Move-InSync (wake none_holds) g held free phase e = cc
    Move-InSync (claim d) g held free phase e = absurd (ground (arith, held refl))
    Move-InSync settled g held free phase e = absurd (ground (arith, held refl))
    Move-InSync panics g held free phase e = absurd g
    Move-InSync release g held free phase e = phase
    Move-InSync _ g held free phase e = free e

    -- A thread that will be served takes a step.
    pub Move-WillServe :
        {p p' : Pc} {m' : Shared} (asked : ℕ) (mv : Move c i m p m' p')
        → Answers (IsAnswer IsGood) mv
        → IsKept c IsGood m.inner
        → Phase c IsGood m.inner p
        → WillServe c IsGood m.inner asked p
        → is_running p ≡ true
        → WillServe c IsGood m'.inner asked p'
    Move-WillServe asked (call now wait) g kept phase will running = cc
    Move-WillServe asked (turned_away {now} {wait} e) g kept phase (_, will) running =
        admit-serve c IsGood m.inner now wait will kept e
    Move-WillServe asked (admitted {now} {wait} e) g kept phase (same, will) running =
        (same, admit-proceed c IsGood m.inner now wait will kept e)
    Move-WillServe asked (try_lock none_holds clean) g kept phase will running = will
    Move-WillServe asked (try_poisoned none_holds dirty) g kept phase will running = will
    Move-WillServe asked (would_block taken) g kept phase (same, inl desperate) running = cc
    Move-WillServe asked (would_block taken) g kept phase (same, inr can) running = (same, can)
    Move-WillServe asked (read_back {now}) g kept phase (same, can) running =
        serve-IsFull c IsGood m.inner now can
    Move-WillServe asked (queue taken) g kept phase (same, will) running = same
    Move-WillServe asked (wake none_holds) g kept phase same running = (same, inl refl)
    Move-WillServe asked (satisfied {now} {desperate} e) g kept phase will running =
        recheck-IsFull c IsGood positive interval m.inner now desperate kept phase e
    Move-WillServe asked (claim e) g kept phase (same, will) running = same
    Move-WillServe asked (answered answer) g kept phase same running = same
    Move-WillServe asked panics g kept phase same running = absurd g
    Move-WillServe asked (settled {now} {answer}) g kept (_, _, good) same running =
        settle-IsFull m.inner now answer good
    Move-WillServe asked release g kept phase will running = will
    Move-WillServe asked finish g kept phase will running = cc
    Move-WillServe asked caught g kept phase will running = cc

  -- What holds of one thread still holds after a step of another.
  pub WillServe-mono :
      (inner inner' : Inner) (asked : ℕ) (q : Pc)
      → ((now : ℕ) → IsServable c IsGood inner now → IsServable c IsGood inner' now)
      → WillServe c IsGood inner asked q
      → WillServe c IsGood inner' asked q
  WillServe-mono inner inner' asked (entering now wait) keep (same, inl waits) = (same, inl waits)
  WillServe-mono inner inner' asked (entering now wait) keep (same, inr can) =
      (same, inr (keep now can))
  WillServe-mono inner inner' asked (at_gate now d) keep (same, inl waits) = (same, inl waits)
  WillServe-mono inner inner' asked (at_gate now d) keep (same, inr can) =
      (same, inr (keep now can))
  WillServe-mono inner inner' asked (turned_back now) keep (same, can) = (same, keep now can)
  WillServe-mono inner inner' asked (holding now d) keep (same, inl waits) = (same, inl waits)
  WillServe-mono inner inner' asked (holding now d) keep (same, inr can) =
      (same, inr (keep now can))
  WillServe-mono inner inner' asked q keep will = will

  -- A thread outside the gate knows nothing of the cache.
  pub outside-Phase : (inner : Inner) (q : Pc) → critical q ≡ false → Phase c IsGood inner q
  outside-Phase inner (holding now d) h = cc
  outside-Phase inner (fetching now) h = cc
  outside-Phase inner (settling now answer) h = cc
  outside-Phase inner (releasing now result) h = cc
  outside-Phase inner q h = tt

  -- What a thread with the gate knows is not touched by another thread.
  pub other-Phase :
      {i : ℕ} {m m' : Shared} {p p' : Pc} (q : Pc)
      → Move c i m p m' p'
      → (critical p ≡ true → critical q ≡ false)
      → Phase c IsGood m.inner q
      → Phase c IsGood m'.inner q
  other-Phase {m' = m'} q (claim e) alone phase = outside-Phase m'.inner q (alone refl)
  other-Phase {m' = m'} q settled alone phase = outside-Phase m'.inner q (alone refl)
  other-Phase q _ alone phase = phase
