-- ===== src/Threads/Genuine.antt =====
-- Runs in which the fetcher does not panic and every answer is a good key set: no thread is left
-- without keys.
pub mod Moves
use auth_oidc.Prelude.{
  ℕ, ◌-◌, ◌≤◌, ◌<◌, ◌≡◌, refl, ◌∙◌, ◌⊎◌, inl, inr, Bool, true, false, Option, none, some, arith,
  leb, leb→le, is_none, ◌||◌, eqb, eqb_iff, Bool-cases,
}
use auth_oidc.Error.{Result, ok, err}
use auth_oidc.Jwks.Key.{JwkSet}
use auth_oidc.Cache.{
  JwksCache, Inner, serve, proceed, admit, recheck, settle, serve_within_ceiling, past,
}
use auth_oidc.Threads.{
  Shared, Pc, idle, entering, at_gate, turned_back, queued, holding, fetching, settling, releasing,
  returned, panicked, critical, is_running, Move, call, turned_away, admitted, try_lock,
  try_poisoned, would_block, read_back, queue, wake, satisfied, claim, answered, panics, settled,
  release, finish, caught, update,
}
use auth_oidc.Threads.Invariant.{recheck-eq-proceed}

-- A good key set.
abbrev pub IsAnswer : (JwkSet → Type 0) → Result JwkSet → Type 0
IsAnswer IsGood (ok set) = IsGood set
IsAnswer IsGood (err e) = ⊥

module _ (c : JwksCache) (IsGood : JwkSet → Type 0) where
  open c use {min_refetch_interval, max_stale}

  -- The cache is empty, or keeps a good set under its time.
  abbrev pub IsKept : Inner → Type 0
  IsKept inner =
      ((inner.keys ≡ none) × (inner.fetched_at ≡ none))
      ⊎ ((set : JwkSet) × (t : ℕ) × (inner.keys ≡ some set)
          × (inner.fetched_at ≡ some t)
          × IsGood set)

  -- The last attempt brought what is kept.
  abbrev pub InSync : Inner → Type 0
  InSync inner = inner.last_attempt ≡ inner.fetched_at

  abbrev pub Before : Option ℕ → ℕ → Type 0
  Before none now = Unit
  Before (some t) now = t < now

  -- What a thread with the gate knows of the cache.
  abbrev pub Phase : Inner → Pc → Type 0
  Phase inner (holding now desperate) = InSync inner
  Phase inner (fetching now) = (inner.last_attempt ≡ some now) × Before inner.fetched_at now
  Phase inner (settling now answer) =
      (inner.last_attempt ≡ some now) × Before inner.fetched_at now × IsAnswer IsGood answer
  Phase inner (releasing now result) = InSync inner
  Phase inner _ = Unit

  -- The keys of the cache are good at the time `now`.
  abbrev pub IsServable : Inner → ℕ → Type 0
  IsServable inner now =
      (set : JwkSet) × (t : ℕ) × (inner.keys ≡ some set)
      × (inner.fetched_at ≡ some t)
      × IsGood set
      × (now - t < max_stale)

  abbrev pub IsFull : Result (Option JwkSet) → Type 0
  IsFull result = (set : JwkSet) × (result ≡ ok (some set)) × IsGood set

  kept-cases :
      (inner : Inner) (now : ℕ)
      → IsKept inner
      → IsServable inner now
        ⊎ ((is_none inner.keys || past inner.fetched_at now max_stale false) ≡ true)
  kept-cases inner now (inl (empty, _)) = inr (ground arith)
  kept-cases inner now (inr (set, t, holds, at, good)) =
      elim (Bool-cases (leb max_stale (now - t))) [
        | inl old ↦ inr (ground arith)
        | inr young ↦ inl (set, t, holds, at, good, ground arith)
      ]

  pub serve-IsFull :
      (inner : Inner) (now : ℕ) → IsServable inner now → IsFull (serve_within_ceiling c inner now)
  unfolding serve_within_ceiling
  serve-IsFull inner now (set, t, holds, at, good, young) = (set, ground arith, good)

  -- A caller that waits, or could be served, is served or goes on to the gate.
  pub admit-serve :
      (inner : Inner) (now : ℕ) (wait : Bool) {result : Result (Option JwkSet)}
      → (wait ≡ true) ⊎ IsServable inner now
      → IsKept inner
      → admit c inner now wait ≡ serve result
      → IsFull result
  unfolding admit
  admit-serve inner now wait (inr (set, t, holds, at, good, young)) kept e =
      (set, ground arith, good)
  admit-serve inner now wait (inl waits) kept e = elim (kept-cases inner now kept) [
    | inl (set, t, holds, at, good, young) ↦ (set, ground arith, good)
    | inr lost ↦ absurd (ground arith)
  ]

  pub admit-proceed :
      (inner : Inner) (now : ℕ) (wait : Bool) {desperate : Bool}
      → (wait ≡ true) ⊎ IsServable inner now
      → IsKept inner
      → admit c inner now wait ≡ proceed desperate
      → (desperate ≡ true) ⊎ IsServable inner now
  unfolding admit
  admit-proceed inner now wait (inr can) kept e = inr can
  admit-proceed inner now wait (inl waits) kept e = elim (kept-cases inner now kept) [
    | inl can ↦ inr can
    | inr lost ↦ inl (ground arith)
  ]

  -- A thread that the time `asked` was given will have keys.
  abbrev pub WillServe : Inner → ℕ → Pc → Type 0
  WillServe inner asked (entering now wait) = (now ≡ asked) × ((wait ≡ true) ⊎ IsServable inner now)
  WillServe inner asked (at_gate now desperate) =
      (now ≡ asked) × ((desperate ≡ true) ⊎ IsServable inner now)
  WillServe inner asked (turned_back now) = (now ≡ asked) × IsServable inner now
  WillServe inner asked (queued now) = now ≡ asked
  WillServe inner asked (holding now desperate) =
      (now ≡ asked) × ((desperate ≡ true) ⊎ IsServable inner now)
  WillServe inner asked (fetching now) = now ≡ asked
  WillServe inner asked (settling now answer) = now ≡ asked
  WillServe inner asked (releasing now result) = IsFull result
  WillServe inner asked (returned now result) = IsFull result
  WillServe inner asked _ = ⊥

  module _ (positive : 0 < min_refetch_interval) (interval : min_refetch_interval ≤ max_stale) where
    pub claim-Phase :
        (inner : Inner) (now : ℕ) (desperate : Bool) {inner' : Inner}
        → recheck c inner now desperate ≡ proceed inner'
        → InSync inner
        → Phase inner' (fetching now)
    claim-Phase inner now desperate {inner'} e sync =
        let (permitted, claimed) = recheck-eq-proceed c inner now desperate e in
        rw claimed (refl, earlier inner.fetched_at (rw⁻¹ sync permitted))
      where
        earlier : (t : Option ℕ) → past t now min_refetch_interval true ≡ true → Before t now
        earlier none h = tt
        earlier (some t) h = ground (arith, leb→le min_refetch_interval (now - t))

    pub recheck-IsFull :
        (inner : Inner) (now : ℕ) (desperate : Bool) {result : Result (Option JwkSet)}
        → IsKept inner
        → InSync inner
        → recheck c inner now desperate ≡ serve result
        → IsFull result
    unfolding recheck
    recheck-IsFull inner now desperate (inl (empty, at)) sync e = absurd (ground arith)
    recheck-IsFull inner now desperate (inr (set, t, holds, at, good)) sync e =
        (set, ground arith, good)

    -- A key set that another request brings is not older.
    pub settle-IsServable :
        (inner : Inner) (now asked : ℕ) (answer : Result JwkSet)
        → Phase inner (settling now answer)
        → IsServable inner asked
        → IsServable (settle c inner now answer).0 asked
    unfolding settle
    settle-IsServable inner now asked (ok new) (_, before, good) (set, t, holds, at, good', young) =
        (new, now, refl, refl, good, ground arith)
    settle-IsServable inner now asked (err e) (_, before, good) can = absurd good
