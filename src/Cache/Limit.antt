-- ===== src/Cache/Limit.antt =====
-- The rate limit on requests to the provider.
use auth_oidc.Prelude.{
  ℕ, ◌+◌, ◌-◌, ◌*◌, ◌≤◌, ◌<◌, ◌≡◌, refl, ◌⊎◌, inl, inr, Bool, true, false, List, [], ◌∷◌, some,
  Text, arith, All, leb→le,
}
use auth_oidc.Error.{Result, ok, err}
use auth_oidc.External.{External}
use auth_oidc.Jwks.Key.{Jwk, JwkSet}
use auth_oidc.Cache.{
  JwksCache, Inner, Store, fresh_store, permits_attempt, refresh, settle, fetched, current_keys,
  after_rotation, with_key,
}

module _ (ext : External) (c : JwksCache) where
  open c use {min_refetch_interval}

  -- A call leaves the rate limiter and the count alone, or makes one request, which the limit
  -- permits, and moves the anchor to its own time.
  abbrev pub Attempts : ℕ → Store → Store → Type 0
  Attempts now s s' =
      ((s'.fetches ≡ s.fetches) × (s'.inner ≡ s.inner))
      ⊎ ((s'.fetches ≡ s.fetches + 1)
          × (s'.inner.last_attempt ≡ some now)
          × (permits_attempt c s.inner now ≡ true))

  settle-last_attempt :
      (inner : Inner) (now : ℕ) (r : Result JwkSet)
      → (settle c inner now r).0.last_attempt ≡ inner.last_attempt
  unfolding settle
  settle-last_attempt inner now (ok set) = refl
  settle-last_attempt inner now (err e) = refl

  refresh-Attempts :
      (now : ℕ) (wait : Bool) (s : Store) → Attempts now s (refresh ext c now wait s).1
  unfolding refresh
  refresh-Attempts now wait s = ground (
    arith,
    settle-last_attempt (record s.inner { last_attempt = some now }) now (fetched ext c s.fetches),
  )

  current_keys-Attempts : (now : ℕ) (s : Store) → Attempts now s (current_keys ext c now s).1
  unfolding current_keys
  current_keys-Attempts now s =
      ground (arith, refresh-Attempts now true s, refresh-Attempts now false s)

  module _ {T : Type 0} (kid : Text) (now : ℕ) (f : Jwk → Result T) where
    pub after_rotation-store :
        (s : Store) → (after_rotation ext c kid now f s).1 ≡ (refresh ext c now false s).1
    unfolding after_rotation
    after_rotation-store s = ground arith

    after_rotation-Attempts : (s : Store) → Attempts now s (after_rotation ext c kid now f s).1
    unfolding after_rotation
    after_rotation-Attempts s = ground (arith, refresh-Attempts now false s)

    -- The store that `with_key` leaves is that after the first lookup, or that after the second.
    pub with_key-store :
        (s : Store)
        → let s₁ = (current_keys ext c now s).1 in
          ((with_key ext c kid now f s).1 ≡ s₁)
          ⊎ ((with_key ext c kid now f s).1 ≡ (after_rotation ext c kid now f s₁).1)
    unfolding with_key
    with_key-store s = ground arith

    -- A call of `with_key` makes at most one request, and only where the rate limit permits it,
    -- if the limit is not zero.
    pub with_key-Attempts :
        0 < min_refetch_interval → (s : Store) → Attempts now s (with_key ext c kid now f s).1
    unfolding permits_attempt
    with_key-Attempts limited s = ground (
      arith,
      with_key-store s,
      current_keys-Attempts now s,
      after_rotation-Attempts (current_keys ext c now s).1,
    )

-- One request on the cache: the `kid` and the check of a token, and the time of the call.
pub record Call (T : Type 0) : Type 0 where
  pub kid : Text
  pub now : ℕ
  pub check : Jwk → Result T

module _ (ext : External) (c : JwksCache) where
  open c use {min_refetch_interval}

  pub run : {T : Type 0} → List (Call T) → Store → Store
  run [] s = s
  run (call ∷ calls) s = run calls (with_key ext c call.kid call.now call.check s).1

  -- The anchor lies in the window, and the requests up to it are spaced by the limit.
  record IsSpaced (from to : ℕ) (s : Store) : Type 0 where
    anchored :
        (s.fetches ≡ 0)
        ⊎ ((t : ℕ) × (s.inner.last_attempt ≡ some t)
            × (t ≤ to)
            × (s.fetches * min_refetch_interval + from ≤ t + min_refetch_interval))

  step-IsSpaced :
      (from to now : ℕ) (s s' : Store)
      → from ≤ now
      → now ≤ to
      → 0 < min_refetch_interval
      → Attempts ext c now s s'
      → IsSpaced from to s
      → IsSpaced from to s'
  unfolding permits_attempt
  step-IsSpaced from to now s s' after before limited (inl (same, kept)) v = record {
    anchored = ground (arith, v.anchored);
  }
  step-IsSpaced from to now s s' after before limited (inr (more, anchor, permitted)) v = record {
    anchored = inr (now, anchor, before, spaced (v.anchored));
  }
    where
      spaced :
          (s.fetches ≡ 0)
            ⊎ ((t : ℕ) × (s.inner.last_attempt ≡ some t)
                × (t ≤ to)
                × (s.fetches * min_refetch_interval + from ≤ t + min_refetch_interval))
          → s'.fetches * min_refetch_interval + from ≤ now + min_refetch_interval
      spaced (inl none_yet) = ground arith
      spaced (inr (t, was, in_window, old)) =
          let gap : min_refetch_interval ≤ now - t = leb→le _ _ (ground arith) in
          rw more (omega arith)

  run-IsSpaced :
      {T : Type 0} (from to : ℕ) (calls : List (Call T)) (s : Store)
      → 0 < min_refetch_interval
      → All (λ call. (from ≤ call.now) × (call.now ≤ to)) calls
      → IsSpaced from to s
      → IsSpaced from to (run calls s)
  unfolding run
  run-IsSpaced from to [] s limited window v = v
  run-IsSpaced from to (call ∷ calls) s limited ((after, before), window) v =
      run-IsSpaced from to calls _ limited window (
        step-IsSpaced from to call.now s _ after before limited
          (with_key-Attempts ext c call.kid call.now call.check limited s) v)

  IsSpaced-le :
      (from to : ℕ) (s : Store)
      → IsSpaced from to s
      → s.fetches * min_refetch_interval ≤ (to - from) + min_refetch_interval
  IsSpaced-le from to s v = elim v.anchored [
    | inl none_yet ↦ ground arith
    | inr (t, was, in_window, spaced) ↦ omega arith
  ]

  -- However many calls are made from a cold cache with clock readings between `from` and `to`, in
  -- whatever order, and however the provider answers: the requests to it, less one, times the refetch
  -- interval, fit between the two readings, if the interval is not zero.
  pub requests-le :
      {T : Type 0} (from to : ℕ) (calls : List (Call T))
      → 0 < min_refetch_interval
      → All (λ call. (from ≤ call.now) × (call.now ≤ to)) calls
      → (run calls fresh_store).fetches * min_refetch_interval ≤ (to - from) + min_refetch_interval
  requests-le from to calls limited window =
      IsSpaced-le from to _
        (run-IsSpaced from to calls fresh_store limited window (record { anchored = inl refl }))
