-- ===== src/Cache/Ceiling.antt =====
-- Which keys the cache ever verifies against: those of a set that a request brought, within the
-- staleness ceiling.
use auth_oidc.Prelude.{
  ℕ, ◌-◌, ◌≤◌, ◌<◌, ◌≡◌, refl, sym, ap, ◌∙◌, ◌⊎◌, inl, inr, Bool, none, some, arith,
}
use auth_oidc.Error.{Error, ok, err, Result-cases}
use auth_oidc.External.{External}
use auth_oidc.Jwks.Key.{JwkSet}
use auth_oidc.Cache.{JwksCache, Store, refresh, fetch_and_settle, fetched, serve_within_ceiling}

module _ (ext : External) (c : JwksCache) where
  open c use {max_stale}

  -- The set stands in the cache, from the request of some number, whose time is its stamp.
  pub record IsCached (s : Store) (set : JwkSet) (t : ℕ) : Type 0 where
    pub kept : s.inner.keys ≡ some set
    pub stamp : s.inner.fetched_at ≡ some t
    pub request : ℕ
    pub earlier : request < s.fetches
    pub answer : fetched ext c request ≡ ok set

  -- The cache is empty, or holds a stamped set that a request brought.
  abbrev pub IsSound : Store → Type 0
  IsSound s =
      ((s.inner.keys ≡ none) × (s.inner.fetched_at ≡ none))
      ⊎ ((set : JwkSet) × (t : ℕ) × IsCached s set t)

  -- The set stands in the cache and is younger than the ceiling.
  abbrev pub IsServable : Store → ℕ → JwkSet → Type 0
  IsServable s now set = (t : ℕ) × IsCached s set t × (now - t < max_stale)

  abbrev pub claimed : ℕ → Store → Store
  claimed now s = record s { inner = record s.inner { last_attempt = some now } }

  -- A refresh serves what the cache holds, or claims the window and makes one request.
  pub refresh_cases :
      (now : ℕ) (wait : Bool) (s : Store)
      → (refresh ext c now wait s ≡ (serve_within_ceiling c s.inner now, s))
        ⊎ (refresh ext c now wait s ≡ fetch_and_settle ext c now (claimed now s))
  unfolding refresh
  refresh_cases now wait s = ground arith

  pub keep-IsSound :
      (s s' : Store)
      → s'.inner.keys ≡ s.inner.keys
      → s'.inner.fetched_at ≡ s.inner.fetched_at
      → s.fetches ≤ s'.fetches
      → IsSound s
      → IsSound s'
  keep-IsSound s s' k f n (inl empty) = inl (ground arith)
  keep-IsSound s s' k f n (inr (set, t, cached)) = inr (
    set,
    t,
    record {
      kept = k ∙ cached.kept;
      stamp = f ∙ cached.stamp;
      request = cached.request;
      earlier = omega (arith, cached.earlier);
      answer = cached.answer;
    },
  )

  pub fetch-IsSound : (now : ℕ) (s : Store) → IsSound s → IsSound (fetch_and_settle ext c now s).1
  fetch-IsSound now s v = elim (Result-cases (fetched ext c s.fetches)) [
    | inl (set, e) ↦ inr (
      set,
      now,
      unfold fetch_and_settle in
          (rw e (record {
            kept = refl;
            stamp = refl;
            request = s.fetches;
            earlier = omega arith;
            answer = e;
          })),
    )
    | inr (why, e) ↦ unfold fetch_and_settle in (rw e (keep-IsSound s _ refl refl (omega arith) v))
  ]

  pub refresh-IsSound :
      (now : ℕ) (wait : Bool) (s : Store) → IsSound s → IsSound (refresh ext c now wait s).1
  refresh-IsSound now wait s v = elim (refresh_cases now wait s) [
    | inl e ↦ rw e v
    | inr e ↦ rw e (fetch-IsSound now _ (keep-IsSound s _ refl refl (omega arith) v))
  ]

  pub serve-IsServable :
      (now : ℕ) (s : Store) (set : JwkSet)
      → IsSound s
      → serve_within_ceiling c s.inner now ≡ ok (some set)
      → IsServable s now set
  unfolding serve_within_ceiling
  serve-IsServable now s set (inl empty) h = absurd (ground arith)
  serve-IsServable now s set (inr (set', t, cached)) h = (
    t,
    record {
      kept = ground (arith, cached.kept, cached.stamp);
      stamp = cached.stamp;
      request = cached.request;
      earlier = cached.earlier;
      answer = ground (arith, cached.kept, cached.stamp, cached.answer);
    },
    ground (arith, cached.kept, cached.stamp),
  )

  fell_back-IsServable :
      (now : ℕ) (s : Store) (set : JwkSet) (why : Error)
      → IsSound s
      → fetched ext c s.fetches ≡ err why
      → (fetch_and_settle ext c now s).0 ≡ ok (some set)
      → IsServable (fetch_and_settle ext c now s).1 now set
  unfolding fetch_and_settle
  fell_back-IsServable now s set why (inl empty) e h = absurd (ground arith)
  fell_back-IsServable now s set why (inr (set', t, cached)) e h = (
    t,
    record {
      kept = ground (arith, cached.kept, cached.stamp);
      stamp = ground (arith, cached.kept, cached.stamp);
      request = cached.request;
      earlier = ground (arith, cached.earlier);
      answer = ground (arith, cached.kept, cached.stamp, cached.answer);
    },
    ground (arith, cached.kept, cached.stamp),
  )

  pub fetch-IsServable :
      (now : ℕ) (s : Store) (set : JwkSet)
      → 0 < max_stale
      → IsSound s
      → (fetch_and_settle ext c now s).0 ≡ ok (some set)
      → IsServable (fetch_and_settle ext c now s).1 now set
  fetch-IsServable now s set ceiling v h = elim (Result-cases (fetched ext c s.fetches)) [
    | inl (new_set, e) ↦ (
      now,
      record {
        kept = unfold fetch_and_settle in (ground arith);
        stamp = unfold fetch_and_settle in (ground arith);
        request = s.fetches;
        earlier = unfold fetch_and_settle in (ground arith);
        answer = unfold fetch_and_settle in (ground arith);
      },
      omega arith,
    )
    | inr (why, e) ↦ fell_back-IsServable now s set why v e h
  ]

  -- Whatever keys a refresh returns stand in the cache that it leaves, within the ceiling.
  pub refresh-IsServable :
      (now : ℕ) (wait : Bool) (s : Store) (set : JwkSet)
      → 0 < max_stale
      → IsSound s
      → (refresh ext c now wait s).0 ≡ ok (some set)
      → IsServable (refresh ext c now wait s).1 now set
  refresh-IsServable now wait s set ceiling v h = elim (refresh_cases now wait s) [
    | inl e ↦ rw e (serve-IsServable now s set v (ap (λ p. p.0) (sym e) ∙ h))
    | inr e ↦ rw e (
        fetch-IsServable now (claimed now s) set ceiling
          (keep-IsSound s _ refl refl (omega arith) v) (ap (λ p. p.0) (sym e) ∙ h))
  ]
