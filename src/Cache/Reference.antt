-- ===== src/Cache/Reference.antt =====
-- `with_key` against a direct description of it: at most one request, and one lookup in its answer.
use auth_oidc.Prelude.{
  ℕ, ◌+◌, ◌<◌, ◌≡◌, refl, ◌∙◌, inl, inr, Bool, true, false, Option, none, some, Text, arith,
  is_none, if◌then◌else◌, Option-cases, Bool-cases,
}
use auth_oidc.Error.{Error, Result, ok, err, no_jwks_yet, stale_jwks, Result-cases}
use auth_oidc.External.{External}
use auth_oidc.Jwks.Key.{Jwk, JwkSet}
use auth_oidc.Cache.{
  JwksCache, Store, past, fetched, refresh, fetch_and_settle, serve_within_ceiling, admit, recheck,
  settle, under_gate, permits_attempt, past_ceiling, current_keys, after_rotation, with_key,
  try_all, try_in, or_rotate, result_or_unknown, bind_to, lift, require,
}
use auth_oidc.Cache.Verify.{required}

module _ (ext : External) (c : JwksCache) where
  open c use {url, min_refetch_interval, ttl, max_stale}

  module _ (now : ℕ) where
    -- The keys that may still be served.
    abbrev pub usable : Store → Option JwkSet
    usable s = if past s.inner.fetched_at now max_stale false then none else s.inner.keys

    -- The error, unless there are keys.
    abbrev pub instead_of : Error → Option JwkSet → Result JwkSet
    instead_of why none = err why
    instead_of why (some set) = ok set

    -- What one request leaves: its keys, or else those of the cache.
    abbrev pub requested : Store → Result JwkSet → Result JwkSet × Store
    requested s (ok set) = (
      ok set,
      record {
        inner = record { keys = some set; fetched_at = some now; last_attempt = some now };
        fetches = s.fetches + 1;
      },
    )
    requested s (err why) = (
      instead_of why (usable s),
      record { inner = record s.inner { last_attempt = some now }; fetches = s.fetches + 1 },
    )

    -- The keys for a lookup that those of the cache do not settle: those that a request brings, if one is
    -- due, and else those that may still be served.
    abbrev pub renewed : Store → Result JwkSet × Store
    renewed s =
        if past s.inner.last_attempt now min_refetch_interval true
        then requested s (fetched ext c s.fetches)
        else (
          instead_of
              (if past s.inner.fetched_at now max_stale false
                then stale_jwks url max_stale
                else no_jwks_yet url)
              (usable s),
          s,
        )

    abbrev with_require : Result (Option JwkSet) × Store → Result JwkSet × Store
    with_require p = bind_to p (λ keys. lift (require ext c keys))

    required_lem : (wait : Bool) (s : Store) → required ext c now wait s ≡ renewed s
    unfolding refresh admit under_gate recheck permits_attempt past_ceiling serve_within_ceiling
        fetch_and_settle settle
    required_lem wait s = ground arith

    -- The keys that are looked in without a request.
    abbrev pub current : Store → Option JwkSet
    current s = if past s.inner.fetched_at now ttl true then none else usable s

    current_keys_lem :
        (s : Store)
        → current_keys ext c now s ≡ elim (current s) [ some set ↦ (ok set, s) | none ↦ renewed s ]
    unfolding current_keys
    current_keys_lem s = ground (arith, required_lem (is_none (usable s)) s)

    -- A refresh straight after another makes no request, and serves the same keys.
    renewed_again :
        (s s' : Store) (set : JwkSet)
        → 0 < min_refetch_interval
        → 0 < max_stale
        → renewed s ≡ (ok set, s')
        → renewed s' ≡ (ok set, s')
    renewed_again s s' set interval ceiling h = ground arith

    served_ok :
        (p : Result (Option JwkSet) × Store) (set : JwkSet) (s : Store)
        → with_require p ≡ (ok set, s)
        → p ≡ (ok (some set), s)
    served_ok (ok none, s') set s h = cc
    served_ok (ok (some set'), s') set s h = ground arith
    served_ok (err why, s') set s h = cc

    refresh-renewed :
        (wait : Bool) (s s' : Store) (set : JwkSet)
        → renewed s ≡ (ok set, s')
        → refresh ext c now wait s ≡ (ok (some set), s')
    refresh-renewed wait s s' set h =
        served_ok (refresh ext c now wait s) set s' (required_lem wait s ∙ h)

    current-renewed :
        (s : Store) (set : JwkSet)
        → current s ≡ some set
        → (set' : JwkSet) × (s' : Store) × (renewed s ≡ (ok set', s'))
    current-renewed s set h =
        elim (Bool-cases (past s.inner.last_attempt now min_refetch_interval true)) [
          | inr early ↦ (set, s, ground arith)
          | inl due ↦ elim (Result-cases (fetched ext c s.fetches)) [
            | inl (set', e) ↦ (set', (requested s (ok set')).1, rw (due, e) refl)
            | inr (why, e) ↦ (set, (requested s (err why)).1, ground arith)
          ]
        ]

  module _ {T : Type 0} (kid : Text) (now : ℕ) (f : Jwk → Result T) where
    abbrev pub found : Result JwkSet × Store → Result T × Store
    found (ok set, s) = (result_or_unknown kid (try_all set kid f), s)
    found (err why, s) = (err why, s)

    abbrev pub or_found : Store → Option (Result T) → Result T × Store
    or_found s (some r) = (r, s)
    or_found s none = found (renewed now s)

    -- What a lookup comes to: the result of the first keys if they have one, and else that of the keys
    -- of a refresh.
    abbrev pub reference : Store → Result T × Store
    reference s = or_found s (try_in kid f (current now s))

    after_rotation-renewed :
        (s s' : Store) (set : JwkSet)
        → renewed now s ≡ (ok set, s')
        → after_rotation ext c kid now f s ≡ found (ok set, s')
    unfolding after_rotation
    after_rotation-renewed s s' set h = rw (refresh-renewed now false s s' set h) refl

    -- A lookup in the keys of a refresh, and the refresh that follows a miss.
    settled_in :
        (s : Store) (set : JwkSet)
        → renewed now s ≡ (ok set, s)
        → or_rotate ext c kid now f (try_all set kid f) (after_rotation ext c kid now f) s
          ≡ found (ok set, s)
    settled_in s set h = elim (Option-cases (try_all set kid f)) [
      | inr (r, hit) ↦ rw hit refl
      | inl miss ↦ rw miss (after_rotation-renewed s s set h ∙ rw miss refl)
    ]

    first_found :
        (p : Result JwkSet × Store)
        → ((set : JwkSet) (s : Store) → p ≡ (ok set, s) → renewed now s ≡ (ok set, s))
        → bind_to p
            (λ set. or_rotate ext c kid now f (try_all set kid f) (after_rotation ext c kid now f))
          ≡ found p
    first_found (ok set, s) again = settled_in s set (again set s refl)
    first_found (err why, s) again = refl

    -- Where the refetch interval and the ceiling are not zero, a call of `with_key` that finds the gate
    -- free does what the reference does: its result, the keys and the times that it leaves in the
    -- cache, and the requests that it makes.
    pub with_key_lem :
        (s : Store)
        → 0 < min_refetch_interval
        → 0 < max_stale
        → with_key ext c kid now f s ≡ reference s
    unfolding with_key
    with_key_lem s interval ceiling = elim (Option-cases (current now s)) [
      | inr (set, fresh) ↦ elim (Option-cases (try_all set kid f)) [
        | inr (r, hit) ↦ rw (current_keys_lem now s, fresh, hit) refl
        | inl miss ↦
            let (set', s', e) = current-renewed now s set fresh in
            rw (current_keys_lem now s, fresh, miss, e) (after_rotation-renewed s s' set' e)
      ]
      | inl none_fresh ↦
          rw (current_keys_lem now s, none_fresh)
            (first_found (renewed now s)
              (λ set s' e. renewed_again now s s' set interval ceiling e))
    ]
