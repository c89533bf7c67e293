-- ===== src/Cache/Verify.antt =====
-- Which keys `with_key` verifies against.
use auth_oidc.Prelude.{
  ℕ, ◌<◌, ◌≡◌, refl, sym, ap, ◌∙◌, ◌⊎◌, inl, inr, Bool, true, false, Option, none, some, Text,
  arith, IsIn, is_none, Option-cases, Bool-cases,
}
use auth_oidc.Error.{Result, ok, err, Result-cases}
use auth_oidc.External.{External}
use auth_oidc.Jwks.Key.{Jwk, JwkSet}
use auth_oidc.Jwks.Select.{Matches}
use auth_oidc.Cache.{
  JwksCache, Store, M, ◌>>=◌, bind_to, bind_to-ok, lift, result_or_unknown, try_in, require, past,
  refresh, current_keys, after_rotation, with_key, try_all, serve_within_ceiling,
}
use auth_oidc.Cache.Lookup.{try_all-eq-ok}
use auth_oidc.Cache.Limit.{with_key-store, after_rotation-store}
use auth_oidc.Cache.Ceiling.{
  IsSound, IsServable, refresh-IsSound, serve-IsServable, refresh-IsServable,
}

module _ (ext : External) (c : JwksCache) where
  open c use {max_stale}

  abbrev pub required : ℕ → Bool → M JwkSet
  required now wait = refresh ext c now wait >>= λ keys. lift (require ext c keys)

  -- The first keys to try: those in the cache, if they are within the ceiling, or a refresh's.
  pub current_keys_cases :
      (now : ℕ) (s : Store)
      → ((set : JwkSet) × (s.inner.keys ≡ some set)
          × (past s.inner.fetched_at now max_stale false ≡ false)
          × (past s.inner.fetched_at now c.ttl true ≡ false)
          × (current_keys ext c now s ≡ (ok set, s)))
        ⊎ ((wait : Bool) × (current_keys ext c now s ≡ required now wait s))
  unfolding current_keys
  current_keys_cases now s = elim (Bool-cases (past s.inner.fetched_at now max_stale false)) [
    | inl expired ↦ inr (true, rw expired)
    | inr recent ↦ elim (Bool-cases (past s.inner.fetched_at now c.ttl true)) [
      | inl stale ↦ inr (is_none s.inner.keys, ground arith)
      | inr current ↦ elim (Option-cases s.inner.keys) [
        | inl empty ↦ inr (true, ground arith)
        | inr (set, kept) ↦ inl (set, kept, recent, current, ground arith)
      ]
    ]
  ]

  required-eq-ok :
      (now : ℕ) (wait : Bool) (s : Store) (set : JwkSet)
      → (required now wait s).0 ≡ ok set
      → ((refresh ext c now wait s).0 ≡ ok (some set))
        × ((required now wait s).1 ≡ (refresh ext c now wait s).1)
  required-eq-ok now wait s set h = ground arith

  current_keys-IsServable :
      (now : ℕ) (s : Store) (set : JwkSet)
      → 0 < max_stale
      → IsSound ext c s
      → (current_keys ext c now s).0 ≡ ok set
      → IsServable ext c (current_keys ext c now s).1 now set
  current_keys-IsServable now s set ceiling v h = elim (current_keys_cases now s) [
    | inl (set', kept, recent, current, e) ↦ rw e (
        serve-IsServable ext c now s set v
          (unfold serve_within_ceiling in (rw recent (cc (kept, ap (λ p. p.0) (sym e), h)))))
    | inr (wait, e) ↦
        let (r, left) = required-eq-ok now wait s set (ap (λ p. p.0) (sym e) ∙ h) in
        rw (e, left) (refresh-IsServable ext c now wait s set ceiling v r)
  ]

  required-store :
      (now : ℕ) (wait : Bool) (s : Store) → (required now wait s).1 ≡ (refresh ext c now wait s).1
  required-store now wait s = ground arith

  current_keys-IsSound :
      (now : ℕ) (s : Store) → IsSound ext c s → IsSound ext c (current_keys ext c now s).1
  current_keys-IsSound now s v = elim (current_keys_cases now s) [
    | inl (set, _, _, _, e) ↦ rw e v
    | inr (wait, e) ↦ rw (e, required-store now wait s) (refresh-IsSound ext c now wait s v)
  ]

  module _ {T : Type 0} (kid : Text) (now : ℕ) (f : Jwk → Result T) where
    abbrev outcome : Store → Result T × Store
    outcome = with_key ext c kid now f

    -- The two ways to an answer: the first lookup finds a key, or it finds none and a refresh follows.
    with_key_cases :
        (s : Store) (set : JwkSet)
        → (current_keys ext c now s).0 ≡ ok set
        → let s₁ = (current_keys ext c now s).1 in
          ((r : Result T) × (try_all set kid f ≡ some r) × (outcome s ≡ (r, s₁)))
          ⊎ ((try_all set kid f ≡ none) × (outcome s ≡ after_rotation ext c kid now f s₁))
    unfolding with_key
    with_key_cases s set h =
        let first = bind_to-ok (current_keys ext c now s) _ h in
        elim (Option-cases (try_all set kid f)) [
          | inl missed ↦ inr (missed, first ∙ rw missed)
          | inr (r, tried) ↦ inl (r, tried, first ∙ rw tried)
        ]

    Rotated : Result (Option JwkSet) × Store → Result T × Store → T → Type 0
    Rotated p q v =
        (set : JwkSet) × (p.0 ≡ ok (some set)) × (try_all set kid f ≡ some (ok v)) × (q.1 ≡ p.1)

    bind-Rotated :
        (p : Result (Option JwkSet) × Store) (v : T)
        → let q = bind_to p (λ keys. lift (result_or_unknown kid (try_in kid f keys))) in
          q.0 ≡ ok v → Rotated p q v
    unfolding Rotated
    bind-Rotated (ok none, s) v h = cc
    bind-Rotated (ok (some set), s) v h = (set, refl, ground arith, refl)
    bind-Rotated (err e, s) v h = cc

    with_key-IsServable :
        (s : Store) (v : T)
        → 0 < max_stale
        → IsSound ext c s
        → (outcome s).0 ≡ ok v
        → (set : JwkSet) × IsServable ext c (outcome s).1 now set
          × (try_all set kid f ≡ some (ok v))
    unfolding Rotated after_rotation
    with_key-IsServable s v ceiling sound h = elim (Result-cases (current_keys ext c now s).0) [
      | inr (why, e) ↦ absurd (unfold with_key in (ground arith))
      | inl (set, e) ↦ elim (with_key_cases s set e) [
        | inl (r, tried, q) ↦
            (set, rw q (current_keys-IsServable now s set ceiling sound e), ground arith)
        | inr (missed, q) ↦
            let s₁ = (current_keys ext c now s).1 in
            let (set', found, tried, left) =
              bind-Rotated (refresh ext c now false s₁) v (ap (λ p. p.0) (sym q) ∙ h) in
            (
              set',
              rw (q, left)
                  (refresh-IsServable ext c now false s₁ set' ceiling
                    (current_keys-IsSound now s sound) found),
              tried,
            )
      ]
    ]

    -- If `with_key` succeeds on a sound cache, with a ceiling that is not zero, its result is that of the check on a key with the
    -- right `kid`, of a set that one of the requests so far has brought, that stands in the cache
    -- when the call ends, and that is younger than the staleness ceiling at the time of the call.
    pub with_key_sound :
        (s : Store) (v : T)
        → 0 < max_stale
        → IsSound ext c s
        → (with_key ext c kid now f s).0 ≡ ok v
        → (set : JwkSet) × (k : Jwk) × IsServable ext c (with_key ext c kid now f s).1 now set
          × IsIn k set.keys
          × Matches kid k
          × (f k ≡ ok v)
    with_key_sound s v ceiling sound h =
        let (set, served, tried) = with_key-IsServable s v ceiling sound h in
        let (k, in_set, matches, accepts) = try_all-eq-ok f set kid v tried in
        (set, k, served, in_set, matches, accepts)

    -- A call of `with_key` keeps a sound cache sound, whatever its result.
    pub with_key-IsSound :
        (s : Store) → IsSound ext c s → IsSound ext c (with_key ext c kid now f s).1
    with_key-IsSound s sound =
        let s₁ = (current_keys ext c now s).1 in
        let sound₁ = current_keys-IsSound now s sound in
        elim (with_key-store ext c kid now f s) [
          | inl e ↦ rw e sound₁
          | inr e ↦
              rw (e, after_rotation-store ext c kid now f s₁)
                (refresh-IsSound ext c now false s₁ sound₁)
        ]
