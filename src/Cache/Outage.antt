-- ===== src/Cache/Outage.antt =====
-- What callers see while the provider does not answer.
use auth_oidc.Prelude.{
  ℕ, ◌≡◌, ap, ◌∙◌, ◌⊎◌, inl, inr, Bool, true, false, none, some, Text, arith, Option-cases,
}
use auth_oidc.Error.{Error, Result, ok, err, no_jwks_yet, Result-cases}
use auth_oidc.External.{External}
use auth_oidc.Jwks.Key.{Jwk, JwkSet}
use auth_oidc.Cache.{
  JwksCache, Store, past, refresh, fetched, fetch_and_settle, serve_within_ceiling, current_keys,
  with_key, try_all,
}
use auth_oidc.Cache.Ceiling.{refresh_cases}
use auth_oidc.Cache.Verify.{required, current_keys_cases}

module _ (ext : External) (c : JwksCache) where
  open c use {max_stale}

  -- The refresh returns the keys of the cache while they are within the ceiling.
  refresh-fallback :
      (now : ℕ) (wait : Bool) (s : Store) (set : JwkSet) (why : Error)
      → s.inner.keys ≡ some set
      → past s.inner.fetched_at now max_stale false ≡ false
      → fetched ext c s.fetches ≡ err why
      → (refresh ext c now wait s).0 ≡ ok (some set)
  unfolding serve_within_ceiling fetch_and_settle
  refresh-fallback now wait s set why kept recent down = elim (refresh_cases ext c now wait s) [
    | inl e ↦ ground arith
    | inr e ↦ ground arith
  ]

  -- The cache holds nothing that it may serve.
  abbrev pub IsSpent : Store → ℕ → Type 0
  IsSpent s now = (s.inner.keys ≡ none) ⊎ (past s.inner.fetched_at now max_stale false ≡ true)

  refresh-spent :
      (now : ℕ) (wait : Bool) (s : Store) (set : JwkSet) (why : Error)
      → IsSpent s now
      → fetched ext c s.fetches ≡ err why
      → ¬ ((refresh ext c now wait s).0 ≡ ok (some set))
  unfolding serve_within_ceiling fetch_and_settle
  refresh-spent now wait s set why spent down h = elim (Option-cases s.inner.keys) [
    | inl empty ↦ elim (refresh_cases ext c now wait s) [
      | inl e ↦ ground arith
      | inr e ↦ ground arith
    ]
    | inr (old, kept) ↦ elim (refresh_cases ext c now wait s) [
      | inl e ↦ ground arith
      | inr e ↦ ground arith
    ]
  ]

  require-err :
      (now : ℕ) (wait : Bool) (s : Store)
      → ((set : JwkSet) → ¬ ((refresh ext c now wait s).0 ≡ ok (some set)))
      → (e : Error) × ((required ext c now wait s).0 ≡ err e)
  require-err now wait s none_served = elim (Result-cases (refresh ext c now wait s).0) [
    | inr (e, failed) ↦ (e, ground arith)
    | inl (served, found) ↦ elim (Option-cases served) [
      | inl empty ↦ (no_jwks_yet c.url, ground arith)
      | inr (set, some_set) ↦ absurd (none_served set (cc (found, some_set)))
    ]
  ]

  current_keys-spent :
      (now : ℕ) (s : Store) (why : Error)
      → IsSpent s now
      → fetched ext c s.fetches ≡ err why
      → (e : Error) × ((current_keys ext c now s).0 ≡ err e)
  current_keys-spent now s why spent down = elim (current_keys_cases ext c now s) [
    | inl (set, kept, recent, current, e) ↦ absurd (ground arith)
    | inr (wait, e) ↦
        let (why', failed) =
          require-err now wait s (λ set. refresh-spent now wait s set why spent down) in
        (why', ap (λ p. p.0) e ∙ failed)
  ]

  module _ {T : Type 0} (kid : Text) (now : ℕ) (f : Jwk → Result T) where
    -- While the provider does not answer, a token that a key of the cache accepts is still accepted,
    -- as long as the keys are younger than the ceiling.
    pub with_key-outage :
        (s : Store) (set : JwkSet) (v : T) (why : Error)
        → s.inner.keys ≡ some set
        → past s.inner.fetched_at now max_stale false ≡ false
        → fetched ext c s.fetches ≡ err why
        → try_all set kid f ≡ some (ok v)
        → (with_key ext c kid now f s).0 ≡ ok v
    unfolding with_key current_keys
    with_key-outage s set v why kept recent down found =
        ground (arith, refresh-fallback now false s set why kept recent down)

    -- Without keys within the ceiling, and with a provider that does not answer, every lookup fails,
    -- whatever the key and the check.
    pub with_key-spent :
        (s : Store) (why : Error)
        → IsSpent s now
        → fetched ext c s.fetches ≡ err why
        → (e : Error) × ((with_key ext c kid now f s).0 ≡ err e)
    unfolding with_key
    with_key-spent s why spent down =
        let (e, failed) = current_keys-spent now s why spent down in (e, ground arith)
