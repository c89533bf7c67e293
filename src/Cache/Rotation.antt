-- ===== src/Cache/Rotation.antt =====
-- How soon a change of the provider's keys takes effect.
use auth_oidc.Prelude.{
  refl, ℕ, ◌+◌, ◌<◌, ◌≡◌, ◌∙◌, ◌⊎◌, inl, inr, true, false, none, some, Text, Bool-cases,
}
use auth_oidc.Error.{Result, ok}
use auth_oidc.External.{External}
use auth_oidc.Jwks.Key.{Jwk, JwkSet}
use auth_oidc.Cache.{JwksCache, Store, past, fetched, with_key, try_all, try_in, result_or_unknown}
use auth_oidc.Cache.Reference.{current, with_key_lem}

module _ (ext : External) (c : JwksCache) {T : Type 0} (kid : Text) (now : ℕ)
    (f : Jwk → Result T) where
  open c use {min_refetch_interval, ttl, max_stale}

  current-missed :
      (s : Store)
      → (past s.inner.fetched_at now ttl true ≡ true) ⊎ (try_in kid f s.inner.keys ≡ none)
      → try_in kid f (current ext c now s) ≡ none
  current-missed s (inl stale) = rw stale refl
  current-missed s (inr missed) = elim (Bool-cases (past s.inner.fetched_at now ttl true)) [
    | inl stale ↦ rw stale refl
    | inr fresh ↦ elim (Bool-cases (past s.inner.fetched_at now max_stale false)) [
      | inl expired ↦ rw (fresh, expired) refl
      | inr young ↦ rw (fresh, young) missed
    ]
  ]

  -- A call of `with_key` that finds the gate free, where the keys of the cache are missing or as old
  -- as the ttl, or none of them has the `kid`, a request is due and the provider answers it with a
  -- key set: the call comes to the lookup in that set alone, which it leaves in the cache. So a key
  -- that the provider has withdrawn is refused, and one that it has added is found. The refetch
  -- interval and the ceiling are not zero.
  pub with_key-rotated :
      (s : Store) (set : JwkSet)
      → 0 < min_refetch_interval
      → 0 < max_stale
      → (past s.inner.fetched_at now ttl true ≡ true) ⊎ (try_in kid f s.inner.keys ≡ none)
      → past s.inner.last_attempt now min_refetch_interval true ≡ true
      → fetched ext c s.fetches ≡ ok set
      → with_key ext c kid now f s ≡ (
        result_or_unknown kid (try_all set kid f),
        record {
          inner = record { keys = some set; fetched_at = some now; last_attempt = some now };
          fetches = s.fetches + 1;
        },
      )
  with_key-rotated s set interval ceiling changed due answer =
      with_key_lem ext c kid now f s interval ceiling
      ∙ rw (current-missed s changed, due, answer) refl
