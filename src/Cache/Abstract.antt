-- ===== src/Cache/Abstract.antt =====
-- The cache seen from outside: which tokens are accepted, whatever the order of the keys in a set and
-- whatever the reason of a refusal.

use auth_oidc.Prelude.{
  ℕ, ◌+◌, ◌<◌, ◌≡◌, refl, ap, ◌∙◌, inl, inr, Bool, true, false, Option, none, some, Text, arith,
  if◌then◌else◌, Bool-cases,
}
use auth_oidc.Error.{Error, Result, ok, err}
use auth_oidc.External.{External}
use auth_oidc.Jwks.Key.{Jwk, JwkSet}
use auth_oidc.Cache.{JwksCache, Store, past, fetched, with_key, try_all, try_in, result_or_unknown}
use auth_oidc.Cache.Bag.{KeyBag, bag, is_ok, forget, bag_lookup, try_all-bag_lookup}
use auth_oidc.Cache.Reference.{
  usable, current, instead_of, requested, renewed, found, or_found, with_key_lem,
}

-- The cache with its keys as a bag.
pub record Shelf : Type 0 where
  pub keys : Option KeyBag
  pub fetched_at : Option ℕ
  pub last_attempt : Option ℕ
  pub fetches : ℕ

abbrev bag_of : Option JwkSet → Option KeyBag
bag_of none = none
bag_of (some set) = some (bag set)

abbrev pub shelf : Store → Shelf
shelf s = record {
  keys = bag_of s.inner.keys;
  fetched_at = s.inner.fetched_at;
  last_attempt = s.inner.last_attempt;
  fetches = s.fetches;
}

-- What an answer of the provider brings.
abbrev pub brought : Result JwkSet → Option KeyBag
brought (ok set) = some (bag set)
brought (err e) = none

-- The specification: `answer` gives what each request brings.
module _ (c : JwksCache) (answer : ℕ → Option KeyBag) (now : ℕ) where
  open c use {min_refetch_interval, ttl, max_stale}

  abbrev pub servable : Shelf → Option KeyBag
  servable a = if past a.fetched_at now max_stale false then none else a.keys

  abbrev pub first_keys : Shelf → Option KeyBag
  first_keys a = if past a.fetched_at now ttl true then none else servable a

  abbrev pub asked : Shelf → Option KeyBag → Option KeyBag × Shelf
  asked a (some keys) = (
    some keys,
    record {
      keys = some keys;
      fetched_at = some now;
      last_attempt = some now;
      fetches = a.fetches + 1;
    },
  )
  asked a none = (servable a, record a { last_attempt = some now; fetches = a.fetches + 1 })

  abbrev pub next_keys : Shelf → Option KeyBag × Shelf
  next_keys a =
      if past a.last_attempt now min_refetch_interval true
      then asked a (answer a.fetches)
      else (servable a, a)

  module _ (kid : Text) (f : Jwk → Result (Unit {0})) where
    abbrev pub lookup_in : Option KeyBag → Option Bool
    lookup_in none = none
    lookup_in (some keys) = bag_lookup kid f keys

    abbrev pub accepted : Option Bool → Bool
    accepted none = false
    accepted (some b) = b

    abbrev pub or_next : Shelf → Option Bool → Bool × Shelf
    or_next a (some b) = (b, a)
    or_next a none = (accepted (lookup_in (next_keys a).0), (next_keys a).1)

    abbrev pub lookup : Shelf → Bool × Shelf
    lookup a = or_next a (lookup_in (first_keys a))

abbrev pub answers : External → JwksCache → ℕ → Option KeyBag
answers ext c n = brought (fetched ext c n)

module _ (ext : External) (c : JwksCache) (now : ℕ) where
  open c use {min_refetch_interval, ttl, max_stale}

  abbrev seen : Result JwkSet × Store → Option KeyBag × Shelf
  seen (keys, s) = (brought keys, shelf s)

  usable-bag : (s : Store) → bag_of (usable ext c now s) ≡ servable c (answers ext c) now (shelf s)
  usable-bag s = ground arith

  current-bag :
      (s : Store) → bag_of (current ext c now s) ≡ first_keys c (answers ext c) now (shelf s)
  current-bag s = ground arith

  instead-bag :
      (why : Error) (s : Store)
      → brought (instead_of ext c now why (usable ext c now s))
        ≡ servable c (answers ext c) now (shelf s)
  instead-bag why s = by_keys (usable ext c now s) ∙ usable-bag s
    where
      by_keys : (o : Option JwkSet) → brought (instead_of ext c now why o) ≡ bag_of o
      by_keys none = refl
      by_keys (some set) = refl

  requested-bag :
      (s : Store) (r : Result JwkSet)
      → seen (requested ext c now s r) ≡ asked c (answers ext c) now (shelf s) (brought r)
  requested-bag s (ok set) = refl
  requested-bag s (err why) =
      ap (λ keys. (keys, (asked c (answers ext c) now (shelf s) none).1)) (instead-bag why s)

  renewed-bag : (s : Store) → seen (renewed ext c now s) ≡ next_keys c (answers ext c) now (shelf s)
  renewed-bag s = elim (Bool-cases (past s.inner.last_attempt now min_refetch_interval true)) [
    | inl due ↦ rw due (requested-bag s (fetched ext c s.fetches))
    | inr early ↦ rw early (ap (λ keys. (keys, shelf s)) (instead-bag _ s))
  ]

  module _ (kid : Text) (f : Jwk → Result (Unit {0})) where
    abbrev pub verdict : Result (Unit {0}) × Store → Bool × Shelf
    verdict (r, s) = (is_ok r, shelf s)

    try_in-bag :
        (o : Option JwkSet)
        → forget (try_in kid f o) ≡ lookup_in c (answers ext c) now kid f (bag_of o)
    try_in-bag none = refl
    try_in-bag (some set) = try_all-bag_lookup kid f set

    by_result :
        (o : Option (Result (Unit {0})))
        → is_ok (result_or_unknown kid o) ≡ accepted c (answers ext c) now kid f (forget o)
    by_result none = refl
    by_result (some r) = refl

    found-bag :
        (p : Result JwkSet × Store)
        → verdict (found ext c kid now f p) ≡ (
          accepted c (answers ext c) now kid f (lookup_in c (answers ext c) now kid f (seen p).0),
          (seen p).1,
        )
    found-bag (ok set, s) =
        ap (λ b. (b, shelf s))
          (by_result (try_all set kid f)
            ∙ ap (accepted c (answers ext c) now kid f) (try_all-bag_lookup kid f set))
    found-bag (err why, s) = refl

    or_found-bag :
        (s : Store) (o : Option (Result (Unit {0})))
        → verdict (or_found ext c kid now f s o)
          ≡ or_next c (answers ext c) now kid f (shelf s) (forget o)
    or_found-bag s (some r) = refl
    or_found-bag s none =
        found-bag (renewed ext c now s)
        ∙ ap
            (λ p. (
              accepted c (answers ext c) now kid f (lookup_in c (answers ext c) now kid f p.0),
              p.1,
            ))
            (renewed-bag s)

    -- Seen as a bag of keys that accept or refuse, a call of `with_key` is the specification's lookup: in
    -- the first keys if one of them matches, and else in those of at most one request. Neither the order
    -- of the keys in a set nor the reason of a failure matters to what is accepted, now or later. The
    -- refetch interval and the ceiling are not zero, and the check says only yes or no.
    pub with_key-lookup :
        (s : Store)
        → 0 < min_refetch_interval
        → 0 < max_stale
        → verdict (with_key ext c kid now f s) ≡ lookup c (answers ext c) now kid f (shelf s)
    with_key-lookup s interval ceiling =
        ap verdict (with_key_lem ext c kid now f s interval ceiling)
        ∙ or_found-bag s (try_in kid f (current ext c now s))
        ∙ ap (or_next c (answers ext c) now kid f (shelf s)) (
            try_in-bag (current ext c now s)
            ∙ ap (lookup_in c (answers ext c) now kid f) (current-bag s))
