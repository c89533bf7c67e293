-- ===== src/Cache.antt =====
-- auth-oidc/src/cache.rs: the key cache, as one caller at a time runs it. Each block that the source
-- runs under the data lock is a function of its own on `Inner`, which Threads.antt runs in
-- any interleaving.
pub mod Lookup
pub mod Limit
pub mod Ceiling
pub mod Verify
pub mod Outage
pub mod Cold
pub mod Reference
pub mod Rotation
pub mod Bag
pub mod Abstract
pub mod Accepts
use auth_oidc.Prelude.{
  ◌≡◌, arith, ℕ, ◌+◌, ◌-◌, ◌*◌, ◌^◌, min, max, Bool, true, false, not, ◌&&◌, ◌||◌, List, [], ◌∷◌,
  Option, none, some, Text, leb, if◌then◌else◌, is_none, is_some,
}
use auth_oidc.Error.{Error, Result, ok, err, ok_then, no_jwks_yet, unknown_kid, stale_jwks}
use auth_oidc.External.{External}
use auth_oidc.Jwks.Key.{Jwk, JwkSet}
use auth_oidc.Jwks.{find_all, parse}

-- A duration or an instant, in nanoseconds.
abbrev pub nanos_per_sec : ℕ
nanos_per_sec = 1_000_000_000

-- `Duration::MAX`, where `saturating_mul` stops.
abbrev pub duration_max : ℕ
duration_max = (2 ^ 64 - 1) * nanos_per_sec + (nanos_per_sec - 1)

-- The trait `JwksFetcher`: the answer of the provider to the request of that number.
abbrev pub Fetcher : Type 0
Fetcher = ℕ → Text → Result Text

pub record JwksCache : Type 0 where
  pub url : Text
  pub fetcher : Fetcher
  pub min_refetch_interval : ℕ
  pub ttl : ℕ
  pub max_stale : ℕ

-- What the data lock guards.
pub record Inner : Type 0 where
  pub keys : Option JwkSet
  pub fetched_at : Option ℕ
  pub last_attempt : Option ℕ

abbrev pub cold : Inner
cold = record { keys = none; fetched_at = none; last_attempt = none }

unfoldable pub new : Text → Fetcher → ℕ → ℕ → JwksCache
new url fetcher min_refetch_interval ttl = record {
  url = url;
  fetcher = fetcher;
  min_refetch_interval = min_refetch_interval;
  ttl = ttl;
  max_stale = max (min (ttl * 24) duration_max) (24 * 3600 * nanos_per_sec);
}

-- At least `span` has passed since the time; `-` stops at 0, as `saturating_duration_since` does.
abbrev pub past : Option ℕ → ℕ → ℕ → Bool → Bool
past none now span absent = absent
past (some t) now span absent = leb span (now - t)

-- What a block under the data lock decides: an early return, or to go on.
pub data Decision (A : Type 0) : Type 0 where
  serve : Result (Option JwkSet) → Decision A
  proceed : A → Decision A

-- The cache's data, with the number of requests made so far.
pub record Store : Type 0 where
  pub inner : Inner
  pub fetches : ℕ

abbrev pub fresh_store : Store
fresh_store = record { inner = cold; fetches = 0 }

-- A call on the cache returns its result and the new store; `?` returns at the first error.
abbrev pub M : Type 0 → Type 0
M A = Store → Result A × Store

abbrev pub bind_to : {A B : Type 0} → Result A × Store → (A → M B) → Result B × Store
bind_to (ok a, s) k = k a s
bind_to (err e, s) k = (err e, s)

infixl 5 ◌>>=◌
abbrev pub ◌>>=◌ : {A B : Type 0} → M A → (A → M B) → M B
◌>>=◌ m k s = bind_to (m s) k

pub bind_to-ok :
    {A B : Type 0} (p : Result A × Store) (k : A → M B) {a : A} → p.0 ≡ ok a → bind_to p k ≡ k a p.1
bind_to-ok (ok a, s) k h = ground arith
bind_to-ok (err e, s) k h = cc

-- A result that is returned with no change to the store.
abbrev pub lift : {A : Type 0} → Result A → M A
lift r s = (r, s)

-- `try_all`: the first success among the keys that match, or the last error; `none` if no key does.
abbrev pub first_ok : {T : Type 0} → (Jwk → Result T) → List Jwk → Option Error → Option (Result T)
first_ok f [] none = none
first_ok f [] (some e) = some (err e)
first_ok f (k ∷ ks) last_err = elim (f k) [ ok v ↦ some (ok v) | err e ↦ first_ok f ks (some e) ]

unfoldable pub try_all : {T : Type 0} → JwkSet → Text → (Jwk → Result T) → Option (Result T)
try_all set kid f = first_ok f (find_all set kid) none

module _ {T : Type 0} (kid : Text) where
  abbrev pub try_in : (Jwk → Result T) → Option JwkSet → Option (Result T)
  try_in f none = none
  try_in f (some set) = try_all set kid f

  abbrev pub result_or_unknown : Option (Result T) → Result T
  result_or_unknown none = err (unknown_kid kid)
  result_or_unknown (some r) = r

module _ (c : JwksCache) where
  open c use {url, min_refetch_interval, ttl, max_stale}

  unfoldable pub snapshot : Inner → ℕ → Option JwkSet × Bool × Bool
  snapshot inner now =
      (inner.keys, past inner.fetched_at now ttl true, past inner.fetched_at now max_stale false)

  unfoldable pub permits_attempt : Inner → ℕ → Bool
  permits_attempt inner now = past inner.last_attempt now min_refetch_interval true

  unfoldable pub past_ceiling : Inner → ℕ → Bool
  past_ceiling inner now = past inner.fetched_at now max_stale false

  unfoldable pub serve_within_ceiling : Inner → ℕ → Result (Option JwkSet)
  unfolding past_ceiling
  serve_within_ceiling inner now =
      if past_ceiling inner now then err (stale_jwks url max_stale) else ok inner.keys

  -- `refresh` up to the gate: an early return within the rate limit, or whether the caller is
  -- desperate.
  unfoldable pub admit : Inner → ℕ → Bool → Decision Bool
  unfolding permits_attempt past_ceiling serve_within_ceiling
  admit inner now wait =
      let desperate = wait && (is_none inner.keys || past_ceiling inner now) in
      if not desperate && not (permits_attempt inner now)
      then serve (serve_within_ceiling inner now)
      else proceed desperate

  -- `refresh` with the gate held: an early return, or the claim of the window for a fetch.
  unfoldable pub recheck : Inner → ℕ → Bool → Decision Inner
  unfolding permits_attempt past_ceiling serve_within_ceiling
  recheck inner now desperate =
      if desperate && (is_some inner.keys && not (past_ceiling inner now))
      then serve (serve_within_ceiling inner now)
      else if not (permits_attempt inner now)
      then serve (serve_within_ceiling inner now)
      else proceed (record inner { last_attempt = some now })

  -- `refresh` after the fetch: the keys are replaced, or the previous ones are served within the
  -- ceiling.
  abbrev fall_back : Option JwkSet → Bool → Error → Result (Option JwkSet)
  fall_back none too_stale e = err e
  fall_back (some keys) too_stale e = if too_stale then err e else ok (some keys)

  unfoldable pub settle : Inner → ℕ → Result JwkSet → Inner × Result (Option JwkSet)
  settle inner now (ok set) =
      (record inner { keys = some set; fetched_at = some now }, ok (some set))
  settle inner now (err e) =
      (inner, fall_back inner.keys (past inner.fetched_at now max_stale false) e)

module _ (ext : External) (c : JwksCache) where
  open c use {url, fetcher}

  -- The request of that number, and the parse of its body.
  unfoldable pub fetched : ℕ → Result JwkSet
  fetched n = ok_then (fetcher n url) (parse ext)

  unfoldable pub fetch_and_settle : ℕ → M (Option JwkSet)
  unfolding settle fetched
  fetch_and_settle now s =
      let (inner, result) = settle c s.inner now (fetched s.fetches) in
      (result, record { inner = inner; fetches = s.fetches + 1 })

  unfoldable pub under_gate : ℕ → Bool → M (Option JwkSet)
  unfolding recheck fetch_and_settle
  under_gate now desperate s = elim (recheck c s.inner now desperate) [
    | serve result ↦ (result, s)
    | proceed inner ↦ fetch_and_settle now (record s { inner = inner })
  ]

  -- `refresh` of a caller that finds the gate free.
  unfoldable pub refresh : ℕ → Bool → M (Option JwkSet)
  unfolding admit under_gate
  refresh now wait s = elim (admit c s.inner now wait) [
    | serve result ↦ (result, s)
    | proceed desperate ↦ under_gate now desperate s
  ]

  abbrev pub require : Option JwkSet → Result JwkSet
  require none = err (no_jwks_yet url)
  require (some set) = ok set

  -- The keys to try first: those of the snapshot, refreshed if there are none or they are stale.
  unfoldable pub current_keys : ℕ → M JwkSet
  unfolding snapshot
  current_keys now s =
      let (cached, stale, expired) = snapshot c s.inner now in
      let keys = if expired then none else cached in
      let get = if is_none keys || stale then refresh now (is_none keys) else lift (ok keys) in
      (get >>= λ keys. lift (require keys)) s

  module _ {T : Type 0} (kid : Text) (now : ℕ) (f : Jwk → Result T) where
    abbrev pub or_rotate : Option (Result T) → M T → M T
    or_rotate none rotate s = rotate s
    or_rotate (some r) rotate s = (r, s)

    -- The lookup after a miss: one more refresh, which does not wait.
    unfoldable pub after_rotation : M T
    after_rotation = do keys ← refresh now false; lift (result_or_unknown kid (try_in kid f keys))

    unfoldable pub with_key : M T
    with_key = do set ← current_keys now; or_rotate (try_all set kid f) after_rotation
