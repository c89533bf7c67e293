-- ===== src/Callers.antt =====
-- `with_key` of auth-oidc/src/cache.rs, as any number of callers run it at once over one cache. A
-- step of a caller is the block of the snapshot, or a step of one of its refreshes; what it does
-- between two such blocks reads nothing that the callers share.
pub mod Refines
pub mod Sound
pub mod Solo
pub mod Meaning
pub mod Undisturbed
pub mod Ends
pub mod Progress
pub mod Next
pub mod Entered
pub mod Later
pub mod Onward
pub mod Freed
pub mod Served
pub mod Patient
pub mod WaitFree
pub mod Answers
pub mod Genuine
pub mod Decided
use auth_oidc.Prelude.{
  ℕ, ◌≡◌, Bool, true, false, ◌||◌, Option, none, some, eqb, if◌then◌else◌, is_none,
}
use auth_oidc.Error.{Result, ok, err, no_jwks_yet}
use auth_oidc.Jwks.Key.{JwkSet}
use auth_oidc.Cache.{JwksCache, snapshot, try_all, try_in, result_or_unknown}
use auth_oidc.Cache.Limit.{Call}
use auth_oidc.Threads.{
  Shared, Pc, is_running, idle, entering, at_gate, turned_back, queued, holding, fetching, settling,
  releasing, returned, panicked, Move, init,
}

-- Where a caller stands; `rotated` says that its refresh is the one after a miss.
pub data Caller (T : Type 0) : Type 0 where
  starting : Caller T
  refreshing : (rotated : Bool) (p : Pc) → Caller T
  finished : (result : Result T) → Caller T

module _ (c : JwksCache) {T : Type 0} (call : Call T) where
  -- What follows the first lookup: its result, or a refresh that does not wait.
  abbrev pub or_refresh : Option (Result T) → Caller T
  or_refresh none = refreshing true (entering call.now false)
  or_refresh (some r) = finished r

  abbrev pub look_in : Option JwkSet → Caller T
  look_in none = finished (err (no_jwks_yet c.url))
  look_in (some set) = or_refresh (try_all set call.kid call.check)

  unfoldable pub after_snapshot : Option JwkSet × Bool × Bool → Caller T
  after_snapshot (cached, stale, expired) =
      let keys = if expired then none else cached in
      if is_none keys || stale
      then refreshing false (entering call.now (is_none keys))
      else look_in keys

  unfoldable pub after_refresh : Bool → Result (Option JwkSet) → Caller T
  after_refresh rotated (err why) = finished (err why)
  after_refresh false (ok keys) = look_in keys
  after_refresh true (ok keys) =
      finished (result_or_unknown call.kid (try_in call.kid call.check keys))

-- One step of caller `i`.
pub data CallMove (c : JwksCache) (i : ℕ) {T : Type 0} (call : Call T) (m : Shared)
    : Caller T → Shared → Caller T → Type 0 where
  look : CallMove c i call m starting m (after_snapshot c call (snapshot c m.inner call.now))
  inside :
      {rotated : Bool} {p p' : Pc} {m' : Shared}
      → is_running p ≡ true
      → Move c i m p m' p'
      → CallMove c i call m (refreshing rotated p) m' (refreshing rotated p')
  leave :
      {rotated : Bool} {now : ℕ} {result : Result (Option JwkSet)}
      → CallMove c i call m
          (refreshing rotated (returned now result))
          m
          (after_refresh c call rotated result)

pub record CallSystem (T : Type 0) : Type 0 where
  pub mem : Shared
  pub at : ℕ → Caller T

abbrev pub set_at : {T : Type 0} → (ℕ → Caller T) → ℕ → Caller T → ℕ → Caller T
set_at at i w j = if eqb i j then w else at j

abbrev pub all_starting : {T : Type 0} → CallSystem T
all_starting = record { mem = init.mem; at = λ i. starting }

module _ (c : JwksCache) {T : Type 0} (calls : ℕ → Call T) where
  -- Caller `i` makes the call `calls i`.
  pub data CallStep (s : CallSystem T) : CallSystem T → Type 0 where
    pick :
        (i : ℕ) {m : Shared} {w : Caller T}
        → CallMove c i (calls i) s.mem (s.at i) m w
        → CallStep s (record { mem = m; at = set_at s.at i w })

  pub data CallReach : CallSystem T → Type 0 where
    start : CallReach all_starting
    later : {s t : CallSystem T} → CallReach s → CallStep s t → CallReach t
