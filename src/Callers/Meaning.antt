-- ===== src/Callers/Meaning.antt =====
-- What the sequential code makes of a caller from where it stands.
use auth_oidc.Prelude.{
  ℕ, ◌≡◌, refl, ap, inl, inr, Bool, true, false, ◌||◌, Option, none, some, arith, is_none,
  if◌then◌else◌, Bool-cases,
}
use auth_oidc.Error.{Result, ok, err}
use auth_oidc.External.{External}
use auth_oidc.Jwks.Key.{JwkSet}
use auth_oidc.Cache.{
  JwksCache, Inner, Store, M, or_rotate, lift, require, bind_to, result_or_unknown, try_in,
  snapshot, refresh, under_gate, fetch_and_settle, settle, fetched, serve_within_ceiling,
  current_keys, after_rotation, with_key, try_all,
}
use auth_oidc.Cache.Limit.{Call}
use auth_oidc.Threads.{
  Shared, Pc, idle, entering, at_gate, turned_back, queued, holding, fetching, settling, releasing,
  returned, panicked, critical, is_running, Move, call, turned_away, admitted, try_lock,
  try_poisoned, would_block, read_back, queue, wake, satisfied, claim, answered, panics, settled,
  release, finish, caught,
}
use auth_oidc.Callers.{
  Caller, starting, refreshing, finished, or_refresh, look_in, after_snapshot, after_refresh,
  CallMove, look, inside, leave,
}
use auth_oidc.Callers.Answers.{MoveAnswers}
use auth_oidc.Callers.Refines.{pc_of}
use auth_oidc.Callers.Solo.{counted}

module _ (ext : External) (c : JwksCache) where
  abbrev pub store_of : Inner → ℕ → Store
  store_of inner k = record { inner = inner; fetches = k }

  -- The rest of `refresh`.
  abbrev rest_of : Inner → ℕ → Pc → Result (Option JwkSet) × Store
  rest_of inner k (entering now wait) = refresh ext c now wait (store_of inner k)
  rest_of inner k (at_gate now desperate) = under_gate ext c now desperate (store_of inner k)
  rest_of inner k (turned_back now) = (serve_within_ceiling c inner now, store_of inner k)
  rest_of inner k (queued now) = under_gate ext c now true (store_of inner k)
  rest_of inner k (holding now desperate) = under_gate ext c now desperate (store_of inner k)
  rest_of inner k (fetching now) = fetch_and_settle ext c now (store_of inner k)
  rest_of inner k (settling now answer) =
      let (inner', result) = settle c inner now answer in (result, store_of inner' k)
  rest_of inner k (releasing now result) = (result, store_of inner k)
  rest_of inner k (returned now result) = (result, store_of inner k)
  rest_of inner k idle = (ok none, store_of inner k)
  rest_of inner k (panicked now) = (ok none, store_of inner k)

  module _ {T : Type 0} (asked : Call T) where
    -- The lookup in the first keys.
    abbrev lookup : JwkSet → M T
    lookup set =
        or_rotate ext c asked.kid asked.now asked.check (try_all set asked.kid asked.check)
          (after_rotation ext c asked.kid asked.now asked.check)

    abbrev after_first : Result (Option JwkSet) × Store → Result T × Store
    after_first p = bind_to (bind_to p (λ keys. lift (require ext c keys))) lookup

    abbrev after_second : Result (Option JwkSet) × Store → Result T × Store
    after_second p =
        bind_to p (λ keys. lift (result_or_unknown asked.kid (try_in asked.kid asked.check keys)))

    -- The rest of `with_key`.
    abbrev pub meaning : Inner → ℕ → Caller T → Result T × Store
    meaning inner k starting = with_key ext c asked.kid asked.now asked.check (store_of inner k)
    meaning inner k (refreshing false p) = after_first (rest_of inner k p)
    meaning inner k (refreshing true p) = after_second (rest_of inner k p)
    meaning inner k (finished result) = (result, store_of inner k)

    or_refresh-meaning :
        (inner : Inner) (k : ℕ) (o : Option (Result T))
        → meaning inner k (or_refresh c asked o)
          ≡ or_rotate ext c asked.kid asked.now asked.check o
              (after_rotation ext c asked.kid asked.now asked.check)
              (store_of inner k)
    unfolding after_rotation
    or_refresh-meaning inner k none = refl
    or_refresh-meaning inner k (some r) = refl

    look_in-meaning :
        (inner : Inner) (k : ℕ) (keys : Option JwkSet)
        → meaning inner k (look_in c asked keys)
          ≡ bind_to (require ext c keys, store_of inner k) lookup
    look_in-meaning inner k none = refl
    look_in-meaning inner k (some set) =
        or_refresh-meaning inner k (try_all set asked.kid asked.check)

    look-meaning :
        (inner : Inner) (k : ℕ)
        → meaning inner k (after_snapshot c asked (snapshot c inner asked.now))
          ≡ meaning inner k starting
    unfolding with_key current_keys after_snapshot
    look-meaning inner k =
        let (cached, stale, expired) = snapshot c inner asked.now in
        let keys = if expired then none else cached in
        elim (Bool-cases (is_none keys || stale)) [
          | inl need ↦ rw need refl
          | inr enough ↦ rw enough (look_in-meaning inner k keys)
        ]

    leave-meaning :
        (inner : Inner) (k now : ℕ) (rotated : Bool) (result : Result (Option JwkSet))
        → meaning inner k (after_refresh c asked rotated result)
          ≡ meaning inner k (refreshing rotated (returned now result))
    unfolding after_refresh
    leave-meaning inner k now true (err why) = refl
    leave-meaning inner k now false (err why) = refl
    leave-meaning inner k now true (ok keys) = refl
    leave-meaning inner k now false (ok keys) = look_in-meaning inner k keys

    module _ {i : ℕ} {m : Shared} where
      inside-meaning :
          {p p' : Pc} {m' : Shared} (rotated : Bool) (k : ℕ) (running : is_running p ≡ true)
          (mv : Move c i m p m' p')
          → MoveAnswers
              (λ answer. answer ≡ fetched ext c k)
              {asked = asked}
              (inside {rotated = rotated} running mv)
          → (critical p ≡ false → m.gate ≡ none)
          → rest_of m'.inner (counted {asked = asked} k (inside {rotated = rotated} running mv)) p'
            ≡ rest_of m.inner k p
      unfolding refresh under_gate fetch_and_settle
      inside-meaning rotated k running (turned_away e) g free = rw (refresh, e) refl
      inside-meaning rotated k running (admitted e) g free = rw (refresh, e) refl
      inside-meaning rotated k running (try_lock untaken clean) g free = refl
      inside-meaning rotated k running (try_poisoned untaken dirty) g free = refl
      inside-meaning rotated k running (would_block taken) g free =
          absurd (ground (arith, free refl))
      inside-meaning rotated k running read_back g free = refl
      inside-meaning rotated k running (queue taken) g free = absurd (ground (arith, free refl))
      inside-meaning rotated k running (wake untaken) g free = refl
      inside-meaning rotated k running (satisfied e) g free = rw (under_gate, e) refl
      inside-meaning rotated k running (claim e) g free = rw (under_gate, e) refl
      inside-meaning rotated k running (answered answer) g free = rw g refl
      inside-meaning rotated k running panics g free = absurd g
      inside-meaning rotated k running settled g free = refl
      inside-meaning rotated k running release g free = refl
      inside-meaning rotated k running (call now wait) g free = cc
      inside-meaning rotated k running finish g free = cc
      inside-meaning rotated k running caught g free = cc

      -- A step of the caller alone does not change what the sequential code makes of it.
      pub CallMove-meaning :
          {w w' : Caller T} {m' : Shared} (k : ℕ) (mv : CallMove c i asked m w m' w')
          → MoveAnswers (λ answer. answer ≡ fetched ext c k) mv
          → (critical (pc_of w) ≡ false → m.gate ≡ none)
          → meaning m'.inner (counted k mv) w' ≡ meaning m.inner k w
      CallMove-meaning k look g free = look-meaning m.inner k
      CallMove-meaning k (inside {rotated = false} running mv) g free =
          ap after_first (inside-meaning false k running mv g free)
      CallMove-meaning k (inside {rotated = true} running mv) g free =
          ap after_second (inside-meaning true k running mv g free)
      CallMove-meaning k (leave {rotated} {now} {result}) g free =
          leave-meaning m.inner k now rotated result
