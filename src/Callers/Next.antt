-- ===== src/Callers/Next.antt =====
-- The step that a caller can take, or the gate that it waits for.
use auth_oidc.Prelude.{
  Option, none, ◌||◌, is_none, if◌then◌else◌, ℕ, ◌≡◌, refl, ◌⊎◌, inl, inr, Bool, true, false, some,
  Bool-cases, Option-cases,
}
use auth_oidc.Error.{ok, err, Result}
use auth_oidc.Jwks.Key.{JwkSet}
use auth_oidc.Cache.{try_all, JwksCache, admit, recheck}
use auth_oidc.Cache.Limit.{Call}
use auth_oidc.Threads.{
  Shared, Pc, idle, entering, at_gate, turned_back, queued, holding, fetching, settling, releasing,
  returned, panicked, turned_away, admitted, would_block, read_back, satisfied, claim, answered,
  settled, release, queue, wake, try_lock, try_poisoned,
}
use auth_oidc.Threads.Solo.{Decision-cases}
use auth_oidc.Callers.{
  or_refresh, look_in, after_refresh, Caller, refreshing, after_snapshot, CallMove, inside, leave,
}
use auth_oidc.Callers.Answers.{MoveAnswers}

-- Neither finished by a panic nor in a refresh that it has not entered.
abbrev pub IsLive : {T : Type 0} → Caller T → Type 0
IsLive (refreshing rotated idle) = ⊥
IsLive (refreshing rotated (panicked now)) = ⊥
IsLive _ = Unit

-- The caller's own fetch has panicked.
abbrev pub HasPanicked : {T : Type 0} → Caller T → Type 0
HasPanicked w = (rotated : Bool) × (at : ℕ) × (w ≡ refreshing rotated (panicked at))

module _ (c : JwksCache) {T : Type 0} (asked : Call T) where
  or_refresh-IsLive : (o : Option (Result T)) → IsLive (or_refresh c asked o)
  or_refresh-IsLive none = tt
  or_refresh-IsLive (some r) = tt

  look_in-IsLive : (keys : Option JwkSet) → IsLive (look_in c asked keys)
  look_in-IsLive none = tt
  look_in-IsLive (some set) = or_refresh-IsLive (try_all set asked.kid asked.check)

  after_refresh-IsLive :
      (rotated : Bool) (result : Result (Option JwkSet))
      → IsLive (after_refresh c asked rotated result)
  unfolding after_refresh
  after_refresh-IsLive true (err why) = tt
  after_refresh-IsLive false (err why) = tt
  after_refresh-IsLive false (ok keys) = look_in-IsLive keys
  after_refresh-IsLive true (ok keys) = tt

  pub after_snapshot-IsLive : (o : Option JwkSet × Bool × Bool) → IsLive (after_snapshot c asked o)
  unfolding after_snapshot
  after_snapshot-IsLive (cached, stale, expired) =
      let keys = if expired then none else cached in
      elim (Bool-cases (is_none keys || stale)) [
        | inl refresh ↦ rw refresh tt
        | inr enough ↦ rw enough (look_in-IsLive keys)
      ]

  module _ (i : ℕ) where
    -- A step of the caller that does not end in a panic, with an allowed answer, if any.
    abbrev pub Next : (Result JwkSet → Type 0) → Shared → Caller T → Type 0
    Next IsAllowed m w =
        (m' : Shared) × (w' : Caller T) × (mv : CallMove c i asked m w m' w') × IsLive w'
        × MoveAnswers IsAllowed mv

    -- The thread is in the queue for the gate, which another holds.
    abbrev pub IsBlocked : Shared → Pc → Type 0
    IsBlocked m p = (now : ℕ) × (holder : ℕ) × (p ≡ queued now) × (m.gate ≡ some holder)

    module _ (IsAllowed : Result JwkSet → Type 0) (answer : Result JwkSet)
        (allowed : IsAllowed answer) where
      free_Next :
          (m : Shared) (rotated : Bool) (now : ℕ) (desperate : Bool)
          → m.gate ≡ none
          → Next IsAllowed m (refreshing rotated (at_gate now desperate))
      free_Next m rotated now desperate free = elim (Bool-cases m.poisoned) [
        | inl dirty ↦ (_, _, inside refl (try_poisoned free dirty), tt, tt)
        | inr clean ↦ (_, _, inside refl (try_lock free clean), tt, tt)
      ]

      at_gate-Next :
          (m : Shared) (rotated : Bool) (now : ℕ) (desperate : Bool)
          → Next IsAllowed m (refreshing rotated (at_gate now desperate))
      at_gate-Next m rotated now desperate = elim (Option-cases m.gate) [
        | inl free ↦ free_Next m rotated now desperate free
        | inr (holder, taken) ↦ taken_by desperate holder taken
      ]
        where
          taken_by :
              (desperate : Bool) (holder : ℕ)
              → m.gate ≡ some holder
              → Next IsAllowed m (refreshing rotated (at_gate now desperate))
          taken_by true holder taken = (_, _, inside refl (queue taken), tt, tt)
          taken_by false holder taken = (_, _, inside refl (would_block taken), tt, tt)

      -- A caller in a refresh can take a step, whatever the provider answers, unless it waits for the
      -- gate.
      pub live-Next :
          (m : Shared) (rotated : Bool) (p : Pc)
          → IsLive {T = T} (refreshing rotated p)
          → Next IsAllowed m (refreshing rotated p) ⊎ IsBlocked m p
      live-Next m rotated idle live = absurd live
      live-Next m rotated (entering now wait) live =
          inl (elim (Decision-cases (admit c m.inner now wait)) [
            | inl (r, e) ↦ (_, _, inside refl (turned_away e), tt, tt)
            | inr (desperate, e) ↦ (_, _, inside refl (admitted e), tt, tt)
          ])
      live-Next m rotated (at_gate now desperate) live = inl (at_gate-Next m rotated now desperate)
      live-Next m rotated (turned_back now) live = inl (_, _, inside refl read_back, tt, tt)
      live-Next m rotated (queued now) live = elim (Option-cases m.gate) [
        | inl free ↦ inl (_, _, inside refl (wake free), tt, tt)
        | inr (holder, taken) ↦ inr (now, holder, refl, taken)
      ]
      live-Next m rotated (holding now desperate) live =
          inl (elim (Decision-cases (recheck c m.inner now desperate)) [
            | inl (r, e) ↦ (_, _, inside refl (satisfied e), tt, tt)
            | inr (inner, e) ↦ (_, _, inside refl (claim e), tt, tt)
          ])
      live-Next m rotated (fetching now) live =
          inl (_, _, inside refl (answered answer), tt, allowed)
      live-Next m rotated (settling now got) live = inl (_, _, inside refl settled, tt, tt)
      live-Next m rotated (releasing now result) live = inl (_, _, inside refl release, tt, tt)
      live-Next m rotated (returned now result) live =
          inl (_, _, leave, after_refresh-IsLive rotated result, tt)
      live-Next m rotated (panicked now) live = absurd live
