-- ===== src/Tests/Calling.antt =====
-- The theorems on callers, for one whose call fetches the first keys.
use auth_oidc.Prelude.{
  ap, Text, IsIn, inl, inr, none, ◌==◌, false, true, some, subst, ℕ, ◌≡◌, refl, ◌≤◌, ◌⊎◌, ◌∷◌, [],
  codes, arith,
}
use auth_oidc.Error.{err, no_keys, ok}
use auth_oidc.Cache.{snapshot}
use auth_oidc.Cache.Limit.{Call}
use auth_oidc.Threads.{
  Shared, admitted, try_lock, claim, answered, release, entering, at_gate, holding, fetching,
  settling, releasing, returned, panicked, panics, init,
}
use auth_oidc.Callers.{
  Caller, starting, or_refresh, pick, refreshing, finished, CallMove, look, inside, leave,
  CallSystem, set_at, CallStep, CallReach, all_starting, after_snapshot, after_refresh,
}
use auth_oidc.Callers.Sound.{Vouched, finished-Vouched}
use auth_oidc.Callers.Ends.{Schedule, nothing, then_, steps_of, Schedule-CallReach, steps-le}
use auth_oidc.Callers.Next.{HasPanicked}
use auth_oidc.Callers.Served.{IsServed, reached-IsServed}
use auth_oidc.Jwks.Key.{JwkSet}
use auth_oidc.Jwks.{parse, non_empty}
use auth_oidc.Jwt.{claims}
use auth_oidc.Oidc.{identify}
use auth_oidc.Oidc.Concurrent.{Request, verdict_at, VouchesShared, identified-VouchesShared}
use auth_oidc.Tests.Runs.{split_token, claims_valid}
use auth_oidc.Tests.Fixture.{
  cache, key_set, ext, token, parts, verifier, today, alice, typed, skips,
}
use auth_oidc.Tests.Caches.{check, found_warm}
use auth_oidc.Tests.Threading.{
  cold_admits, cold_permits, locked, under_way, received, stored, served, settles,
}

abbrev pub calls : ℕ → Call (Unit {0})
calls i = record { kid = codes "k1"; now = 100; check = check }

-- Caller 0 is moved on.
abbrev pub moved : CallSystem (Unit {0}) → Shared → Caller (Unit {0}) → CallSystem (Unit {0})
moved s m w = record { mem = m; at = set_at s.at 0 w }

abbrev pub looked_up : CallSystem (Unit {0})
looked_up = moved all_starting init.mem (refreshing false (entering 100 true))

abbrev pub at_the_gate : CallSystem (Unit {0})
at_the_gate = moved looked_up init.mem (refreshing false (at_gate 100 true))

abbrev pub inside_it : CallSystem (Unit {0})
inside_it = moved at_the_gate locked.mem (refreshing false (holding 100 true))

abbrev pub asking : CallSystem (Unit {0})
asking = moved inside_it under_way.mem (refreshing false (fetching 100))

abbrev pub told : CallSystem (Unit {0})
told = moved asking received.mem (refreshing false (settling 100 (ok key_set)))

abbrev pub kept : CallSystem (Unit {0})
kept = moved told stored.mem (refreshing false (releasing 100 (ok (some key_set))))

abbrev pub back : CallSystem (Unit {0})
back = moved kept served.mem (refreshing false (returned 100 (ok (some key_set))))

abbrev pub through : CallSystem (Unit {0})
through = moved back served.mem (finished (ok tt))

unfoldable pub first_look :
    CallMove cache 0 (calls 0) init.mem starting init.mem (refreshing false (entering 100 true))
unfolding after_snapshot snapshot
first_look = look

pub last_step :
    CallMove cache 0
      (calls 0)
      served.mem
      (refreshing false (returned 100 (ok (some key_set))))
      served.mem
      (finished (ok tt))
unfolding after_refresh
last_step =
    subst
      (λ o.
        CallMove cache 0 (calls 0) served.mem (refreshing false (returned 100 (ok (some key_set))))
          served.mem (or_refresh cache (calls 0) o))
      found_warm leave

unfoldable pub asking-Schedule : Schedule cache calls asking
asking-Schedule =
    then_ {s = inside_it}
      (then_ {s = at_the_gate}
        (then_ {s = looked_up} (then_ {s = all_starting} nothing (pick 0 first_look))
          (pick 0 (inside refl (admitted cold_admits))))
        (pick 0 (inside refl (try_lock refl refl))))
      (pick 0 (inside refl (claim cold_permits)))

unfoldable pub through-Schedule : Schedule cache calls through
through-Schedule =
    then_ {s = back}
      (then_ {s = kept}
        (then_ {s = told}
          (then_ {s = asking} asking-Schedule (pick 0 (inside refl (answered (ok key_set)))))
          (pick 0 (inside refl settles)))
        (pick 0 (inside refl release)))
      (pick 0 last_step)

eight_steps : steps_of cache calls through-Schedule 0 ≡ 8
unfolding through-Schedule asking-Schedule
eight_steps = refl

unfoldable pub through-CallReach : CallReach cache calls through
through-CallReach = Schedule-CallReach cache calls through-Schedule

finished-Vouched_example : Vouched cache (calls 0) ((100, key_set) ∷ []) tt
finished-Vouched_example =
    finished-Vouched cache calls through 0 tt (omega arith) through-CallReach refl

steps-le_example : steps_of cache calls through-Schedule 0 ≤ 17
steps-le_example = steps-le cache calls through through-Schedule 0

-- The fetch of caller 0 panics with the gate held.
abbrev panicking : CallSystem (Unit {0})
panicking =
    moved asking (record under_way.mem { gate = none; poisoned = true })
      (refreshing false (panicked 100))

panicking-CallReach : CallReach cache calls panicking
panicking-CallReach =
    CallReach.later {s = asking} (Schedule-CallReach cache calls asking-Schedule)
      (CallStep.pick 0 (inside refl panics))

reached-IsServed_example :
    HasPanicked (panicking.at 1) ⊎ IsServed cache calls (λ answer. answer ≡ err no_keys) panicking 1
reached-IsServed_example =
    reached-IsServed cache calls (λ answer. answer ≡ err no_keys) (err no_keys) refl panicking 1
      panicking-CallReach

abbrev pub requests : ℕ → Request
requests i = record {
  token = token;
  parts = parts;
  verifier = verifier;
  now_unix = today;
  now_mono = 100;
}

kept_parsed :
    (t : ℕ) (set : JwkSet)
    → IsIn {A = ℕ × JwkSet} (t, set) ((100, key_set) ∷ [])
    → (body : Text) × (parse ext body ≡ ok set)
unfolding parse non_empty ◌==◌
kept_parsed t set (inl e) = (codes "keys", ap (λ p. ok p.1) e)
kept_parsed t set (inr nothing_else) = absurd nothing_else

pub verdict : verdict_at ext (requests 0) (through.at 0) ≡ some (identify alice)
unfolding claims ◌==◌
verdict = rw claims_valid refl

identified-VouchesShared_example : VouchesShared ext cache ((100, key_set) ∷ []) (requests 0) alice
identified-VouchesShared_example =
    identified-VouchesShared ext cache requests through 0 alice typed (omega arith) split_token
      (omega arith, omega arith) skips kept_parsed through-CallReach verdict
