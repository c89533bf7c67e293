-- ===== src/Tests/Threading.antt =====
-- The theorems on threads, for one that fetches the first keys while another is turned away.
use auth_oidc.Prelude.{◌+◌, ◌-◌, ◌*◌, ◌≤◌, ℕ, ◌≡◌, refl, [], ◌∷◌, none, some, true, arith}
use auth_oidc.Error.{ok}
use auth_oidc.Cache.{proceed, admit, recheck, settle, permits_attempt, cold}
use auth_oidc.Threads.{
  System, Pc, call, entering, at_gate, holding, fetching, settling, returned, update, init, Move,
  admitted, try_lock, claim, answered, settled, releasing, release, pick, Reach, start, later,
}
use auth_oidc.Threads.Invariant.{Spaced, IsRecent}
use auth_oidc.Threads.Safety.{single_flight, requests-Spaced, returned-IsRecent}
use auth_oidc.Error.{err, no_keys}
use auth_oidc.Threads.Progress.{Frees, holder-Frees}
use auth_oidc.Threads.Rate.{count_within, attempts-le}
use auth_oidc.Tests.Fixture.{cache, key_set, warm}

abbrev pcs : Pc → ℕ → Pc
pcs p = update init.pc 0 p

abbrev entered : System
entered = record { mem = init.mem; pc = update init.pc 0 (entering 100 true) }

abbrev waiting : System
waiting = record { mem = init.mem; pc = update entered.pc 0 (at_gate 100 true) }

abbrev pub locked : System
locked = record {
  mem = record waiting.mem { gate = some 0 };
  pc = update waiting.pc 0 (holding 100 true);
}

abbrev pub under_way : System
under_way = record {
  mem = record locked.mem { inner = record cold { last_attempt = some 100 }; attempts = 100 ∷ [] };
  pc = update locked.pc 0 (fetching 100);
}

abbrev pub received : System
received = record { mem = under_way.mem; pc = update under_way.pc 0 (settling 100 (ok key_set)) }

abbrev pub stored : System
stored = record {
  mem = record received.mem { inner = warm.inner; installed = (100, key_set) ∷ [] };
  pc = update received.pc 0 (releasing 100 (ok (some key_set)));
}

abbrev pub served : System
served = record {
  mem = record stored.mem { gate = none };
  pc = update stored.pc 0 (returned 100 (ok (some key_set)));
}

pub cold_admits : admit cache cold 100 true ≡ proceed true
unfolding admit
cold_admits = refl

pub cold_permits : recheck cache cold 100 true ≡ proceed (record cold { last_attempt = some 100 })
unfolding recheck permits_attempt
cold_permits = refl

locked-Reach : Reach cache locked
locked-Reach =
    later {s = waiting}
      (later {s = entered} (later start (pick 0 (call 100 true))) (pick 0 (admitted cold_admits)))
      (pick 0 (try_lock refl refl))

under_way-Reach : Reach cache under_way
under_way-Reach = later {s = locked} locked-Reach (pick 0 (claim cold_permits))

unfoldable pub settles :
    Move cache 0 received.mem
      (settling 100 (ok key_set))
      stored.mem
      (releasing 100 (ok (some key_set)))
unfolding settle
settles = settled

stored-Reach : Reach cache stored
stored-Reach =
    later {s = received} (later {s = under_way} under_way-Reach (pick 0 (answered (ok key_set))))
      (pick 0 settles)

served-Reach : Reach cache served
served-Reach = later {s = stored} stored-Reach (pick 0 release)

single_flight_example : ◌≡◌ {A = ℕ} 0 0
single_flight_example = single_flight cache under_way 0 0 under_way-Reach refl refl

requests-Spaced_example : Spaced cache (100 ∷ [])
requests-Spaced_example = requests-Spaced cache under_way under_way-Reach

returned-IsRecent_example : IsRecent cache ((100, key_set) ∷ []) 100 key_set
returned-IsRecent_example =
    returned-IsRecent cache served 0 100 key_set (omega arith) served-Reach refl

holder-Frees_example : Frees cache (λ answer. answer ≡ err no_keys) 0 under_way.mem (under_way.pc 0)
holder-Frees_example =
    holder-Frees cache (λ answer. answer ≡ err no_keys) 0 (err no_keys) refl under_way
      under_way-Reach refl

attempts-le_example : count_within 90 400 (100 ∷ []) * 60 ≤ (400 - 90) + 60
attempts-le_example = attempts-le cache (omega arith) 90 400 under_way under_way-Reach
