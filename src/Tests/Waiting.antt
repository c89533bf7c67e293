-- ===== src/Tests/Waiting.antt =====
-- The theorems on callers that meet a fetch that panics, for a caller that looks at stale keys while another holds the gate, whose fetch then panics, and for a later one.
use auth_oidc.Prelude.{
  ℕ, refl, ◌≡◌, ◌≢◌, ◌⊎◌, ◌↔◌, Bool, Option, false, true, none, some, ◌∷◌, [], codes,
}
use auth_oidc.Error.{ok, err, no_keys}
use auth_oidc.Cache.Limit.{Call}
use auth_oidc.Threads.{Shared, queued, panics, fetching, panicked}
use auth_oidc.Callers.{refreshing, inside, CallSystem, set_at, CallStep, all_starting}
use auth_oidc.Cache.{with_key}
use auth_oidc.Callers.{starting}
use auth_oidc.Callers.Meaning.{store_of}
use auth_oidc.Callers.Undisturbed.{CanEnd, with_key-EndsAs}
use auth_oidc.Callers.Next.{HasPanicked}
use auth_oidc.Callers.Later.{yet, then_}
use auth_oidc.Callers.WaitFree.{looked, Finishes, look-Finishes}
use auth_oidc.Tests.Fixture.{ext, cache, key_set, warm}
use auth_oidc.Tests.Caches.{check}
use auth_oidc.Tests.Threading.{served}

abbrev calls : ℕ → Call (Unit {0})
calls i = record { kid = codes "k1"; now = 5000; check = check }

abbrev stalled : CallSystem (Unit {0})
stalled = record {
  mem = record served.mem {
    inner = record warm.inner { last_attempt = some 5000 };
    gate = some 2;
    attempts = 5000 ∷ 100 ∷ [];
  };
  at = set_at all_starting.at 2 (refreshing false (fetching 5000));
}

abbrev broken : CallSystem (Unit {0})
broken = record {
  mem = record stalled.mem { gate = none; poisoned = true };
  at = set_at (looked cache calls stalled 1).at 2 (refreshing false (panicked 5000));
}

look-Finishes_example :
    ((rotated : Bool) (now : ℕ) → broken.at 1 ≢ refreshing rotated (queued now))
    × (HasPanicked (broken.at 1)
        ⊎ Finishes cache (calls 1) (λ answer. answer ≡ err no_keys) 1 broken.mem (broken.at 1))
look-Finishes_example =
    look-Finishes cache calls stalled broken 1 key_set (λ answer. answer ≡ err no_keys)
      (err no_keys) refl refl refl
      (then_ {t = looked cache calls stalled 1} yet (CallStep.pick 2 (inside refl panics)))

-- The gate is poisoned, and the keys are due for a refresh.
abbrev waiting : Shared
waiting = record broken.mem { inner = warm.inner }

with_key-EndsAs_example :
    CanEnd ext cache
      (calls 3)
      3
      waiting
      1
      starting
      (ok tt)
      (record {
        inner = record { keys = some key_set; fetched_at = some 100; last_attempt = some 5000 };
        fetches = 2;
      })
      none
    ↔ ((with_key ext cache (codes "k1") 5000 check (store_of ext cache warm.inner 1) ≡ (
      ok tt,
      record {
        inner = record { keys = some key_set; fetched_at = some 100; last_attempt = some 5000 };
        fetches = 2;
      },
    ))
        × (◌≡◌ {A = Option ℕ} none none))
with_key-EndsAs_example =
    with_key-EndsAs ext cache (calls 3) 3 waiting 1 (ok tt)
      (record {
        inner = record { keys = some key_set; fetched_at = some 100; last_attempt = some 5000 };
        fetches = 2;
      })
      none refl
