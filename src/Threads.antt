-- ===== src/Threads.antt =====
-- `refresh` of auth-oidc/src/cache.rs, run by any number of threads at once. A step of a thread is
-- one block under the data lock, one operation on the single-flight gate, or the fetch.
pub mod Invariant
pub mod Moves
pub mod Safety
pub mod Rate
pub mod Solo
pub mod Progress
pub mod Answers
pub mod Genuine
use auth_oidc.Prelude.{
  ℕ, ◌≡◌, Bool, true, false, List, [], ◌∷◌, Option, none, some, eqb, if◌then◌else◌,
}
use auth_oidc.Error.{Result, ok, err}
use auth_oidc.Jwks.Key.{JwkSet}
use auth_oidc.Cache.{
  JwksCache, Inner, cold, Decision, serve, proceed, admit, recheck, settle, serve_within_ceiling,
}

-- What the threads share. `gate` names the thread that holds the gate, and `poisoned` says that one
-- has panicked while it held it; `attempts` lists the times of the requests, the newest first, and
-- `installed` the key sets that they brought, with their times.
pub record Shared : Type 0 where
  pub inner : Inner
  pub gate : Option ℕ
  pub poisoned : Bool
  pub attempts : List ℕ
  pub installed : List (ℕ × JwkSet)

-- Where a thread stands in `refresh`, with its locals; `now` is the time that its call was given.
pub data Pc : Type 0 where
  idle : Pc
  entering : (now : ℕ) (wait : Bool) → Pc
  at_gate : (now : ℕ) (desperate : Bool) → Pc
  turned_back : (now : ℕ) → Pc
  queued : (now : ℕ) → Pc
  holding : (now : ℕ) (desperate : Bool) → Pc
  fetching : (now : ℕ) → Pc
  settling : (now : ℕ) (answer : Result JwkSet) → Pc
  releasing : (now : ℕ) (result : Result (Option JwkSet)) → Pc
  returned : (now : ℕ) (result : Result (Option JwkSet)) → Pc
  panicked : (now : ℕ) → Pc

-- Between the acquisition of the gate and its release.
abbrev pub critical : Pc → Bool
critical idle = false
critical (entering now wait) = false
critical (at_gate now desperate) = false
critical (turned_back now) = false
critical (queued now) = false
critical (holding now desperate) = true
critical (fetching now) = true
critical (settling now answer) = true
critical (releasing now result) = true
critical (returned now result) = false
critical (panicked now) = false

-- Inside a call of `refresh`.
abbrev pub is_running : Pc → Bool
is_running idle = false
is_running (entering now wait) = true
is_running (at_gate now desperate) = true
is_running (turned_back now) = true
is_running (queued now) = true
is_running (holding now desperate) = true
is_running (fetching now) = true
is_running (settling now answer) = true
is_running (releasing now result) = true
is_running (returned now result) = false
is_running (panicked now) = false

abbrev pub install : ℕ → Result JwkSet → List (ℕ × JwkSet) → List (ℕ × JwkSet)
install now (ok set) sets = (now, set) ∷ sets
install now (err e) sets = sets

-- One step of thread `i`. A call begins with any time and either way of waiting, and the provider
-- may answer anything, or the fetcher may panic: the guard of the gate is then dropped while the
-- thread unwinds, which frees the gate and poisons it. Whoever takes a poisoned gate takes its guard
-- out of the error.
pub data Move (c : JwksCache) (i : ℕ) (m : Shared) : Pc → Shared → Pc → Type 0 where
  call : (now : ℕ) (wait : Bool) → Move c i m idle m (entering now wait)
  turned_away :
      {now : ℕ} {wait : Bool} {result : Result (Option JwkSet)}
      → admit c m.inner now wait ≡ serve result
      → Move c i m (entering now wait) m (returned now result)
  admitted :
      {now : ℕ} {wait desperate : Bool}
      → admit c m.inner now wait ≡ proceed desperate
      → Move c i m (entering now wait) m (at_gate now desperate)
  try_lock :
      {now : ℕ} {desperate : Bool}
      → m.gate ≡ none
      → m.poisoned ≡ false
      → Move c i m (at_gate now desperate) (record m { gate = some i }) (holding now desperate)
  try_poisoned :
      {now : ℕ} {desperate : Bool}
      → m.gate ≡ none
      → m.poisoned ≡ true
      → Move c i m (at_gate now desperate) (record m { gate = some i }) (holding now desperate)
  would_block :
      {now holder : ℕ} → m.gate ≡ some holder → Move c i m (at_gate now false) m (turned_back now)
  read_back :
      {now : ℕ} → Move c i m (turned_back now) m (returned now (serve_within_ceiling c m.inner now))
  queue : {now holder : ℕ} → m.gate ≡ some holder → Move c i m (at_gate now true) m (queued now)
  wake :
      {now : ℕ}
      → m.gate ≡ none
      → Move c i m (queued now) (record m { gate = some i }) (holding now true)
  satisfied :
      {now : ℕ} {desperate : Bool} {result : Result (Option JwkSet)}
      → recheck c m.inner now desperate ≡ serve result
      → Move c i m (holding now desperate) m (releasing now result)
  claim :
      {now : ℕ} {desperate : Bool} {inner : Inner}
      → recheck c m.inner now desperate ≡ proceed inner
      → Move c i m
          (holding now desperate)
          (record m { inner = inner; attempts = now ∷ m.attempts })
          (fetching now)
  answered : {now : ℕ} (answer : Result JwkSet) → Move c i m (fetching now) m (settling now answer)
  panics :
      {now : ℕ}
      → Move c i m (fetching now) (record m { gate = none; poisoned = true }) (panicked now)
  settled :
      {now : ℕ} {answer : Result JwkSet}
      → Move c i m
          (settling now answer)
          (record m {
            inner = (settle c m.inner now answer).0;
            installed = install now answer m.installed;
          })
          (releasing now (settle c m.inner now answer).1)
  release :
      {now : ℕ} {result : Result (Option JwkSet)}
      → Move c i m (releasing now result) (record m { gate = none }) (returned now result)
  finish : {now : ℕ} {result : Result (Option JwkSet)} → Move c i m (returned now result) m idle
  caught : {now : ℕ} → Move c i m (panicked now) m idle

pub record System : Type 0 where
  pub mem : Shared
  pub pc : ℕ → Pc

abbrev pub update : (ℕ → Pc) → ℕ → Pc → ℕ → Pc
update pc i p j = if eqb i j then p else pc j

pub data Step (c : JwksCache) (s : System) : System → Type 0 where
  pick :
      (i : ℕ) {m : Shared} {p : Pc}
      → Move c i s.mem (s.pc i) m p
      → Step c s (record { mem = m; pc = update s.pc i p })

abbrev pub init : System
init = record {
  mem = record { inner = cold; gate = none; poisoned = false; attempts = []; installed = [] };
  pc = λ i. idle;
}

pub data Reach (c : JwksCache) : System → Type 0 where
  start : Reach c init
  later : {s t : System} → Reach c s → Step c s t → Reach c t
