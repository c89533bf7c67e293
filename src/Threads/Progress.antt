-- ===== src/Threads/Progress.antt =====
-- The gate is never left locked.
use auth_oidc.Prelude.{ℕ, ◌≡◌, refl, inl, inr, true, Option, none, some, arith}
use auth_oidc.Error.{Result}
use auth_oidc.Jwks.Key.{JwkSet}
use auth_oidc.Cache.{JwksCache, recheck}
use auth_oidc.Threads.{
  Shared, Pc, holding, fetching, settling, releasing, returned, critical, Move, call, turned_away,
  admitted, try_lock, would_block, read_back, queue, wake, satisfied, claim, answered, settled,
  release, finish, try_poisoned, panics, caught, System, update, pick, Reach, start, later,
}
use auth_oidc.Threads.Answers.{Answers}
use auth_oidc.Threads.Solo.{Run, done, step, Decision-cases}

module _ (c : JwksCache) where
  -- Whoever holds the gate is between its acquisition and its release.
  abbrev pub IsHeld : Shared → (ℕ → Pc) → Type 0
  IsHeld m pc = (j : ℕ) → m.gate ≡ some j → critical (pc j) ≡ true

  Move-IsHeld :
      {m : Shared} (pc : ℕ → Pc) (i : ℕ)
      → IsHeld m pc
      → {p p' : Pc} {m' : Shared} → Move c i m p m' p'
      → pc i ≡ p
      → IsHeld m' (update pc i p')
  Move-IsHeld pc i held (call now wait) here j h = ground (arith, held j h)
  Move-IsHeld pc i held (turned_away e) here j h = ground (arith, held j h)
  Move-IsHeld pc i held (admitted e) here j h = ground (arith, held j h)
  Move-IsHeld pc i held (try_lock free clean) here j h = ground arith
  Move-IsHeld pc i held (try_poisoned free dirty) here j h = ground arith
  Move-IsHeld pc i held (would_block taken) here j h = ground (arith, held j h)
  Move-IsHeld pc i held (read_back) here j h = ground (arith, held j h)
  Move-IsHeld pc i held (queue taken) here j h = ground (arith, held j h)
  Move-IsHeld pc i held (wake free) here j h = ground arith
  Move-IsHeld pc i held (satisfied e) here j h = ground (arith, held j h)
  Move-IsHeld pc i held (claim e) here j h = ground (arith, held j h)
  Move-IsHeld pc i held (answered answer) here j h = ground (arith, held j h)
  Move-IsHeld pc i held settled here j h = ground (arith, held j h)
  Move-IsHeld pc i held panics here j h = cc
  Move-IsHeld pc i held release here j h = cc
  Move-IsHeld pc i held finish here j h = ground (arith, held j h)
  Move-IsHeld pc i held caught here j h = ground (arith, held j h)

  pub Reach-IsHeld : {s : System} → Reach c s → IsHeld s.mem s.pc
  Reach-IsHeld start j h = cc
  Reach-IsHeld (later r (pick i mv)) j h = Move-IsHeld _ i (Reach-IsHeld r) mv refl j h

  -- In the run every answer is an allowed one, and no fetch panics.
  abbrev pub RunAllows :
      (IsAllowed : Result JwkSet → Type 0) {i : ℕ} {m' : Shared} {p' : Pc} {m : Shared} {p : Pc}
      → Run c i m' p' m p
      → Type 0
  RunAllows IsAllowed done = Unit
  RunAllows IsAllowed (step mv rest) = Answers IsAllowed mv × RunAllows IsAllowed rest

  -- The thread's own steps, with allowed answers and no panic, take it to its return and free the
  -- gate.
  pub record Frees (IsAllowed : Result JwkSet → Type 0) (i : ℕ) (m : Shared) (p : Pc) : Type 0 where
    pub now : ℕ
    pub result : Result (Option JwkSet)
    pub after : Shared
    pub run : Run c i after (returned now result) m p
    pub allowed : RunAllows IsAllowed run
    pub free : after.gate ≡ none

  module _ (IsAllowed : Result JwkSet → Type 0) (i : ℕ) (answer : Result JwkSet)
      (given : IsAllowed answer) where
    from_releasing :
        (m : Shared) (now : ℕ) (result : Result (Option JwkSet))
        → Frees IsAllowed i m (releasing now result)
    from_releasing m now result = record {
      now = now;
      result = result;
      after = record m { gate = none };
      run = step release done;
      allowed = (tt, tt);
      free = refl;
    }

    then_Frees :
        {m n : Shared} {p q : Pc} (mv : Move c i m p n q)
        → Answers IsAllowed mv
        → Frees IsAllowed i n q
        → Frees IsAllowed i m p
    then_Frees mv g f = record {
      now = f.now;
      result = f.result;
      after = f.after;
      run = step mv f.run;
      allowed = (g, f.allowed);
      free = f.free;
    }

    from_fetching : (m : Shared) (now : ℕ) → Frees IsAllowed i m (fetching now)
    from_fetching m now =
        then_Frees (answered answer) given (then_Frees settled tt (from_releasing _ now _))

    critical-Frees : (m : Shared) (p : Pc) → critical p ≡ true → Frees IsAllowed i m p
    critical-Frees m (holding now desperate) h =
        elim (Decision-cases (recheck c m.inner now desperate)) [
          | inl (r, e) ↦ then_Frees (satisfied e) tt (from_releasing m now r)
          | inr (inner, e) ↦ then_Frees (claim e) tt (from_fetching _ now)
        ]
    critical-Frees m (fetching now) h = from_fetching m now
    critical-Frees m (settling now got) h = then_Frees settled tt (from_releasing _ now _)
    critical-Frees m (releasing now result) h = from_releasing m now result
    critical-Frees m _ h = cc

    -- In every state that the threads can reach, and whatever answers the provider is allowed to
    -- give, if there is one: the thread that holds the gate can run to its return and free the gate
    -- by its own steps alone, in which the provider gives such answers and no fetch panics. So no
    -- thread that waits for the gate is locked out.
    pub holder-Frees :
        (s : System) → Reach c s → s.mem.gate ≡ some i → Frees IsAllowed i s.mem (s.pc i)
    holder-Frees s r taken = critical-Frees s.mem (s.pc i) (Reach-IsHeld r i taken)
