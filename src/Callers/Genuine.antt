-- ===== src/Callers/Genuine.antt =====
-- What the callers keep in runs in which every answer is a good key set and no fetch panics.
use auth_oidc.Prelude.{
  ℕ, ◌≤◌, ◌<◌, ◌≡◌, refl, inl, inr, Bool, true, false, ◌||◌, Option, none, some, arith, eqb,
  eqb_iff, is_none, if◌then◌else◌, Bool-cases,
}
use auth_oidc.Error.{Result, ok, err}
use auth_oidc.Jwks.Key.{JwkSet}
use auth_oidc.Cache.{JwksCache, Inner, snapshot, try_all}
use auth_oidc.Cache.Limit.{Call}
use auth_oidc.Threads.{Shared, Pc, critical}
use auth_oidc.Threads.Moves.{Reach-Inv}
use auth_oidc.Threads.Genuine.{IsAnswer, IsKept, InSync, Phase}
use auth_oidc.Threads.Genuine.Moves.{Move-IsKept, Move-Phase, Move-InSync, other-Phase}
use auth_oidc.Callers.{
  Caller, or_refresh, look_in, after_snapshot, after_refresh, CallMove, look, inside, leave,
  CallSystem, CallStep, CallReach,
}
use auth_oidc.Callers.Answers.{MoveAnswers, RunAnswers}
use auth_oidc.Callers.Refines.{pc_of, CallReach-Reach}

module _ (c : JwksCache) {T : Type 0} (calls : ℕ → Call T) (IsGood : JwkSet → Type 0) where
  -- In the run every answer is a good key set, and no fetch panics.
  abbrev pub IsGenuine : {s : CallSystem T} → CallReach c calls s → Type 0
  IsGenuine r = RunAnswers (IsAnswer IsGood) r

  or_refresh-Phase :
      (inner : Inner) (asked : Call T) (o : Option (Result T))
      → Phase c IsGood inner (pc_of (or_refresh c asked o))
  or_refresh-Phase inner asked none = tt
  or_refresh-Phase inner asked (some r) = tt

  look_in-Phase :
      (inner : Inner) (asked : Call T) (keys : Option JwkSet)
      → Phase c IsGood inner (pc_of (look_in c asked keys))
  look_in-Phase inner asked none = tt
  look_in-Phase inner asked (some set) =
      or_refresh-Phase inner asked (try_all set asked.kid asked.check)

  after_snapshot-Phase :
      (inner : Inner) (asked : Call T) (o : Option JwkSet × Bool × Bool)
      → Phase c IsGood inner (pc_of (after_snapshot c asked o))
  unfolding after_snapshot
  after_snapshot-Phase inner asked (cached, stale, expired) =
      let keys = if expired then none else cached in
      elim (Bool-cases (is_none keys || stale)) [
        | inl refresh ↦ rw refresh tt
        | inr enough ↦ rw enough (look_in-Phase inner asked keys)
      ]

  after_refresh-Phase :
      (inner : Inner) (asked : Call T) (rotated : Bool) (result : Result (Option JwkSet))
      → Phase c IsGood inner (pc_of (after_refresh c asked rotated result))
  unfolding after_refresh
  after_refresh-Phase inner asked true (err why) = tt
  after_refresh-Phase inner asked false (err why) = tt
  after_refresh-Phase inner asked false (ok keys) = look_in-Phase inner asked keys
  after_refresh-Phase inner asked true (ok keys) = tt

  -- What the cache keeps, and what those who hold the gate know of it.
  pub record IsSound (m : Shared) (at : ℕ → Caller T) : Type 0 where
    pub kept : IsKept c IsGood m.inner
    pub in_sync : m.gate ≡ none → InSync c IsGood m.inner
    pub phase : (j : ℕ) → Phase c IsGood m.inner (pc_of (at j))

  module _ (positive : 0 < c.min_refetch_interval)
      (interval : c.min_refetch_interval ≤ c.max_stale) where
    own-Phase :
        {i : ℕ} {asked : Call T} {m m' : Shared} {w w' : Caller T}
        (mv : CallMove c i asked m w m' w')
        → MoveAnswers (IsAnswer IsGood) mv
        → (m.gate ≡ none → InSync c IsGood m.inner)
        → Phase c IsGood m.inner (pc_of w)
        → Phase c IsGood m'.inner (pc_of w')
    own-Phase {asked = asked} {m = m} look g free phase =
        after_snapshot-Phase m.inner asked (snapshot c m.inner asked.now)
    own-Phase (inside running mv) g free phase =
        Move-Phase c IsGood positive interval mv g free phase
    own-Phase {asked = asked} {m = m} (leave {rotated} {now} {result}) g free phase =
        after_refresh-Phase m.inner asked rotated result

    others-Phase :
        {i : ℕ} {asked : Call T} {m m' : Shared} {w w' : Caller T} (q : Pc)
        → CallMove c i asked m w m' w'
        → (critical (pc_of w) ≡ true → critical q ≡ false)
        → Phase c IsGood m.inner q
        → Phase c IsGood m'.inner q
    others-Phase q look alone phase = phase
    others-Phase q (inside running mv) alone phase =
        other-Phase c IsGood positive interval q mv alone phase
    others-Phase q leave alone phase = phase

    CallMove-IsKept :
        {i : ℕ} {asked : Call T} {m m' : Shared} {w w' : Caller T}
        → CallMove c i asked m w m' w'
        → Phase c IsGood m.inner (pc_of w)
        → IsKept c IsGood m.inner
        → IsKept c IsGood m'.inner
    CallMove-IsKept look phase kept = kept
    CallMove-IsKept (inside running mv) phase kept =
        Move-IsKept c IsGood positive interval mv phase kept
    CallMove-IsKept leave phase kept = kept

    CallMove-InSync :
        {i : ℕ} {asked : Call T} {m m' : Shared} {w w' : Caller T}
        (mv : CallMove c i asked m w m' w')
        → MoveAnswers (IsAnswer IsGood) mv
        → (critical (pc_of w) ≡ true → m.gate ≡ some i)
        → (m.gate ≡ none → InSync c IsGood m.inner)
        → Phase c IsGood m.inner (pc_of w)
        → m'.gate ≡ none
        → InSync c IsGood m'.inner
    CallMove-InSync look g held free phase e = free e
    CallMove-InSync (inside running mv) g held free phase e =
        Move-InSync c IsGood positive interval mv g held free phase e
    CallMove-InSync leave g held free phase e = free e

    -- Who holds the gate holds it alone.
    alone :
        (gate : Option ℕ) (i j : ℕ) (p q : Pc)
        → eqb i j ≡ false
        → (critical p ≡ true → gate ≡ some i)
        → (critical q ≡ true → gate ≡ some j)
        → critical p ≡ true
        → critical q ≡ false
    alone gate i j p q other held held' crit = elim (Bool-cases (critical q)) [
      | inl both ↦ absurd (ground (arith, held crit, held' both, eqb_iff i j))
      | inr outside ↦ outside
    ]

    pub CallReach-IsSound :
        {s : CallSystem T} (r : CallReach c calls s) → IsGenuine r → IsSound s.mem s.at
    CallReach-IsSound CallReach.start g = record {
      kept = inl (refl, refl);
      in_sync = λ e. refl;
      phase = λ j. tt;
    }
    CallReach-IsSound (CallReach.later {s = s} r (CallStep.pick i {m} {w} mv)) (before, g) =
        let sound = CallReach-IsSound r before in
        let owned = (Reach-Inv c (CallReach-Reach c calls s r)).owned in
        record {
          kept = CallMove-IsKept mv (sound.phase i) sound.kept;
          in_sync = CallMove-InSync mv g (owned i) sound.in_sync (sound.phase i);
          phase = λ j. elim (Bool-cases (eqb i j)) [
            | inl same ↦ rw same (own-Phase mv g sound.in_sync (sound.phase i))
            | inr other ↦ rw other (
                others-Phase (pc_of (s.at j)) mv
                  (alone s.mem.gate i j (pc_of (s.at i)) (pc_of (s.at j)) other (owned i) (owned j))
                  (sound.phase j))
          ];
        }
