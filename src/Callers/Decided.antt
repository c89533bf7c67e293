-- ===== src/Callers/Decided.antt =====
-- How the calls end if every key set that the provider brings gives the same result.
use auth_oidc.Prelude.{
  ℕ, ◌≤◌, ◌<◌, ◌≡◌, refl, subst, inl, inr, true, false, Option, some, arith, eqb, eqb_iff,
  Bool-cases,
}
use auth_oidc.Error.{Result, ok}
use auth_oidc.Jwks.Key.{JwkSet}
use auth_oidc.Cache.{JwksCache, Inner, snapshot, past, try_all}
use auth_oidc.Cache.Limit.{Call}
use auth_oidc.Threads.{Shared, idle, panicked}
use auth_oidc.Threads.Genuine.{IsAnswer, IsKept, Phase, IsServable, IsFull, WillServe}
use auth_oidc.Threads.Genuine.Moves.{Move-IsServable, Move-WillServe, WillServe-mono}
use auth_oidc.Callers.{
  Caller, starting, refreshing, finished, look_in, after_snapshot, after_refresh, CallMove, look,
  inside, leave, CallSystem, CallStep, CallReach,
}
use auth_oidc.Callers.Answers.{MoveAnswers}
use auth_oidc.Callers.Refines.{pc_of}
use auth_oidc.Callers.Ends.{budget}
use auth_oidc.Callers.Next.{IsLive}
use auth_oidc.Callers.Onward.{Onward-CallReach, Onward-RunAnswers}
use auth_oidc.Callers.Served.{IsServed, live-IsServed}
use auth_oidc.Callers.Genuine.{IsGenuine, CallReach-IsSound}

module _ (c : JwksCache) {T : Type 0} (calls : ℕ → Call T) (IsGood : JwkSet → Type 0) where
  module _ (positive : 0 < c.min_refetch_interval) (interval : c.min_refetch_interval ≤ c.max_stale)
      (i : ℕ) (result : Result T) where
    -- A caller will end with the result, or has.
    abbrev WillEnd : Inner → Caller T → Type 0
    WillEnd inner starting = Unit
    WillEnd inner (refreshing false p) = WillServe c IsGood inner (calls i).now p
    WillEnd inner (refreshing true p) = ⊥
    WillEnd inner (finished ended) = ended ≡ result

    module _
        (decides : (set : JwkSet)
          → IsGood set
          → try_all set (calls i).kid (calls i).check ≡ some result) where
      look_in-WillEnd :
          (inner : Inner) (set : JwkSet)
          → IsGood set
          → WillEnd inner (look_in c (calls i) (some set))
      look_in-WillEnd inner set good = rw (decides set good) refl

      snapshot-WillEnd :
          (inner : Inner)
          → IsKept c IsGood inner
          → WillEnd inner (after_snapshot c (calls i) (snapshot c inner (calls i).now))
      unfolding after_snapshot snapshot
      snapshot-WillEnd inner (inl (empty, at)) = rw (empty, at) (refl, inl refl)
      snapshot-WillEnd inner (inr (set, t, holds, at, good)) =
          elim (Bool-cases (past inner.fetched_at (calls i).now c.max_stale false)) [
            | inl expired ↦ rw expired (refl, inl refl)
            | inr young ↦ elim (Bool-cases (past inner.fetched_at (calls i).now c.ttl true)) [
              | inl stale ↦
                  rw (young, holds, stale) (refl, inr (set, t, refl, at, good, ground arith))
              | inr enough ↦
                  rw (young, holds, enough)
                    (look_in-WillEnd (record inner { keys = some set }) set good)
            ]
          ]

      leave-WillEnd :
          (inner : Inner) (ended : Result (Option JwkSet))
          → IsFull c IsGood ended
          → WillEnd inner (after_refresh c (calls i) false ended)
      unfolding after_refresh
      leave-WillEnd inner ended (set, same, good) = rw same (look_in-WillEnd inner set good)

      own-WillEnd :
          {m m' : Shared} {w w' : Caller T} (mv : CallMove c i (calls i) m w m' w')
          → MoveAnswers (IsAnswer IsGood) mv
          → IsKept c IsGood m.inner
          → Phase c IsGood m.inner (pc_of w)
          → WillEnd m.inner w
          → WillEnd m'.inner w'
      own-WillEnd {m = m} look g kept phase will = snapshot-WillEnd m.inner kept
      own-WillEnd (inside {rotated = false} running mv) g kept phase will =
          Move-WillServe c IsGood positive interval (calls i).now mv g kept phase will running
      own-WillEnd (inside {rotated = true} running mv) g kept phase will = absurd will
      own-WillEnd {m = m} (leave {rotated = false} {result = ended}) g kept phase will =
          leave-WillEnd m.inner ended will
      own-WillEnd (leave {rotated = true}) g kept phase will = absurd will

      mono-WillEnd :
          (inner inner' : Inner) (u : Caller T)
          → ((now : ℕ) → IsServable c IsGood inner now → IsServable c IsGood inner' now)
          → WillEnd inner u
          → WillEnd inner' u
      mono-WillEnd inner inner' starting keep will = tt
      mono-WillEnd inner inner' (refreshing false p) keep will =
          WillServe-mono c IsGood positive interval inner inner' (calls i).now p keep will
      mono-WillEnd inner inner' (refreshing true p) keep will = absurd will
      mono-WillEnd inner inner' (finished ended) keep will = will

      other-WillEnd :
          {k : ℕ} {asked : Call T} {m m' : Shared} {w w' : Caller T} (u : Caller T)
          → CallMove c k asked m w m' w'
          → Phase c IsGood m.inner (pc_of w)
          → WillEnd m.inner u
          → WillEnd m'.inner u
      other-WillEnd u look phase will = will
      other-WillEnd {m = m} {m' = m'} u (inside running mv) phase will =
          mono-WillEnd m.inner m'.inner u
            (λ now. Move-IsServable c IsGood positive interval now mv phase) will
      other-WillEnd u leave phase will = will

      CallReach-WillEnd :
          {s : CallSystem T} (r : CallReach c calls s)
          → IsGenuine c calls IsGood r
          → WillEnd s.mem.inner (s.at i)
      CallReach-WillEnd CallReach.start g = tt
      CallReach-WillEnd (CallReach.later {s = s} r (CallStep.pick k {m} {w} mv)) (before, g) =
          let sound = CallReach-IsSound c calls IsGood positive interval r before in
          let will = CallReach-WillEnd r before in
          elim (Bool-cases (eqb k i)) [
            | inl same ↦
                let e = (eqb_iff k i).0 same in
                let (mv', g') =
                  subst
                    (λ j.
                      (mv : CallMove c j (calls j) s.mem (s.at j) m w) × MoveAnswers
                        (IsAnswer IsGood) mv)
                    e (mv, g) in
                rw same (own-WillEnd mv' g' sound.kept (sound.phase i) will)
            | inr other ↦ rw other (other-WillEnd (s.at i) mv (sound.phase k) will)
          ]

      -- In a run in which every answer of the provider is a good key set and no fetch panics, every
      -- call of `with_key` that ends ends with the one result to which a good set leads its lookup:
      -- however the callers interleave, none is refused for lack of keys, and none has another
      -- result. The refetch interval is not zero, and not above the ceiling.
      pub finished-eq-result :
          (s : CallSystem T) (ended : Result T) (r : CallReach c calls s)
          → IsGenuine c calls IsGood r
          → s.at i ≡ finished ended
          → ended ≡ result
      finished-eq-result s ended r g here = subst (WillEnd s.mem.inner) here (CallReach-WillEnd r g)

      WillEnd-IsLive : (inner : Inner) (w : Caller T) → WillEnd inner w → IsLive w
      WillEnd-IsLive inner (refreshing false idle) will = will
      WillEnd-IsLive inner (refreshing false (panicked now)) will = will
      WillEnd-IsLive inner (refreshing true p) will = absurd will
      WillEnd-IsLive inner w will = tt

      -- The caller can still end, with that result.
      pub genuine-IsServed :
          (s : CallSystem T) (set : JwkSet) (r : CallReach c calls s)
          → IsGood set
          → IsGenuine c calls IsGood r
          → (served : IsServed c calls (IsAnswer IsGood) s i) × (served.result ≡ result)
      genuine-IsServed s set r good g =
          let will = CallReach-WillEnd r g in
          let served =
            live-IsServed c calls (IsAnswer IsGood) (ok set) good (budget (s.at i)) s i r
              (WillEnd-IsLive s.mem.inner (s.at i) will) (omega arith) in
          (
            served,
            finished-eq-result served.after served.result
                (Onward-CallReach c calls (IsAnswer IsGood) r served.later)
                (Onward-RunAnswers c calls (IsAnswer IsGood) r served.later g) served.ended,
          )
