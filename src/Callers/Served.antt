-- ===== src/Callers/Served.antt =====
-- Every caller can be served: the holder of the gate gives it back, and then the next one goes on.
use auth_oidc.Prelude.{
  ℕ, zero, suc, ◌≤◌, ◌<◌, ◌≡◌, refl, ap, ◌∙◌, ◌⊎◌, inl, inr, Bool, some, arith, eqb, eqb_iff,
  Bool-cases,
}
use auth_oidc.Error.{Result}
use auth_oidc.Jwks.Key.{JwkSet}
use auth_oidc.Cache.{JwksCache, snapshot}
use auth_oidc.Cache.Limit.{Call}
use auth_oidc.Threads.{Shared, queued, critical, wake}
use auth_oidc.Threads.Progress.{Reach-IsHeld}
use auth_oidc.Callers.{
  Caller, starting, refreshing, finished, CallMove, look, inside, CallSystem, set_at, CallReach,
}
use auth_oidc.Callers.Refines.{pc_of, CallReach-Reach}
use auth_oidc.Callers.Ends.{budget, CallMove-budget}
use auth_oidc.Callers.Entered.{entered_cases, CallReach-IsEntered}
use auth_oidc.Callers.Answers.{MoveAnswers, answered_step}
use auth_oidc.Callers.Next.{HasPanicked, IsLive, live-Next, after_snapshot-IsLive}
use auth_oidc.Callers.Onward.{Onward, still, onward, Onward-trans, Onward-CallReach}
use auth_oidc.Callers.Freed.{set_at-here, holder-Freed}

module _ (c : JwksCache) {T : Type 0} (calls : ℕ → Call T)
    (IsAllowed : Result JwkSet → Type 0) where
  -- Some steps of the callers, with allowed answers and no panic, take this one to its result.
  pub record IsServed (s : CallSystem T) (i : ℕ) : Type 0 where
    pub after : CallSystem T
    pub later : Onward c calls IsAllowed s after
    pub result : Result T
    pub ended : after.at i ≡ finished result

module _ (c : JwksCache) {T : Type 0} (calls : ℕ → Call T) (IsAllowed : Result JwkSet → Type 0)
    (answer : Result JwkSet) (allowed : IsAllowed answer) where
  -- A later state, in which the caller is nearer to its result.
  record Nearer (s : CallSystem T) (i : ℕ) : Type 0 where
    after : CallSystem T
    later : Onward c calls IsAllowed s after
    live : IsLive (after.at i)
    less : budget (after.at i) < budget (s.at i)

  move-Nearer :
      (s : CallSystem T) (i : ℕ) {m' : Shared} {w w' : Caller T}
      → s.at i ≡ w
      → (mv : CallMove c i (calls i) s.mem w m' w') → MoveAnswers IsAllowed mv
      → IsLive w'
      → Nearer s i
  move-Nearer s i {m'} {w} {w'} here mv g live = record {
    after = record { mem = m'; at = set_at s.at i w' };
    later = let (st, given) = answered_step IsAllowed calls s i here mv g in onward still st given;
    live = rw (set_at-here s.at i w') live;
    less = rw (set_at-here s.at i w', here) (CallMove-budget c (calls i) mv);
  }

  -- The holder gives the gate back, and the caller takes it.
  blocked-Nearer :
      (s : CallSystem T) (i holder now : ℕ) (rotated : Bool)
      → CallReach c calls s
      → s.at i ≡ refreshing rotated (queued now)
      → s.mem.gate ≡ some holder
      → Nearer s i
  blocked-Nearer s i holder now rotated r here taken = elim (Bool-cases (eqb holder i)) [
    | inl same ↦
        let waits = ap s.at ((eqb_iff holder i).0 same) ∙ here in
        let holds = Reach-IsHeld c (CallReach-Reach c calls s r) holder taken in
        absurd (ground (arith, ap (λ w. critical (pc_of w)) waits))
    | inr other ↦
        let f =
          holder-Freed c calls IsAllowed answer allowed (budget (s.at holder)) s holder r taken
            (omega arith) in
        let still : f.after.at i ≡ refreshing rotated (queued now) = f.others i other ∙ here in
        let near = move-Nearer f.after i still (inside refl (wake f.free)) tt tt in
        record {
          after = near.after;
          later = Onward-trans c calls IsAllowed f.later near.later;
          live = near.live;
          less = rw⁻¹ (f.others i other) near.less;
        }
  ]

  caller-Nearer :
      (s : CallSystem T) (i : ℕ) (w : Caller T)
      → CallReach c calls s
      → s.at i ≡ w
      → IsLive w
      → ((result : Result T) × (s.at i ≡ finished result)) ⊎ Nearer s i
  caller-Nearer s i starting r here live = inr (
      move-Nearer s i here look tt
        (after_snapshot-IsLive c (calls i) (snapshot c s.mem.inner (calls i).now)))
  caller-Nearer s i (finished result) r here live = inl (result, here)
  caller-Nearer s i (refreshing rotated p) r here live =
      elim (live-Next c (calls i) i IsAllowed answer allowed s.mem rotated p live) [
        | inl (m', w', mv, alive, g) ↦ inr (move-Nearer s i here mv g alive)
        | inr (now, holder, waits, taken) ↦
            inr
              (blocked-Nearer s i holder now rotated r (here ∙ ap (refreshing rotated) waits) taken)
      ]

  pub live-IsServed :
      (n : ℕ) (s : CallSystem T) (i : ℕ)
      → CallReach c calls s
      → IsLive (s.at i)
      → budget (s.at i) ≤ n
      → IsServed c calls IsAllowed s i
  live-IsServed zero s i r live bound = elim (caller-Nearer s i (s.at i) r refl live) [
    | inl (result, ended) ↦ record { after = s; later = still; result = result; ended = ended }
    | inr near ↦ absurd (omega (arith, near.less))
  ]
  live-IsServed (suc n) s i r live bound = elim (caller-Nearer s i (s.at i) r refl live) [
    | inl (result, ended) ↦ record { after = s; later = still; result = result; ended = ended }
    | inr near ↦
        let rest =
          live-IsServed n near.after i (Onward-CallReach c calls IsAllowed r near.later) near.live
            (omega (arith, near.less)) in
        record {
          after = rest.after;
          later = Onward-trans c calls IsAllowed near.later rest.later;
          result = rest.result;
          ended = rest.ended;
        }
  ]

  -- In every state that any number of callers can reach, also after panics in fetches: whatever
  -- answers the provider is allowed to give, if there is one, some steps of the callers in which it
  -- gives such answers and no fetch panics take any one caller to its result, unless its own fetch
  -- has panicked. No caller is ever locked out.
  pub reached-IsServed :
      (s : CallSystem T) (i : ℕ)
      → CallReach c calls s
      → HasPanicked (s.at i) ⊎ IsServed c calls IsAllowed s i
  reached-IsServed s i r = elim (entered_cases c calls (s.at i) (CallReach-IsEntered c calls r i)) [
    | inl panic ↦ inl panic
    | inr live ↦ inr (live-IsServed (budget (s.at i)) s i r live (omega arith))
  ]
