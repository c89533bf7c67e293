-- ===== src/Callers/Freed.antt =====
-- Whoever holds the gate can give it back by its own steps.
use auth_oidc.Prelude.{
  ℕ, zero, suc, ◌≤◌, ◌<◌, ◌≡◌, refl, ◌∙◌, ◌⊎◌, inl, inr, Bool, true, false, none, some, arith, eqb,
  eqb_iff,
}
use auth_oidc.Error.{Result}
use auth_oidc.Jwks.Key.{JwkSet}
use auth_oidc.Cache.{JwksCache, recheck}
use auth_oidc.Cache.Limit.{Call}
use auth_oidc.Threads.{
  Shared, Pc, holding, fetching, settling, releasing, critical, satisfied, claim, answered, settled,
  release,
}
use auth_oidc.Threads.Solo.{Decision-cases}
use auth_oidc.Threads.Progress.{Reach-IsHeld}
use auth_oidc.Callers.{
  Caller, starting, refreshing, finished, CallMove, inside, CallSystem, set_at, CallStep, CallReach,
}
use auth_oidc.Callers.Refines.{pc_of, CallReach-Reach}
use auth_oidc.Callers.Ends.{budget, CallMove-budget}
use auth_oidc.Callers.Answers.{MoveAnswers, StepAnswers}
use auth_oidc.Callers.Onward.{Onward, still, onward, Onward-trans}

pub set_at-here : {T : Type 0} (at : ℕ → Caller T) (i : ℕ) (w : Caller T) → set_at at i w i ≡ w
set_at-here at i w = rw ((eqb_iff i i).1 refl) refl

module _ (c : JwksCache) {T : Type 0} (calls : ℕ → Call T) (IsAllowed : Result JwkSet → Type 0)
    (answer : Result JwkSet) (allowed : IsAllowed answer) where
  -- A step of the holder of the gate, which keeps the gate or gives it back.
  abbrev pub HolderNext : ℕ → Shared → Caller T → Type 0
  HolderNext j m w =
      (m' : Shared) × (w' : Caller T) × (mv : CallMove c j (calls j) m w m' w') × ((m'.gate
          ≡ m.gate)
        ⊎ (m'.gate ≡ none))
      × MoveAnswers IsAllowed mv

  critical-HolderNext :
      (j : ℕ) (m : Shared) (rotated : Bool) (p : Pc)
      → critical p ≡ true
      → HolderNext j m (refreshing rotated p)
  critical-HolderNext j m rotated (holding now desperate) h =
      elim (Decision-cases (recheck c m.inner now desperate)) [
        | inl (r, e) ↦ (_, _, inside refl (satisfied e), inl refl, tt)
        | inr (inner, e) ↦ (_, _, inside refl (claim e), inl refl, tt)
      ]
  critical-HolderNext j m rotated (fetching now) h =
      (_, _, inside refl (answered answer), inl refl, allowed)
  critical-HolderNext j m rotated (settling now got) h = (_, _, inside refl settled, inl refl, tt)
  critical-HolderNext j m rotated (releasing now result) h =
      (_, _, inside refl release, inr refl, tt)
  critical-HolderNext j m rotated _ h = cc

  pub holder-HolderNext :
      (j : ℕ) (m : Shared) (w : Caller T) → critical (pc_of w) ≡ true → HolderNext j m w
  holder-HolderNext j m starting h = cc
  holder-HolderNext j m (finished result) h = cc
  holder-HolderNext j m (refreshing rotated p) h = critical-HolderNext j m rotated p h

  -- From here the gate can be freed without a step of any caller but its holder.
  pub record Freed (s : CallSystem T) (j : ℕ) : Type 0 where
    pub after : CallSystem T
    pub later : Onward c calls IsAllowed s after
    pub free : after.mem.gate ≡ none
    pub others : (k : ℕ) → eqb j k ≡ false → after.at k ≡ s.at k

  -- One step of the holder.
  record Handed (s : CallSystem T) (j : ℕ) : Type 0 where
    after : CallSystem T
    step : CallStep c calls s after
    answers : StepAnswers IsAllowed step
    gate : (after.mem.gate ≡ some j) ⊎ (after.mem.gate ≡ none)
    less : budget (after.at j) < budget (s.at j)
    others : (k : ℕ) → eqb j k ≡ false → after.at k ≡ s.at k

  holder-Handed :
      (s : CallSystem T) (j : ℕ) → CallReach c calls s → s.mem.gate ≡ some j → Handed s j
  holder-Handed s j r taken =
      let (m', w', mv, gives, g) =
        holder-HolderNext j s.mem (s.at j) (Reach-IsHeld c (CallReach-Reach c calls s r) j taken) in
      record {
        after = record { mem = m'; at = set_at s.at j w' };
        step = CallStep.pick j mv;
        answers = g;
        gate = elim gives [ inl kept ↦ inl (kept ∙ taken) | inr free ↦ inr free ];
        less = rw (set_at-here s.at j w') (CallMove-budget c (calls j) mv);
        others = λ k other. rw other refl;
      }

  pub holder-Freed :
      (n : ℕ) (s : CallSystem T) (j : ℕ)
      → CallReach c calls s
      → s.mem.gate ≡ some j
      → budget (s.at j) ≤ n
      → Freed s j
  holder-Freed zero s j r taken bound =
      let h = holder-Handed s j r taken in absurd (omega (arith, h.less))
  holder-Freed (suc n) s j r taken bound =
      let h = holder-Handed s j r taken in
      elim h.gate [
        | inr free ↦ record {
          after = h.after;
          later = onward still h.step h.answers;
          free = free;
          others = h.others;
        }
        | inl kept ↦
            let f =
              holder-Freed n h.after j (CallReach.later r h.step) kept (omega (arith, h.less)) in
            record {
              after = f.after;
              later = Onward-trans c calls IsAllowed (onward still h.step h.answers) f.later;
              free = f.free;
              others = λ k other. f.others k other ∙ h.others k other;
            }
      ]
