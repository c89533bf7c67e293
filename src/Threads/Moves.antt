-- ===== src/Threads/Moves.antt =====
-- Every step of a thread keeps the invariant.
use auth_oidc.Prelude.{subst, ℕ, ◌<◌, ◌≡◌, refl, ap, inl, Bool, true, Option, some, arith}
use auth_oidc.Error.{Result}
use auth_oidc.Jwks.Key.{JwkSet}
use auth_oidc.Cache.{JwksCache, Inner, serve, admit, recheck, serve_within_ceiling}
use auth_oidc.Threads.{
  Shared, Pc, critical, Move, call, turned_away, admitted, try_lock, try_poisoned, would_block,
  read_back, release, queue, wake, satisfied, claim, settled, System, update, Step, pick, init,
  Reach, start, later,
}
use auth_oidc.Threads.Invariant.{
  Spaced, Anchored, Returns, IsStamped, Inv, recheck-eq-proceed, claim-Spaced, serve-Fresh,
  settle-Fresh, settle-IsStamped, settle-last_attempt, Returns-install, update-Returns,
}

module _ (c : JwksCache) where
  open c use {max_stale}

  init-Inv : Inv c init.mem init.pc
  init-Inv = record { owned = λ i h. cc; spaced = tt; anchored = refl; stamped = inl (refl, refl) }

  admit-eq-serve :
      (inner : Inner) (now : ℕ) (wait : Bool) {result : Result (Option JwkSet)}
      → admit c inner now wait ≡ serve result
      → result ≡ serve_within_ceiling c inner now
  unfolding admit
  admit-eq-serve inner now wait e = ground arith

  recheck-eq-serve :
      (inner : Inner) (now : ℕ) (desperate : Bool) {result : Result (Option JwkSet)}
      → recheck c inner now desperate ≡ serve result
      → result ≡ serve_within_ceiling c inner now
  unfolding recheck
  recheck-eq-serve inner now desperate e = ground arith

  module _ {m : Shared} {pc : ℕ → Pc} (inv : Inv c m pc) (i : ℕ) where
    Move-owned :
        {p p' : Pc} {m' : Shared}
        → Move c i m p m' p'
        → pc i ≡ p
        → (j : ℕ) → critical (update pc i p' j) ≡ true
        → m'.gate ≡ some j
    Move-owned (call now wait) here j h = ground (arith, inv.owned j)
    Move-owned (turned_away e) here j h = ground (arith, inv.owned j)
    Move-owned (admitted e) here j h = ground (arith, inv.owned j)
    Move-owned (try_lock free clean) here j h = ground (arith, inv.owned j)
    Move-owned (try_poisoned free dirty) here j h = ground (arith, inv.owned j)
    Move-owned (would_block held) here j h = ground (arith, inv.owned j)
    Move-owned (queue held) here j h = ground (arith, inv.owned j)
    Move-owned (wake free) here j h = ground (arith, inv.owned j)
    Move-owned mv here j h = ground (arith, inv.owned j, inv.owned i)

    Move-Spaced : {p p' : Pc} {m' : Shared} → Move c i m p m' p' → Spaced c m'.attempts
    Move-Spaced (call now wait) = inv.spaced
    Move-Spaced (claim {now} {desperate} e) =
        claim-Spaced c now m.inner m.attempts (recheck-eq-proceed c m.inner now desperate e).0
          inv.spaced inv.anchored
    Move-Spaced mv = inv.spaced

    Move-Anchored :
        {p p' : Pc} {m' : Shared}
        → Move c i m p m' p'
        → Anchored c m'.attempts m'.inner.last_attempt
    Move-Anchored (call now wait) = inv.anchored
    Move-Anchored (claim {now} {desperate} e) =
        ap (λ inner. inner.last_attempt) (recheck-eq-proceed c m.inner now desperate e).1
    Move-Anchored (settled {now} {answer}) =
        rw (settle-last_attempt c m.inner now answer) inv.anchored
    Move-Anchored mv = inv.anchored

    Move-IsStamped :
        {p p' : Pc} {m' : Shared} → Move c i m p m' p' → IsStamped c m'.inner m'.installed
    Move-IsStamped (call now wait) = inv.stamped
    Move-IsStamped (claim {now} {desperate} e) =
        rw (recheck-eq-proceed c m.inner now desperate e).1 inv.stamped
    Move-IsStamped (settled {now} {answer}) =
        settle-IsStamped c m.inner m.installed now answer inv.stamped
    Move-IsStamped mv = inv.stamped

    moved-Returns :
        0 < max_stale
        → Returns c m.installed (pc i)
        → {p p' : Pc} {m' : Shared} → Move c i m p m' p'
        → pc i ≡ p
        → Returns c m'.installed p'
    moved-Returns ceiling was (call now wait) here = tt
    moved-Returns ceiling was (turned_away {now} {wait} e) here =
        rw (admit-eq-serve m.inner now wait e) (serve-Fresh c m.inner m.installed now inv.stamped)
    moved-Returns ceiling was (read_back {now}) here =
        serve-Fresh c m.inner m.installed now inv.stamped
    moved-Returns ceiling was (satisfied {now} {desperate} e) here =
        rw (recheck-eq-serve m.inner now desperate e)
          (serve-Fresh c m.inner m.installed now inv.stamped)
    moved-Returns ceiling was (settled {now} {answer}) here =
        settle-Fresh c m.inner m.installed now answer ceiling inv.stamped
    moved-Returns ceiling was release here = subst (Returns c m.installed) here was
    moved-Returns ceiling was mv here = tt

    kept-Returns :
        (q : Pc) {p p' : Pc} {m' : Shared}
        → Move c i m p m' p'
        → Returns c m.installed q
        → Returns c m'.installed q
    kept-Returns q (call now wait) was = was
    kept-Returns q (settled {now} {answer}) was = Returns-install c m.installed now answer q was
    kept-Returns q mv was = was

    Move-Inv : {p p' : Pc} {m' : Shared} → Move c i m p m' p' → pc i ≡ p → Inv c m' (update pc i p')
    Move-Inv mv here = record {
      owned = Move-owned mv here;
      spaced = Move-Spaced mv;
      anchored = Move-Anchored mv;
      stamped = Move-IsStamped mv;
    }

    Move-Returns :
        0 < max_stale
        → ((j : ℕ) → Returns c m.installed (pc j))
        → {p p' : Pc} {m' : Shared} → Move c i m p m' p'
        → pc i ≡ p
        → (j : ℕ) → Returns c m'.installed (update pc i p' j)
    Move-Returns ceiling were {p} {p'} {m'} mv here =
        update-Returns c m'.installed pc i p' (moved-Returns ceiling (were i) mv here)
          (λ j. kept-Returns (pc j) mv (were j))

  pub Step-Inv : {s t : System} → Step c s t → Inv c s.mem s.pc → Inv c t.mem t.pc
  Step-Inv (pick i mv) inv = Move-Inv inv i mv refl

  pub Reach-Inv : {s : System} → Reach c s → Inv c s.mem s.pc
  Reach-Inv start = init-Inv
  Reach-Inv (later r st) = Step-Inv st (Reach-Inv r)

  pub Reach-Returns :
      {s : System} → 0 < max_stale → Reach c s → (j : ℕ) → Returns c s.mem.installed (s.pc j)
  Reach-Returns ceiling start j = tt
  Reach-Returns ceiling (later r (pick i mv)) j =
      Move-Returns (Reach-Inv r) i ceiling (Reach-Returns ceiling r) mv refl j
