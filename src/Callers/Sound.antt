-- ===== src/Callers/Sound.antt =====
-- Whose keys a caller's check has accepted, in every interleaving.
use auth_oidc.Prelude.{
  ℕ, ◌<◌, ◌≡◌, refl, ◌∙◌, subst, inl, inr, Bool, true, false, ◌||◌, List, Option, none, some, IsIn,
  arith, eqb, eqb_iff, is_none, Bool-cases,
}
use auth_oidc.Error.{Result, ok, err}
use auth_oidc.Jwks.Key.{Jwk, JwkSet}
use auth_oidc.Jwks.Select.{Matches}
use auth_oidc.Cache.{JwksCache, Inner, past, snapshot, try_all, result_or_unknown}
use auth_oidc.Cache.Limit.{Call}
use auth_oidc.Cache.Lookup.{try_all-eq-ok}
use auth_oidc.Threads.{
  is_running, Shared, Pc, idle, entering, at_gate, turned_back, queued, holding, fetching, settling,
  releasing, returned, panicked, Move, call, settled, install, Reach,
}
use auth_oidc.Threads.Invariant.{IsRecent, IsStamped, Returns}
use auth_oidc.Threads.Moves.{Reach-Inv, Reach-Returns}
use auth_oidc.Callers.{
  Caller, starting, refreshing, finished, or_refresh, look_in, after_snapshot, after_refresh,
  CallMove, look, inside, leave, CallSystem, CallStep, CallReach,
}
use auth_oidc.Callers.Refines.{pc_of, threads_of, CallReach-Reach}

-- The time that the thread's call of `refresh` was given.
abbrev pub time_of : Pc → Option ℕ
time_of idle = none
time_of (entering now wait) = some now
time_of (at_gate now desperate) = some now
time_of (turned_back now) = some now
time_of (queued now) = some now
time_of (holding now desperate) = some now
time_of (fetching now) = some now
time_of (settling now answer) = some now
time_of (releasing now result) = some now
time_of (returned now result) = some now
time_of (panicked now) = some now

Move-time_of :
    {c : JwksCache} {i : ℕ} {m m' : Shared} {p p' : Pc}
    → is_running p ≡ true
    → Move c i m p m' p'
    → time_of p' ≡ time_of p
Move-time_of running (call now wait) = cc
Move-time_of running mv = ground arith

module _ (c : JwksCache) {T : Type 0} (asked : Call T) where
  -- The check has accepted a key with the right `kid`, of a set that some request has brought, less
  -- than the ceiling before the call.
  abbrev pub Vouched : List (ℕ × JwkSet) → T → Type 0
  Vouched sets v =
      (set : JwkSet) × (k : Jwk) × IsRecent c sets asked.now set
      × IsIn k set.keys
      × Matches asked.kid k
      × (asked.check k ≡ ok v)

  -- A refresh was given the caller's time, and a success is vouched for.
  abbrev pub Holds : List (ℕ × JwkSet) → Caller T → Type 0
  Holds sets starting = Unit
  Holds sets (refreshing rotated p) = time_of p ≡ some asked.now
  Holds sets (finished (ok v)) = Vouched sets v
  Holds sets (finished (err why)) = Unit

  Holds-install :
      (sets : List (ℕ × JwkSet)) (now : ℕ) (answer : Result JwkSet) (w : Caller T)
      → Holds sets w
      → Holds (install now answer sets) w
  Holds-install sets now (err why) w h = h
  Holds-install sets now (ok set) starting h = tt
  Holds-install sets now (ok set) (refreshing rotated p) h = h
  Holds-install sets now (ok set) (finished (err why)) h = tt
  Holds-install sets now (ok set) (finished (ok v))
        (set', k, (t, brought, young), found, matches, accepts) =
      (set', k, (t, inr brought, young), found, matches, accepts)

  module _ (sets : List (ℕ × JwkSet)) (set : JwkSet) (recent : IsRecent c sets asked.now set) where
    tried-Holds :
        (o : Option (Result T))
        → try_all set asked.kid asked.check ≡ o
        → Holds sets (or_refresh c asked o)
    tried-Holds none e = refl
    tried-Holds (some (err why)) e = tt
    tried-Holds (some (ok v)) e =
        let (k, found, matches, accepts) = try_all-eq-ok asked.check set asked.kid v e in
        (set, k, recent, found, matches, accepts)

    rotated-Holds :
        (o : Option (Result T))
        → try_all set asked.kid asked.check ≡ o
        → Holds sets (finished (result_or_unknown asked.kid o))
    rotated-Holds none e = tt
    rotated-Holds (some r) e = tried-Holds (some r) e

  look_in-Holds :
      (sets : List (ℕ × JwkSet)) (keys : Option JwkSet)
      → ((set : JwkSet) → keys ≡ some set → IsRecent c sets asked.now set)
      → Holds sets (look_in c asked keys)
  look_in-Holds sets none recent = tt
  look_in-Holds sets (some set) recent =
      tried-Holds sets set (recent set refl) (try_all set asked.kid asked.check) refl

  -- Keys of the snapshot that are not expired are recent.
  snapshot-IsRecent :
      (inner : Inner) (sets : List (ℕ × JwkSet)) (set : JwkSet)
      → IsStamped c inner sets
      → inner.keys ≡ some set
      → past inner.fetched_at asked.now c.max_stale false ≡ false
      → IsRecent c sets asked.now set
  snapshot-IsRecent inner sets set (inl (empty, _)) kept young = cc
  snapshot-IsRecent inner sets set (inr (set', t, kept', at, brought)) kept young =
      let same : set' ≡ set = ground arith in
      (t, subst (λ x. IsIn (t, x) sets) same brought, ground arith)

  look-Holds :
      (inner : Inner) (sets : List (ℕ × JwkSet))
      → IsStamped c inner sets
      → Holds sets (after_snapshot c asked (snapshot c inner asked.now))
  unfolding after_snapshot snapshot
  look-Holds inner sets stamped =
      elim (Bool-cases (past inner.fetched_at asked.now c.max_stale false)) [
        | inl expired ↦ rw expired refl
        | inr young ↦
            rw young
              (elim (Bool-cases
                (is_none inner.keys || past inner.fetched_at asked.now c.ttl true)) [
                  | inl stale ↦ rw stale refl
                  | inr enough ↦ rw enough (
                      look_in-Holds sets inner.keys
                        (λ set kept. snapshot-IsRecent inner sets set stamped kept young))
                ])
      ]

  leave-Holds :
      (sets : List (ℕ × JwkSet)) (rotated : Bool) (result : Result (Option JwkSet))
      → Returns c sets (returned asked.now result)
      → Holds sets (after_refresh c asked rotated result)
  unfolding after_refresh
  leave-Holds sets rotated (err why) fresh = tt
  leave-Holds sets false (ok none) fresh = tt
  leave-Holds sets false (ok (some set)) fresh =
      tried-Holds sets set fresh (try_all set asked.kid asked.check) refl
  leave-Holds sets true (ok none) fresh = tt
  leave-Holds sets true (ok (some set)) fresh =
      rotated-Holds sets set fresh (try_all set asked.kid asked.check) refl

  own-Holds :
      {i : ℕ} {m m' : Shared} {w w' : Caller T}
      → IsStamped c m.inner m.installed
      → Returns c m.installed (pc_of w)
      → CallMove c i asked m w m' w'
      → Holds m.installed w
      → Holds m'.installed w'
  own-Holds {m = m} stamped fresh look h = look-Holds m.inner m.installed stamped
  own-Holds stamped fresh (inside running mv) h = Move-time_of running mv ∙ h
  own-Holds {m = m} stamped fresh (leave {rotated} {now} {result}) h =
      let same : now ≡ asked.now = ground arith in
      leave-Holds m.installed rotated result
        (subst (λ t. Returns c m.installed (returned t result)) same fresh)

  -- What holds of one caller still holds after a step of any thread.
  Move-Holds :
      {i : ℕ} {m m' : Shared} {p p' : Pc} (w : Caller T)
      → Move c i m p m' p'
      → Holds m.installed w
      → Holds m'.installed w
  Move-Holds w (call now wait) h = h
  Move-Holds {m = m} w (settled {now} {answer}) h = Holds-install m.installed now answer w h
  Move-Holds w mv h = h

module _ (c : JwksCache) {T : Type 0} (calls : ℕ → Call T) where
  other-Holds :
      {i : ℕ} {m m' : Shared} {w w' : Caller T} (asked : Call T) (u : Caller T)
      → CallMove c i (calls i) m w m' w'
      → Holds c asked m.installed u
      → Holds c asked m'.installed u
  other-Holds asked u look h = h
  other-Holds asked u (inside running mv) h = Move-Holds c asked u mv h
  other-Holds asked u leave h = h

  CallReach-Holds :
      {s : CallSystem T}
      → 0 < c.max_stale
      → CallReach c calls s
      → (j : ℕ) → Holds c (calls j) s.mem.installed (s.at j)
  CallReach-Holds ceiling CallReach.start j = tt
  CallReach-Holds ceiling (CallReach.later {s = s} r (CallStep.pick i {m} {w} mv)) j =
      elim (Bool-cases (eqb i j)) [
        | inl same ↦ rw same (
            subst (λ k. Holds c (calls k) m.installed w) ((eqb_iff i j).0 same)
              (own-Holds c (calls i) ((Reach-Inv c threads).stamped)
                (Reach-Returns c ceiling threads i) mv (CallReach-Holds ceiling r i)))
        | inr other ↦ rw other (other-Holds (calls j) (s.at j) mv (CallReach-Holds ceiling r j))
      ]
    where
      threads : Reach c (threads_of s)
      threads = CallReach-Reach c calls s r

  -- Whatever the callers do and in whatever order, and whatever the provider answers: the result of
  -- a caller that succeeds is that of its check on a key with the `kid` that it asked for, of a set
  -- that some request has brought less than the ceiling before its call, where the ceiling is not
  -- zero.
  pub finished-Vouched :
      (s : CallSystem T) (i : ℕ) (v : T)
      → 0 < c.max_stale
      → CallReach c calls s
      → s.at i ≡ finished (ok v)
      → Vouched c (calls i) s.mem.installed v
  finished-Vouched s i v ceiling r here =
      subst (Holds c (calls i) s.mem.installed) here (CallReach-Holds ceiling r i)
