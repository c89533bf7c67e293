-- ===== src/Threads/Invariant.antt =====
-- What holds in every state that the threads can reach.
use auth_oidc.Prelude.{
  ℕ, ◌-◌, ◌≤◌, ◌<◌, ◌≡◌, refl, ◌⊎◌, inl, inr, Bool, true, false, List, [], ◌∷◌, Option, none, some,
  arith, IsIn, eqb, Bool-cases, leb, leb→le,
}
use auth_oidc.Error.{Result, ok, err}
use auth_oidc.Jwks.Key.{JwkSet}
use auth_oidc.Cache.{JwksCache, Inner, proceed, recheck, settle, serve_within_ceiling, past}
use auth_oidc.Threads.{Shared, Pc, returned, releasing, critical, install, update}

module _ (c : JwksCache) where
  open c use {min_refetch_interval, max_stale}

  -- Each request came at least the interval after the one before.
  abbrev pub Spaced : List ℕ → Type 0
  Spaced [] = Unit
  Spaced (t ∷ []) = Unit
  Spaced (t ∷ u ∷ ts) = (min_refetch_interval ≤ t - u) × Spaced (u ∷ ts)

  abbrev pub Anchored : List ℕ → Option ℕ → Type 0
  Anchored [] last = last ≡ none
  Anchored (t ∷ ts) last = last ≡ some t

  -- The set was brought by a request, less than the ceiling before `now`.
  abbrev pub IsRecent : List (ℕ × JwkSet) → ℕ → JwkSet → Type 0
  IsRecent installed now set = (t : ℕ) × IsIn (t, set) installed × (now - t < max_stale)

  abbrev pub Fresh : List (ℕ × JwkSet) → ℕ → Result (Option JwkSet) → Type 0
  Fresh installed now (ok none) = Unit
  Fresh installed now (ok (some set)) = IsRecent installed now set
  Fresh installed now (err e) = Unit

  abbrev pub Returns : List (ℕ × JwkSet) → Pc → Type 0
  Returns installed (releasing now result) = Fresh installed now result
  Returns installed (returned now result) = Fresh installed now result
  Returns installed _ = Unit

  -- The cache is empty, or holds a set under the time at which it was brought.
  abbrev pub IsStamped : Inner → List (ℕ × JwkSet) → Type 0
  IsStamped inner installed =
      ((inner.keys ≡ none) × (inner.fetched_at ≡ none))
      ⊎ ((set : JwkSet) × (t : ℕ) × (inner.keys ≡ some set)
          × (inner.fetched_at ≡ some t)
          × IsIn (t, set) installed)

  pub record Inv (m : Shared) (pc : ℕ → Pc) : Type 0 where
    pub owned : (i : ℕ) → critical (pc i) ≡ true → m.gate ≡ some i
    pub spaced : Spaced m.attempts
    pub anchored : Anchored m.attempts m.inner.last_attempt
    pub stamped : IsStamped m.inner m.installed

  pub recheck-eq-proceed :
      (inner : Inner) (now : ℕ) (desperate : Bool) {claimed : Inner}
      → recheck c inner now desperate ≡ proceed claimed
      → (past inner.last_attempt now min_refetch_interval true ≡ true)
        × (claimed ≡ record inner { last_attempt = some now })
  unfolding recheck
  recheck-eq-proceed inner now desperate e = ground arith

  pub claim-Spaced :
      (now : ℕ) (inner : Inner) (ts : List ℕ)
      → past inner.last_attempt now min_refetch_interval true ≡ true
      → Spaced ts
      → Anchored ts inner.last_attempt
      → Spaced (now ∷ ts)
  claim-Spaced now inner [] permitted s a = tt
  claim-Spaced now inner (t ∷ ts) permitted s a = (leb→le _ _ (ground arith), s)

  pub serve-Fresh :
      (inner : Inner) (installed : List (ℕ × JwkSet)) (now : ℕ)
      → IsStamped inner installed
      → Fresh installed now (serve_within_ceiling c inner now)
  unfolding serve_within_ceiling
  serve-Fresh inner installed now stamped =
      elim (Bool-cases (past inner.fetched_at now max_stale false)) [
        | inl old ↦ rw old tt
        | inr recent ↦ rw recent (kept stamped recent)
      ]
    where
      kept :
          IsStamped inner installed
          → past inner.fetched_at now max_stale false ≡ false
          → Fresh installed now (ok inner.keys)
      kept (inl (empty, _)) young = rw empty tt
      kept (inr (set, t, holds, at, brought)) young = rw holds (t, brought, ground arith)

  pub settle-Fresh :
      (inner : Inner) (installed : List (ℕ × JwkSet)) (now : ℕ) (answer : Result JwkSet)
      → 0 < max_stale
      → IsStamped inner installed
      → Fresh (install now answer installed) now (settle c inner now answer).1
  unfolding settle
  settle-Fresh inner installed now (ok set) ceiling stamped = (now, inl refl, omega arith)
  settle-Fresh inner installed now (err why) ceiling (inl (empty, _)) = rw empty tt
  settle-Fresh inner installed now (err why) ceiling (inr (set, t, holds, at, brought)) =
      rw (holds, at)
        (elim (Bool-cases (leb max_stale (now - t))) [
          | inl old ↦ rw old tt
          | inr young ↦ rw young (t, brought, ground arith)
        ])

  pub settle-IsStamped :
      (inner : Inner) (installed : List (ℕ × JwkSet)) (now : ℕ) (answer : Result JwkSet)
      → IsStamped inner installed
      → IsStamped (settle c inner now answer).0 (install now answer installed)
  unfolding settle
  settle-IsStamped inner installed now (ok set) stamped = inr (set, now, refl, refl, inl refl)
  settle-IsStamped inner installed now (err why) stamped = stamped

  pub settle-last_attempt :
      (inner : Inner) (now : ℕ) (answer : Result JwkSet)
      → (settle c inner now answer).0.last_attempt ≡ inner.last_attempt
  unfolding settle
  settle-last_attempt inner now (ok set) = refl
  settle-last_attempt inner now (err why) = refl

  pub Returns-install :
      (installed : List (ℕ × JwkSet)) (now : ℕ) (answer : Result JwkSet) (p : Pc)
      → Returns installed p
      → Returns (install now answer installed) p
  Returns-install installed now (err why) p h = h
  Returns-install installed now (ok set) (returned then_ (ok (some set'))) (t, brought, young) =
      (t, inr brought, young)
  Returns-install installed now (ok set) (returned then_ (ok none)) h = tt
  Returns-install installed now (ok set) (returned then_ (err why)) h = tt
  Returns-install installed now (ok set) (releasing then_ (ok (some set'))) (t, brought, young) =
      (t, inr brought, young)
  Returns-install installed now (ok set) (releasing then_ (ok none)) h = tt
  Returns-install installed now (ok set) (releasing then_ (err why)) h = tt
  Returns-install installed now (ok set) _ h = h

  pub update-Returns :
      (installed : List (ℕ × JwkSet)) (pc : ℕ → Pc) (i : ℕ) (p : Pc)
      → Returns installed p
      → ((j : ℕ) → Returns installed (pc j))
      → (j : ℕ) → Returns installed (update pc i p j)
  update-Returns installed pc i p h others j = elim (Bool-cases (eqb i j)) [
    | inl same ↦ rw same h
    | inr other ↦ rw other (others j)
  ]
