-- ===== src/Cache/Accepts.antt =====
-- When a call of `with_key` succeeds, for a check that says only yes or no.
use auth_oidc.Prelude.{
  ℕ, ◌<◌, ◌≡◌, refl, sym, ap, ◌∙◌, ◌⊎◌, inl, inr, ◌↔◌, List, [], ◌∷◌, Option, none, some, Text,
  arith, IsIn, Option-cases,
}
use auth_oidc.Error.{Error, Result, ok, err, Result-cases}
use auth_oidc.External.{External}
use auth_oidc.Jwks.Key.{Jwk, JwkSet}
use auth_oidc.Jwks.{find_all}
use auth_oidc.Jwks.Select.{Matches, find_all_iff}
use auth_oidc.Cache.{JwksCache, Store, first_ok, try_all, try_in, result_or_unknown, with_key}
use auth_oidc.Cache.Lookup.{try_all-eq-ok}
use auth_oidc.Cache.Reference.{current, renewed, found, or_found, reference, with_key_lem}

module _ (kid : Text) (f : Jwk → Result (Unit {0})) where
  -- A key of the set has the `kid`, and the check accepts it.
  abbrev pub Accepts : JwkSet → Type 0
  Accepts set = (k : Jwk) × IsIn k set.keys × Matches kid k × (f k ≡ ok tt)

  first_ok-accepts :
      (ks : List Jwk) (k : Jwk) (last : Option Error)
      → IsIn k ks
      → f k ≡ ok tt
      → first_ok f ks last ≡ some (ok tt)
  first_ok-accepts [] k last h good = absurd h
  first_ok-accepts (x ∷ ks) k last h good = elim (Result-cases (f x)) [
    | inl (u, e) ↦ rw (first_ok, e) refl
    | inr (why, e) ↦ elim h [
      | inl same ↦ absurd (ground (arith, ap f same))
      | inr later ↦ rw (first_ok, e) (first_ok-accepts ks k (some why) later good)
    ]
  ]

  pub try_all_iff : (set : JwkSet) → (try_all set kid f ≡ some (ok tt)) ↔ Accepts set
  unfolding try_all
  try_all_iff set = (
    λ h. try_all-eq-ok f set kid tt h,
    λ (k, in_set, matches, good).
        first_ok-accepts (find_all set kid) k none ((find_all_iff set kid k).1 (in_set, matches))
          good,
  )

  module _ (ext : External) (c : JwksCache) (now : ℕ) (s : Store) where
    -- The call looks in the keys at hand, or, if none of them has the `kid`, in those of a refresh.
    abbrev pub LooksIn : JwkSet → Type 0
    LooksIn set =
        (current ext c now s ≡ some set)
        ⊎ ((try_in kid f (current ext c now s) ≡ none) × ((renewed ext c now s).0 ≡ ok set))

    -- The result that `or_found` gives.
    abbrev result_of : Option (Result (Unit {0})) → Result (Unit {0})
    result_of o = (or_found ext c kid now f s o).0

    found-ok :
        (p : Result JwkSet × Store)
        → (found ext c kid now f p).0 ≡ ok tt
        → (set : JwkSet) × (p.0 ≡ ok set) × (try_all set kid f ≡ some (ok tt))
    found-ok (ok set, s') h = elim (Option-cases (try_all set kid f)) [
      | inl missed ↦ absurd (ground arith)
      | inr (r, tried) ↦ (set, refl, tried ∙ ap some (sym (ap (result_or_unknown kid) tried) ∙ h))
    ]
    found-ok (err why, s') h = cc

    ok-found :
        (p : Result JwkSet × Store) (set : JwkSet)
        → p.0 ≡ ok set
        → try_all set kid f ≡ some (ok tt)
        → (found ext c kid now f p).0 ≡ ok tt
    ok-found (ok set', s') set h tried = ground arith
    ok-found (err why, s') set h tried = cc

    reference_iff :
        ((reference ext c kid now f s).0 ≡ ok tt) ↔ ((set : JwkSet) × LooksIn set × Accepts set)
    reference_iff = (to, from)
      where
        hit :
            (o : Option JwkSet) (r : Result (Unit {0}))
            → current ext c now s ≡ o
            → try_in kid f o ≡ some r
            → r ≡ ok tt
            → (set : JwkSet) × LooksIn set × Accepts set
        hit none r cur tried good = cc
        hit (some set) r cur tried good = (set, inl cur, (try_all_iff set).0 (tried ∙ ap some good))

        to : (reference ext c kid now f s).0 ≡ ok tt → (set : JwkSet) × LooksIn set × Accepts set
        to h = elim (Option-cases (try_in kid f (current ext c now s))) [
          | inr (r, tried) ↦ hit (current ext c now s) r refl tried (sym (ap result_of tried) ∙ h)
          | inl missed ↦
              let (set, got, tried) =
                found-ok (renewed ext c now s) (sym (ap result_of missed) ∙ h) in
              (set, inr (missed, got), (try_all_iff set).0 tried)
        ]

        from : (set : JwkSet) × LooksIn set × Accepts set → (reference ext c kid now f s).0 ≡ ok tt
        from (set, inl cur, good) =
            ap (λ o. result_of (try_in kid f o)) cur ∙ ap result_of ((try_all_iff set).1 good)
        from (set, inr (missed, got), good) =
            ap result_of missed ∙ ok-found (renewed ext c now s) set got ((try_all_iff set).1 good)

    -- The call succeeds exactly if the check accepts a key with the right `kid` of the keys that it
    -- looks in. The refetch interval and the ceiling are not zero.
    pub with_key_iff :
        0 < c.min_refetch_interval
        → 0 < c.max_stale
        → ((with_key ext c kid now f s).0 ≡ ok tt) ↔ ((set : JwkSet) × LooksIn set × Accepts set)
    with_key_iff interval ceiling =
        rw (with_key_lem ext c kid now f s interval ceiling) reference_iff
