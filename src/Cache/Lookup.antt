-- ===== src/Cache/Lookup.antt =====
-- Trying every key that a `kid` selects.
use auth_oidc.Prelude.{
  ◌≡◌, ◌≢◌, ◌⊎◌, inl, inr, ◌↔◌, refl, IsIn, List, [], ◌∷◌, Option, none, some, Text, arith,
}
use auth_oidc.Error.{Error, Result, ok, err, Result-cases}
use auth_oidc.Jwks.Key.{Jwk, JwkSet}
use auth_oidc.Jwks.{find_all}
use auth_oidc.Jwks.Select.{Matches, find_all_iff}
use auth_oidc.Cache.{first_ok, try_all}

module _ {T : Type 0} (f : Jwk → Result T) where
  -- The first key that `f` accepts gives `v`, and `f` fails on the keys before it.
  abbrev pub FirstOk : List Jwk → T → Type 0
  FirstOk [] v = ⊥
  FirstOk (k ∷ ks) v = (f k ≡ ok v) ⊎ (((e : Error) × (f k ≡ err e)) × FirstOk ks v)

  -- `f` fails on every key, and `e` is its last error, where `e₀` stands for that of an empty list.
  abbrev pub FailsFrom : Error → List Jwk → Error → Type 0
  FailsFrom e₀ [] e = e₀ ≡ e
  FailsFrom e₀ (k ∷ ks) e = (e' : Error) × (f k ≡ err e') × FailsFrom e' ks e

  -- There is a key, `f` fails on every key, and `e` is its error on the last one.
  abbrev pub AllFail : List Jwk → Error → Type 0
  AllFail [] e = ⊥
  AllFail (k ∷ ks) e = (e' : Error) × (f k ≡ err e') × FailsFrom e' ks e

  first_ok-eq-ok :
      (ks : List Jwk) (last : Option Error) (v : T)
      → (first_ok f ks last ≡ some (ok v)) ↔ FirstOk ks v
  first_ok-eq-ok [] none v = ground arith
  first_ok-eq-ok [] (some e) v = ground arith
  first_ok-eq-ok (k ∷ ks) last v = elim (Result-cases (f k)) [
    | inl (w, q) ↦ (λ h. inl (ground arith), λ h. ground arith)
    | inr (e, q) ↦
        let (to, from) = first_ok-eq-ok ks (some e) v in
        (λ h. inr ((e, q), to (ground arith)), λ h. ground (arith, from))
  ]

  first_ok-eq-err :
      (ks : List Jwk) (e₀ e : Error) → (first_ok f ks (some e₀) ≡ some (err e)) ↔ FailsFrom e₀ ks e
  first_ok-eq-err [] e₀ e = ground arith
  first_ok-eq-err (k ∷ ks) e₀ e = elim (Result-cases (f k)) [
    | inl (w, q) ↦ (λ h. absurd (ground arith), λ h. absurd (ground (arith, h.1)))
    | inr (e₁, q) ↦
        let (to, from) = first_ok-eq-err ks e₁ e in
        (λ h. (e₁, q, to (ground arith)), λ h. ground (arith, from, h.1, h.2))
  ]

  first_ok-ne-none : (ks : List Jwk) (e₀ : Error) → first_ok f ks (some e₀) ≢ none
  first_ok-ne-none [] e₀ = cc
  first_ok-ne-none (k ∷ ks) e₀ = elim (Result-cases (f k)) [
    | inl (w, q) ↦ λ h. ground arith
    | inr (e₁, q) ↦ λ h. first_ok-ne-none ks e₁ (ground arith)
  ]

  first_ok-AllFail :
      (ks : List Jwk) (e : Error) → (first_ok f ks none ≡ some (err e)) ↔ AllFail ks e
  first_ok-AllFail [] e = ground arith
  first_ok-AllFail (k ∷ ks) e = elim (Result-cases (f k)) [
    | inl (w, q) ↦ (λ h. absurd (ground arith), λ h. absurd (ground (arith, h.1)))
    | inr (e₁, q) ↦
        let (to, from) = first_ok-eq-err ks e₁ e in
        (λ h. (e₁, q, to (ground arith)), λ h. ground (arith, from, h.1, h.2))
  ]

  first_ok-eq-none : (ks : List Jwk) → (first_ok f ks none ≡ none) ↔ (ks ≡ [])
  first_ok-eq-none [] = ground arith
  first_ok-eq-none (k ∷ ks) = elim (Result-cases (f k)) [
    | inl (w, q) ↦ (λ h. absurd (ground arith), λ h. absurd (ground arith))
    | inr (e₁, q) ↦
        (λ h. absurd (first_ok-ne-none ks e₁ (ground arith)), λ h. absurd (ground arith))
  ]

  -- `try_all` succeeds with what `f` makes of the first key that it accepts, among all the keys that
  -- the `kid` selects; it fails with the last error exactly if there are such keys and `f` accepts
  -- none of them; and it finds nothing exactly if the `kid` selects no key.
  pub try_all_lem :
      (set : JwkSet) (kid : Text)
      → ((v : T) → (try_all set kid f ≡ some (ok v)) ↔ FirstOk (find_all set kid) v)
        × ((e : Error) → (try_all set kid f ≡ some (err e)) ↔ AllFail (find_all set kid) e)
        × ((try_all set kid f ≡ none) ↔ (find_all set kid ≡ []))
  unfolding try_all
  try_all_lem set kid = (
    first_ok-eq-ok (find_all set kid) none,
    first_ok-AllFail (find_all set kid),
    first_ok-eq-none (find_all set kid),
  )

  FirstOk-key : (ks : List Jwk) (v : T) → FirstOk ks v → (k : Jwk) × IsIn k ks × (f k ≡ ok v)
  FirstOk-key [] v h = absurd h
  FirstOk-key (k ∷ ks) v (inl here) = (k, inl refl, here)
  FirstOk-key (k ∷ ks) v (inr (_, later)) =
      let (k', found, accepts) = FirstOk-key ks v later in (k', inr found, accepts)

  -- A success is that of `f` on a key of the set that matches the `kid`.
  pub try_all-eq-ok :
      (set : JwkSet) (kid : Text) (v : T)
      → try_all set kid f ≡ some (ok v)
      → (k : Jwk) × IsIn k set.keys × Matches kid k × (f k ≡ ok v)
  try_all-eq-ok set kid v tried =
      let (k, found, accepts) =
        FirstOk-key (find_all set kid) v ((((try_all_lem set kid).0) v).0 tried) in
      let (in_set, matches) = (find_all_iff set kid k).0 found in (k, in_set, matches, accepts)
