-- ===== src/Cache/Bag.antt =====
-- Key sets up to the order of their keys, and what a lookup makes of one.
use mathlib.Core.Logic.{∥∥₁_elim}
use mathlib.Core.List.{Perm, Permᴰ}
use mathlib.Core.Quot
use mathlib.Core.Quot.{Quot, Quot-set}
use auth_oidc.Prelude.{
  ◌≡◌, refl, ◌∙◌, Bool, true, false, ◌||◌, ◌&&◌, List, [], ◌∷◌, Option, none, some, Text, arith,
  any, filter, is_some, Bool-cases, inl, inr,
}
use auth_oidc.Error.{Error, Result, ok, err, Result-cases}
use auth_oidc.Jwks.Key.{Jwk, JwkSet}
use auth_oidc.Jwks.{find_all, selects}
use auth_oidc.Cache.{first_ok, try_all}

abbrev pub KeyBag : Type 0
KeyBag = Quot (Perm {A = Jwk})

abbrev pub bag : JwkSet → KeyBag
bag set = Quot.mk set.keys

any-Perm : {A : Type 0} (p : A → Bool) {xs ys : List A} → Permᴰ xs ys → any p xs ≡ any p ys
any-Perm p Permᴰ.nil = refl
any-Perm p (Permᴰ.cons {a} {b} {l₁} {l₂} e rest) = rw (e, any-Perm p rest) refl
any-Perm p (Permᴰ.swap {a} {b} {a'} {b'} {l} e e') = rw (e, e') (ground arith)
any-Perm p (Permᴰ.trans first second) = any-Perm p first ∙ any-Perm p second

-- Whether the check accepts, and whether there is a key for it.
abbrev pub is_ok : Result (Unit {0}) → Bool
is_ok (ok u) = true
is_ok (err e) = false

abbrev pub forget : Option (Result (Unit {0})) → Option Bool
forget none = none
forget (some r) = some (is_ok r)

module _ (kid : Text) (f : Jwk → Result (Unit {0})) where
  abbrev outcome : Bool → Bool → Option Bool
  outcome matched true = some true
  outcome true false = some false
  outcome false false = none

  abbrev accepts : Jwk → Bool
  accepts k = selects kid k && is_ok (f k)

  abbrev among : List Jwk → Option Bool
  among keys = outcome (any (selects kid) keys) (any accepts keys)

  first_ok-among :
      (keys : List Jwk) (last : Option Error)
      → forget (first_ok f (filter (selects kid) keys) last)
        ≡ outcome (is_some last || any (selects kid) keys) (any accepts keys)
  first_ok-among [] none = refl
  first_ok-among [] (some e) = refl
  first_ok-among (k ∷ keys) last = elim (Bool-cases (selects kid k)) [
    | inr skipped ↦ rw skipped (first_ok-among keys last)
    | inl chosen ↦ elim (Result-cases (f k)) [
      | inl (u, accepted) ↦ rw (chosen, accepted) refl
      | inr (e, refused) ↦ rw (chosen, refused) (first_ok-among keys (some e) ∙ ground arith)
    ]
  ]

  try_all-among : (set : JwkSet) → forget (try_all set kid f) ≡ among set.keys
  unfolding try_all find_all
  try_all-among set = first_ok-among set.keys none

  among-Perm : (xs ys : List Jwk) → Perm xs ys → among xs ≡ among ys
  among-Perm xs ys h =
      ∥∥₁_elim h (hlevel) (λ perm. rw (any-Perm (selects kid) perm, any-Perm accepts perm) refl)

  -- A lookup in a bag of keys: no key matches, or one that matches is accepted, or none is.
  pub bag_lookup : KeyBag → Option Bool
  bag_lookup = Quot.lift (hlevel) among among-Perm

  -- Forgetting which error it returns, the lookup in a key set is that in its bag: the order of the
  -- keys does not matter.
  pub try_all-bag_lookup : (set : JwkSet) → forget (try_all set kid f) ≡ bag_lookup (bag set)
  unfolding bag_lookup try_all
  try_all-bag_lookup set = try_all-among set
