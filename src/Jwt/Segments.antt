-- ===== src/Jwt/Segments.antt =====
-- Laws of `str::split` and `str::rfind` on one byte.
use auth_oidc.Prelude.{
  ℕ, ◌≡◌, ◌≢◌, refl, ap, ◌∙◌, ◌++◌, List, [], ◌∷◌, none, some, Text, All, arith, length, eqb,
  eqb_iff, Bool-cases, inl, inr,
}
use auth_oidc.Jwt.{split_on, rfind, extend_first}

-- No byte of the text is `d`.
abbrev pub Free : ℕ → Text → Type 0
Free d = All (λ c. c ≢ d)

-- The text with these segments, `d` between them.
unfoldable pub join : ℕ → List Text → Text
join d [] = []
join d (s ∷ []) = s
join d (s ∷ t ∷ ts) = s ++ d ∷ join d (t ∷ ts)

split_on-ne-nil : (d : ℕ) (s : Text) → split_on d s ≢ []
unfolding split_on
split_on-ne-nil d [] = cc
split_on-ne-nil d (c ∷ s) = ground (arith, eqb_iff c d)

extend_first-Free :
    (d c : ℕ) (segs : List Text) → c ≢ d → All (Free d) segs → All (Free d) (extend_first c segs)
unfolding extend_first
extend_first-Free d c [] h a = ((h, tt), tt)
extend_first-Free d c (s ∷ segs) h a = ((h, a.0), a.1)

pub split_on-Free : (d : ℕ) (s : Text) → All (Free d) (split_on d s)
unfolding split_on
split_on-Free d [] = (tt, tt)
split_on-Free d (c ∷ s) = elim (Bool-cases (eqb c d)) [
  | inl here ↦ rw here (tt, split_on-Free d s)
  | inr other ↦ rw other (extend_first-Free d c _ (ground arith) (split_on-Free d s))
]

join-extend_first :
    (d c : ℕ) (segs : List Text) → segs ≢ [] → join d (extend_first c segs) ≡ c ∷ join d segs
unfolding join extend_first
join-extend_first d c [] h = absurd (h refl)
join-extend_first d c (s ∷ []) h = refl
join-extend_first d c (s ∷ t ∷ ts) h = refl

join-nil : (d : ℕ) (segs : List Text) → segs ≢ [] → join d ([] ∷ segs) ≡ d ∷ join d segs
unfolding join
join-nil d [] h = absurd (h refl)
join-nil d (s ∷ segs) h = refl

-- The segments make up the text.
pub join-split_on : (d : ℕ) (s : Text) → join d (split_on d s) ≡ s
unfolding split_on
join-split_on d [] = unfold join in refl
join-split_on d (c ∷ s) = elim (Bool-cases (eqb c d)) [
  | inl here ↦
      rw here (join-nil d _ (split_on-ne-nil d s) ∙ cc (join-split_on d s, (eqb_iff c d).0 here))
  | inr other ↦
      rw other (join-extend_first d c _ (split_on-ne-nil d s) ∙ ap (◌∷◌ c) (join-split_on d s))
]

pub split_on_of_Free : (d : ℕ) (s : Text) → Free d s → split_on d s ≡ s ∷ []
unfolding split_on extend_first
split_on_of_Free d [] h = refl
split_on_of_Free d (c ∷ s) h = ground (arith, split_on_of_Free d s h.1)

pub split_on-append :
    (d : ℕ) (s rest : Text) → Free d s → split_on d (s ++ d ∷ rest) ≡ s ∷ split_on d rest
unfolding split_on extend_first
split_on-append d [] rest h = ground arith
split_on-append d (c ∷ s) rest h = ground (arith, split_on-append d s rest h.1)

rfind_of_Free : (d : ℕ) (s : Text) → Free d s → rfind d s ≡ none
unfolding rfind
rfind_of_Free d [] h = refl
rfind_of_Free d (c ∷ s) h = ground (arith, rfind_of_Free d s h.1)

pub rfind-append : (d : ℕ) (p s : Text) → Free d s → rfind d (p ++ d ∷ s) ≡ some (length p)
unfolding rfind
rfind-append d [] s h = ground (arith, rfind_of_Free d s h)
rfind-append d (c ∷ p) s h = ground (arith, rfind-append d p s h)
