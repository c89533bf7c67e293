-- ===== src/Login/Percent.antt =====
-- The percent-encoding of query values.
use Prim.Native.Nat.{◌/◌, ◌%◌}
use auth_oidc.Prelude.{
  ℕ, ◌+◌, ◌*◌, ◌-◌, ◌<◌, ◌≡◌, refl, ap, ◌∙◌, ◌⊎◌, inl, inr, [], ◌∷◌, Text, true, false,
  if◌then◌else◌, eqb, ltb, All, arith, Bool-cases,
}
use auth_oidc.Login.{pct, is_unreserved, hex_digit, percent}

-- The decoding of RFC 3986: a percent sign and two hexadecimal digits are a byte.
abbrev hex_value : ℕ → ℕ
hex_value c = if ltb c 58 then c - 48 else c - 55

unfoldable pub unpct : Text → Text
unpct [] = []
unpct (c ∷ []) = c ∷ []
unpct (c ∷ a ∷ []) = c ∷ a ∷ []
unpct (c ∷ a ∷ b ∷ s) =
    let rest = unpct s in
    let more = unpct (a ∷ b ∷ s) in
    if eqb c percent then (hex_value a * 16 + hex_value b) ∷ rest else c ∷ more

hex_value-hex_digit : (n : ℕ) → n < 16 → hex_value (hex_digit n) ≡ n
unfolding hex_digit
hex_value-hex_digit n h = ground arith

unreserved-ne-percent : (b : ℕ) → is_unreserved b ≡ true → eqb b percent ≡ false
unfolding is_unreserved
unreserved-ne-percent b h = ground arith

unpct-literal : (b : ℕ) (s : Text) → eqb b percent ≡ false → unpct (b ∷ s) ≡ b ∷ unpct s
unfolding unpct
unpct-literal b [] h = refl
unpct-literal b (a ∷ []) h = refl
unpct-literal b (a ∷ c ∷ s) h = rw h refl

unpct-escaped :
    (b : ℕ) (s : Text)
    → b < 256
    → unpct (percent ∷ hex_digit (b / 16) ∷ hex_digit (b % 16) ∷ s) ≡ b ∷ unpct s
unfolding unpct
unpct-escaped b s byte =
    let high = hex_value-hex_digit (b / 16) (omega arith) in
    let low = hex_value-hex_digit (b % 16) (omega arith) in
    let whole : (b / 16) * 16 + b % 16 ≡ b = omega arith in rw (high, low, whole) refl

-- An encoded value decodes to itself, byte for byte.
pub unpct-pct : (s : Text) → All (λ b. b < 256) s → unpct (pct s) ≡ s
unfolding pct
unpct-pct [] bytes = unfold unpct in refl
unpct-pct (b ∷ s) (byte, bytes) = elim (Bool-cases (is_unreserved b)) [
  | inl plain ↦
      rw plain
        (unpct-literal b (pct s) (unreserved-ne-percent b plain) ∙ ap (◌∷◌ b) (unpct-pct s bytes))
  | inr other ↦ rw other (unpct-escaped b (pct s) byte ∙ ap (◌∷◌ b) (unpct-pct s bytes))
]

hex_digit-unreserved : (n : ℕ) → n < 16 → is_unreserved (hex_digit n) ≡ true
unfolding hex_digit is_unreserved
hex_digit-unreserved n h = ground arith

-- The encoding of a value of bytes has only unreserved bytes and percent signs.
pub pct-unreserved :
    (s : Text) → All (λ b. b < 256) s → All (λ c. (is_unreserved c ≡ true) ⊎ (c ≡ percent)) (pct s)
unfolding pct
pct-unreserved [] bytes = tt
pct-unreserved (b ∷ s) (byte, bytes) = elim (Bool-cases (is_unreserved b)) [
  | inl plain ↦ rw plain (inl plain, pct-unreserved s bytes)
  | inr other ↦ rw other (
    inr refl,
    (
      inl (hex_digit-unreserved (b / 16) (omega arith)),
      (inl (hex_digit-unreserved (b % 16) (omega arith)), pct-unreserved s bytes),
    ),
  )
]
