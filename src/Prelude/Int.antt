-- ===== src/Prelude/Int.antt =====
-- Signed integers over the native numbers, and the saturating arithmetic of `i64`.
-- Sums and orders go through the two parts of an integer, which are numbers that `omega` reads.
use Prim.Native.Nat.{ℕ, suc, ◌+◌, ◌-◌, ◌^◌, ◌≤◌, ◌<◌, min}
use mathlib.Core.Path.{◌≡◌}
use mathlib.Core.Bool.{Bool}
use native.Mathlib.Omega.{arith}
use auth_oidc.Prelude.Tests.{ltb, leb, if◌then◌else◌}

-- `negsuc n` is -(n + 1).
pub data ℤ : Type 0 where
  pos : ℕ → ℤ
  negsuc : ℕ → ℤ

abbrev pub pos_part : ℤ → ℕ
pos_part (pos n) = n
pos_part (negsuc n) = 0

abbrev pub neg_part : ℤ → ℕ
neg_part (pos n) = 0
neg_part (negsuc n) = suc n

-- a - b, as an integer.
abbrev pub sub_ℕ : ℕ → ℕ → ℤ
sub_ℕ a b = if leb b a then pos (a - b) else negsuc (b - a - 1)

infixl 65 ◌+ℤ◌ ◌-ℤ◌
infix 50 ◌≤ℤ◌
unfoldable pub ◌+ℤ◌ : ℤ → ℤ → ℤ
a +ℤ b = sub_ℕ (pos_part a + pos_part b) (neg_part a + neg_part b)

unfoldable pub ◌-ℤ◌ : ℤ → ℤ → ℤ
a -ℤ b = sub_ℕ (pos_part a + neg_part b) (neg_part a + pos_part b)

abbrev pub ◌≤ℤ◌ : ℤ → ℤ → Type 0
a ≤ℤ b = pos_part a + neg_part b ≤ pos_part b + neg_part a

abbrev pub leb_ℤ : ℤ → ℤ → Bool
leb_ℤ a b = leb (pos_part a + neg_part b) (pos_part b + neg_part a)

abbrev pub ltb_ℤ : ℤ → ℤ → Bool
ltb_ℤ a b = ltb (pos_part a + neg_part b) (pos_part b + neg_part a)

abbrev pub i64_max : ℤ
i64_max = pos (2 ^ 63 - 1)

abbrev pub i64_min : ℤ
i64_min = negsuc (2 ^ 63 - 1)

-- The integers that an `i64` holds.
abbrev pub IsI64 : ℤ → Type 0
IsI64 z = (i64_min ≤ℤ z) × (z ≤ℤ i64_max)

abbrev saturate : ℤ → ℤ
saturate z = if ltb_ℤ i64_max z then i64_max else if ltb_ℤ z i64_min then i64_min else z

unfoldable pub saturating_add : ℤ → ℤ → ℤ
unfolding ◌+ℤ◌
saturating_add a b = saturate (a +ℤ b)

unfoldable pub saturating_sub : ℤ → ℤ → ℤ
unfolding ◌-ℤ◌
saturating_sub a b = saturate (a -ℤ b)

-- `clamp(0, most) as u64`, for a bound that is not negative.
unfoldable pub clamp_u64 : ℤ → ℕ → ℕ
clamp_u64 z most = if ltb_ℤ z (pos 0) then 0 else if ltb_ℤ (pos most) z then most else pos_part z

-- Saturation never changes the outcome of a comparison with an `i64`.
pub le-saturating_add :
    (t e : ℤ) (n : ℕ)
    → IsI64 t
    → IsI64 e
    → (leb_ℤ t (saturating_add e (pos n)) ≡ leb_ℤ t (e +ℤ pos n))
unfolding saturating_add
le-saturating_add t e n ht he = ground arith

pub saturating_sub-lt :
    (t e : ℤ) (n : ℕ)
    → IsI64 t
    → IsI64 e
    → (ltb_ℤ t (saturating_sub e (pos n)) ≡ ltb_ℤ t (e -ℤ pos n))
unfolding saturating_sub
saturating_sub-lt t e n ht he = ground arith

pub clamp_u64-le : (z : ℤ) (most : ℕ) → clamp_u64 z most ≤ most
unfolding clamp_u64
clamp_u64-le z most = ground arith

-- At a time that is not negative the clamped difference is the truncated difference, cut to `most`.
pub clamp_u64-saturating_sub :
    (e : ℤ) (t most : ℕ)
    → IsI64 e
    → most < 2 ^ 63
    → clamp_u64 (saturating_sub e (pos t)) most ≡ min most (pos_part e - t)
unfolding clamp_u64 saturating_sub
clamp_u64-saturating_sub (pos e) t most h k = ground arith
clamp_u64-saturating_sub (negsuc e) t most h k = ground arith
