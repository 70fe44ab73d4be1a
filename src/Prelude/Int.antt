-- ===== src/Prelude/Int.antt =====
-- Signed integers over the native numbers, their order and sum by parts, two's complement.
use Prim.Native.Nat.{ℕ, suc, ◌+◌, ◌-◌, ◌*◌, ◌%◌, ◌^◌, ◌≤◌, ◌<◌}
use mathlib.Core.Path.{◌≡◌}
use native.Mathlib.Omega.{arith}
use gyreplane.Prelude.Tests.{ltb, leb, if◌then◌else◌}

-- `negsuc n` is -(n + 1).
pub data ℤ : Type 0 where
  pos : ℕ → ℤ
  negsuc : ℕ → ℤ

abbrev pub pos_part : ℤ → ℕ
pos_part (pos n) = n
pos_part (negsuc n) = 0

abbrev pub neg_part : ℤ → ℕ
neg_part (pos n) = 0
neg_part (negsuc n) = suc n

-- a - b, as an integer.
abbrev pub sub_ℕ : ℕ → ℕ → ℤ
sub_ℕ a b = if leb b a then pos (a - b) else negsuc (b - a - 1)

infixl 65 ◌+ℤ◌
infixl 70 ◌*ℤ◌
infix 50 ◌≤ℤ◌
unfoldable pub ◌+ℤ◌ : ℤ → ℤ → ℤ
a +ℤ b = sub_ℕ (pos_part a + pos_part b) (neg_part a + neg_part b)

unfoldable pub ◌*ℤ◌ : ℤ → ℤ → ℤ
a *ℤ b =
    sub_ℕ (pos_part a * pos_part b + neg_part a * neg_part b)
      (pos_part a * neg_part b + neg_part a * pos_part b)

unfoldable pub neg : ℤ → ℤ
neg a = sub_ℕ (neg_part a) (pos_part a)

abbrev pub ◌≤ℤ◌ : ℤ → ℤ → Type 0
a ≤ℤ b = pos_part a + neg_part b ≤ pos_part b + neg_part a

pub +ℤ_parts :
    (a b : ℤ)
    → pos_part (a +ℤ b) + neg_part a + neg_part b ≡ neg_part (a +ℤ b) + pos_part a + pos_part b
unfolding ◌+ℤ◌
+ℤ_parts a b = ground arith

pub +ℤ_bound :
    (a b : ℤ)
    → (pos_part (a +ℤ b) ≤ pos_part a + pos_part b) × (neg_part (a +ℤ b) ≤ neg_part a + neg_part b)
unfolding ◌+ℤ◌
+ℤ_bound a b = ground arith

pub neg_parts : (a : ℤ) → (pos_part (neg a) ≡ neg_part a) × (neg_part (neg a) ≡ pos_part a)
unfolding neg
neg_parts (pos n) = ground arith
neg_parts (negsuc n) = ground arith

-- The product with a number that is not negative.
pub *ℤ-pos_parts :
    (a : ℤ) (t : ℕ)
    → (pos_part (a *ℤ pos t) ≡ pos_part a * t) × (neg_part (a *ℤ pos t) ≡ neg_part a * t)
unfolding ◌*ℤ◌
*ℤ-pos_parts (pos n) t = ground arith
*ℤ-pos_parts (negsuc n) t = ground arith

pub eq_of_parts : (a b : ℤ) → pos_part a + neg_part b ≡ pos_part b + neg_part a → a ≡ b
eq_of_parts a b h = ground arith

-- The values of a signed type with bounds -half and half - 1.
abbrev pub Fits : ℕ → ℤ → Type 0
Fits half (pos n) = n < half
Fits half (negsuc n) = n < half

-- A cast to the unsigned type with 2 * half values, and back, in two's complement.
abbrev pub to_word : ℕ → ℤ → ℕ
to_word half (pos n) = n % (2 * half)
to_word half (negsuc n) = 2 * half - 1 - n % (2 * half)

abbrev pub of_word : ℕ → ℕ → ℤ
of_word half u = if ltb u half then pos u else negsuc (2 * half - u - 1)

abbrev pub half16 : ℕ
half16 = 2 ^ 15

abbrev pub half64 : ℕ
half64 = 2 ^ 63

pub of_word-to_word16 : (z : ℤ) → Fits half16 z → of_word half16 (to_word half16 z) ≡ z
of_word-to_word16 (pos n) h = ground arith
of_word-to_word16 (negsuc n) h = ground arith

pub of_word-to_word64 : (z : ℤ) → Fits half64 z → of_word half64 (to_word half64 z) ≡ z
of_word-to_word64 (pos n) h = ground arith
of_word-to_word64 (negsuc n) h = ground arith

pub to_word-of_word16 : (u : ℕ) → u < 2 ^ 16 → to_word half16 (of_word half16 u) ≡ u
to_word-of_word16 u h = ground arith

pub to_word-of_word64 : (u : ℕ) → u < 2 ^ 64 → to_word half64 (of_word half64 u) ≡ u
to_word-of_word64 u h = ground arith

pub of_word16-Fits : (u : ℕ) → u < 2 ^ 16 → Fits half16 (of_word half16 u)
of_word16-Fits u h = ground arith

pub of_word64-Fits : (u : ℕ) → u < 2 ^ 64 → Fits half64 (of_word half64 u)
of_word64-Fits u h = ground arith

pub to_word16-lt : (z : ℤ) → to_word half16 z < 2 ^ 16
to_word16-lt (pos n) = omega arith
to_word16-lt (negsuc n) = omega arith

pub to_word64-lt : (z : ℤ) → to_word half64 z < 2 ^ 64
to_word64-lt (pos n) = omega arith
to_word64-lt (negsuc n) = omega arith
