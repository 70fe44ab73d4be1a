-- ===== src/Prelude/Bits.antt =====
-- `|` of disjoint fields and `&` with the byte mask, as arithmetic.
use Prim.Native.Nat.{
  ℕ, zero, suc, ◌+◌, ◌*◌, ◌/◌, ◌%◌, ◌^◌, ◌≤◌, ◌<◌, min, max, bit_and, bit_or, digits, bitwise,
  bit_and-bitwise, bit_or-bitwise,
}
use mathlib.Core.Path.{◌≡◌, refl, ap}
use native.Mathlib.Nat.{le_refl, pow-suc}
use native.Mathlib.Omega.{arith}

module _ (rest : ℕ → ℕ) (digit : ℕ → ℕ → ℕ) where
  nothing_left : (i j b : ℕ) → digits rest digit i zero b ≡ digits rest digit j zero b
  nothing_left zero zero b = refl
  nothing_left zero (suc j) b = refl
  nothing_left (suc i) zero b = refl
  nothing_left (suc i) (suc j) b = refl

  -- A bound on the first number is fuel enough, and more of it changes nothing.
  enough :
      (a b extra fuel : ℕ)
      → a ≤ extra
      → a ≤ fuel
      → digits rest digit fuel a b ≡ digits rest digit extra a b
  enough zero b extra fuel p q = nothing_left fuel extra b
  enough (suc a) b zero fuel p q = absurd (omega arith)
  enough (suc a) b (suc extra) zero p q = absurd (omega arith)
  enough (suc a) b (suc extra) (suc fuel) p q =
      rw (enough (suc a / 2) (b / 2) extra fuel (omega arith) (omega arith))

  digit_off :
      (b a : ℕ)
      → digit (suc a % 2) (b % 2) + 2 * bitwise rest digit (suc a / 2) (b / 2)
        ≡ bitwise rest digit (suc a) b
  digit_off b a =
      omega (arith, enough (suc a / 2) (b / 2) (suc a / 2) a (omega arith) (omega arith))

or_digit : (a b : ℕ) → max (a % 2) (b % 2) + 2 * bit_or (a / 2) (b / 2) ≡ bit_or a b
or_digit zero b = simp bit_or-bitwise (omega arith)
or_digit (suc a) b = simp bit_or-bitwise (digit_off (λ b. b) max b a)

and_digit : (a b : ℕ) → min (a % 2) (b % 2) + 2 * bit_and (a / 2) (b / 2) ≡ bit_and a b
and_digit zero b = simp bit_and-bitwise (omega arith)
and_digit (suc a) b = simp bit_and-bitwise (digit_off (λ _. 0) min b a)

zero-bit_or : (b : ℕ) → bit_or 0 b ≡ b
zero-bit_or b = bit_or-bitwise 0 b

-- By strong induction, as recursion below a bound.
bit_and-zero : (a bound : ℕ) → a ≤ bound → 0 ≡ bit_and a 0
bit_and-zero zero bound below = refl
bit_and-zero (suc a) zero below = absurd (omega arith)
bit_and-zero (suc a) (suc bound) below =
    omega (arith, and_digit (suc a) 0, bit_and-zero (suc a / 2) bound (omega arith))

mask_step : (m a : ℕ) → bit_and a (m * 2 + 1) ≡ bit_and (a / 2) m * 2 + a % 2
mask_step m a = omega (arith, and_digit a (m * 2 + 1), ap (λ (t : ℕ). bit_and (a / 2) t) (half m))
  where
    half : (m : ℕ) → (m * 2 + 1) / 2 ≡ m
    half m = omega arith

-- `x & 0xFF` keeps the low byte.
pub bit_and_byte : (a : ℕ) → bit_and a 0xff ≡ a % 256
bit_and_byte a = omega (
  arith,
  mask_step 127 a,
  mask_step 63 (a / 2),
  mask_step 31 (a / 2 / 2),
  mask_step 15 (a / 2 / 2 / 2),
  mask_step 7 (a / 2 / 2 / 2 / 2),
  mask_step 3 (a / 2 / 2 / 2 / 2 / 2),
  mask_step 1 (a / 2 / 2 / 2 / 2 / 2 / 2),
  mask_step 0 (a / 2 / 2 / 2 / 2 / 2 / 2 / 2),
  bit_and-zero (a / 2 / 2 / 2 / 2 / 2 / 2 / 2 / 2) _ (le_refl _),
)

-- `low | high << k` is a sum where `low` fits `k` bits.
pub bit_or_shifted : (k low high : ℕ) → low < 2 ^ k → bit_or low (high * 2 ^ k) ≡ low + high * 2 ^ k
bit_or_shifted zero low high h = rw no_low (omega (arith, zero-bit_or (high * 2 ^ 0)))
  where
    no_low : low ≡ 0
    no_low = omega arith
bit_or_shifted (suc k) low high h = omega (
  arith,
  or_digit low (high * 2 ^ suc k),
  halves,
  doubles,
  bit_or_shifted k (low / 2) high (omega (arith, pow-suc 2 k)),
)
  where
    doubles : high * 2 ^ suc k ≡ 2 * (high * 2 ^ k)
    doubles = omega (arith, ap (λ (t : ℕ). high * t) (pow-suc 2 k))

    halves : bit_or (low / 2) (high * 2 ^ suc k / 2) ≡ bit_or (low / 2) (high * 2 ^ k)
    halves = ap (λ (t : ℕ). bit_or (low / 2) t) (omega (arith, doubles))

bit_or-zero : (a bound : ℕ) → a ≤ bound → a ≡ bit_or a 0
bit_or-zero zero bound below = refl
bit_or-zero (suc a) zero below = absurd (omega arith)
bit_or-zero (suc a) (suc bound) below =
    omega (arith, or_digit (suc a) 0, bit_or-zero (suc a / 2) bound (omega arith))

-- The same with the high part on the left, `high << k | low`.
pub shifted-bit_or : (k high low : ℕ) → low < 2 ^ k → bit_or (high * 2 ^ k) low ≡ high * 2 ^ k + low
shifted-bit_or zero high low h =
    rw no_low (omega (arith, bit_or-zero (high * 2 ^ 0) (high * 2 ^ 0) (le_refl _)))
  where
    no_low : low ≡ 0
    no_low = omega arith
shifted-bit_or (suc k) high low h = omega (
  arith,
  or_digit (high * 2 ^ suc k) low,
  halves,
  doubles,
  shifted-bit_or k high (low / 2) (omega (arith, pow-suc 2 k)),
)
  where
    doubles : high * 2 ^ suc k ≡ 2 * (high * 2 ^ k)
    doubles = omega (arith, ap (λ (t : ℕ). high * t) (pow-suc 2 k))

    halves : bit_or (high * 2 ^ suc k / 2) (low / 2) ≡ bit_or (high * 2 ^ k) (low / 2)
    halves = ap (λ (t : ℕ). bit_or t (low / 2)) (omega (arith, doubles))
