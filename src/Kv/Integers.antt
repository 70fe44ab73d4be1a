-- ===== src/Kv/Integers.antt =====
-- The big-endian integers of the keys: they decode, they are bytes, and they sort as numbers.
use gyreplane.Prelude.{
  ℕ, ◌+◌, ◌*◌, ◌/◌, ◌%◌, ◌^◌, ◌<◌, ◌≡◌, refl, ap, ap₂, ◌∙◌, Bool, false, some, List, [], ◌∷◌, arith,
  bit_or, ltb, ◌==◌, if◌then◌else◌, length,
}
use gyreplane.Prelude.Bits.{bit_and_byte, shifted-bit_or}
use gyreplane.Prelude.Bytes.{IsBytes, u32}
use gyreplane.Kv.{encode_u32_be, decode_u32_be}
use gyreplane.Kv.KeyOrder.{key_lt}

-- Most significant byte first.
abbrev pub be : ℕ → List ℕ
be v = (v / 2 ^ 24 % 256) ∷ (v / 2 ^ 16 % 256) ∷ (v / 2 ^ 8 % 256) ∷ (v % 256) ∷ []

pub encode_u32_be-be : (v : ℕ) → encode_u32_be v ≡ be v
unfolding encode_u32_be
encode_u32_be-be v = ground (
  arith,
  bit_and_byte (v / 2 ^ 24),
  bit_and_byte (v / 2 ^ 16),
  bit_and_byte (v / 2 ^ 8),
  bit_and_byte v,
)

pub be-IsBytes : (v : ℕ) → IsBytes (be v)
be-IsBytes v = (omega arith, (omega arith, (omega arith, (omega arith, tt))))

gathered :
    (a b c d : ℕ)
    → a < 256
    → b < 256
    → c < 256
    → d < 256
    → bit_or (bit_or (bit_or (u32 (a * 2 ^ 24)) (u32 (b * 2 ^ 16))) (u32 (c * 2 ^ 8))) d
      ≡ a * 2 ^ 24 + b * 2 ^ 16 + c * 2 ^ 8 + d
gathered a b c d ha hb hc hd =
    ap₂ bit_or (ap₂ bit_or (ap₂ bit_or (omega arith) (omega arith) ∙ first) (omega arith) ∙ second)
      refl
    ∙ third
  where
    first : bit_or (a * 2 ^ 24) (b * 2 ^ 16) ≡ (a * 256 + b) * 2 ^ 16
    first = omega (arith, shifted-bit_or 24 a (b * 2 ^ 16) (omega arith))

    second : bit_or ((a * 256 + b) * 2 ^ 16) (c * 2 ^ 8) ≡ ((a * 256 + b) * 256 + c) * 2 ^ 8
    second = omega (arith, shifted-bit_or 16 (a * 256 + b) (c * 2 ^ 8) (omega arith))

    third : bit_or (((a * 256 + b) * 256 + c) * 2 ^ 8) d ≡ a * 2 ^ 24 + b * 2 ^ 16 + c * 2 ^ 8 + d
    third = omega (arith, shifted-bit_or 8 ((a * 256 + b) * 256 + c) d (omega arith))

-- A number below 2 ^ 32 is encoded in four bytes, and these decode to it.
pub decode_u32_be-encode_u32_be :
    (v : ℕ)
    → v < 2 ^ 32
    → (decode_u32_be (encode_u32_be v) ≡ some v)
      × (length (encode_u32_be v) ≡ 4)
      × IsBytes (encode_u32_be v)
unfolding decode_u32_be
decode_u32_be-encode_u32_be v h = rw (encode_u32_be-be v) (
  ap some (gathered _ _ _ _ (omega arith) (omega arith) (omega arith) (omega arith) ∙ omega arith),
  refl,
  be-IsBytes v,
)

-- Comparing one digit first and then those below it compares the numbers that they make.
abbrev digit_first : ℕ → ℕ → ℕ → Bool → Bool
digit_first p u v below =
    if (u / p % 256) == (v / p % 256) then below else ltb (u / p % 256) (v / p % 256)

module _ (u v : ℕ) where
  lowest :
      (if (u % 256) == (v % 256) then false else ltb (u % 256) (v % 256))
      ≡ ltb (u % 2 ^ 8) (v % 2 ^ 8)
  lowest = ground arith

  second_digit :
      digit_first (2 ^ 8) u v (ltb (u % 2 ^ 8) (v % 2 ^ 8)) ≡ ltb (u % 2 ^ 16) (v % 2 ^ 16)
  second_digit = ground arith

  third_digit :
      digit_first (2 ^ 16) u v (ltb (u % 2 ^ 16) (v % 2 ^ 16)) ≡ ltb (u % 2 ^ 24) (v % 2 ^ 24)
  third_digit = ground arith

  top_digit :
      u < 2 ^ 32 → v < 2 ^ 32 → digit_first (2 ^ 24) u v (ltb (u % 2 ^ 24) (v % 2 ^ 24)) ≡ ltb u v
  top_digit hu hv = ground arith

  pub key_lt-be : u < 2 ^ 32 → v < 2 ^ 32 → key_lt (be u) (be v) ≡ ltb u v
  unfolding key_lt
  key_lt-be hu hv =
      ap (λ t. digit_first (2 ^ 24) u v (digit_first (2 ^ 16) u v (digit_first (2 ^ 8) u v t)))
        lowest
      ∙ ap (λ t. digit_first (2 ^ 24) u v (digit_first (2 ^ 16) u v t)) second_digit
      ∙ ap (digit_first (2 ^ 24) u v) third_digit
      ∙ top_digit hu hv

-- For two numbers below 2 ^ 32, the byte order of their encodings is the order of the numbers: the
-- purpose of big-endian keys.
pub key_lt-encode_u32_be :
    (u v : ℕ) → u < 2 ^ 32 → v < 2 ^ 32 → key_lt (encode_u32_be u) (encode_u32_be v) ≡ ltb u v
key_lt-encode_u32_be u v hu hv = rw (encode_u32_be-be u, encode_u32_be-be v) (key_lt-be u v hu hv)

pub be-injective : (u v : ℕ) → u < 2 ^ 32 → v < 2 ^ 32 → be u ≡ be v → u ≡ v
be-injective u v hu hv e = ground arith
