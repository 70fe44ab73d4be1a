-- ===== src/Packet/Fields.antt =====
-- The readers of one field, as the little-endian value of the bytes that they read.
use native.Mathlib.Numerals.{towards_suc}
use native.Mathlib.Nat.{add-zero}
use gyreplane.Prelude.{
  ℕ, zero, suc, ◌+◌, ◌*◌, ◌^◌, ◌≤◌, ◌<◌, ◌≡◌, refl, ap, sym, ◌∙◌, some, List, [], ◌∷◌, ◌++◌, arith,
  bit_or, length, get_elem?, take, drop,
}
use gyreplane.Prelude.Bits.{bit_or_shifted}
use gyreplane.Prelude.Bytes.{IsBytes, of_le, u32, u64, u16}
use gyreplane.Prelude.Int.{of_word, half16, half64}
use gyreplane.Packet.{get_loop, get_u32, get_i64, get_i16}

-- The byte at an index in range.
record At (b : List ℕ) (i : ℕ) : Type 0 where
  byte : ℕ
  found : get_elem? b i ≡ some byte
  split : drop i b ≡ byte ∷ drop (suc i) b
  small : byte < 256

at : (b : List ℕ) (i : ℕ) → IsBytes b → i < length b → At b i
at [] i h lt = absurd (omega arith)
at (x ∷ b) zero h lt = record { byte = x; found = refl; split = refl; small = h.0 }
at (x ∷ b) (suc i) h lt =
    let a = at b i h.1 (omega arith) in
    record { byte = a.byte; found = a.found; split = a.split; small = a.small }

eights : (i : ℕ) → (i + 1) * 8 ≡ i * 8 + 8
eights i = omega arith

pow_byte : (i : ℕ) → 2 ^ ((i + 1) * 8) ≡ 256 * 2 ^ (i * 8)
pow_byte i = ap (λ (t : ℕ). 2 ^ t) (eights i) ∙ simp towards_suc (omega arith)

grow : (i v x w : ℕ) → v < 2 ^ (i * 8) → x < 256 → w ≡ v + x * 2 ^ (i * 8) → w < 2 ^ ((i + 1) * 8)
grow i v x w low small e = grind (arith, pow_byte i)

gather :
    (i v x w : ℕ) {o o' : ℕ}
    → w ≡ v + x * 2 ^ (i * 8)
    → o ≡ o'
    → w + o * 2 ^ ((i + 1) * 8) ≡ v + (x + 256 * o') * 2 ^ (i * 8)
gather i v x w {o} e e' = rw (e, ← e', pow_byte i) (omega arith)

next_drop :
    (left off i : ℕ) (b : List ℕ)
    → of_le (take left (drop (off + (i + 1)) b)) ≡ of_le (take left (drop (suc (off + i)) b))
next_drop left off i b = ap (λ (t : ℕ). of_le (take left (drop t b))) (index off i)
  where
    index : (off i : ℕ) → off + (i + 1) ≡ suc (off + i)
    index off i = omega arith

module _ (cut : ℕ → ℕ) (n : ℕ)
    (keeps : (i x : ℕ) → i < n → x < 256 → cut (x * 2 ^ (i * 8)) ≡ x * 2 ^ (i * 8)) where
  get_loop-of_le :
      (left i : ℕ) (b : List ℕ) (off v : ℕ)
      → i + left ≤ n
      → off + i + left ≤ length b
      → IsBytes b
      → v < 2 ^ (i * 8)
      → get_loop cut left i b off v ≡ some (v + of_le (take left (drop (off + i) b)) * 2 ^ (i * 8))
  unfolding get_loop
  get_loop-of_le zero i b off v fit range bytes low = ap some (omega arith)
  get_loop-of_le (suc left) i b off v fit range bytes low =
      let a = at b (off + i) bytes (omega arith) in
      let w = bit_or v (cut (a.byte * 2 ^ (i * 8))) in
      let or_sum : w ≡ v + a.byte * 2 ^ (i * 8) =
        rw (keeps i a.byte (omega arith) a.small) (bit_or_shifted (i * 8) v a.byte low) in
      let rest =
        get_loop-of_le left (i + 1) b off w (omega arith) (omega arith) bytes
          (grow i v a.byte w low a.small or_sum) in
      rw (a.found, a.split) (rest ∙ ap some (gather i v a.byte w or_sum (next_drop left off i b)))

u32_keeps : (i x : ℕ) → i < 4 → x < 256 → u32 (x * 2 ^ (i * 8)) ≡ x * 2 ^ (i * 8)
u32_keeps zero x h small = omega arith
u32_keeps (suc zero) x h small = omega arith
u32_keeps (suc (suc zero)) x h small = omega arith
u32_keeps (suc (suc (suc zero))) x h small = omega arith
u32_keeps (suc (suc (suc (suc i)))) x h small = absurd (omega arith)

u64_keeps : (i x : ℕ) → i < 8 → x < 256 → u64 (x * 2 ^ (i * 8)) ≡ x * 2 ^ (i * 8)
u64_keeps zero x h small = omega arith
u64_keeps (suc zero) x h small = omega arith
u64_keeps (suc (suc zero)) x h small = omega arith
u64_keeps (suc (suc (suc zero))) x h small = omega arith
u64_keeps (suc (suc (suc (suc zero)))) x h small = omega arith
u64_keeps (suc (suc (suc (suc (suc zero))))) x h small = omega arith
u64_keeps (suc (suc (suc (suc (suc (suc zero)))))) x h small = omega arith
u64_keeps (suc (suc (suc (suc (suc (suc (suc zero))))))) x h small = omega arith
u64_keeps (suc (suc (suc (suc (suc (suc (suc (suc i)))))))) x h small = absurd (omega arith)

-- The bytes of a field of `n` bytes at an offset.
abbrev pub slice : ℕ → ℕ → List ℕ → List ℕ
slice off n b = take n (drop off b)

-- What a slice of a list is if it lies in its first part.
pub slice-append :
    (off n : ℕ) (xs ys : List ℕ) → off + n ≤ length xs → slice off n (xs ++ ys) ≡ slice off n xs
slice-append zero zero xs ys h = refl
slice-append zero (suc n) [] ys h = absurd (omega arith)
slice-append zero (suc n) (x ∷ xs) ys h =
    ap (λ zs. x ∷ zs) (slice-append zero n xs ys (omega arith))
slice-append (suc off) n [] ys h = absurd (omega arith)
slice-append (suc off) n (x ∷ xs) ys h = slice-append off n xs ys (omega arith)

whole :
    (n off : ℕ) (b : List ℕ) → 0 + of_le (slice (off + 0) n b) * 2 ^ (0 * 8) ≡ of_le (slice off n b)
whole n off b = rw add-zero (omega arith)

two_bytes :
    {b : List ℕ} {off : ℕ} (low : At b off) (high : At b (off + 1))
    → slice off 2 b ≡ low.byte ∷ high.byte ∷ []
two_bytes {b} {off} low high =
    rw low.split (ap (λ (t : ℕ). low.byte ∷ take 1 (drop t b)) (next off) ∙ rw high.split refl)
  where
    next : (off : ℕ) → suc off ≡ off + 1
    next off = omega arith

pair : (x y : ℕ) → x < 256 → y < 256 → u16 (bit_or x (y * 2 ^ 8)) ≡ of_le (x ∷ y ∷ [])
pair x y hx hy = omega (arith, bit_or_shifted 8 x y hx)

module _ (b : List ℕ) (off : ℕ) (bytes : IsBytes b) where
  pub get_u32-of_le : off + 4 ≤ length b → get_u32 b off ≡ some (of_le (slice off 4 b))
  unfolding get_u32
  get_u32-of_le range =
      get_loop-of_le u32 4 u32_keeps 4 0 b off 0 (omega arith) (omega arith) bytes (omega arith)
      ∙ ap some (whole 4 off b)

  pub get_i64-of_le :
      off + 8 ≤ length b → get_i64 b off ≡ some (of_word half64 (of_le (slice off 8 b)))
  unfolding get_i64
  get_i64-of_le range =
      rw
        (get_loop-of_le u64 8 u64_keeps 8 0 b off 0 (omega arith) (omega arith) bytes (omega arith))
        (ap (λ u. some (of_word half64 u)) (whole 8 off b))

  pub get_i16-of_le :
      off + 2 ≤ length b → get_i16 b off ≡ some (of_word half16 (of_le (slice off 2 b)))
  unfolding get_i16
  get_i16-of_le range =
      let low = at b off bytes (omega arith) in
      let high = at b (off + 1) bytes (omega arith) in
      rw (low.found, high.found)
        (ap (λ u. some (of_word half16 u))
          (pair low.byte high.byte low.small high.small ∙ ap of_le (sym (two_bytes low high))))
