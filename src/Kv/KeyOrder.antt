-- ===== src/Kv/KeyOrder.antt =====
-- FoundationDB's order of keys, byte by byte, and what lies between a prefix and the prefix with
-- one 0xFF behind it.
use gyreplane.Prelude.{
  ℕ, ◌<◌, ◌≡◌, refl, Bool, true, false, not, ◌&&◌, List, [], ◌∷◌, ◌++◌, arith, ltb, ◌==◌,
  if◌then◌else◌,
}

unfoldable pub key_lt : List ℕ → List ℕ → Bool
key_lt [] [] = false
key_lt [] (y ∷ ys) = true
key_lt (x ∷ xs) [] = false
key_lt (x ∷ xs) (y ∷ ys) = if x == y then key_lt xs ys else ltb x y

-- A key of the range that includes its begin and excludes its end.
unfoldable pub in_range : List ℕ → List ℕ → List ℕ → Bool
in_range begin end k = not (key_lt k begin) && key_lt k end

key_lt-nil : (xs : List ℕ) → key_lt xs [] ≡ false
unfolding key_lt
key_lt-nil [] = refl
key_lt-nil (x ∷ xs) = refl

pub key_lt-append : (p xs ys : List ℕ) → key_lt (p ++ xs) (p ++ ys) ≡ key_lt xs ys
unfolding key_lt
key_lt-append [] xs ys = refl
key_lt-append (x ∷ p) xs ys = ground (arith, key_lt-append p xs ys)

abbrev pub BelowMark : List ℕ → Type 0
BelowMark [] = Unit {0}
BelowMark (x ∷ xs) = x < 0xff

pub in_range-split :
    (p k : List ℕ)
    → in_range p (p ++ 0xff ∷ []) k ≡ true
    → (s : List ℕ) × (k ≡ p ++ s) × BelowMark s
unfolding in_range key_lt
in_range-split [] [] h = ([], refl, tt)
in_range-split [] (x ∷ k) h = (x ∷ k, refl, ground (arith, key_lt-nil k))
in_range-split (y ∷ p) [] h = absurd (ground arith)
in_range-split (y ∷ p) (x ∷ k) h =
    let (s, e, below) = in_range-split p k (ground arith) in (s, ground arith, below)

pub in_range-append : (p s : List ℕ) → BelowMark s → in_range p (p ++ 0xff ∷ []) (p ++ s) ≡ true
unfolding in_range key_lt
in_range-append [] [] h = refl
in_range-append [] (x ∷ s) h = ground arith
in_range-append (y ∷ p) s h = ground (arith, in_range-append p s h)
