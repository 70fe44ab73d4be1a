-- ===== src/Tests/Fits.antt =====
-- The rotation fit, over numbers that stand in for the machine's.
use gyreplane.Prelude.{
  ℕ, ◌+◌, ◌-◌, ◌*◌, ◌/◌, ◌^◌, ◌<◌, ◌≡◌, true, false, ltb, leb, lt→ltb, if◌then◌else◌, List, [], ◌∷◌,
  map, arith,
}
use Prim.Native.Nat.{max, min}
use gyreplane.Align.{Double, Array, three, transpose9}
use gyreplane.Align.Kabsch.{sorted_order}
use gyreplane.Align.Fit.{covariance, zeros, align}
use gyreplane.Align.Transpose.{Same9, exchanged, product_sum, covariance-product_sum}
use gyreplane.Align.Reads.{Same}
use gyreplane.Align.Reads.Fit.{align-Same}
use gyreplane.Align.Ascent.{Comparable, IsPermutation, sorted_order-IsPermutation}

-- Whole numbers without signs, in place of doubles.
instance abbrev pub whole : Double ℕ
whole = record {
  decimal = λ m e. m / 10 ^ e;
  add = λ x y. x + y;
  sub = λ x y. x - y;
  mul = λ x y. x * y;
  div = λ x y. x / y;
  opposite = λ x. x;
  less = ltb;
  less_equal = leb;
  sqrt = λ x. x;
  fabs = λ x. x;
  fmax = max;
  fmin = min;
  atan2 = λ x y. x;
  cos = λ x. x;
  sin = λ x. x;
  mul_comm = λ x y. grind arith;
}

abbrev counted : Array ℕ
counted i = i + 1

abbrev pairs : List (Array ℕ × Array ℕ)
pairs = (three 1 2 3, three 4 5 6) ∷ (three 7 8 9, three 1 1 0) ∷ []

covariance-product_sum_example :
    ((i j : ℕ) → i < 3 → j < 3 → covariance zeros pairs (3 * i + j) ≡ product_sum i j 0 pairs)
    × Same9 (covariance zeros (map exchanged pairs)) (transpose9 (covariance zeros pairs))
covariance-product_sum_example = covariance-product_sum pairs

abbrev values : Array ℕ
values = three 3 1 2

values-Comparable : Comparable values
values-Comparable = record {
  asymmetric = λ i j h. asymmetric_numbers (values i) (values j) h;
  transitive = λ i j k g h. transitive_numbers (values i) (values j) (values k) g h;
}
  where
    asymmetric_numbers : (x y : ℕ) → ltb x y ≡ true → ltb y x ≡ false
    asymmetric_numbers x y h = ground arith

    transitive_numbers : (x y z : ℕ) → ltb x y ≡ false → ltb y z ≡ false → ltb x z ≡ false
    transitive_numbers x y z g h = ground arith

sorted_order-IsPermutation_example :
    IsPermutation (sorted_order values)
    × (ltb (values (sorted_order values 0)) (values (sorted_order values 1)) ≡ false)
    × (ltb (values (sorted_order values 1)) (values (sorted_order values 2)) ≡ false)
sorted_order-IsPermutation_example = sorted_order-IsPermutation values values-Comparable

-- The vectors of the pairs in arrays that hold other numbers behind them.
abbrev longer : Array ℕ → Array ℕ
longer v i = if ltb i 3 then v i else 99

longer-Same : (v : Array ℕ) → Same 3 v (longer v)
longer-Same v i small = ground (arith, lt→ltb i 3 small)

abbrev longer_pairs : List (Array ℕ × Array ℕ)
longer_pairs =
    (longer (three 1 2 3), longer (three 4 5 6)) ∷ (longer (three 7 8 9), longer (three 1 1 0)) ∷ []

align-Same_example : Same 9 (align pairs) (align longer_pairs)
align-Same_example = align-Same pairs longer_pairs (
  longer-Same (three 1 2 3),
  longer-Same (three 4 5 6),
  (longer-Same (three 7 8 9), longer-Same (three 1 1 0), tt),
)
