-- ===== src/Align.antt =====
-- src/gen/sinew_align.h and src/gen/sinew_align.c: the vectors and matrices of the rotation fit.
-- The machine's double and the functions of math.h are a parameter. An array is a function of its
-- index; a 3x3 matrix has its entries by row at the indices 0 to 8.
pub mod Rotation
pub mod Kabsch
pub mod Fit
pub mod Transpose
pub mod Ascent
pub mod Reads
use gyreplane.Prelude.{ℕ, zero, suc, ◌+◌, ◌*◌, ◌/◌, ◌%◌, ◌≡◌, Bool, ◌==◌, if◌then◌else◌}

-- `double` as the compiled program computes with it. Its multiplication does not depend on the
-- order of the factors, as IEEE 754 has it; rounding and NaN are left open.
pub record Double (D : Type 0) : Type 0 where
  -- `decimal m e` is the literal m times ten to the power -e.
  pub decimal : ℕ → ℕ → D
  pub add : D → D → D
  pub sub : D → D → D
  pub mul : D → D → D
  pub div : D → D → D
  pub opposite : D → D
  pub less : D → D → Bool
  pub less_equal : D → D → Bool
  pub sqrt : D → D
  pub fabs : D → D
  pub fmax : D → D → D
  pub fmin : D → D → D
  pub atan2 : D → D → D
  pub cos : D → D
  pub sin : D → D
  pub mul_comm : (x y : D) → mul x y ≡ mul y x

module _ {D : Type 0} ⦃F : Double D⦄ where
  infixl 60 ◌⊕◌
  infixl 60 ◌⊖◌
  infixl 70 ◌⊗◌
  infixl 70 ◌⊘◌
  abbrev pub ◌⊕◌ : D → D → D
  x ⊕ y = F.add x y

  abbrev pub ◌⊖◌ : D → D → D
  x ⊖ y = F.sub x y

  abbrev pub ◌⊗◌ : D → D → D
  x ⊗ y = F.mul x y

  abbrev pub ◌⊘◌ : D → D → D
  x ⊘ y = F.div x y

  abbrev pub lit : ℕ → D
  lit n = F.decimal n 0

-- `double m[9]`, `double v[3]`, `int ord[3]`.
abbrev pub Array : Type 0 → Type 0
Array A = ℕ → A

-- The array after `a[i] = x`.
unfoldable pub put : {A : Type 0} → Array A → ℕ → A → Array A
put a i x j = if j == i then x else a j

-- The nine entries that two nested loops over rows and columns write.
abbrev pub entries : {A : Type 0} → (ℕ → ℕ → A) → Array A
entries f i = f (i / 3) (i % 3)

-- An initializer of three values.
abbrev pub three : {A : Type 0} → A → A → A → Array A
three x y z zero = x
three x y z (suc zero) = y
three x y z (suc (suc n)) = z

module _ {D : Type 0} ⦃F : Double D⦄ where
  abbrev pub sinew_eps : D
  sinew_eps = F.decimal 1 8

  unfoldable pub v3_dot : Array D → Array D → D
  v3_dot a b = a 0 ⊗ b 0 ⊕ a 1 ⊗ b 1 ⊕ a 2 ⊗ b 2

  unfoldable pub v3_cross : Array D → Array D → Array D
  v3_cross a b = three (a 1 ⊗ b 2 ⊖ a 2 ⊗ b 1) (a 2 ⊗ b 0 ⊖ a 0 ⊗ b 2) (a 0 ⊗ b 1 ⊖ a 1 ⊗ b 0)

  unfoldable pub v3_norm : Array D → D
  unfolding v3_dot
  v3_norm a = F.sqrt (v3_dot a a)

  unfoldable pub v3_scale : Array D → D → Array D
  v3_scale a s i = a i ⊗ s

  unfoldable pub det9 : Array D → D
  det9 m =
      m 0 ⊗ (m 4 ⊗ m 8 ⊖ m 5 ⊗ m 7) ⊖ m 1 ⊗ (m 3 ⊗ m 8 ⊖ m 5 ⊗ m 6) ⊕ m 2 ⊗ (m 3 ⊗ m 7 ⊖ m 4 ⊗ m 6)

  unfoldable pub mul9 : Array D → Array D → Array D
  mul9 a b =
      entries λ r col. a (r * 3) ⊗ b col ⊕ a (r * 3 + 1) ⊗ b (3 + col) ⊕ a (r * 3 + 2) ⊗ b (6 + col)

  unfoldable pub transpose9 : Array D → Array D
  transpose9 m = entries λ i j. m (j * 3 + i)

  -- The product of the transpose with the matrix, as three of the functions write it out.
  unfoldable pub gram : Array D → Array D
  gram r = entries λ a b. r a ⊗ r b ⊕ r (3 + a) ⊗ r (3 + b) ⊕ r (6 + a) ⊗ r (6 + b)
