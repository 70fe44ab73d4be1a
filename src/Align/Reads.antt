-- ===== src/Align/Reads.antt =====
-- The fit reads nothing outside its arrays: the vectors and the 3x3 matrices.
pub mod Rotation
pub mod Jacobi
pub mod Kabsch
pub mod Fit
use gyreplane.Prelude.{ℕ, ◌+◌, ◌*◌, ◌/◌, ◌%◌, ◌<◌, ◌≡◌, refl, ap, ap₂, arith}
use gyreplane.Align.{
  Double, ◌⊕◌, ◌⊖◌, ◌⊗◌, Array, three, v3_dot, v3_cross, v3_norm, v3_scale, det9, mul9, transpose9,
  gram,
}

-- The same entries up to an index.
abbrev pub Same : {A : Type 0} → ℕ → Array A → Array A → Type 0
Same n a b = (i : ℕ) → i < n → a i ≡ b i

module _ {D : Type 0} ⦃F : Double D⦄ where
  pub v3_dot-Same : (a a' b b' : Array D) → Same 3 a a' → Same 3 b b' → v3_dot a b ≡ v3_dot a' b'
  unfolding v3_dot
  v3_dot-Same a a' b b' p q =
      rw
        (
          p 0 (omega arith),
          p 1 (omega arith),
          p 2 (omega arith),
          q 0 (omega arith),
          q 1 (omega arith),
          q 2 (omega arith),
        )
        refl

  pub v3_cross-Same :
      (a a' b b' : Array D) → Same 3 a a' → Same 3 b b' → v3_cross a b ≡ v3_cross a' b'
  unfolding v3_cross
  v3_cross-Same a a' b b' p q =
      rw
        (
          p 0 (omega arith),
          p 1 (omega arith),
          p 2 (omega arith),
          q 0 (omega arith),
          q 1 (omega arith),
          q 2 (omega arith),
        )
        refl

  pub v3_norm-Same : (a a' : Array D) → Same 3 a a' → v3_norm a ≡ v3_norm a'
  unfolding v3_norm
  v3_norm-Same a a' p = ap F.sqrt (v3_dot-Same a a' a a' p p)

  pub v3_scale-Same :
      (a a' : Array D) (s s' : D) → Same 3 a a' → s ≡ s' → Same 3 (v3_scale a s) (v3_scale a' s')
  unfolding v3_scale
  v3_scale-Same a a' s s' p e i h = ap₂ F.mul (p i h) e

  pub det9-Same : (m m' : Array D) → Same 9 m m' → det9 m ≡ det9 m'
  unfolding det9
  det9-Same m m' p =
      rw
        (
          p 0 (omega arith),
          p 1 (omega arith),
          p 2 (omega arith),
          p 3 (omega arith),
          p 4 (omega arith),
          p 5 (omega arith),
          p 6 (omega arith),
          p 7 (omega arith),
          p 8 (omega arith),
        )
        refl

  pub product :
      {x x' y y' z z' u u' v v' w w' : D}
      → x ≡ x'
      → y ≡ y'
      → z ≡ z'
      → u ≡ u'
      → v ≡ v'
      → w ≡ w'
      → x ⊗ u ⊕ y ⊗ v ⊕ z ⊗ w ≡ x' ⊗ u' ⊕ y' ⊗ v' ⊕ z' ⊗ w'
  product p q r s t o = ap₂ F.add (ap₂ F.add (ap₂ F.mul p s) (ap₂ F.mul q t)) (ap₂ F.mul r o)

  pub mul9-Same : (a a' b b' : Array D) → Same 9 a a' → Same 9 b b' → Same 9 (mul9 a b) (mul9 a' b')
  unfolding mul9
  mul9-Same a a' b b' p q i h =
      product (p _ (omega arith)) (p _ (omega arith)) (p _ (omega arith)) (q _ (omega arith))
        (q _ (omega arith)) (q _ (omega arith))

  pub transpose9-Same : (m m' : Array D) → Same 9 m m' → Same 9 (transpose9 m) (transpose9 m')
  unfolding transpose9
  transpose9-Same m m' p i h = p _ (omega arith)

  pub gram-Same : (r r' : Array D) → Same 9 r r' → Same 9 (gram r) (gram r')
  unfolding gram
  gram-Same r r' p i h =
      product (p _ (omega arith)) (p _ (omega arith)) (p _ (omega arith)) (p _ (omega arith))
        (p _ (omega arith)) (p _ (omega arith))
