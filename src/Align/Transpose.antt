-- ===== src/Align/Transpose.antt =====
-- Transposes, products and the covariance, up to the nine entries that a matrix has.
use gyreplane.Prelude.{ℕ, ◌+◌, ◌*◌, ◌<◌, ◌≡◌, refl, ap, ap₂, ◌∙◌, List, [], ◌∷◌, map, arith}
use gyreplane.Align.{Double, ◌⊕◌, ◌⊗◌, lit, Array, mul9, transpose9, gram}
use gyreplane.Align.Fit.{add_outer, covariance, zeros}

-- The same nine entries.
abbrev pub Same9 : {A : Type 0} → Array A → Array A → Type 0
Same9 a b = (i : ℕ) → i < 9 → a i ≡ b i

module _ {D : Type 0} ⦃F : Double D⦄ where
  same_term : (a b : Array D) {x x' y y' : ℕ} → x ≡ x' → y ≡ y' → a x ⊗ b y ≡ a x' ⊗ b y'
  same_term a b p q = ap₂ F.mul (ap a p) (ap b q)

  swapped : (a b : Array D) {x x' y y' : ℕ} → x ≡ x' → y ≡ y' → a x ⊗ b y ≡ b y' ⊗ a x'
  swapped a b p q = F.mul_comm _ _ ∙ same_term b a q p

  sum3 : {x x' y y' z z' : D} → x ≡ x' → y ≡ y' → z ≡ z' → x ⊕ y ⊕ z ≡ x' ⊕ y' ⊕ z'
  sum3 p q r = ap₂ F.add (ap₂ F.add p q) r

  -- Transposing twice changes no entry, and the transpose of a product is the product of the
  -- transposes in the other order, bit for bit.
  pub transpose9-mul9 :
      (a b : Array D)
      → Same9 (transpose9 (transpose9 a)) a
        × Same9 (transpose9 (mul9 a b)) (mul9 (transpose9 b) (transpose9 a))
  unfolding transpose9 mul9
  transpose9-mul9 a b = (
    λ i h. ap a (omega arith),
    λ i h.
        sum3 (swapped a b (omega arith) (omega arith)) (swapped a b (omega arith) (omega arith))
          (swapped a b (omega arith) (omega arith)),
  )

  -- The matrix that the orthogonalization, the test of a rotation and the fallback write out is the
  -- product of the transpose with the matrix, and it is symmetric bit for bit, which the Jacobi
  -- iteration relies on.
  pub gram-mul9 :
      (r : Array D) → Same9 (gram r) (mul9 (transpose9 r) r) × Same9 (transpose9 (gram r)) (gram r)
  unfolding gram mul9 transpose9
  gram-mul9 r = (
    λ i h.
        sum3 (same_term r r (omega arith) (omega arith)) (same_term r r (omega arith) (omega arith))
          (same_term r r (omega arith) (omega arith)),
    λ i h.
        sum3 (swapped r r (omega arith) (omega arith)) (swapped r r (omega arith) (omega arith))
          (swapped r r (omega arith) (omega arith)),
  )

  -- A pair with its target and its source exchanged.
  abbrev pub exchanged : Array D × Array D → Array D × Array D
  exchanged pair = (pair.1, pair.0)

  covariance_step :
      (h k : Array D) (pairs : List (Array D × Array D))
      → Same9 k (transpose9 h)
      → Same9 (covariance k (map exchanged pairs)) (transpose9 (covariance h pairs))
  unfolding covariance add_outer transpose9
  covariance_step h k [] same = same
  covariance_step h k (pair ∷ pairs) same =
      covariance_step (add_outer h pair.0 pair.1) (add_outer k pair.1 pair.0) pairs
        (λ i small. ap₂ F.add (same i small) (swapped pair.1 pair.0 (omega arith) (omega arith)))

  -- The sum, from the first pair on, of coordinate `i` of the target times `j` of the source.
  abbrev pub product_sum : (i j : ℕ) → D → List (Array D × Array D) → D
  product_sum i j x [] = x
  product_sum i j x (pair ∷ pairs) = product_sum i j (x ⊕ pair.0 i ⊗ pair.1 j) pairs

  covariance_entry :
      (i j : ℕ) (h : Array D) (pairs : List (Array D × Array D))
      → j < 3
      → covariance h pairs (3 * i + j) ≡ product_sum i j (h (3 * i + j)) pairs
  unfolding covariance add_outer
  covariance_entry i j h [] small = refl
  covariance_entry i j h (pair ∷ pairs) small =
      covariance_entry i j (add_outer h pair.0 pair.1) pairs small
      ∙ ap (λ x. product_sum i j x pairs)
          (ap (λ t. h (3 * i + j) ⊕ t)
            (ap₂ F.mul (ap pair.0 (omega arith)) (ap pair.1 (omega arith))))

  -- The covariance of the pairs has in row `i` and column `j` the sum, in the order of the pairs and
  -- from zero on, of coordinate `i` of each target times coordinate `j` of its source, for `i` and
  -- `j` below 3. Exchanging targets and sources transposes it. Both hold bit for bit.
  pub covariance-product_sum :
      (pairs : List (Array D × Array D))
      → ((i j : ℕ)
          → i < 3
          → j < 3
          → covariance zeros pairs (3 * i + j) ≡ product_sum i j (lit 0) pairs)
        × Same9 (covariance zeros (map exchanged pairs)) (transpose9 (covariance zeros pairs))
  unfolding transpose9
  covariance-product_sum pairs = (
    λ i j row column. covariance_entry i j zeros pairs column,
    covariance_step zeros zeros pairs (λ i small. refl),
  )
