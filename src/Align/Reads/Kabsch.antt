-- ===== src/Align/Reads/Kabsch.antt =====
-- The fallback reads only the nine entries of its matrix.
use gyreplane.Prelude.{
  ℕ, zero, suc, ◌+◌, ◌*◌, ◌/◌, ◌%◌, ◌<◌, ◌≡◌, ap, ap₂, ◌∙◌, ◌==◌, if◌then◌else◌, arith, Bool-cases,
  inl, inr,
}
use gyreplane.Align.{Double, ◌⊕◌, ◌⊗◌, ◌⊘◌, lit, Array, put, entries, three, gram}
use gyreplane.Align.Kabsch.{jacobi9, sort_step, sorted_order, fill_column, kabsch}
use gyreplane.Align.Reads.{
  Same, product, v3_cross-Same, det9-Same, mul9-Same, transpose9-Same, gram-Same,
}
use gyreplane.Align.Reads.Rotation.{if-Same}
use gyreplane.Align.Reads.Jacobi.{jacobi9-Same}

module _ {D : Type 0} ⦃F : Double D⦄ where
  -- The sorted indices are indices of eigenvalues.
  sort_step-Below :
      (w : Array D) (a b : ℕ) (ord : Array ℕ)
      → a < 3
      → b < 3
      → ((i : ℕ) → i < 3 → ord i < 3)
      → (i : ℕ) → i < 3
      → sort_step w a b ord i < 3
  unfolding sort_step put
  sort_step-Below w a b ord a_in b_in below i small =
      elim (Bool-cases (F.less (w (ord a)) (w (ord b)))) [
        | inr sorted ↦ rw sorted (below i small)
        | inl swapped ↦ rw swapped (elim (Bool-cases (i == b)) [
          | inl at_b ↦ rw at_b (below a a_in)
          | inr not_b ↦ rw not_b (elim (Bool-cases (i == a)) [
            | inl at_a ↦ rw at_a (below b b_in)
            | inr not_a ↦ rw not_a (below i small)
          ])
        ])
      ]

  sorted_order-Below : (w : Array D) (i : ℕ) → i < 3 → sorted_order w i < 3
  unfolding sorted_order
  sorted_order-Below w = sort_step-Below w 1 2 _ (omega arith) (omega arith) (
      sort_step-Below w 0 2 _ (omega arith) (omega arith)
        (sort_step-Below w 0 1 _ (omega arith) (omega arith) first))
    where
      first : (i : ℕ) → i < 3 → three 0 1 2 i < 3
      first zero small = omega arith
      first (suc zero) small = omega arith
      first (suc (suc i)) small = omega arith

  fill_column-Same :
      (sig sig' : Array D) (c : ℕ) (u u' : Array D)
      → sig ≡ sig'
      → Same 9 u u'
      → Same 9 (fill_column sig c u) (fill_column sig' c u')
  unfolding fill_column
  fill_column-Same sig sig' c u u' e p =
      let a = (c + 1) % 3 in
      let b = (c + 2) % 3 in
      let column : (k : ℕ)
          → k < 3
          → Same 3 (three (u k) (u (3 + k)) (u (6 + k))) (three (u' k) (u' (3 + k)) (u' (6 + k))) =
        λ k small i _.
          ap₂ (λ (x : D) (yz : D × D). three x yz.0 yz.1 i) (p k (omega arith))
            (λ j. (p (3 + k) (omega arith) j, p (6 + k) (omega arith) j)) in
      let uc = v3_cross-Same _ _ _ _ (column a (omega arith)) (column b (omega arith)) in
      if-Same 9 _ _ _ _ _ _ (ap (λ (s : Array D). F.less_equal (s c) (F.decimal 1 12)) e)
        (λ i small.
          ap₂ (λ (v : Array D) (x : D). if i % 3 == c then v (i / 3) else x) uc (p i small))
        p

  -- The columns of the eigenvectors in their order, the singular values and their inverses.
  abbrev columns_of : Array D → Array D × Array D → Array D
  columns_of w m = entries (λ r c. m.1 (r * 3 + sorted_order w c))

  abbrev singular_of : Array D → Array D
  singular_of w c = F.sqrt (F.fmax (w (sorted_order w c)) (lit 0))

  abbrev inverse_of : Array D → Array D
  inverse_of sig c = if F.less (F.decimal 1 12) (sig c) then lit 1 ⊘ sig c else lit 0

  columns_of-Same :
      (w w' : Array D) (m m' : Array D × Array D)
      → w ≡ w'
      → Same 9 m.1 m'.1
      → Same 9 (columns_of w m) (columns_of w' m')
  columns_of-Same w w' m m' e p i small =
      let below = sorted_order-Below w (i % 3) (omega arith) in
      p (i / 3 * 3 + sorted_order w (i % 3)) (omega (arith, below))
      ∙ ap (λ (x : Array D). m'.1 (i / 3 * 3 + sorted_order x (i % 3))) e

  -- The last columns filled in.
  abbrev filled : (sig : Array D) → Array D → Array D
  filled sig u = fill_column sig 2 (fill_column sig 1 (fill_column sig 0 u))

  filled-Same :
      (sig sig' u u' : Array D) → sig ≡ sig' → Same 9 u u' → Same 9 (filled sig u) (filled sig' u')
  filled-Same sig sig' u u' e p =
      fill_column-Same sig sig' 2 _ _ e
        (fill_column-Same sig sig' 1 _ _ e (fill_column-Same sig sig' 0 u u' e p))

  pub kabsch-Same : (h h' : Array D) → Same 9 h h' → Same 9 (kabsch h) (kabsch h')
  unfolding kabsch
  kabsch-Same h h' p =
      let (w, vectors) = jacobi9-Same (gram h) (gram h') (gram-Same h h' p) in
      let m = jacobi9 (gram h) in
      let m' = jacobi9 (gram h') in
      let v = columns_of-Same m.0 m'.0 m m' w vectors in
      let sig = ap singular_of w in
      let u =
        filled-Same (singular_of m.0) (singular_of m'.0)
          (entries (λ r c.
            (h (r * 3) ⊗ columns_of m.0 m c
              ⊕ h (r * 3 + 1) ⊗ columns_of m.0 m (3 + c)
              ⊕ h (r * 3 + 2) ⊗ columns_of m.0 m (6 + c))
            ⊗ inverse_of (singular_of m.0) c))
          (entries (λ r c.
            (h' (r * 3) ⊗ columns_of m'.0 m' c
              ⊕ h' (r * 3 + 1) ⊗ columns_of m'.0 m' (3 + c)
              ⊕ h' (r * 3 + 2) ⊗ columns_of m'.0 m' (6 + c))
            ⊗ inverse_of (singular_of m'.0) c))
          sig
          (λ i small.
            ap₂ F.mul
              (product (p (i / 3 * 3) (omega arith)) (p (i / 3 * 3 + 1) (omega arith))
                (p (i / 3 * 3 + 2) (omega arith)) (v (i % 3) (omega arith))
                (v (3 + i % 3) (omega arith)) (v (6 + i % 3) (omega arith)))
              (ap (λ (x : Array D). inverse_of x (i % 3)) sig)) in
      let vt = transpose9-Same _ _ v in
      let sgn =
        ap (λ x. if F.less x (lit 0) then F.opposite (lit 1) else lit 1)
          (det9-Same _ _ (mul9-Same _ _ _ _ u vt)) in
      mul9-Same _ _ _ _ (λ i small. ap₂ (λ x y. if i % 3 == 2 then x ⊗ y else x) (u i small) sgn) vt
