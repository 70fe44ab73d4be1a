-- ===== src/Align/Reads/Fit.antt =====
-- The fit reads only the three entries of its vectors.
use gyreplane.Prelude.{
  ℕ, zero, suc, ◌/◌, ◌%◌, ◌^◌, ◌≡◌, refl, ap, ap₂, ◌==◌, ◌&&◌, List, [], ◌∷◌, length, arith,
}
use gyreplane.Align.{Double, ◌⊕◌, ◌⊘◌, Array, sinew_eps, v3_norm, v3_scale}
use gyreplane.Align.Fit.{add_outer, with_normals, finish_align, covariance, zeros, pair_at, align}
use gyreplane.Align.Reads.{Same, v3_cross-Same, v3_norm-Same}
use gyreplane.Align.Reads.Rotation.{
  if-Same, rodrigues-Same, ns30-Same, regularize-Same, valid9-Same,
}
use gyreplane.Align.Reads.Kabsch.{kabsch-Same}

module _ {D : Type 0} where
  -- As many pairs of vectors, with the same three entries each.
  abbrev pub SamePairs : List (Array D × Array D) → List (Array D × Array D) → Type 0
  SamePairs [] [] = Unit
  SamePairs [] (y ∷ ys) = ⊥
  SamePairs (x ∷ xs) [] = ⊥
  SamePairs (x ∷ xs) (y ∷ ys) = Same 3 x.0 y.0 × Same 3 x.1 y.1 × SamePairs xs ys

  length-SamePairs : (xs ys : List (Array D × Array D)) → SamePairs xs ys → length xs ≡ length ys
  length-SamePairs [] [] same = refl
  length-SamePairs [] (y ∷ ys) same = elim same [ ]
  length-SamePairs (x ∷ xs) [] same = elim same [ ]
  length-SamePairs (x ∷ xs) (y ∷ ys) (_, _, same) = ap suc (length-SamePairs xs ys same)

module _ {D : Type 0} ⦃F : Double D⦄ where
  add_outer-Same :
      (h h' a a' b b' : Array D)
      → Same 9 h h'
      → Same 3 a a'
      → Same 3 b b'
      → Same 9 (add_outer h a b) (add_outer h' a' b')
  unfolding add_outer
  add_outer-Same h h' a a' b b' p q r i small =
      ap₂ F.add (p i small) (ap₂ F.mul (q (i / 3) (omega arith)) (r (i % 3) (omega arith)))

  with_normals-Same :
      (h h' a0 a0' a1 a1' b0 b0' b1 b1' : Array D)
      → Same 9 h h'
      → Same 3 a0 a0'
      → Same 3 a1 a1'
      → Same 3 b0 b0'
      → Same 3 b1 b1'
      → Same 9 (with_normals h a0 a1 b0 b1) (with_normals h' a0' a1' b0' b1')
  unfolding with_normals
  with_normals-Same h h' a0 a0' a1 a1' b0 b0' b1 b1' p pa0 pa1 pb0 pb1 =
      let ns = v3_cross-Same a0 a0' a1 a1' pa0 pa1 in
      let nd = v3_cross-Same b0 b0' b1 b1' pb0 pb1 in
      let scaled = λ (n : Array D) (x : D). v3_scale n (x ⊘ (v3_norm n ⊕ sinew_eps)) in
      if-Same 9 _ _ _ _ _ _
        (ap₂
          (λ (n m : Array D).
            F.less (F.decimal 1 9) (v3_norm n) && F.less (F.decimal 1 9) (v3_norm m))
          ns nd)
        (add_outer-Same h h' _ _ _ _ p
          (λ i _. ap₂ (λ (n : Array D) (x : D). scaled n x i) ns (v3_norm-Same a0 a0' pa0))
          (λ i _. ap₂ (λ (n : Array D) (x : D). scaled n x i) nd (v3_norm-Same b0 b0' pb0)))
        p

  finish_align-Same :
      (h h' : Array D) (n n' : ℕ) (a0 a0' a1 a1' b0 b0' b1 b1' : Array D)
      → n ≡ n'
      → Same 9 h h'
      → Same 3 a0 a0'
      → Same 3 a1 a1'
      → Same 3 b0 b0'
      → Same 3 b1 b1'
      → Same 9 (finish_align h n a0 a1 b0 b1) (finish_align h' n' a0' a1' b0' b1')
  unfolding finish_align
  finish_align-Same h h' n n' a0 a0' a1 a1' b0 b0' b1 b1' e p pa0 pa1 pb0 pb1 =
      let h_reg =
        regularize-Same _ _
          (with_normals-Same h h' a0 a0' a1 a1' b0 b0' b1 b1' p pa0 pa1 pb0 pb1) in
      let r = ns30-Same _ _ h_reg in
      if-Same 9 _ _ _ _ _ _ (ap (λ (k : ℕ). k == 1) e) (rodrigues-Same a0 a0' b0 b0' pa0 pb0)
        (if-Same 9 _ _ _ _ _ _ (valid9-Same _ _ r) r (kabsch-Same _ _ h_reg))

  covariance-Same :
      (h h' : Array D) (xs ys : List (Array D × Array D))
      → Same 9 h h'
      → SamePairs xs ys
      → Same 9 (covariance h xs) (covariance h' ys)
  unfolding covariance
  covariance-Same h h' [] [] p same = p
  covariance-Same h h' [] (y ∷ ys) p same = elim same [ ]
  covariance-Same h h' (x ∷ xs) [] p same = elim same [ ]
  covariance-Same h h' (x ∷ xs) (y ∷ ys) p (first, second, same) =
      covariance-Same (add_outer h x.0 x.1) (add_outer h' y.0 y.1) xs ys
        (add_outer-Same h h' x.0 y.0 x.1 y.1 p first second) same

  pair_at-Same :
      (xs ys : List (Array D × Array D)) (i : ℕ)
      → SamePairs xs ys
      → Same 3 (pair_at xs i).0 (pair_at ys i).0 × Same 3 (pair_at xs i).1 (pair_at ys i).1
  unfolding pair_at
  pair_at-Same [] [] i same = (λ j _. refl, λ j _. refl)
  pair_at-Same [] (y ∷ ys) i same = elim same [ ]
  pair_at-Same (x ∷ xs) [] i same = elim same [ ]
  pair_at-Same (x ∷ xs) (y ∷ ys) zero (first, second, same) = (first, second)
  pair_at-Same (x ∷ xs) (y ∷ ys) (suc i) (first, second, same) = pair_at-Same xs ys i same

  -- The fit reads nothing outside its arrays, on any of its paths and in any round of its loops: of
  -- two lists of pairs of vectors that agree in the three entries of every vector, whatever stands
  -- behind those, the fitted matrices agree in their nine entries.
  pub align-Same :
      (xs ys : List (Array D × Array D)) → SamePairs xs ys → Same 9 (align xs) (align ys)
  unfolding align
  align-Same xs ys same =
      let (a0, b0) = pair_at-Same xs ys 0 same in
      let (a1, b1) = pair_at-Same xs ys 1 same in
      finish_align-Same _ _ _ _ _ _ _ _ _ _ _ _
        (ap (λ (n : ℕ). n % 2 ^ 32) (length-SamePairs xs ys same))
        (covariance-Same zeros zeros xs ys (λ i _. refl) same) a0 a1 b0 b1
