-- ===== src/Align/Fit.antt =====
-- src/gen/sinew_align.c: the fit of a rotation to pairs of vectors.
use gyreplane.Prelude.{
  ℕ, zero, suc, ◌/◌, ◌%◌, ◌^◌, ◌&&◌, ◌==◌, if◌then◌else◌, List, [], ◌∷◌, length,
}
use gyreplane.Align.{Double, ◌⊕◌, ◌⊗◌, ◌⊘◌, lit, Array, sinew_eps, v3_cross, v3_norm, v3_scale}
use gyreplane.Align.Rotation.{rodrigues, ns30, regularize, valid9}
use gyreplane.Align.Kabsch.{kabsch}

module _ {D : Type 0} ⦃F : Double D⦄ where
  -- The matrix plus the product of a column and a row.
  unfoldable pub add_outer : Array D → Array D → Array D → Array D
  add_outer h a b i = h i ⊕ a (i / 3) ⊗ b (i % 3)

  -- The matrix with the normals of the first two pairs, where neither pair is nearly parallel.
  unfoldable pub with_normals : Array D → (a0 a1 b0 b1 : Array D) → Array D
  unfolding v3_cross v3_norm v3_scale add_outer
  with_normals h a0 a1 b0 b1 =
      let ns = v3_cross a0 a1 in
      let nd = v3_cross b0 b1 in
      let ln = v3_norm ns in
      let ld = v3_norm nd in
      if F.less (F.decimal 1 9) ln && F.less (F.decimal 1 9) ld
      then add_outer h (v3_scale ns (v3_norm a0 ⊘ (ln ⊕ sinew_eps)))
          (v3_scale nd (v3_norm b0 ⊘ (ld ⊕ sinew_eps)))
      else h

  unfoldable pub finish_align : Array D → ℕ → (a0 a1 b0 b1 : Array D) → Array D
  finish_align h_in n a0 a1 b0 b1 =
      if n == 1
      then rodrigues a0 b0
      else (let h_reg = regularize (with_normals h_in a0 a1 b0 b1) in
          let r = ns30 h_reg in if valid9 r then r else kabsch h_reg)

  -- The loop over the pairs of a target and a source.
  unfoldable pub covariance : Array D → List (Array D × Array D) → Array D
  unfolding add_outer
  covariance h [] = h
  covariance h (pair ∷ pairs) = covariance (add_outer h pair.0 pair.1) pairs

  abbrev pub zeros : Array D
  zeros i = lit 0

  -- The pair at an index, or zeros past the end.
  unfoldable pub pair_at : List (Array D × Array D) → ℕ → Array D × Array D
  pair_at [] i = (zeros, zeros)
  pair_at (pair ∷ pairs) zero = pair
  pair_at (pair ∷ pairs) (suc i) = pair_at pairs i

  -- The two arrays and their count are a list of pairs. The count is cut to an `int`.
  unfoldable pub align : List (Array D × Array D) → Array D
  unfolding covariance pair_at finish_align
  align pairs =
      finish_align (covariance zeros pairs) (length pairs % 2 ^ 32) (pair_at pairs 0).0
        (pair_at pairs 1).0 (pair_at pairs 0).1 (pair_at pairs 1).1
