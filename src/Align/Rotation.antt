-- ===== src/Align/Rotation.antt =====
-- src/gen/sinew_align.c: the rotation of one pair of vectors, the orthogonalization, the bump for
-- matrices that are nearly singular, and the test of a rotation.
use gyreplane.Prelude.{ℕ, zero, suc, ◌+◌, ◌*◌, ◌/◌, ◌%◌, Bool, false, ◌&&◌, ◌==◌, if◌then◌else◌}
use gyreplane.Align.{
  Double, ◌⊕◌, ◌⊖◌, ◌⊗◌, ◌⊘◌, lit, Array, entries, three, sinew_eps, v3_dot, v3_cross, v3_norm,
  v3_scale, det9, mul9, gram,
}

module _ {D : Type 0} ⦃F : Double D⦄ where
  -- `d` between -1 and 1.
  abbrev pub clamped : D → D
  clamped d =
      let d = if F.less d (F.opposite (lit 1)) then F.opposite (lit 1) else d in
      if F.less (lit 1) d then lit 1 else d

  -- The half turn that takes `bu` to its opposite: about an axis at a right angle to it.
  unfoldable pub half_turn : Array D → Array D
  unfolding v3_cross v3_norm v3_scale
  half_turn bu =
      let across = F.less (F.decimal 6 1) (F.fabs (bu 0)) in
      let w = three (if across then lit 0 else lit 1) (if across then lit 1 else lit 0) (lit 0) in
      let x0 = v3_cross bu w in
      let x = v3_scale x0 (lit 1 ⊘ v3_norm x0) in
      entries λ r c. lit 2 ⊗ x r ⊗ x c ⊖ (if r == c then lit 1 else lit 0)

  -- The matrix of the cross product with `v`.
  unfoldable pub skew : Array D → Array D
  skew v i =
      three (three (lit 0) (F.opposite (v 2)) (v 1) (i % 3))
        (three (v 2) (lit 0) (F.opposite (v 0)) (i % 3))
        (three (F.opposite (v 1)) (v 0) (lit 0) (i % 3)) (i / 3)

  unfoldable pub rodrigues : Array D → Array D → Array D
  unfolding v3_norm v3_scale v3_dot v3_cross half_turn skew mul9
  rodrigues a b =
      let au = v3_scale a (lit 1 ⊘ F.fmax (v3_norm a) sinew_eps) in
      let bu = v3_scale b (lit 1 ⊘ F.fmax (v3_norm b) sinew_eps) in
      let d = clamped (v3_dot au bu) in
      if F.less d (F.opposite (lit 1) ⊕ F.decimal 1 6)
      then half_turn bu
      else (let k = skew (v3_cross bu au) in
          let kk = mul9 k k in
          let f = lit 1 ⊘ (lit 1 ⊕ d) in
          λ i. (if i % 4 == 0 then lit 1 else lit 0) ⊕ k i ⊕ f ⊗ kk i)

  abbrev pub row_abs_sum : Array D → ℕ → D
  row_abs_sum h r = F.fabs (h (r * 3)) ⊕ F.fabs (h (r * 3 + 1)) ⊕ F.fabs (h (r * 3 + 2))

  -- The largest row sum, from 0.0.
  unfoldable pub max_row_sum : Array D → D
  max_row_sum h =
      F.fmax (F.fmax (F.fmax (lit 0) (row_abs_sum h 0)) (row_abs_sum h 1)) (row_abs_sum h 2)

  -- One round of the iteration.
  unfoldable pub ns_step : Array D → Array D
  unfolding gram mul9
  ns_step r =
      let rtr = gram r in
      let rn = mul9 r (λ k. (if k % 4 == 0 then lit 3 else lit 0) ⊖ rtr k) in
      λ k. rn k ⊗ F.decimal 5 1

  unfoldable pub ns_loop : ℕ → Array D → Array D
  unfolding ns_step
  ns_loop zero r = r
  ns_loop (suc left) r = ns_loop left (ns_step r)

  -- The last column negated.
  abbrev flip_last : Array D → Array D
  flip_last r i = if i % 3 == 2 then F.opposite (r i) else r i

  unfoldable pub ns30 : Array D → Array D
  unfolding max_row_sum ns_loop det9
  ns30 h =
      let mrs = max_row_sum h in
      let r = ns_loop 30 (λ i. h i ⊘ (mrs ⊕ sinew_eps)) in
      if F.less (det9 r) (lit 0) then flip_last r else r

  unfoldable pub regularize : Array D → Array D
  unfolding max_row_sum det9
  regularize h =
      let scale = max_row_sum h in
      let scale = if F.less scale sinew_eps then sinew_eps else scale in
      let vol = F.fabs (det9 h) ⊘ (scale ⊗ scale ⊗ scale) in
      let rw = F.fmax (lit 0) (F.fmin (lit 1) ((F.decimal 1 6 ⊖ vol) ⊘ F.decimal 1 6)) in
      let bump = F.decimal 5 2 ⊗ rw ⊗ scale in λ i. if i % 4 == 0 then h i ⊕ bump else h i

  -- The largest entry of the error, from 0.0, in the order of the loops.
  abbrev pub max_error : (ℕ → D) → D
  max_error v =
      F.fmax
        (F.fmax
          (F.fmax
            (F.fmax
              (F.fmax (F.fmax (F.fmax (F.fmax (F.fmax (lit 0) (v 0)) (v 1)) (v 2)) (v 3)) (v 4))
              (v 5))
            (v 6))
          (v 7))
        (v 8)

  unfoldable pub valid9 : Array D → Bool
  unfolding det9 gram
  valid9 r =
      let d = det9 r in
      if F.less (lit 0) d && F.less_equal (F.fabs (d ⊖ lit 1)) (F.decimal 1 2)
      then F.less_equal (max_error (λ i. F.fabs (gram r i ⊖ (if i % 4 == 0 then lit 1 else lit 0))))
          (F.decimal 1 2)
      else false
