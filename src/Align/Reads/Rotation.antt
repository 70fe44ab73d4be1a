-- ===== src/Align/Reads/Rotation.antt =====
-- The fit of one pair, the orthogonalization, the bump and the test read only their arrays' entries.
use gyreplane.Prelude.{
  ℕ, zero, suc, ◌%◌, ◌<◌, ◌≡◌, ap, ap₂, Bool, true, false, ◌==◌, ◌&&◌, if◌then◌else◌, arith,
}
use gyreplane.Align.{
  Double, ◌⊕◌, ◌⊖◌, ◌⊗◌, ◌⊘◌, lit, Array, entries, three, sinew_eps, v3_norm, v3_scale, mul9,
}
use gyreplane.Align.Rotation.{
  clamped, max_error, half_turn, skew, rodrigues, row_abs_sum, max_row_sum, ns_step, ns_loop, ns30,
  regularize, valid9,
}
use gyreplane.Align.Reads.{
  Same, v3_dot-Same, v3_cross-Same, v3_norm-Same, v3_scale-Same, det9-Same, mul9-Same, gram-Same,
}

-- Two branches that agree under tests that agree.
pub if-Same :
    {A : Type 0} (n : ℕ) (b c : Bool) (x x' y y' : Array A)
    → b ≡ c
    → Same n x x'
    → Same n y y'
    → Same n (if b then x else y) (if c then x' else y')
if-Same n b c x x' y y' e p q = rw e (chosen c)
  where
    chosen : (c : Bool) → Same n (if c then x else y) (if c then x' else y')
    chosen true = p
    chosen false = q

module _ {D : Type 0} ⦃F : Double D⦄ where
  -- The vector that the half turn takes the cross product with, by the first entry.
  abbrev beside : D → Array D
  beside x =
      let across = F.less (F.decimal 6 1) (F.fabs x) in
      three (if across then lit 0 else lit 1) (if across then lit 1 else lit 0) (lit 0)

  half_turn-Same : (b b' : Array D) → Same 3 b b' → half_turn b ≡ half_turn b'
  unfolding half_turn
  half_turn-Same b b' p =
      ap
        (λ (x0 : Array D).
          let x = v3_scale x0 (lit 1 ⊘ v3_norm x0) in
          entries λ r c. lit 2 ⊗ x r ⊗ x c ⊖ (if r == c then lit 1 else lit 0))
        (v3_cross-Same b b' (beside (b 0)) (beside (b' 0)) p
          (λ i h. ap (λ x. beside x i) (p 0 (omega arith))))

  pub rodrigues-Same :
      (a a' b b' : Array D) → Same 3 a a' → Same 3 b b' → Same 9 (rodrigues a b) (rodrigues a' b')
  unfolding rodrigues
  rodrigues-Same a a' b b' p q =
      let unit = λ (v : Array D). v3_scale v (lit 1 ⊘ F.fmax (v3_norm v) sinew_eps) in
      let au =
        v3_scale-Same a a' _ _ p (ap (λ n. lit 1 ⊘ F.fmax n sinew_eps) (v3_norm-Same a a' p)) in
      let bu =
        v3_scale-Same b b' _ _ q (ap (λ n. lit 1 ⊘ F.fmax n sinew_eps) (v3_norm-Same b b' q)) in
      let d = ap clamped (v3_dot-Same (unit a) (unit a') (unit b) (unit b') au bu) in
      let across = v3_cross-Same (unit b) (unit b') (unit a) (unit a') bu au in
      let turned = half_turn-Same (unit b) (unit b') bu in
      if-Same 9 _ _ _ _ _ _ (ap (λ x. F.less x (F.opposite (lit 1) ⊕ F.decimal 1 6)) d)
        (λ i h. ap (λ (m : Array D). m i) turned)
        (λ i h.
          ap₂
            (λ (v : Array D) (x : D).
              (if i % 4 == 0 then lit 1 else lit 0)
              ⊕ skew v i
              ⊕ (lit 1 ⊘ (lit 1 ⊕ x)) ⊗ mul9 (skew v) (skew v) i)
            across d)

  row_abs_sum-Same :
      (h h' : Array D) (r : ℕ) → Same 9 h h' → r < 3 → row_abs_sum h r ≡ row_abs_sum h' r
  row_abs_sum-Same h h' r p small =
      ap₂ F.add (ap₂ F.add (ap F.fabs (p _ (omega arith))) (ap F.fabs (p _ (omega arith))))
        (ap F.fabs (p _ (omega arith)))

  max_row_sum-Same : (h h' : Array D) → Same 9 h h' → max_row_sum h ≡ max_row_sum h'
  unfolding max_row_sum
  max_row_sum-Same h h' p =
      ap₂ F.fmax
        (ap₂ F.fmax (ap (F.fmax (lit 0)) (row_abs_sum-Same h h' 0 p (omega arith)))
          (row_abs_sum-Same h h' 1 p (omega arith)))
        (row_abs_sum-Same h h' 2 p (omega arith))

  ns_step-Same : (r r' : Array D) → Same 9 r r' → Same 9 (ns_step r) (ns_step r')
  unfolding ns_step
  ns_step-Same r r' p i h =
      ap (λ x. x ⊗ F.decimal 5 1)
        (mul9-Same r r' _ _ p
          (λ k small.
            ap (λ x. (if k % 4 == 0 then lit 3 else lit 0) ⊖ x) (gram-Same r r' p k small))
          i h)

  ns_loop-Same :
      (left : ℕ) (r r' : Array D) → Same 9 r r' → Same 9 (ns_loop left r) (ns_loop left r')
  unfolding ns_loop
  ns_loop-Same zero r r' p = p
  ns_loop-Same (suc left) r r' p = ns_loop-Same left (ns_step r) (ns_step r') (ns_step-Same r r' p)

  pub ns30-Same : (h h' : Array D) → Same 9 h h' → Same 9 (ns30 h) (ns30 h')
  unfolding ns30
  ns30-Same h h' p =
      let mrs = max_row_sum-Same h h' p in
      let r =
        ns_loop-Same 30 (λ i. h i ⊘ (max_row_sum h ⊕ sinew_eps))
          (λ i. h' i ⊘ (max_row_sum h' ⊕ sinew_eps))
          (λ i small. ap₂ (λ x m. x ⊘ (m ⊕ sinew_eps)) (p i small) mrs) in
      if-Same 9 _ _ _ _ _ _ (ap (λ x. F.less x (lit 0)) (det9-Same _ _ r))
        (λ i small. ap (λ x. if i % 3 == 2 then F.opposite x else x) (r i small)) r

  pub regularize-Same : (h h' : Array D) → Same 9 h h' → Same 9 (regularize h) (regularize h')
  unfolding regularize
  regularize-Same h h' p i small =
      ap₂
        (λ (x : D) (sums : D × D).
          let scale = if F.less sums.0 sinew_eps then sinew_eps else sums.0 in
          let vol = F.fabs sums.1 ⊘ (scale ⊗ scale ⊗ scale) in
          let weight = F.fmax (lit 0) (F.fmin (lit 1) ((F.decimal 1 6 ⊖ vol) ⊘ F.decimal 1 6)) in
          if i % 4 == 0 then x ⊕ F.decimal 5 2 ⊗ weight ⊗ scale else x)
        (p i small) (λ j. (max_row_sum-Same h h' p j, det9-Same h h' p j))

  max_error-Same : (v v' : ℕ → D) → Same 9 v v' → max_error v ≡ max_error v'
  max_error-Same v v' p =
      let up_to_4 =
        ap₂ F.fmax
          (ap₂ F.fmax
            (ap₂ F.fmax (ap₂ F.fmax (ap (F.fmax (lit 0)) (p 0 (omega arith))) (p 1 (omega arith)))
              (p 2 (omega arith)))
            (p 3 (omega arith)))
          (p 4 (omega arith)) in
      ap₂ F.fmax
        (ap₂ F.fmax (ap₂ F.fmax (ap₂ F.fmax up_to_4 (p 5 (omega arith))) (p 6 (omega arith)))
          (p 7 (omega arith)))
        (p 8 (omega arith))

  pub valid9-Same : (r r' : Array D) → Same 9 r r' → valid9 r ≡ valid9 r'
  unfolding valid9
  valid9-Same r r' p =
      ap₂
        (λ (d e : D).
          if F.less (lit 0) d && F.less_equal (F.fabs (d ⊖ lit 1)) (F.decimal 1 2)
          then F.less_equal e (F.decimal 1 2)
          else false)
        (det9-Same r r' p)
        (max_error-Same _ _ (λ i small.
          ap (λ x. F.fabs (x ⊖ (if i % 4 == 0 then lit 1 else lit 0))) (gram-Same r r' p i small)))
