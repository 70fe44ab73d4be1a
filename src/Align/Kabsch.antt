-- ===== src/Align/Kabsch.antt =====
-- src/gen/sinew_align.c: the cyclic Jacobi iteration and the fallback that is built on it.
use gyreplane.Prelude.{ℕ, zero, suc, ◌+◌, ◌*◌, ◌/◌, ◌%◌, ◌==◌, if◌then◌else◌}
use gyreplane.Align.{
  Double, ◌⊕◌, ◌⊖◌, ◌⊗◌, ◌⊘◌, lit, Array, put, entries, three, v3_cross, det9, mul9, transpose9,
  gram,
}

-- Two entries `x` and `y` of an array, turned by the angle whose cosine and sine are `c` and `s`.
unfoldable pub turn_pair : {D : Type 0} ⦃F : Double D⦄ → (c s : D) (x y : ℕ) → Array D → Array D
unfolding put
turn_pair c s x y a =
    let ax = a x in let ay = a y in put (put a x (c ⊗ ax ⊖ s ⊗ ay)) y (s ⊗ ax ⊕ c ⊗ ay)

module _ {D : Type 0} ⦃F : Double D⦄ where
  -- The loop over the rows of two columns, and over the columns of two rows.
  unfoldable pub turn_columns : (c s : D) (p q : ℕ) → Array D → Array D
  unfolding turn_pair
  turn_columns c s p q a =
      turn_pair c s (2 * 3 + p) (2 * 3 + q)
        (turn_pair c s (1 * 3 + p) (1 * 3 + q) (turn_pair c s (0 * 3 + p) (0 * 3 + q) a))

  unfoldable pub turn_rows : (c s : D) (p q : ℕ) → Array D → Array D
  unfolding turn_pair
  turn_rows c s p q a =
      turn_pair c s (p * 3 + 2) (q * 3 + 2)
        (turn_pair c s (p * 3 + 1) (q * 3 + 1) (turn_pair c s (p * 3 + 0) (q * 3 + 0) a))

  -- One rotation of the pair of the matrix and its eigenvectors.
  unfoldable pub jacobi_turn : (p q : ℕ) → Array D × Array D → Array D × Array D
  unfolding turn_columns turn_rows
  jacobi_turn p q (a, v) =
      let apq = a (p * 3 + q) in
      if F.less (F.fabs apq) (F.decimal 1 20)
      then (a, v)
      else (let phi = F.decimal 5 1 ⊗ F.atan2 (lit 2 ⊗ apq) (a (q * 3 + q) ⊖ a (p * 3 + p)) in
          let c = F.cos phi in
          let s = F.sin phi in (turn_rows c s p q (turn_columns c s p q a), turn_columns c s p q v))

  unfoldable pub jacobi_loop : ℕ → Array D × Array D → Array D × Array D
  unfolding jacobi_turn
  jacobi_loop zero (a, v) = (a, v)
  jacobi_loop (suc left) (a, v) =
      let rest = jacobi_loop left (jacobi_turn 1 2 (jacobi_turn 0 2 (jacobi_turn 0 1 (a, v)))) in
      if F.less (F.fabs (a 1) ⊕ F.fabs (a 2) ⊕ F.fabs (a 5)) (F.decimal 1 20) then (a, v) else rest

  -- The eigenvalues, and the eigenvectors as columns.
  unfoldable pub jacobi9 : Array D → Array D × Array D
  unfolding jacobi_loop
  jacobi9 a_in =
      let (a, v) = jacobi_loop 50 (a_in, λ i. if i % 4 == 0 then lit 1 else lit 0) in
      (three (a 0) (a 4) (a 8), v)

  -- The body of the sorting loops at `a` and `b`.
  unfoldable pub sort_step : Array D → (a b : ℕ) → Array ℕ → Array ℕ
  unfolding put
  sort_step w a b ord =
      if F.less (w (ord a)) (w (ord b)) then put (put ord a (ord b)) b (ord a) else ord

  -- The indices of the eigenvalues, the largest one first.
  unfoldable pub sorted_order : Array D → Array ℕ
  unfolding sort_step
  sorted_order w = sort_step w 1 2 (sort_step w 0 2 (sort_step w 0 1 (three 0 1 2)))

  -- The loop that fills in a column of `u` whose singular value is nearly zero.
  unfoldable pub fill_column : (sig : Array D) (c : ℕ) → Array D → Array D
  unfolding v3_cross
  fill_column sig c u =
      if F.less_equal (sig c) (F.decimal 1 12)
      then (let a = (c + 1) % 3 in
          let b = (c + 2) % 3 in
          let uc =
            v3_cross (three (u a) (u (3 + a)) (u (6 + a))) (three (u b) (u (3 + b)) (u (6 + b))) in
          λ i. if i % 3 == c then uc (i / 3) else u i)
      else u

  unfoldable pub kabsch : Array D → Array D
  unfolding gram jacobi9 sorted_order fill_column transpose9 mul9 det9
  kabsch h =
      let s = gram h in
      let (w, vc) = jacobi9 s in
      let ord = sorted_order w in
      let v = entries (λ r c. vc (r * 3 + ord c)) in
      let sig : Array D = λ c. F.sqrt (F.fmax (w (ord c)) (lit 0)) in
      let sc : Array D = λ c. if F.less (F.decimal 1 12) (sig c) then lit 1 ⊘ sig c else lit 0 in
      let u =
        entries (λ r c.
          (h (r * 3) ⊗ v c ⊕ h (r * 3 + 1) ⊗ v (3 + c) ⊕ h (r * 3 + 2) ⊗ v (6 + c)) ⊗ sc c) in
      let u = fill_column sig 2 (fill_column sig 1 (fill_column sig 0 u)) in
      let vt = transpose9 v in
      let sgn = if F.less (det9 (mul9 u vt)) (lit 0) then F.opposite (lit 1) else lit 1 in
      mul9 (λ i. if i % 3 == 2 then u i ⊗ sgn else u i) vt
