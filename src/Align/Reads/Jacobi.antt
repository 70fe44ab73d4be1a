-- ===== src/Align/Reads/Jacobi.antt =====
-- The Jacobi iteration reads only the nine entries of its matrix.
use gyreplane.Prelude.{
  ℕ, zero, suc, ◌+◌, ◌*◌, ◌<◌, ◌≡◌, refl, ap, ap₂, Bool, true, false, ◌==◌, if◌then◌else◌, arith,
  Bool-cases, inl, inr,
}
use gyreplane.Align.{Double, ◌⊗◌, lit, Array, put, three}
use gyreplane.Align.Kabsch.{turn_pair, turn_columns, turn_rows, jacobi_turn, jacobi_loop, jacobi9}
use gyreplane.Align.Reads.{Same}

-- A write.
put-Same :
    {A : Type 0} (n : ℕ) (a a' : Array A) (i : ℕ) (x x' : A)
    → Same n a a'
    → x ≡ x'
    → Same n (put a i x) (put a' i x')
unfolding put
put-Same n a a' i x x' p e j small = elim (Bool-cases (j == i)) [
  | inl here ↦ rw here e
  | inr there ↦ rw there (p j small)
]

module _ {D : Type 0} ⦃F : Double D⦄ where
  -- Two pairs of matrices.
  abbrev SameBoth : Array D × Array D → Array D × Array D → Type 0
  SameBoth m m' = Same 9 m.0 m'.0 × Same 9 m.1 m'.1

  turn_pair-Same :
      (c c' s s' : D) (x y : ℕ) (a a' : Array D)
      → c ≡ c'
      → s ≡ s'
      → x < 9
      → y < 9
      → Same 9 a a'
      → Same 9 (turn_pair c s x y a) (turn_pair c' s' x y a')
  unfolding turn_pair
  turn_pair-Same c c' s s' x y a a' e f x_in y_in p =
      put-Same 9 _ _ y _ _
        (put-Same 9 a a' x _ _ p (ap₂ F.sub (ap₂ F.mul e (p x x_in)) (ap₂ F.mul f (p y y_in))))
        (ap₂ F.add (ap₂ F.mul f (p x x_in)) (ap₂ F.mul e (p y y_in)))

  module _ (c c' s s' : D) (p q : ℕ) (e : c ≡ c') (f : s ≡ s') (p_in : p < 3) (q_in : q < 3) where
    turn_columns-Same :
        (a a' : Array D) → Same 9 a a' → Same 9 (turn_columns c s p q a) (turn_columns c' s' p q a')
    unfolding turn_columns
    turn_columns-Same a a' same =
        turn_pair-Same c c' s s' (2 * 3 + p) (2 * 3 + q) _ _ e f (omega arith) (omega arith) (
          turn_pair-Same c c' s s' (1 * 3 + p) (1 * 3 + q) _ _ e f (omega arith) (omega arith) (
            turn_pair-Same c c' s s' (0 * 3 + p) (0 * 3 + q) _ _ e f (omega arith) (omega arith)
              same))

    turn_rows-Same :
        (a a' : Array D) → Same 9 a a' → Same 9 (turn_rows c s p q a) (turn_rows c' s' p q a')
    unfolding turn_rows
    turn_rows-Same a a' same =
        turn_pair-Same c c' s s' (p * 3 + 2) (q * 3 + 2) _ _ e f (omega arith) (omega arith) (
          turn_pair-Same c c' s s' (p * 3 + 1) (q * 3 + 1) _ _ e f (omega arith) (omega arith) (
            turn_pair-Same c c' s s' (p * 3 + 0) (q * 3 + 0) _ _ e f (omega arith) (omega arith)
              same))

  if-SameBoth :
      (b c : Bool) (x x' y y' : Array D × Array D)
      → b ≡ c
      → SameBoth x x'
      → SameBoth y y'
      → SameBoth (if b then x else y) (if c then x' else y')
  if-SameBoth b c x x' y y' e p q = rw e (chosen c)
    where
      chosen : (c : Bool) → SameBoth (if c then x else y) (if c then x' else y')
      chosen true = p
      chosen false = q

  jacobi_turn-Same :
      (p q : ℕ) (m m' : Array D × Array D)
      → p < 3
      → q < 3
      → SameBoth m m'
      → SameBoth (jacobi_turn p q m) (jacobi_turn p q m')
  unfolding jacobi_turn
  jacobi_turn-Same p q (a, v) (a', v') p_in q_in (same_a, same_v) =
      let apq = same_a (p * 3 + q) (omega arith) in
      let phi =
        ap₂ (λ x y. F.decimal 5 1 ⊗ F.atan2 (lit 2 ⊗ x) y) apq
          (ap₂ F.sub (same_a (q * 3 + q) (omega arith)) (same_a (p * 3 + p) (omega arith))) in
      let c = ap F.cos phi in
      let s = ap F.sin phi in
      if-SameBoth _ _ _ _ _ _ (ap (λ x. F.less (F.fabs x) (F.decimal 1 20)) apq) (same_a, same_v)
        (
          turn_rows-Same _ _ _ _ p q c s p_in q_in _ _
              (turn_columns-Same _ _ _ _ p q c s p_in q_in a a' same_a),
          turn_columns-Same _ _ _ _ p q c s p_in q_in v v' same_v,
        )

  jacobi_loop-Same :
      (left : ℕ) (m m' : Array D × Array D)
      → SameBoth m m'
      → SameBoth (jacobi_loop left m) (jacobi_loop left m')
  unfolding jacobi_loop
  jacobi_loop-Same zero (a, v) (a', v') same = same
  jacobi_loop-Same (suc left) (a, v) (a', v') same =
      let small =
        ap₂ F.add
          (ap₂ F.add (ap F.fabs (same.0 1 (omega arith))) (ap F.fabs (same.0 2 (omega arith))))
          (ap F.fabs (same.0 5 (omega arith))) in
      if-SameBoth _ _ _ _ _ _ (ap (λ x. F.less x (F.decimal 1 20)) small) same (
        jacobi_loop-Same left _ _ (
          jacobi_turn-Same 1 2 _ _ (omega arith) (omega arith) (
            jacobi_turn-Same 0 2 _ _ (omega arith) (omega arith)
              (jacobi_turn-Same 0 1 (a, v) (a', v') (omega arith) (omega arith) same))))

  pub jacobi9-Same :
      (a a' : Array D)
      → Same 9 a a'
      → ((jacobi9 a).0 ≡ (jacobi9 a').0) × Same 9 (jacobi9 a).1 (jacobi9 a').1
  unfolding jacobi9
  jacobi9-Same a a' same =
      let (turned, vectors) = jacobi_loop-Same 50 (a, _) (a', _) (same, λ i small. refl) in
      (
        ap₂ (λ (x : D) (yz : D × D). three x yz.0 yz.1) (turned 0 (omega arith))
            (λ i. (turned 4 (omega arith) i, turned 8 (omega arith) i)),
        vectors,
      )
