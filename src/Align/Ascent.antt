-- ===== src/Align/Ascent.antt =====
-- The order of the eigenvalues in the fallback.
use gyreplane.Prelude.{ℕ, ◌≡◌, refl, ◌⊎◌, inl, inr, true, false, Bool-cases}
use gyreplane.Align.{Double, Array, put}
use gyreplane.Align.Kabsch.{sort_step, sorted_order}

-- The three values of an array of indices.
abbrev pub IsOrder : (a b c : ℕ) → Array ℕ → Type 0
IsOrder a b c ord = (ord 0 ≡ a) × (ord 1 ≡ b) × (ord 2 ≡ c)

-- One of the six orders of 0, 1 and 2.
abbrev pub IsPermutation : Array ℕ → Type 0
IsPermutation ord =
    IsOrder 0 1 2 ord
    ⊎ IsOrder 0 2 1 ord
    ⊎ IsOrder 1 0 2 ord
    ⊎ IsOrder 1 2 0 ord
    ⊎ IsOrder 2 0 1 ord
    ⊎ IsOrder 2 1 0 ord

module _ {D : Type 0} ⦃F : Double D⦄ where
  -- The order of the eigenvalues, all three compared: none of them is NaN.
  pub record Comparable (w : Array D) : Type 0 where
    pub asymmetric : (i j : ℕ) → F.less (w i) (w j) ≡ true → F.less (w j) (w i) ≡ false
    pub transitive :
        (i j k : ℕ)
        → F.less (w i) (w j) ≡ false
        → F.less (w j) (w k) ≡ false
        → F.less (w i) (w k) ≡ false

  -- Where the eigenvalues compare as numbers do, none of them NaN, the fallback visits each of the
  -- three once, none of them before a larger one.
  pub sorted_order-IsPermutation :
      (w : Array D)
      → Comparable w
      → IsPermutation (sorted_order w)
        × (F.less (w (sorted_order w 0)) (w (sorted_order w 1)) ≡ false)
        × (F.less (w (sorted_order w 1)) (w (sorted_order w 2)) ≡ false)
  unfolding sorted_order sort_step put
  sorted_order-IsPermutation w ok = elim (Bool-cases (F.less (w 0) (w 1))) [
    | inl first ↦ elim (Bool-cases (F.less (w 1) (w 2))) [
      | inl second ↦
          rw (first, second, first)
            (
              inr (inr (inr (inr (inr (refl, refl, refl))))),
              ok.asymmetric 1 2 second,
              ok.asymmetric 0 1 first,
            )
      | inr second ↦ elim (Bool-cases (F.less (w 0) (w 2))) [
        | inl third ↦
            rw (first, second, third)
              (inr (inr (inr (inl (refl, refl, refl)))), second, ok.asymmetric 0 2 third)
        | inr third ↦
            rw (first, second, third)
              (inr (inr (inl (refl, refl, refl))), ok.asymmetric 0 1 first, third)
      ]
    ]
    | inr first ↦ elim (Bool-cases (F.less (w 0) (w 2))) [
      | inl second ↦ elim (Bool-cases (F.less (w 1) (w 0))) [
        | inl third ↦
            rw (first, second, third)
              (inr (inr (inr (inr (inl (refl, refl, refl))))), ok.asymmetric 0 2 second, first)
        | inr third ↦
            rw (first, second, third)
              (
                inr (inr (inr (inr (inr ((refl, refl, refl)))))),
                ok.transitive 2 0 1 (ok.asymmetric 0 2 second) first,
                third,
              )
      ]
      | inr second ↦ elim (Bool-cases (F.less (w 1) (w 2))) [
        | inl third ↦
            rw (first, second, third)
              (inr (inl (refl, refl, refl)), second, ok.asymmetric 1 2 third)
        | inr third ↦ rw (first, second, third) (inl (refl, refl, refl), first, third)
      ]
    ]
  ]
