-- ===== src/Fdb/Handles.antt =====
-- Lists of allocated handles: giving one back, and how often one stands in a list.
use gyreplane.Prelude.{
  ℕ, ◌+◌, ◌≤◌, ◌<◌, ◌≡◌, refl, Option, none, some, List, [], ◌∷◌, ◌++◌, map, arith, ◌==◌,
  if◌then◌else◌, ◌>>=◌, Bool-cases, inl, inr, All, ==_iff,
}

module _ {A : Type 0} (key : A → ℕ) where
  -- The list without its first entry under that key; `none` if there is none.
  unfoldable pub remove_by : ℕ → List A → Option (List A)
  remove_by x [] = none
  remove_by x (y ∷ ys) = if x == key y then some ys else (do zs ← remove_by x ys; some (y ∷ zs))

unfoldable pub remove : ℕ → List ℕ → Option (List ℕ)
unfolding remove_by
remove = remove_by (λ x. x)

abbrev pub count : ℕ → List ℕ → ℕ
count a [] = 0
count a (x ∷ xs) = (if a == x then 1 else 0) + count a xs

pub count-append :
    (a : ℕ) (held more : List ℕ) → count a held + count a more ≡ count a (held ++ more)
count-append a [] more = omega arith
count-append a (handle ∷ held) more = omega (arith, count-append a held more)

pub count-map_middle :
    {A : Type 0} (key : A → ℕ) (a : ℕ) (w : A) (pre post : List A)
    → count a (map key (pre ++ w ∷ post))
      ≡ (if a == key w then 1 else 0) + count a (map key (pre ++ post))
count-map_middle key a w [] post = refl
count-map_middle key a w (v ∷ pre) post = omega (arith, count-map_middle key a w pre post)

-- `ys` is `xs` with one `x` taken out.
abbrev pub Without : ℕ → List ℕ → List ℕ → Type 0
Without x xs ys = (a : ℕ) → count a xs ≡ count a ys + (if a == x then 1 else 0)

Without-head : (x y : ℕ) (ys : List ℕ) → x ≡ y → Without x (y ∷ ys) ys
Without-head x y ys e a = ground arith

Without-tail : (x y : ℕ) (ys zs : List ℕ) → Without x ys zs → Without x (y ∷ ys) (y ∷ zs)
Without-tail x y ys zs h a = ground (arith, h a)

-- What is in a list can be given back, and then one less of it is left.
pub remove_of_count :
    (x : ℕ) (xs : List ℕ)
    → 0 < count x xs
    → (ys : List ℕ) × (remove x xs ≡ some ys) × Without x xs ys
unfolding remove
remove_of_count x [] h = absurd (omega arith)
remove_of_count x (y ∷ ys) h = elim (Bool-cases (x == y)) [
  | inl e ↦ (ys, rw e refl, Without-head x y ys ((==_iff x y).0 e))
  | inr ne ↦
      let (zs, found, less) = remove_of_count x ys (ground arith) in
      (y ∷ zs, rw (ne, found) refl, Without-tail x y ys zs less)
]

pub remove_head : (x : ℕ) (xs : List ℕ) → remove x (x ∷ xs) ≡ some xs
unfolding remove
remove_head x xs = ground arith

-- Handles in falling order below a bound: each was taken from the supply after those behind it.
abbrev pub Below : ℕ → List ℕ → Type 0
Below n [] = Unit {0}
Below n (x ∷ xs) = x < n × Below x xs

pub Below-weaken : (n m : ℕ) (xs : List ℕ) → n ≤ m → Below n xs → Below m xs
Below-weaken n m [] h b = tt
Below-weaken n m (x ∷ xs) h b = (omega arith, b.1)

module _ {A : Type 0} (key : A → ℕ) where
  Below-middle :
      (n : ℕ) (w : A) (pre post : List A) → Below n (map key (pre ++ w ∷ post)) → key w < n
  Below-middle n w [] post b = b.0
  Below-middle n w (v ∷ pre) post b = omega (arith, Below-middle (key v) w pre post b.1)

  pub above_middle :
      (n : ℕ) (w : A) (pre post : List A)
      → Below n (map key (pre ++ w ∷ post))
      → All (λ v. key w < key v) pre
  above_middle n w [] post b = tt
  above_middle n w (v ∷ pre) post b =
      (Below-middle (key v) w pre post b.1, above_middle (key v) w pre post b.1)

  pub Below-without :
      (n : ℕ) (w : A) (pre post : List A)
      → Below n (map key (pre ++ w ∷ post))
      → Below n (map key (pre ++ post))
  Below-without n w [] post b = Below-weaken (key w) n (map key post) (omega arith) b.1
  Below-without n w (v ∷ pre) post b = (b.0, Below-without (key v) w pre post b.1)

  -- The entry behind entries with larger keys is the one that its key finds.
  pub remove_middle :
      (w : A) (pre post : List A)
      → All (λ v. key w < key v) pre
      → remove_by key (key w) (pre ++ w ∷ post) ≡ some (pre ++ post)
  unfolding remove_by
  remove_middle w [] post h = ground arith
  remove_middle w (v ∷ pre) post h = ground (arith, remove_middle w pre post h.1)

  pub remove-map_middle :
      (w : A) (pre post : List A)
      → All (λ v. key w < key v) pre
      → remove (key w) (map key (pre ++ w ∷ post)) ≡ some (map key (pre ++ post))
  unfolding remove
  remove-map_middle w [] post h = ground arith
  remove-map_middle w (v ∷ pre) post h = ground (arith, remove-map_middle w pre post h.1)

  remove_above :
      (x : ℕ) (pre post : List A)
      → All (λ v. x < key v) pre
      → remove x (map key post) ≡ none
      → remove x (map key (pre ++ post)) ≡ none
  unfolding remove
  remove_above x [] post h e = e
  remove_above x (v ∷ pre) post h e = ground (arith, remove_above x pre post h.1 e)

  remove-Below : (x : ℕ) (post : List A) → Below x (map key post) → remove x (map key post) ≡ none
  unfolding remove
  remove-Below x [] b = refl
  remove-Below x (v ∷ post) b =
      ground (arith, remove-Below x post (Below-weaken (key v) x (map key post) (omega arith) b.1))

  Below-rest :
      (n : ℕ) (w : A) (pre post : List A)
      → Below n (map key (pre ++ w ∷ post))
      → Below (key w) (map key post)
  Below-rest n w [] post b = b.1
  Below-rest n w (v ∷ pre) post b = Below-rest (key v) w pre post b.1

  -- Once given back, a handle is in the list no more.
  pub remove_absent :
      (n : ℕ) (w : A) (pre post : List A)
      → Below n (map key (pre ++ w ∷ post))
      → remove (key w) (map key (pre ++ post)) ≡ none
  remove_absent n w pre post b =
      remove_above (key w) pre post (above_middle n w pre post b)
        (remove-Below (key w) post (Below-rest n w pre post b))
