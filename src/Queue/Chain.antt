-- ===== src/Queue/Chain.antt =====
-- The nodes of a queue as a list, and what each operation does to it.
use gyreplane.Prelude.{ℕ, ◌≡◌, refl, ap, sym, false, ◌==◌, List, [], ◌∷◌, ◌++◌, All, arith}
use gyreplane.Queue.{
  Slot, head_slot, next_slot, Queue, set_link, store, queue_init, queue_push, queue_pop,
}

abbrev pub Absent : ℕ → List ℕ → Type 0
Absent x = All (λ y. (x == y) ≡ false)

-- From `p` on the links go through these nodes, each of them once, to NULL.
abbrev pub Chain : (ℕ → ℕ) → ℕ → List ℕ → Type 0
Chain links p [] = p ≡ 0
Chain links p (x ∷ xs) = (p ≡ x) × ((x == 0) ≡ false) × Absent x xs × Chain links (links x) xs

abbrev pub last : ℕ → List ℕ → ℕ
last x [] = x
last x (y ∷ ys) = last y ys

-- Where the next node goes.
abbrev pub end_slot : List ℕ → Slot
end_slot [] = head_slot
end_slot (x ∷ xs) = next_slot (last x xs)

pub record Holds (q : Queue) (xs : List ℕ) : Type 0 where
  pub chain : Chain q.links q.head xs
  pub tail : q.tail ≡ end_slot xs

not_last : (x y : ℕ) (ys : List ℕ) → Absent x (y ∷ ys) → (x == last y ys) ≡ false
not_last x y [] h = h.0
not_last x y (z ∷ zs) h = not_last x z zs h.1

pub Absent-append :
    (x y : ℕ) (xs : List ℕ) → Absent x xs → (x == y) ≡ false → Absent x (xs ++ y ∷ [])
Absent-append x y [] h e = (e, tt)
Absent-append x y (z ∷ xs) h e = (h.0, Absent-append x y xs h.1 e)

apart : (x y : ℕ) → (x == y) ≡ false → (y == x) ≡ false
apart x y e = ground arith

last-append : (x y : ℕ) (xs : List ℕ) → last x (xs ++ y ∷ []) ≡ y
last-append x y [] = refl
last-append x y (z ∷ xs) = last-append z y xs

-- The links of a queue with a node `y` in it, after a push of `x`.
pushed-Chain :
    (links : ℕ → ℕ) (x y : ℕ) (ys : List ℕ)
    → (x == 0) ≡ false
    → Absent x (y ∷ ys)
    → Absent y ys
    → Chain links (links y) ys
    → let new = set_link (last y ys) x (set_link x 0 links) in Chain new (new y) (ys ++ x ∷ [])
unfolding set_link
pushed-Chain links x y [] named new_x new_y chain = (ground arith, named, tt, ground arith)
pushed-Chain links x y (z ∷ zs) named new_x new_y chain = (
  rw (not_last y z zs new_y, apart x y new_x.0) chain.0,
  chain.1,
  Absent-append z x zs chain.2 (apart x z new_x.1.0),
  pushed-Chain links x z zs named new_x.1 chain.2 chain.3,
)

pub queue_init-Holds : (q : Queue) → Holds (queue_init q) []
unfolding queue_init
queue_init-Holds q = record { chain = refl; tail = refl }

pub queue_push-Holds :
    (x : ℕ) (xs : List ℕ) (q : Queue)
    → (x == 0) ≡ false
    → Absent x xs
    → Holds q xs
    → Holds (queue_push x q) (xs ++ x ∷ [])
unfolding queue_push store set_link
queue_push-Holds x [] q named new ok =
    rw ok.tail (record { chain = (refl, named, tt, ground arith); tail = refl })
queue_push-Holds x (y ∷ ys) q named new ok = rw ok.tail (record {
  chain = (
    ok.chain.0,
    ok.chain.1,
    Absent-append y x ys ok.chain.2 (apart x y new.0),
    pushed-Chain q.links x y ys named new ok.chain.2 ok.chain.3,
  );
  tail = ap next_slot (sym (last-append y x ys));
})

-- The list without its first node.
abbrev pub rest : List ℕ → List ℕ
rest [] = []
rest (x ∷ xs) = xs

-- Its first node, or NULL.
abbrev pub first : List ℕ → ℕ
first [] = 0
first (x ∷ xs) = x

pub queue_pop-Holds :
    (xs : List ℕ) (q : Queue)
    → Holds q xs
    → ((queue_pop q).0 ≡ first xs) × Holds (queue_pop q).1 (rest xs)
unfolding queue_pop
queue_pop-Holds [] q ok = rw ok.chain (refl, record { chain = refl; tail = ok.tail })
queue_pop-Holds (x ∷ []) q ok =
    rw (ok.chain.0, ok.chain.1, ok.chain.3) (refl, record { chain = refl; tail = refl })
queue_pop-Holds (x ∷ y ∷ ys) q ok =
    rw (ok.chain.0, ok.chain.1, ok.chain.3.0, ok.chain.3.1)
      (refl, record { chain = (refl, ok.chain.3.1, ok.chain.3.2, ok.chain.3.3); tail = ok.tail })
