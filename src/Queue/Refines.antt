-- ===== src/Queue/Refines.antt =====
-- The queue against a list: first in, first out.
use gyreplane.Prelude.{ℕ, ◌≡◌, refl, ap, ap₂, Bool, true, false, ◌==◌, List, [], ◌∷◌, ◌++◌}
use gyreplane.Queue.{Queue, queue_init, queue_push, queue_pop, queue_is_empty}
use gyreplane.Queue.Chain.{
  Absent, Holds, queue_init-Holds, queue_push-Holds, queue_pop-Holds, first, rest,
}

pub data QueueOp : Type 0 where
  push : ℕ → QueueOp
  pop is_empty : QueueOp

-- What an operation returns: nothing, a node or NULL, or a truth value.
pub data Output : Type 0 where
  nothing : Output
  node : ℕ → Output
  answer : Bool → Output

pub run : List QueueOp → Queue → List Output
run [] q = []
run (push x ∷ ops) q = nothing ∷ run ops (queue_push x q)
run (pop ∷ ops) q = node (queue_pop q).0 ∷ run ops (queue_pop q).1
run (is_empty ∷ ops) q = answer (queue_is_empty q) ∷ run ops q

abbrev is_nil : List ℕ → Bool
is_nil [] = true
is_nil (x ∷ xs) = false

-- The same on a list: a push appends, a pop takes the head.
pub run_list : List QueueOp → List ℕ → List Output
run_list [] xs = []
run_list (push x ∷ ops) xs = nothing ∷ run_list ops (xs ++ x ∷ [])
run_list (pop ∷ ops) xs = node (first xs) ∷ run_list ops (rest xs)
run_list (is_empty ∷ ops) xs = answer (is_nil xs) ∷ run_list ops xs

-- A node is pushed only while it is not in the queue, and it is not NULL.
abbrev pub Admissible : List QueueOp → List ℕ → Type 0
Admissible [] xs = Unit {0}
Admissible (push x ∷ ops) xs = ((x == 0) ≡ false) × Absent x xs × Admissible ops (xs ++ x ∷ [])
Admissible (pop ∷ ops) xs = Admissible ops (rest xs)
Admissible (is_empty ∷ ops) xs = Admissible ops xs

is_empty-Holds : (xs : List ℕ) (q : Queue) → Holds q xs → queue_is_empty q ≡ is_nil xs
unfolding queue_is_empty
is_empty-Holds [] q ok = rw ok.chain refl
is_empty-Holds (x ∷ xs) q ok = rw ok.chain.0 ok.chain.1

run-list :
    (ops : List QueueOp) (xs : List ℕ) (q : Queue)
    → Admissible ops xs
    → Holds q xs
    → run ops q ≡ run_list ops xs
unfolding run run_list
run-list [] xs q can ok = refl
run-list (push x ∷ ops) xs q can ok =
    ap (λ os. nothing ∷ os)
      (run-list ops (xs ++ x ∷ []) (queue_push x q) can.2 (queue_push-Holds x xs q can.0 can.1 ok))
run-list (pop ∷ ops) xs q can ok =
    let (same, ok') = queue_pop-Holds xs q ok in
    ap₂ (λ n os. node n ∷ os) same (run-list ops (rest xs) (queue_pop q).1 can ok')
run-list (is_empty ∷ ops) xs q can ok =
    ap₂ (λ b os. answer b ∷ os) (is_empty-Holds xs q ok) (run-list ops xs q can ok)

-- From `queue_init` on, in any sequence of operations that pushes a node only while it is outside
-- of the queue and not NULL, each pop returns the node that was pushed first of those left, or NULL
-- if none is, and `queue_is_empty` tells whether any is: the queue behaves as a list does.
pub run-run_list :
    (ops : List QueueOp) (q : Queue) → Admissible ops [] → run ops (queue_init q) ≡ run_list ops []
run-run_list ops q can = run-list ops [] (queue_init q) can (queue_init-Holds q)
