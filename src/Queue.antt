-- ===== src/Queue.antt =====
-- src/list.h: the intrusive queue. A node is its address, which is not 0 (NULL); its `next` field is
-- read and written in a memory of its own.
pub mod Chain
pub mod Refines
use gyreplane.Prelude.{ℕ, Bool, ◌==◌, if◌then◌else◌}

-- What `list_t **tail` points to.
pub data Slot : Type 0 where
  head_slot : Slot
  next_slot : ℕ → Slot

-- `queue_t` and the `next` field of every node.
pub record Queue : Type 0 where
  pub head : ℕ
  pub tail : Slot
  pub links : ℕ → ℕ

-- The memory after `node->next = target`.
unfoldable pub set_link : ℕ → ℕ → (ℕ → ℕ) → ℕ → ℕ
set_link node target links a = if a == node then target else links a

unfoldable pub queue_init : Queue → Queue
queue_init q = record q { head = 0; tail = head_slot }

-- `*slot = node`.
unfoldable pub store : Slot → ℕ → Queue → Queue
store head_slot node q = record q { head = node }
store (next_slot p) node q = record q { links = set_link p node q.links }

unfoldable pub queue_push : ℕ → Queue → Queue
unfolding set_link store
queue_push node q =
    let q = record q { links = set_link node 0 q.links } in
    let q = store q.tail node q in record q { tail = next_slot node }

-- The node, or 0, and the queue without it.
unfoldable pub queue_pop : Queue → ℕ × Queue
queue_pop q =
    let node = q.head in
    if node == 0
    then (node, q)
    else (let q = record q { head = q.links node } in
        (node, if q.head == 0 then record q { tail = head_slot } else q))

unfoldable pub queue_is_empty : Queue → Bool
queue_is_empty q = q.head == 0
