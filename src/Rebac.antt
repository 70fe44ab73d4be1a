-- ===== src/Rebac.antt =====
-- src/gen/rebac.h and src/gen/rebac.c: the access check over a claim's relations.
pub mod Maximum
pub mod Check
use gyreplane.Prelude.{
  ℕ, ◌+◌, Bool, true, false, Option, none, some, List, [], ◌∷◌, leb, if◌then◌else◌,
}

-- `beyond n` is the value `n` above those that the enumerators name.
pub data RebacRelation : Type 0 where
  public instance_member friend guild_member owner : RebacRelation
  beyond : ℕ → RebacRelation

-- The value in the enum type, which `>=` compares.
abbrev pub rank : RebacRelation → ℕ
rank public = 0
rank instance_member = 1
rank friend = 2
rank guild_member = 3
rank owner = 4
rank (beyond n) = 5 + n

-- `unknown n` is a value of the enum type that no enumerator names.
pub data RebacAction : Type 0 where
  observe interact modify : RebacAction
  unknown : ℕ → RebacAction

pub action_min_relation : RebacAction → RebacRelation
action_min_relation observe = public
action_min_relation interact = instance_member
action_min_relation modify = owner
action_min_relation (unknown n) = owner

-- The body of the loop: a tie keeps the later relation.
pub max_step : RebacRelation → RebacRelation → RebacRelation
max_step best r = if leb (rank best) (rank r) then r else best

-- The loop from index 1 on, with the best relation so far.
pub max_loop : RebacRelation → List RebacRelation → RebacRelation
unfolding max_step
max_loop best [] = best
max_loop best (r ∷ rs) = max_loop (max_step best r) rs

-- An array and its count are a list; `none` is the return value false with `*out` unset.
pub max_relation : List RebacRelation → Option RebacRelation
unfolding max_loop
max_relation [] = none
max_relation (r ∷ rs) = some (max_loop r rs)

pub check : List RebacRelation → RebacAction → Bool
check relations action = elim (max_relation relations) [
  | none ↦ false
  | some max_rel ↦ leb (rank (action_min_relation action)) (rank max_rel)
]
