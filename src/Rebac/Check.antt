-- ===== src/Rebac/Check.antt =====
-- `rebac_check` against what a claim grants, whatever the order of its relations.
use mathlib.Core.List.{Mem, Mem-prop, Perm, mem-cons, not-mem-nil}
use mathlib.Core.Logic.Or
use mathlib.Core.List.Perm
use mathlib.Core.Logic.{∥∥₁_elim, ∥∥₁_map}
use native.Mathlib.Nat.{le_trans}
use gyreplane.Prelude.{
  ℕ, ◌≤◌, ◌≡◌, refl, sym, subst, ◌∙◌, ◌↔◌, inl, inr, Bool, true, false, none, some, List, [], ◌∷◌,
  arith, leb, leb→le, le→leb,
}
use gyreplane.Rebac.{
  RebacRelation, public, instance_member, friend, guild_member, owner, beyond, RebacAction, observe,
  interact, modify, unknown, rank, action_min_relation, check, max_relation,
}
use gyreplane.Rebac.Maximum.{max_relation_greatest, Dominates-mem}

-- Some relation of the claim reaches the least one that the action wants.
abbrev pub Grants : List RebacRelation → RebacAction → Type 0
Grants rs a = ∥ ((r : RebacRelation) × Mem r rs × (rank (action_min_relation a) ≤ rank r)) ∥₁

check-none :
    (rs : List RebacRelation) (a : RebacAction) → max_relation rs ≡ none → check rs a ≡ false
unfolding check
check-none rs a e = rw (e, check)

check-some :
    (rs : List RebacRelation) (a : RebacAction) {top : RebacRelation}
    → max_relation rs ≡ some top
    → check rs a ≡ leb (rank (action_min_relation a)) (rank top)
unfolding check
check-some rs a e = rw (e, check)

granted : (rs : List RebacRelation) (a : RebacAction) → check rs a ≡ true → Grants rs a
granted rs a h = elim (max_relation_greatest rs) [
  | inl (empty, unset) ↦ absurd (cc (check-none rs a unset))
  | inr (top, is_max, held, upper) ↦ ∣ (top, held, leb→le _ _ (sym (check-some rs a is_max) ∙ h)) ∣₁
]

grants : (rs : List RebacRelation) (a : RebacAction) → Grants rs a → check rs a ≡ true
grants rs a g = elim (max_relation_greatest rs) [
  | inl (empty, unset) ↦
      ∥∥₁_elim g (hlevel) λ (r, m, reaches). absurd (not-mem-nil (subst (Mem r) empty m))
  | inr (top, is_max, held, upper) ↦ ∥∥₁_elim g (hlevel) λ (r, m, reaches).
      check-some rs a is_max ∙ le→leb _ _ (le_trans reaches (Dominates-mem top rs upper m))
]

-- The check grants an action exactly when some relation of the claim has at least the rank of the
-- least relation that the action wants.
pub check-Grants_iff :
    (rs : List RebacRelation) (a : RebacAction) → (check rs a ≡ true) ↔ Grants rs a
check-Grants_iff rs a = (granted rs a, grants rs a)

same_truth : (b c : Bool) → (b ≡ true → c ≡ true) → (c ≡ true → b ≡ true) → b ≡ c
same_truth true c f g = ground arith
same_truth false c f g = ground arith

-- The order of the relations in a claim, and how often each is listed, do not matter: claims with
-- the same relations get the same answer for every action.
pub check_same_relations :
    (rs ss : List RebacRelation) (a : RebacAction)
    → ((r : RebacRelation) → Mem r rs ↔ Mem r ss)
    → check rs a ≡ check ss a
check_same_relations rs ss a same =
    same_truth (check rs a) (check ss a)
      (λ h. grants ss a (∥∥₁_map (granted rs a h) λ (r, m, q). (r, (same r).0 m, q)))
      (λ h. grants rs a (∥∥₁_map (granted ss a h) λ (r, m, q). (r, (same r).1 m, q)))

pub check-perm :
    (rs ss : List RebacRelation) (a : RebacAction) → Perm rs ss → check rs a ≡ check ss a
check-perm rs ss a p = check_same_relations rs ss a (λ r. Perm.mem_iff p)

owner_top : (r : RebacRelation) → rank r ≡ rank owner → r ≡ owner
owner_top public h = absurd (omega arith)
owner_top instance_member h = absurd (omega arith)
owner_top friend h = absurd (omega arith)
owner_top guild_member h = absurd (omega arith)
owner_top owner h = refl
owner_top (beyond n) h = absurd (omega arith)

-- If no relation of a claim has a value above those that are named, it may modify only if it holds
-- the owner relation; and an action that no enumerator names is always answered as modify is.
pub check-owner_only :
    (rs : List RebacRelation) (n : ℕ)
    → (((r : RebacRelation) → Mem r rs → rank r ≤ rank owner)
        → (check rs modify ≡ true) ↔ Mem owner rs)
      × (check rs (unknown n) ≡ check rs modify)
unfolding check action_min_relation
check-owner_only rs n = (
  λ named. (
    λ h.
        ∥∥₁_elim (granted rs modify h) Mem-prop
          λ (r, m, top). subst (λ x. Mem x rs) (owner_top r (omega (arith, named r m, top))) m,
    λ m. grants rs modify ∣ (owner, m, omega arith) ∣₁,
  ),
  refl,
)

-- Whoever may do an action may do every action that wants no higher relation: modify implies
-- interact, and interact implies observe. Exactly the empty claim may not observe.
pub check_ladder :
    (rs : List RebacRelation)
    → (check rs modify ≡ true → check rs interact ≡ true)
      × (check rs interact ≡ true → check rs observe ≡ true)
      × ((check rs observe ≡ false) ↔ (rs ≡ []))
unfolding check action_min_relation max_relation
check_ladder rs = (
  λ h. grants rs interact (∥∥₁_map (granted rs modify h) λ (r, m, q). (r, m, omega arith)),
  λ h. grants rs observe (∥∥₁_map (granted rs interact h) λ (r, m, q). (r, m, omega arith)),
  (unseen rs, λ e. rw e refl),
)
  where
    unseen : (rs : List RebacRelation) → check rs observe ≡ false → rs ≡ []
    unseen [] h = refl
    unseen (r ∷ rs) h =
        absurd (cc (h, grants (r ∷ rs) observe ∣ (r, mem-cons.1 (Or.inl refl), omega arith) ∣₁))
