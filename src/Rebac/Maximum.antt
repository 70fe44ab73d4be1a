-- ===== src/Rebac/Maximum.antt =====
-- `rebac_max_relation` against the order of the ranks.
use mathlib.Core.List.{Mem, Mem-prop, mem-cons, not-mem-nil}
use mathlib.Core.Logic.Or
use native.Mathlib.Bridge.{le_prop}
use gyreplane.Prelude.{◌≤◌, ◌≡◌, refl, ◌⊎◌, inl, inr, none, some, List, [], ◌∷◌, arith, All}
use gyreplane.Rebac.{RebacRelation, rank, max_step, max_loop, max_relation}

abbrev pub Dominates : RebacRelation → List RebacRelation → Type 0
Dominates top = All (λ r. rank r ≤ rank top)

max_step_cases : (best r : RebacRelation) → (max_step best r ≡ best) ⊎ (max_step best r ≡ r)
unfolding max_step
max_step_cases best r = ground arith

max_step_upper :
    (best r : RebacRelation)
    → (rank best ≤ rank (max_step best r)) × (rank r ≤ rank (max_step best r))
unfolding max_step
max_step_upper best r = ground arith

max_loop-mem : (best : RebacRelation) (rs : List RebacRelation) → Mem (max_loop best rs) (best ∷ rs)
unfolding max_loop
max_loop-mem best [] = mem-cons.1 (Or.inl refl)
max_loop-mem best (r ∷ rs) =
    Or.elim Mem-prop (mem-cons.0 (max_loop-mem (max_step best r) rs)) (λ e. rw e picked)
      (λ m. mem-cons.1 (Or.inr (mem-cons.1 (Or.inr m))))
  where
    picked : Mem (max_step best r) (best ∷ r ∷ rs)
    picked = elim (max_step_cases best r) [
      | inl first ↦ mem-cons.1 (Or.inl first)
      | inr second ↦ mem-cons.1 (Or.inr (mem-cons.1 (Or.inl second)))
    ]

max_loop-Dominates :
    (best : RebacRelation) (rs : List RebacRelation)
    → (rank best ≤ rank (max_loop best rs)) × Dominates (max_loop best rs) rs
unfolding max_loop
max_loop-Dominates best [] = (omega arith, tt)
max_loop-Dominates best (r ∷ rs) =
    let (up, all) = max_loop-Dominates (max_step best r) rs in
    let (of_best, of_r) = max_step_upper best r in (omega arith, (omega arith, all))

pub Dominates-mem :
    (top : RebacRelation) {r : RebacRelation} (rs : List RebacRelation)
    → Dominates top rs
    → Mem r rs
    → rank r ≤ rank top
Dominates-mem top [] d m = absurd (not-mem-nil m)
Dominates-mem top (s ∷ rs) d m =
    Or.elim le_prop (mem-cons.0 m) (λ e. rw e d.0) (Dominates-mem top rs d.1)

-- A claim with a relation has a maximum: it is one of the claim's relations, and no relation of
-- the claim has a higher rank. An empty claim has none.
pub max_relation_greatest :
    (rs : List RebacRelation)
    → ((rs ≡ []) × (max_relation rs ≡ none))
      ⊎ ((top : RebacRelation) × (max_relation rs ≡ some top) × Mem top rs × Dominates top rs)
unfolding max_relation
max_relation_greatest [] = inl (refl, refl)
max_relation_greatest (r ∷ rs) =
    inr (max_loop r rs, refl, max_loop-mem r rs, max_loop-Dominates r rs)
