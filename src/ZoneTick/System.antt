-- ===== src/ZoneTick/System.antt =====
-- A callback of the adapter, made on a state where each tick owns what it uses.
use mathlib.Core.List.{map-append, append_assoc}
use gyreplane.Prelude.{
  ℕ, ◌+◌, ◌≡◌, refl, ap, sym, subst, ◌∙◌, Bool, true, false, some, List, [], ◌∷◌, ◌++◌, map, arith,
  ◌==◌, All-middle,
}
use gyreplane.Fdb.{Answer, Wrapper, future_callback}
use gyreplane.Fdb.Handles.{count, count-map_middle}
use gyreplane.Fdb.Submit.{accepted, IsAligned}
use gyreplane.Fdb.Contract.{released, future_callback-released}
use gyreplane.ZoneTick.{TickCtx, Callback, State, Outcome, dispatch}
use gyreplane.ZoneTick.Ownership.{owner, Owns}
use gyreplane.ZoneTick.Leaves.{Fate, asked, answered, count-asked_middle, count-asked-append}
use gyreplane.ZoneTick.Handlers.{IsSafeFor, dispatch-Handles}

-- Futures and wrappers are paired, and every callback to come owns its context and transaction.
pub record IsSound (s : State) : Type 0 where
  pub aligned : IsAligned s
  pub owns : Owns (map owner s.wrappers) s

first_Owns :
    (s : State) (c : TickCtx) (pre post : List TickCtx)
    → Owns (pre ++ c ∷ post) s
    → Owns (c ∷ pre ++ post) s
first_Owns s c pre post own = record {
  contexts = λ a. omega (arith, own.contexts a, count-map_middle TickCtx.addr a c pre post);
  transactions = λ a. omega (arith, own.transactions a, count-map_middle TickCtx.tr a c pre post);
  named = All-middle (λ ctx. (ctx.tr == 0) ≡ false) c pre post own.named;
}

-- The tick whose callback comes, in front of the others.
first_owner :
    (s : State) (w : Wrapper Callback) (pre post : List (Wrapper Callback))
    → Owns (map owner (pre ++ w ∷ post)) s
    → Owns (owner w ∷ map owner (pre ++ post)) s
first_owner s w pre post own =
    subst (λ ts. Owns (owner w ∷ ts) s) (sym (map-append owner pre post))
      (first_Owns s (owner w) (map owner pre) (map owner post)
        (subst (λ ts. Owns ts s) (map-append owner pre (w ∷ post)) own))

-- The ticks that are still to be answered: those that a callback to come will use.
abbrev pub pending : State → List ℕ
pending s = asked (map owner s.wrappers)

count-pending :
    (a : ℕ) (s : State) (w : Wrapper Callback) (pre post : List (Wrapper Callback))
    → s.wrappers ≡ pre ++ w ∷ post
    → count a (pending s)
      ≡ count a (asked (owner w ∷ [])) + count a (asked (map owner (pre ++ post)))
count-pending a s w pre post at = omega (
  arith,
  ap (λ ws. count a (asked (map owner ws))) at,
  ap (λ ts. count a (asked ts)) (map-append owner pre (w ∷ post)),
  ap (λ ts. count a (asked ts)) (map-append owner pre post),
  count-asked_middle a (owner w) (map owner pre) (map owner post),
)

-- What a step from `s` to `s'` that starts `started` and loses `lost` does to the accounts of the
-- reports: nobody is answered twice, and nobody is forgotten but those in `lost`.
abbrev pub Accounts : (started lost : List ℕ) → State → State → Type 0
Accounts started lost s s' =
    (a : ℕ)
    → count a (answered s') + count a (pending s') + count a lost
      ≡ count a (answered s) + count a (pending s) + count a started

-- A step of the process that returns without a fault.
pub record Sound (taken : Bool) (started : List ℕ) (s s' : State) : Type 0 where
  pub sound : IsSound s'
  pub lost : List ℕ
  pub accounts : Accounts started lost s s'
  pub nothing_lost : taken ≡ true → lost ≡ []

pub Sound-weaken :
    (taken : Bool) {started : List ℕ} {s s' : State}
    → Sound true started s s'
    → Sound taken started s s'
Sound-weaken taken good = record {
  sound = good.sound;
  lost = good.lost;
  accounts = good.accounts;
  nothing_lost = λ _. good.nothing_lost refl;
}

-- What a callback of the tick `ctx` did to the reports, and what it left in front of the callbacks
-- that still wait.
abbrev pub Continues : Bool → TickCtx → List (Wrapper Callback) → State → State → Type 0
Continues taken ctx others s s' =
    (new : List (Wrapper Callback)) × (s'.wrappers ≡ new ++ others)
    × Fate taken ctx s.app.done s'.app.done new
    × (s'.db ≡ s.db)
    × (s'.active_transactions ≡ s.active_transactions)

-- A pending callback returns without a fault and leaves a sound state. It ends its tick or leaves
-- one callback to come for it; only where its own submission is refused may its tick be lost.
pub fire-Sound :
    (out : Outcome) (ans : Answer) (w : Wrapper Callback) (pre post : List (Wrapper Callback))
    (s : State)
    → s.wrappers ≡ pre ++ w ∷ post
    → IsSound s
    → IsSafeFor out w.cb
    → (s' : State) × (future_callback (dispatch out ans) w s ≡ some s')
      × Sound (accepted ans) [] s s'
      × Continues (accepted ans) (owner w) (pre ++ post) s s'
fire-Sound out ans w pre post s at ok safe =
    let own = first_owner s w pre post (subst (λ ws. Owns (map owner ws) s) at ok.owns) in
    let (s', ran, l) =
      dispatch-Handles out ans w.cb (map owner (pre ++ post)) s ok.aligned own safe in
    let where_now = l.grown ∙ ap (λ ws. l.new ++ ws) at ∙ sym (append_assoc l.new pre (w ∷ post)) in
    let (done, al) =
      future_callback-released (dispatch out ans) w (l.new ++ pre) post s s' ran l.aligned
        where_now in
    let joined =
      ap (map owner) (append_assoc l.new pre post) ∙ map-append owner l.new (pre ++ post) in
    let owns = subst (λ ts. Owns ts s') (sym joined) l.owns in
    (
      released (l.new ++ pre) post s',
      done,
      record {
        sound = record {
          aligned = al;
          owns = record {
            contexts = owns.contexts;
            transactions = owns.transactions;
            named = owns.named;
          };
        };
        lost = l.lost;
        accounts = λ a. omega (
          arith,
          l.accounted a,
          count-pending a s w pre post at,
          ap (λ ts. count a (asked ts)) joined,
          count-asked-append a (map owner l.new) (map owner (pre ++ post)),
        );
        nothing_lost = l.nothing_lost;
      },
      (l.new, append_assoc l.new pre post, l.fate, l.kept.0, l.kept.1),
    )
