-- ===== src/ZoneTick/Leaves.antt =====
-- What a callback of a tick leaves behind: one callback more to come, or the end of the tick, or,
-- where a submission is refused and nobody looks, neither.
use mathlib.Core.List.{map-append}
use gyreplane.Prelude.{
  ℕ, ◌+◌, ◌≡◌, refl, ap, sym, ◌∙◌, inl, inr, Bool, true, false, List, [], ◌∷◌, ◌++◌, map, arith,
  if◌then◌else◌, Bool-cases,
}
use gyreplane.Fdb.{Answer, Call, Wrapper}
use gyreplane.Fdb.Handles.{count, count-append}
use gyreplane.Fdb.Submit.{accepted, IsAligned, submitted, submitted-IsAligned}
use gyreplane.ZoneTick.{TickCtx, Callback, State}
use gyreplane.ZoneTick.Ownership.{ctx_of, owner, Owns, Ends, reported}

-- The user contexts of the ticks whose `done_cb` is still to be called.
abbrev pub asked : List TickCtx → List ℕ
asked [] = []
asked (ctx ∷ ticks) = if ctx.done_cb then ctx.user_ctx ∷ asked ticks else asked ticks

-- The user contexts of the calls of `done_cb` that were made.
abbrev pub answered : State → List ℕ
answered s = map (λ call. call.0) s.app.done

pub count-asked_middle :
    (a : ℕ) (ctx : TickCtx) (pre post : List TickCtx)
    → count a (asked (pre ++ ctx ∷ post))
      ≡ count a (asked (ctx ∷ [])) + count a (asked (pre ++ post))
count-asked_middle a ctx [] post = ground arith
count-asked_middle a ctx (c ∷ pre) post = ground (arith, count-asked_middle a ctx pre post)

pub count-asked-append :
    (a : ℕ) (pre post : List TickCtx)
    → count a (asked (pre ++ post)) ≡ count a (asked pre) + count a (asked post)
count-asked-append a [] post = omega arith
count-asked-append a (c ∷ pre) post = ground (arith, count-asked-append a pre post)

-- A report answers one tick.
count-reported :
    (a : ℕ) (ctx : TickCtx) (ok : Bool) (done : List (ℕ × Bool))
    → count a (map (λ call. call.0) (reported ctx ok done))
      ≡ count a (map (λ call. call.0) done) + count a (asked (ctx ∷ []))
count-reported a ctx ok done = elim (Bool-cases ctx.done_cb) [
  | inr unwanted ↦ rw unwanted (omega arith)
  | inl wanted ↦ rw wanted (
      rw (map-append (λ call. call.0) done ((ctx.user_ctx, ok) ∷ []))
        (omega (arith, count-append a (map (λ call. call.0) done) (ctx.user_ctx ∷ []))))
]

-- What has become of a tick when a callback of it returns: a new callback waits for it, or its end
-- has been reported, or, where its submission was refused, neither.
pub data Fate (taken : Bool) (ctx : TickCtx) (done done' : List (ℕ × Bool))
    : List (Wrapper Callback) → Type 0 where
  goes_on :
      (w : Wrapper Callback) → owner w ≡ ctx → done' ≡ done → Fate taken ctx done done' (w ∷ [])
  ends : (ok : Bool) → done' ≡ reported ctx ok done → Fate taken ctx done done' []
  vanishes : taken ≡ false → done' ≡ done → Fate taken ctx done done' []

-- After a callback of `ctx`: its wrappers are those before with new ones in front, each pending
-- callback owns what it will use, and futures and wrappers stay paired. Its `done_cb` has been
-- called, or a new callback will see to it, or it is lost, and never if the submission was taken.
pub record Leaves (taken : Bool) (ctx : TickCtx) (others : List TickCtx) (s s' : State)
    : Type 0 where
  pub new : List (Wrapper Callback)
  pub grown : s'.wrappers ≡ new ++ s.wrappers
  pub aligned : IsAligned s'
  pub owns : Owns (map owner new ++ others) s'
  pub lost : List ℕ
  pub accounted :
      (a : ℕ)
      → count a (answered s') + count a (asked (map owner new)) + count a lost
        ≡ count a (answered s) + count a (asked (ctx ∷ []))
  pub nothing_lost : taken ≡ true → lost ≡ []
  pub fate : Fate taken ctx s.app.done s'.app.done new
  pub kept : (s'.db ≡ s.db) × (s'.active_transactions ≡ s.active_transactions)

-- A submission that nobody follows up.
pub submitted-Leaves :
    (ans : Answer) (call : Call) (cb : Callback) (others : List TickCtx) (s : State)
    → IsAligned s
    → Owns (ctx_of cb ∷ others) s
    → Leaves (accepted ans) (ctx_of cb) others s (submitted ans call cb s)
submitted-Leaves ans call cb others s ok own = elim (Bool-cases (accepted ans)) [
  | inl taken ↦ record {
    new = record { cb = cb; future = s.next } ∷ [];
    grown = rw taken refl;
    aligned = submitted-IsAligned ans call cb s ok;
    owns = record { contexts = own.contexts; transactions = own.transactions; named = own.named };
    lost = [];
    accounted = λ a. omega arith;
    nothing_lost = λ _. refl;
    fate = goes_on (record { cb = cb; future = s.next }) refl refl;
    kept = (refl, refl);
  }
  | inr refused ↦ record {
    new = [];
    grown = rw refused refl;
    aligned = submitted-IsAligned ans call cb s ok;
    owns = record {
      contexts = λ a. omega (arith, own.contexts a);
      transactions = λ a. omega (arith, own.transactions a);
      named = own.named.1;
    };
    lost = asked (ctx_of cb ∷ []);
    accounted = λ a. omega arith;
    nothing_lost = λ taken. ground arith;
    fate = vanishes refused refl;
    kept = (refl, refl);
  }
]

-- The end of a tick, after calls of the library that left the wrappers and the reports alone.
pub Ends-Leaves :
    (taken : Bool) {ctx : TickCtx} {ok : Bool} (others : List TickCtx) (before : State)
    {s s' : State}
    → s.wrappers ≡ before.wrappers
    → s.app.done ≡ before.app.done
    → (s.db ≡ before.db) × (s.active_transactions ≡ before.active_transactions)
    → IsAligned s
    → Ends ctx ok others s s'
    → Leaves taken ctx others before s'
Ends-Leaves taken {ctx} {ok} others before {s} {s'} same same_done same_rest al e = record {
  new = [];
  grown = e.wrappers ∙ same;
  aligned = record {
    paired = e.futures ∙ al.paired ∙ ap (map Wrapper.future) (sym e.wrappers);
    fresh = rw (e.next, e.wrappers) al.fresh;
  };
  owns = e.owns;
  lost = [];
  accounted =
      λ a. rw e.done (rw same_done (omega (arith, count-reported a ctx ok before.app.done)));
  nothing_lost = λ _. refl;
  fate = ends ok (e.done ∙ ap (reported ctx ok) same_done);
  kept = (e.kept.0 ∙ same_rest.0, e.kept.1 ∙ same_rest.1);
}

Fate-weaken :
    (taken : Bool) {ctx : TickCtx} {done done' : List (ℕ × Bool)} {new : List (Wrapper Callback)}
    → Fate true ctx done done' new
    → Fate taken ctx done done' new
Fate-weaken taken (goes_on w e d) = goes_on w e d
Fate-weaken taken (ends ok d) = ends ok d
Fate-weaken taken (vanishes never d) = absurd (ground (arith, never))

-- Where nothing is lost on any answer.
pub Leaves-weaken :
    (taken : Bool) {ctx : TickCtx} (others : List TickCtx) {s s' : State}
    → Leaves true ctx others s s'
    → Leaves taken ctx others s s'
Leaves-weaken taken others l = record {
  new = l.new;
  grown = l.grown;
  aligned = l.aligned;
  owns = l.owns;
  lost = l.lost;
  accounted = l.accounted;
  nothing_lost = λ _. l.nothing_lost refl;
  fate = Fate-weaken taken l.fate;
  kept = l.kept;
}
