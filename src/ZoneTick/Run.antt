-- ===== src/ZoneTick/Run.antt =====
-- `zonetick_run`: what is allocated and what is returned when a tick is started.
use mathlib.Core.List.{map-append}
use gyreplane.Prelude.{
  ℕ, zero, suc, ◌+◌, ◌≤◌, ◌≡◌, refl, ap, sym, subst, ◌∙◌, inl, inr, Bool, true, false, none, some,
  List, [], ◌∷◌, ◌++◌, map, arith, ◌==◌, if◌then◌else◌, Bool-cases, ◌↔◌, ◌&&◌,
}
use gyreplane.Prelude.Int.{ℤ, pos, negsuc}
use gyreplane.Fdb.{Answer, create_transaction}
use gyreplane.Fdb.Handles.{count, Below-weaken, remove}
use gyreplane.Fdb.Submit.{IsAligned}
use gyreplane.ZoneTick.{TickCtx, State, zonetick_run, start_range_read, free_ctx}
use gyreplane.ZoneTick.Ownership.{owner, Owns}
use gyreplane.ZoneTick.Leaves.{Leaves, asked, count-asked-append}
use gyreplane.ZoneTick.Handlers.{start_range_read-Handles}
use gyreplane.ZoneTick.System.{IsSound, Sound, Continues}

-- The state after `calloc` and the creation of the transaction.
abbrev pub opened : State → State
opened s = record s {
  next = s.next + 1 + 1;
  active_transactions = s.active_transactions + 1;
  transactions = (s.next + 1) ∷ s.transactions;
  app = record { contexts = s.next ∷ s.app.contexts; done = s.app.done };
}

abbrev pub opened_ctx : State → (z_id tick_count : ℕ) (done_cb : Bool) (user_ctx : ℕ) → TickCtx
opened_ctx s z_id tick_count done_cb user_ctx = record {
  addr = s.next;
  tr = s.next + 1;
  z_id = z_id;
  tick_count = tick_count;
  done_cb = done_cb;
  user_ctx = user_ctx;
}

pub opened-IsAligned : (s : State) → IsAligned s → IsAligned (opened s)
opened-IsAligned s al = record {
  paired = al.paired;
  fresh = Below-weaken s.next _ _ (omega arith) al.fresh;
}

opened-Owns :
    (s : State) (ctx : TickCtx)
    → ctx.addr ≡ s.next
    → ctx.tr ≡ s.next + 1
    → Owns (map owner s.wrappers) s
    → Owns (ctx ∷ map owner s.wrappers) (opened s)
opened-Owns s ctx ea et own = record {
  contexts = λ a. rw ea (grind (arith, own.contexts a));
  transactions = λ a. rw et (grind (arith, own.transactions a));
  named = (rw et (ground arith), own.named);
}

-- What `zonetick_run` returns.
abbrev run_code : Bool → ℕ → ℤ
run_code calloc create = if calloc && create == 0 then pos 0 else negsuc 0

-- The user context of the tick that a start with this return code has to answer, if any.
abbrev pub started_users : ℤ → Bool → ℕ → List ℕ
started_users (pos zero) done_cb user_ctx = if done_cb then user_ctx ∷ [] else []
started_users (pos (suc n)) done_cb user_ctx = []
started_users (negsuc n) done_cb user_ctx = []

module _ (calloc : Bool) (create : ℕ) (ans : Answer) (z_id tick_count : ℕ) (done_cb : Bool)
    (user_ctx : ℕ) (s : State) where
  pub run_opened :
      s.db ≡ true
      → calloc ≡ true
      → (create == 0) ≡ true
      → (s' : State)
      → start_range_read ans (opened_ctx s z_id tick_count done_cb user_ctx) (opened s) ≡ some s'
      → zonetick_run calloc create ans z_id tick_count done_cb user_ctx s ≡ some (pos 0, s')
  unfolding zonetick_run create_transaction
  run_opened db c e s' ran =
      let computed : create_transaction create (record s {
        next = s.next + 1;
        app = record { contexts = s.next ∷ s.app.contexts; done = s.app.done };
      })
          ≡ some (pos 0, s.next + 1, opened s) =
        rw e (ap (λ b. if b then some (pos 0, s.next + 1, opened s) else none) db) in
      rw (c, computed, ran) refl

  pub run_refused :
      s.db ≡ true
      → (calloc && create == 0) ≡ false
      → (next : ℕ) × (zonetick_run calloc create ans z_id tick_count done_cb user_ctx s
          ≡ some (negsuc 0, record s { next = next }))
        × s.next ≤ next
  unfolding zonetick_run create_transaction free_ctx remove
  run_refused db without = elim (Bool-cases calloc) [
    | inr c ↦ (s.next, rw c refl, omega arith)
    | inl c ↦ (s.next + 1, ground arith, omega arith)
  ]

  pub opened-Sound :
      (s' : State)
      → Leaves true
          (opened_ctx s z_id tick_count done_cb user_ctx)
          (map owner s.wrappers)
          (opened s)
          s'
      → Sound true (started_users (pos 0) done_cb user_ctx) s s'
  opened-Sound s' l = record {
    sound = record { aligned = l.aligned; owns = subst (λ ts. Owns ts s') joined l.owns };
    lost = l.lost;
    accounts = λ a. omega (
      arith,
      l.accounted a,
      ap (λ ts. count a (asked ts)) joined,
      count-asked-append a (map owner l.new) (map owner s.wrappers),
    );
    nothing_lost = λ _. l.nothing_lost refl;
  }
    where
      joined : map owner l.new ++ map owner s.wrappers ≡ map owner s'.wrappers
      joined = sym (map-append owner l.new s.wrappers) ∙ ap (map owner) (sym l.grown)

  -- A tick that is started, with what its range read leaves.
  pub run_opened-Leaves :
      s.db ≡ true
      → calloc ≡ true
      → (create == 0) ≡ true
      → IsSound s
      → let ctx = opened_ctx s z_id tick_count done_cb user_ctx in
        (s' : State) × (zonetick_run calloc create ans z_id tick_count done_cb user_ctx s
          ≡ some (pos 0, s'))
        × Leaves true ctx (map owner s.wrappers) (opened s) s'
        × (start_range_read ans ctx (opened s) ≡ some s')
  run_opened-Leaves db c e ok =
      let ctx = opened_ctx s z_id tick_count done_cb user_ctx in
      let (s', ran, left) =
        start_range_read-Handles ans ctx (map owner s.wrappers) (opened s)
          (opened-IsAligned s ok.aligned) (opened-Owns s ctx refl refl ok.owns) in
      (s', run_opened db c e s' ran, left, ran)

  pub zonetick_run-Sound :
      s.db ≡ true
      → IsSound s
      → (rc : ℤ) × (s' : State) × (zonetick_run calloc create ans z_id tick_count done_cb user_ctx s
          ≡ some (rc, s'))
        × ((rc ≡ pos 0) ↔ ((calloc && create == 0) ≡ true))
        × Sound true (started_users rc done_cb user_ctx) s s'
        × (rc ≡ pos 0
            → Continues true
                (opened_ctx s z_id tick_count done_cb user_ctx)
                s.wrappers
                (opened s)
                s')
        × (rc ≡ negsuc 0 → s' ≡ record s { next = s'.next })
  zonetick_run-Sound db ok = elim (Bool-cases (calloc && create == 0)) [
    | inr without ↦
        let (next, ran, later) = run_refused db without in
        (
          negsuc 0,
          record s { next = next },
          ran,
          ground arith,
          record {
            sound = record {
              aligned = record {
                paired = ok.aligned.paired;
                fresh = Below-weaken s.next next _ later ok.aligned.fresh;
              };
              owns = record {
                contexts = ok.owns.contexts;
                transactions = ok.owns.transactions;
                named = ok.owns.named;
              };
            };
            lost = [];
            accounts = λ a. omega arith;
            nothing_lost = λ _. refl;
          },
          λ e. absurd (ground (arith, e)),
          λ e. refl,
        )
    | inl both ↦
        let (s', ran, left, _) = run_opened-Leaves db (ground arith) (ground arith) ok in
        (
          pos 0,
          s',
          ran,
          ground arith,
          opened-Sound s' left,
          λ e. (left.new, left.grown, left.fate, left.kept.0, left.kept.1),
          λ e. absurd (ground (arith, e)),
        )
  ]
