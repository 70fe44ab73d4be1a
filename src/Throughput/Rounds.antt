-- ===== src/Throughput/Rounds.antt =====
-- The rounds of the tool's two loops: what holds while it measures, and that the loops end.
use mathlib.Core.List.{append-nil}
use mathlib.Core.Option.{some-injective}
use gyreplane.Prelude.{
  ℕ, ◌≡◌, refl, ap, sym, subst, ◌∙◌, inl, inr, true, false, some, List, [], ◌∷◌, ◌++◌, ◌&&◌, ◌==◌,
  arith, if◌then◌else◌, Bool-cases, All,
}
use gyreplane.Prelude.Int.{ℤ}
use gyreplane.Fdb.{Answer, Wrapper}
use gyreplane.Fdb.Submit.{accepted}
use gyreplane.ZoneTick.{Callback, State, Outcome}
use gyreplane.ZoneTick.Update.{IsSafe}
use gyreplane.ZoneTick.Ownership.{owner}
use gyreplane.ZoneTick.System.{IsSound, fire-Sound}
use gyreplane.ZoneTick.Run.{
  opened_ctx, opened-Sound, run_opened-Leaves, run_refused, zonetick_run-Sound,
}
use gyreplane.Throughput.Timed.{
  Running, Round, after_call, begin_tick, start_tick, make_callback, evloop_run,
}
use gyreplane.Throughput.Loop.{IsRound, InLoop, stuck, resting, flying, settled, after_call_silent}

module _ {D : Type 0} (Refused : Type 0) (z_id : ℕ) (deadline : D) (created : ℕ) where
  abbrev pub Kept : Running D → Type 0
  Kept = InLoop Refused z_id deadline created

  -- A start that is refused leaves nothing behind but the flag.
  refused_start :
      (self : ℕ) (r : Round) (t : Running D)
      → (n : Kept t) → t.state.wrappers ≡ []
      → n.uncounted ≡ 0
      → (r.calloc && r.create == 0) ≡ false
      → Refused
      → (t' : Running D) × (begin_tick self r t ≡ some t') × Kept t'
  unfolding begin_tick
  refused_start self r t n alone none_open without why =
      let s = t.state in
      let c = t.loop_ctx in
      let (rc, s', ran', _, good, _, _) =
        zonetick_run-Sound r.calloc r.create r.ans c.z_id 1 true self s n.counts.db
          n.counts.sound in
      let (next, ran, _) =
        run_refused r.calloc r.create r.ans c.z_id 1 true self s n.counts.db without in
      let same = ap (λ (result : ℤ × State). result.1) (some-injective _ _ (sym ran' ∙ ran)) in
      (
        after_call s (record c { in_flight = true }) (record s { next = next }),
        rw ran refl,
        subst Kept
            (sym
              (after_call_silent s (record s { next = next }) (record c { in_flight = true }) refl))
            (record {
              completed = n.completed;
              failures = n.failures;
              uncounted = 0;
              counts = record {
                sound = subst IsSound same good.sound;
                db = n.counts.db;
                zone = n.counts.zone;
                until = n.counts.until;
                done_counted = n.counts.done_counted;
                failed_counted = n.counts.failed_counted;
                started = omega (arith, n.counts.started, none_open);
              };
              phase = rw alone (stuck why (omega arith));
            }),
      )

  taken_start :
      (self : ℕ) (r : Round) (t : Running D)
      → (n : Kept t) → t.state.wrappers ≡ []
      → n.uncounted ≡ 0
      → r.calloc ≡ true
      → (r.create == 0) ≡ true
      → (t' : Running D) × (begin_tick self r t ≡ some t') × Kept t'
  unfolding begin_tick
  taken_start self r t n alone none_open has_memory has_transaction =
      let s = t.state in
      let c = t.loop_ctx in
      let (s', ran, left, _) =
        run_opened-Leaves r.calloc r.create r.ans c.z_id 1 true self s n.counts.db has_memory
          has_transaction n.counts.sound in
      let good = opened-Sound r.calloc r.create r.ans c.z_id 1 true self s s' left in
      (
        _,
        rw ran refl,
        settled Refused z_id deadline created (opened_ctx s c.z_id 1 true self) s s'
            (record c { in_flight = true }) n.completed n.failures left.fate
            (λ e. absurd (ground (arith, e)))
            (left.grown ∙ ap (λ ws. left.new ++ ws) alone ∙ append-nil left.new) refl refl refl
            (record {
              sound = good.sound;
              db = left.kept.0 ∙ n.counts.db;
              zone = n.counts.zone;
              until = n.counts.until;
              done_counted = n.counts.done_counted;
              failed_counted = n.counts.failed_counted;
              started = omega (arith, left.kept.1, n.counts.started, none_open);
            }),
      )

  pub start_tick-InLoop :
      (self : ℕ) (r : Round) (t : Running D)
      → IsRound Refused r
      → Kept t
      → (t' : Running D) × (start_tick self r t ≡ some t') × Kept t'
  unfolding start_tick
  start_tick-InLoop self r t ok n = elim (Bool-cases t.loop_ctx.in_flight) [
    | inl flag ↦ (t, rw flag refl, n)
    | inr clear ↦
        let (alone, none_open) = resting Refused z_id deadline created n.phase clear in
        elim (Bool-cases (r.calloc && r.create == 0)) [
          | inl both ↦
              let (t', ran, n') =
                taken_start self r t n alone none_open (ground arith) (ground arith) in
              (t', ap (λ b. if b then some t else begin_tick self r t) clear ∙ ran, n')
          | inr without ↦
              let (t', ran, n') =
                refused_start self r t n alone none_open without (ok.started without) in
              (t', ap (λ b. if b then some t else begin_tick self r t) clear ∙ ran, n')
        ]
  ]

  -- The callback that waits is made, and no other is.
  make_callback-InLoop :
      (out : Outcome) (ans : Answer) (t : Running D)
      → All (IsSafe 1) out.kvs
      → (accepted ans ≡ false → Refused)
      → Kept t
      → (t' : Running D) × (make_callback t.state.wrappers out ans t ≡ some t') × Kept t'
  unfolding make_callback
  make_callback-InLoop out ans t safe refusal n = made t.state.wrappers refl
    where
      made :
          (ws : List (Wrapper Callback))
          → t.state.wrappers ≡ ws
          → (t' : Running D) × (make_callback ws out ans t ≡ some t') × Kept t'
      made [] at = (t, refl, n)
      made (w ∷ others) at =
          let (flag, alone, one_open, one, wanted) =
            flying Refused z_id deadline created w others n.phase at in
          let (s', ran, good, (new, grown, fate, same_db, same_count)) =
            fire-Sound out ans w [] others t.state at n.counts.sound (rw one (omega arith, safe)) in
          (
            _,
            rw ran refl,
            settled Refused z_id deadline created (owner w) t.state s' t.loop_ctx n.completed
                n.failures fate refusal (grown ∙ ap (λ ws. new ++ ws) alone ∙ append-nil new) one
                wanted flag
                (record {
                  sound = good.sound;
                  db = same_db ∙ n.counts.db;
                  zone = n.counts.zone;
                  until = n.counts.until;
                  done_counted = n.counts.done_counted;
                  failed_counted = n.counts.failed_counted;
                  started = omega (arith, same_count, n.counts.started, one_open);
                }),
          )

  pub evloop_run-InLoop :
      (events : List (Outcome × Answer)) (t : Running D)
      → All (λ e. All (IsSafe 1) e.0.kvs × (accepted e.1 ≡ false → Refused)) events
      → Kept t
      → (t' : Running D) × (evloop_run events t ≡ some t') × Kept t'
  unfolding evloop_run
  evloop_run-InLoop [] t ok n = (t, refl, n)
  evloop_run-InLoop (event ∷ events) t ok n =
      let (t1, ran1, n1) = make_callback-InLoop event.0 event.1 t ok.0.0 ok.0.1 n in
      let (t2, ran2, n2) = evloop_run-InLoop events t1 ok.1 n1 in (t2, rw ran1 ran2, n2)
