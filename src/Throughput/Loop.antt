-- ===== src/Throughput/Loop.antt =====
-- The tick loop of the tool: at most one tick is in flight, and each one that is over is counted.
use gyreplane.Prelude.{
  ℕ, ◌+◌, ◌≤◌, ◌≡◌, refl, ap, sym, subst, ◌∙◌, Bool, true, false, List, [], ◌∷◌, ◌++◌, ◌&&◌, ◌==◌,
  arith, All, drop, drop-append, drop_all, length,
}
use gyreplane.Prelude.Bytes.{u32}
use gyreplane.Fdb.{Wrapper}
use gyreplane.Fdb.Submit.{accepted}
use gyreplane.ZoneTick.{TickCtx, Callback, State}
use gyreplane.ZoneTick.Update.{IsSafe}
use gyreplane.ZoneTick.Ownership.{owner}
use gyreplane.ZoneTick.Leaves.{Fate, goes_on, ends, vanishes}
use gyreplane.ZoneTick.System.{IsSound}
use gyreplane.Throughput.Timed.{TickLoopCtx, Running, Round, on_tick_done, answer_all, after_call}

-- What is in flight, by the tool's flag and the callbacks that wait, and how many of the transactions
-- that were created have not been counted. `Refused` is what a tick needs to get stuck: then the flag
-- stays set and no callback will come.
pub data Phase (Refused : Type 0) : Bool → List (Wrapper Callback) → ℕ → Type 0 where
  rest : Phase Refused false [] 0
  waiting :
      (w : Wrapper Callback)
      → (owner w).tick_count ≡ 1
      → (owner w).done_cb ≡ true
      → Phase Refused true (w ∷ []) 1
  stuck : {uncounted : ℕ} → Refused → uncounted ≤ 1 → Phase Refused true [] uncounted

-- A round whose reads give entities that a tick can move without overflow, and that refuses a start
-- or a submission only if `Refused`.
pub record IsRound (Refused : Type 0) (r : Round) : Type 0 where
  pub started : (r.calloc && r.create == 0) ≡ false → Refused
  pub events : All (λ e. All (IsSafe 1) e.0.kvs × (accepted e.1 ≡ false → Refused)) r.events

module _ {D : Type 0} where
  -- Nothing was reported, and one report.
  pub after_call_silent :
      (s s' : State) (c : TickLoopCtx D)
      → s'.app.done ≡ s.app.done
      → after_call s c s' ≡ record { loop_ctx = c; state = s' }
  unfolding after_call answer_all
  after_call_silent s s' c same =
      ap (λ ds. record { loop_ctx = answer_all c ds; state = s' })
        (ap (λ done. drop (length s.app.done) done) same ∙ drop_all s.app.done)

  pub after_call_report :
      (s s' : State) (c : TickLoopCtx D) (user : ℕ) (ok : Bool)
      → s'.app.done ≡ s.app.done ++ (user, ok) ∷ []
      → after_call s c s' ≡ record { loop_ctx = on_tick_done c ok; state = s' }
  unfolding after_call answer_all
  after_call_report s s' c user ok grown =
      ap (λ ds. record { loop_ctx = answer_all c ds; state = s' })
        (ap (λ done. drop (length s.app.done) done) grown
          ∙ drop-append s.app.done ((user, ok) ∷ []) refl)

module _ {D : Type 0} (Refused : Type 0) (z_id : ℕ) (deadline : D) (created : ℕ) where
  -- The ticks that were counted, and how many transactions are created beyond them.
  pub record Counts (c : TickLoopCtx D) (s : State) (completed failures uncounted : ℕ)
      : Type 0 where
    pub sound : IsSound s
    pub db : s.db ≡ true
    pub zone : c.z_id ≡ z_id
    pub until : c.deadline ≡ deadline
    pub done_counted : c.ticks_done ≡ u32 completed
    pub failed_counted : c.ticks_failed ≡ u32 failures
    pub started : s.active_transactions ≡ created + completed + failures + uncounted

  -- The tool while it measures, since `created` transactions had been created.
  pub record InLoop (t : Running D) : Type 0 where
    pub completed : ℕ
    pub failures : ℕ
    pub uncounted : ℕ
    pub counts : Counts t.loop_ctx t.state completed failures uncounted
    pub phase : Phase Refused t.loop_ctx.in_flight t.state.wrappers uncounted

  pub resting :
      {flag : Bool} {ws : List (Wrapper Callback)} {uncounted : ℕ}
      → Phase Refused flag ws uncounted
      → flag ≡ false
      → (ws ≡ []) × (uncounted ≡ 0)
  resting rest e = (refl, refl)
  resting (waiting w one wanted) e = absurd (ground arith)
  resting (stuck refused few) e = absurd (ground arith)

  pub flying :
      {flag : Bool} {ws : List (Wrapper Callback)} {uncounted : ℕ} (w : Wrapper Callback)
      (others : List (Wrapper Callback))
      → Phase Refused flag ws uncounted
      → ws ≡ w ∷ others
      → (flag ≡ true)
        × (others ≡ [])
        × (uncounted ≡ 1)
        × ((owner w).tick_count ≡ 1)
        × ((owner w).done_cb ≡ true)
  flying w others rest e = absurd (ground arith)
  flying w others (waiting v one wanted) e = ground (arith, e, one, wanted)
  flying w others (stuck refused few) e = absurd (ground arith)

  counted :
      (c : TickLoopCtx D) (s : State) (completed failures : ℕ) (ok : Bool)
      → Counts c s completed failures 1
      → s.wrappers ≡ []
      → InLoop (record { loop_ctx = on_tick_done c ok; state = s })
  unfolding on_tick_done
  counted c s completed failures true n alone = record {
    completed = completed + 1;
    failures = failures;
    uncounted = 0;
    counts = record {
      sound = n.sound;
      db = n.db;
      zone = n.zone;
      until = n.until;
      done_counted = omega (arith, n.done_counted);
      failed_counted = n.failed_counted;
      started = omega (arith, n.started);
    };
    phase = rw alone rest;
  }
  counted c s completed failures false n alone = record {
    completed = completed;
    failures = failures + 1;
    uncounted = 0;
    counts = record {
      sound = n.sound;
      db = n.db;
      zone = n.zone;
      until = n.until;
      done_counted = n.done_counted;
      failed_counted = omega (arith, n.failed_counted);
      started = omega (arith, n.started);
    };
    phase = rw alone rest;
  }

  -- What a call of the tick in flight leaves, if no other callback waits.
  pub settled :
      {taken : Bool} {new : List (Wrapper Callback)} (ctx : TickCtx) (s s' : State)
      (c : TickLoopCtx D) (completed failures : ℕ)
      → Fate taken ctx s.app.done s'.app.done new
      → (taken ≡ false → Refused)
      → s'.wrappers ≡ new
      → ctx.tick_count ≡ 1
      → ctx.done_cb ≡ true
      → c.in_flight ≡ true
      → Counts c s' completed failures 1
      → InLoop (after_call s c s')
  settled ctx s s' c completed failures (goes_on w mine same) refusal alone one wanted flag n =
      subst InLoop (sym (after_call_silent s s' c same)) (record {
        completed = completed;
        failures = failures;
        uncounted = 1;
        counts = n;
        phase =
            rw (flag, alone)
              (waiting w (ap (λ (t : TickCtx). t.tick_count) mine ∙ one)
                (ap (λ (t : TickCtx). t.done_cb) mine ∙ wanted));
      })
  settled ctx s s' c completed failures (ends ok grown) refusal alone one wanted flag n =
      subst InLoop (sym (after_call_report s s' c ctx.user_ctx ok (rw wanted at grown)))
        (counted c s' completed failures ok n alone)
  settled ctx s s' c completed failures (vanishes never same) refusal alone one wanted flag n =
      subst InLoop (sym (after_call_silent s s' c same)) (record {
        completed = completed;
        failures = failures;
        uncounted = 1;
        counts = n;
        phase = rw (flag, alone) (stuck (refusal never) (omega arith));
      })
