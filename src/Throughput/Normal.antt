-- ===== src/Throughput/Normal.antt =====
-- A round of the tool in which nothing fails: it completes a tick, and the tick is counted.
use gyreplane.Prelude.{
  ℕ, ◌+◌, ◌≡◌, refl, ap, sym, ◌∙◌, true, false, some, List, [], ◌∷◌, ◌++◌, if◌then◌else◌, arith,
  All,
}
use gyreplane.Prelude.Bytes.{u32}
use gyreplane.Fdb.{Answer, Call, Wrapper, commit}
use gyreplane.Fdb.Submit.{IsAligned}
use gyreplane.ZoneTick.{TickCtx, Callback, State, KeyValue, Outcome}
use gyreplane.ZoneTick.Update.{IsSafe, writes}
use gyreplane.ZoneTick.Handlers.{range_call}
use gyreplane.ZoneTick.Run.{opened_ctx}
use gyreplane.ZoneTick.Tick.{turn, turn_of, read_turn, commit_turn}
use gyreplane.ZoneTick.Complete.{taken_answer, read_ok, error_only, started}
use gyreplane.Throughput.Timed.{
  TickLoopCtx, Running, Round, on_tick_done, after_call, begin_tick, start_tick, make_callback,
  evloop_run,
}
use gyreplane.Throughput.Loop.{after_call_silent, after_call_report}

-- A round in which the tick is started, reads these entities and is committed.
abbrev pub served : List KeyValue → Round
served kvs = record {
  calloc = true;
  create = 0;
  ans = taken_answer;
  events = (read_ok kvs, taken_answer) ∷ (error_only 0, taken_answer) ∷ [];
}

-- Nothing more is allocated than before, and the counters are these.
pub record Rests {D : Type 0} (s : State) (c : TickLoopCtx D) (t : Running D) : Type 0 where
  pub loop_ctx : t.loop_ctx ≡ c
  pub db : t.state.db ≡ s.db
  pub aligned : IsAligned t.state
  pub wrappers : t.state.wrappers ≡ s.wrappers
  pub contexts : t.state.app.contexts ≡ s.app.contexts
  pub transactions : t.state.transactions ≡ s.transactions

module _ {D : Type 0} where
  -- The event loop makes the newest callback.
  made_turn :
      (out : Outcome) (ans : Answer) (t : Running D) (ws : List (Wrapper Callback)) (s' : State)
      → turn_of ws out ans t.state ≡ some s'
      → make_callback ws out ans t ≡ some (after_call t.state t.loop_ctx s')
  unfolding make_callback turn_of
  made_turn out ans t [] s' ran = absurd (ground (arith, ran))
  made_turn out ans t (w ∷ waiting) s' ran = rw ran refl

  turned :
      (out : Outcome) (ans : Answer) (t : Running D) (s' : State)
      → turn out ans t.state ≡ some s'
      → make_callback t.state.wrappers out ans t ≡ some (after_call t.state t.loop_ctx s')
  unfolding turn
  turned out ans t s' ran = made_turn out ans t t.state.wrappers s' ran

  -- The counters after one more tick.
  abbrev pub one_more : TickLoopCtx D → TickLoopCtx D
  one_more c = record c { ticks_done = u32 (c.ticks_done + 1); in_flight = false }

  -- The tick that the tool starts, and the calls that it makes if nothing fails.
  abbrev pub begun_ctx : (self : ℕ) → Running D → TickCtx
  begun_ctx self t = opened_ctx t.state t.loop_ctx.z_id 1 true self

  abbrev pub round_calls : (self : ℕ) → List KeyValue → Running D → List Call
  round_calls self kvs t =
      let ctx = begun_ctx self t in range_call ctx ∷ [] ++ (writes ctx kvs ++ commit ctx.tr ∷ [])

  pub served_round :
      (self : ℕ) (kvs : List KeyValue) (t : Running D)
      → t.state.db ≡ true
      → IsAligned t.state
      → t.loop_ctx.in_flight ≡ false
      → All (IsSafe 1) kvs
      → (t1 : Running D) × (t2 : Running D) × (start_tick self (served kvs) t ≡ some t1)
        × (evloop_run (served kvs).events t1 ≡ some t2)
        × Rests t.state (one_more t.loop_ctx) t2
        × (t2.state.calls ≡ t.state.calls ++ round_calls self kvs t)
  unfolding start_tick begin_tick evloop_run on_tick_done
  served_round self kvs t db al clear safe =
      let s = t.state in
      let c = record t.loop_ctx { in_flight = true } in
      let ctx = opened_ctx s c.z_id 1 true self in
      let (s1, ran1, w1) = started c.z_id 1 true self s taken_answer refl db al in
      let (s2, ran2, w2) =
        read_turn ctx s (read_ok kvs) taken_answer w1 refl refl refl (omega arith) safe in
      let (s3, ran3, w3) = commit_turn ctx s (error_only 0) taken_answer w2 (ground arith) refl in
      let r1 : Running D = record { loop_ctx = c; state = s1 } in
      let r2 : Running D = record { loop_ctx = c; state = s2 } in
      let r3 : Running D = record { loop_ctx = on_tick_done c true; state = s3 } in
      (
        r1,
        r3,
        ap (λ b. if b then some t else begin_tick self (served kvs) t) clear
            ∙ (rw ran1 (ap some (after_call_silent s s1 c w1.done))),
        rw
            (
              turned (read_ok kvs) taken_answer r1 s2 ran2,
              after_call_silent s1 s2 c (w2.done ∙ sym w1.done),
              turned (error_only 0) taken_answer r2 s3 ran3,
              after_call_report s2 s3 c self true
                  (w3.done ∙ ap (λ done. done ++ (self, true) ∷ []) (sym w2.done)),
            )
            refl,
        record {
          loop_ctx = refl;
          db = w3.db;
          aligned = w3.aligned;
          wrappers = w3.wrappers;
          contexts = w3.contexts;
          transactions = w3.transactions;
        },
        w3.calls,
      )
