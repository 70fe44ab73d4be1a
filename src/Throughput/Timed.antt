-- ===== src/Throughput/Timed.antt =====
-- tools/zonetick_throughput.c: the timed loop and the drain loop behind it.
use gyreplane.Prelude.{
  ℕ, zero, suc, ◌+◌, Bool, true, false, Option, none, some, List, [], ◌∷◌, ◌>>=◌, if◌then◌else◌,
  drop, length,
}
use gyreplane.Prelude.Bytes.{u32}
use gyreplane.Fdb.{Answer, Wrapper, future_callback}
use gyreplane.ZoneTick.{Callback, State, Outcome, dispatch, zonetick_run}
use gyreplane.Align.{Double, ◌⊕◌, ◌⊖◌, ◌⊘◌, lit}

-- `tick_loop_ctx_t`; `D` is the machine's double.
pub record TickLoopCtx (D : Type 0) : Type 0 where
  pub z_id : ℕ
  pub ticks_done : ℕ
  pub ticks_failed : ℕ
  pub in_flight : Bool
  pub deadline : D

-- The tool while it measures.
pub record Running (D : Type 0) : Type 0 where
  pub loop_ctx : TickLoopCtx D
  pub state : State

-- What happens in one round of a loop: the answers to the start of a tick, if one is started, and
-- the callbacks that come while the event loop runs, each with what its future holds and the answer
-- to what it submits.
pub record Round : Type 0 where
  pub calloc : Bool
  pub create : ℕ
  pub ans : Answer
  pub events : List (Outcome × Answer)

module _ {D : Type 0} where
  unfoldable pub on_tick_done : TickLoopCtx D → Bool → TickLoopCtx D
  on_tick_done loop_ctx ok =
      let loop_ctx = record loop_ctx { in_flight = false } in
      if ok
      then record loop_ctx { ticks_done = u32 (loop_ctx.ticks_done + 1) }
      else record loop_ctx { ticks_failed = u32 (loop_ctx.ticks_failed + 1) }

  -- The calls of `on_tick_done` that the ticks made since `s`.
  unfoldable pub answer_all : TickLoopCtx D → List (ℕ × Bool) → TickLoopCtx D
  unfolding on_tick_done
  answer_all loop_ctx [] = loop_ctx
  answer_all loop_ctx (call ∷ calls) = answer_all (on_tick_done loop_ctx call.1) calls

  unfoldable pub after_call : State → TickLoopCtx D → State → Running D
  unfolding answer_all
  after_call s loop_ctx s' = record {
    loop_ctx = answer_all loop_ctx (drop (length s.app.done) s'.app.done);
    state = s';
  }

  -- The body of the `if` of the main loop; `self` is the address of `loop_ctx`. What
  -- `zf_zonetick_run` returns is not looked at.
  unfoldable pub begin_tick : (self : ℕ) → Round → Running D → Option (Running D)
  unfolding after_call zonetick_run
  begin_tick self r t =
      let loop_ctx = record t.loop_ctx { in_flight = true } in
      do
        (rc, s') ← zonetick_run r.calloc r.create r.ans loop_ctx.z_id 1 true self t.state
        some (after_call t.state loop_ctx s')

  unfoldable pub start_tick : (self : ℕ) → Round → Running D → Option (Running D)
  unfolding begin_tick
  start_tick self r t = if t.loop_ctx.in_flight then some t else begin_tick self r t

  -- A callback of a tick comes, if one waits.
  unfoldable pub make_callback :
      List (Wrapper Callback) → Outcome → Answer → Running D → Option (Running D)
  unfolding after_call future_callback dispatch
  make_callback [] out ans t = some t
  make_callback (w ∷ waiting) out ans t = do
    s' ← future_callback (dispatch out ans) w t.state
    some (after_call t.state t.loop_ctx s')

  -- The callbacks that come while the event loop runs.
  unfoldable pub evloop_run : List (Outcome × Answer) → Running D → Option (Running D)
  unfolding make_callback
  evloop_run [] t = some t
  evloop_run (event ∷ events) t = do
    t ← make_callback t.state.wrappers event.0 event.1 t
    evloop_run events t

-- What `now_sec` makes of the seconds and nanoseconds of the monotonic clock.
abbrev pub now_sec : {D : Type 0} ⦃F : Double D⦄ → ℕ × ℕ → D
now_sec ts = lit ts.0 ⊕ lit ts.1 ⊘ lit 1000000000

-- The timed part of `main`. `now i` is what the clock shows when it is read for the i-th time,
-- `rounds i` what happens in the round that follows. `none` is a fault, or that `left` rounds were not
-- enough. A result goes with the number of readings so far.
module _ {D : Type 0} ⦃F : Double D⦄ (self : ℕ) (now : ℕ → D) (rounds : ℕ → Round) where
  unfoldable pub run_loop : (left i : ℕ) → Running D → Option (ℕ × Running D)
  unfolding start_tick evloop_run
  run_loop zero i t = none
  run_loop (suc left) i t =
      let go_on = run_loop left (i + 1) in
      if F.less (now i) t.loop_ctx.deadline
      then (do t ← start_tick self (rounds i) t; t ← evloop_run (rounds i).events t; go_on t)
      else some (i + 1, t)

  unfoldable pub drain_loop : (left i : ℕ) → Running D → Option (ℕ × Running D)
  unfolding evloop_run
  drain_loop zero i t = none
  drain_loop (suc left) i t =
      let go_on = drain_loop left (i + 1) in
      if t.loop_ctx.in_flight
      then if F.less (now i) (t.loop_ctx.deadline ⊕ lit 2)
        then (do t ← evloop_run (rounds i).events t; go_on t)
        else some (i + 1, t)
      else some (i, t)

  abbrev pub begun : D → ℕ → TickLoopCtx D
  begun duration z_id = record {
    z_id = z_id;
    ticks_done = 0;
    ticks_failed = 0;
    in_flight = false;
    deadline = now 0 ⊕ duration;
  }

  unfoldable pub timed : (left : ℕ) (duration : D) (z_id : ℕ) → State → Option (ℕ × Running D)
  unfolding run_loop drain_loop
  timed left duration z_id s = do
    (i, t) ← run_loop left 1 (record { loop_ctx = begun duration z_id; state = s })
    drain_loop left i t

  -- What is printed: the time that passed, the ticks per second, and whether they meet the target.
  unfoldable pub summary : (i : ℕ) → TickLoopCtx D → D × D × Bool
  summary i loop_ctx =
      let elapsed = now i ⊖ now 0 in
      let rate = lit loop_ctx.ticks_done ⊘ elapsed in (elapsed, rate, F.less_equal (lit 500) rate)
