-- ===== src/Tests/Ticks.antt =====
-- The adapter and the ticks on small states.
use gyreplane.Prelude.{
  ℕ, ◌+◌, ◌^◌, ◌<◌, ◌≤◌, ◌≡◌, refl, subst, sym, ◌>>=◌, some, true, false, List, [], ◌∷◌, ◌++◌,
  arith,
}
use gyreplane.Prelude.Int.{pos}
use gyreplane.Kv.{entity_key, encode_entity}
use gyreplane.Motion.Advance.{advanced, InBounds}
use gyreplane.Fdb.{
  Answer, Call, Wrapper, get, range_read, first_greater_or_equal, want_whole, commit, on_error,
  async_get, async_get_range, async_commit, handle_error, future_callback,
}
use gyreplane.Fdb.Handles.{count}
use gyreplane.Fdb.Submit.{accepted, IsAligned, Submits, async-Submits}
use gyreplane.Fdb.Contract.{released, future_callback-released}
use gyreplane.ZoneTick.{Callback, on_range_read, on_commit, State, KeyValue, zonetick_run}
use gyreplane.ZoneTick.Update.{IsSafe}
use gyreplane.ZoneTick.Leaves.{answered}
use gyreplane.ZoneTick.System.{IsSound, pending}
use gyreplane.ZoneTick.Run.{opened_ctx}
use gyreplane.ZoneTick.Reach.{Step, Reach, Reach-Sound, Reach-answered, Reach-fires}
use gyreplane.ZoneTick.Tick.{turn, turns, InTick, Ended}
use gyreplane.ZoneTick.Handlers.{range_call}
use gyreplane.ZoneTick.Complete.{
  taken_answer, read_ok, tick_events, conflict_calls, round_calls, started, zonetick_run_completes,
}
use gyreplane.ZoneTick.Lost.{IsLost, failing, zonetick_run_loses, zonetick_run_retries}
use gyreplane.Tests.Packets.{ship, ship-InBounds}
use gyreplane.Tests.Keys.{ship_value-IsBytes, stored_ship}

-- A process with a database and nothing under way.
abbrev pub idle : State
idle = record {
  db = true;
  active_transactions = 0;
  next = 1;
  futures = [];
  wrappers = [];
  transactions = [];
  calls = [];
  app = record { contexts = []; done = [] };
}

idle-IsAligned : IsAligned idle
idle-IsAligned = record { paired = refl; fresh = tt }

pub idle-IsSound : IsSound idle
idle-IsSound = record {
  aligned = idle-IsAligned;
  owns = record { contexts = λ a. omega arith; transactions = λ a. omega arith; named = tt };
}

-- An answer with no future, and one with no memory for the wrapper.
abbrev no_future : Answer
no_future = record { future = false; malloc = true; set_callback = 0 }

abbrev no_memory : Answer
no_memory = record { future = true; malloc = false; set_callback = 0 }

abbrev pub stored : KeyValue
stored = record { key = entity_key 3 7; value = encode_entity ship }

pub stored-IsSafe : (ticks : ℕ) → ticks < 2 ^ 32 → IsSafe ticks stored
stored-IsSafe ticks small = (
  ship_value-IsBytes,
  subst (λ p. InBounds (advanced ticks p)) (sym stored_ship) (ship-InBounds ticks small),
)

-- A tick of zone 3 that conflicts once.
zonetick_run_completes_example :
    let ctx = opened_ctx idle 3 2 true 44 in
    (s' : State) × ((do
      (rc, t) ← zonetick_run true 0 taken_answer 3 2 true 44 idle
      turns (tick_events ((stored ∷ [], 1019) ∷ []) (stored ∷ [])) t)
      ≡ some s')
    × Ended ctx idle true
        (range_call ctx ∷ conflict_calls ctx ((stored ∷ [], 1019) ∷ [])
          ++ round_calls ctx (stored ∷ []))
        s'
zonetick_run_completes_example =
    zonetick_run_completes 3 2 true 44 idle ((stored ∷ [], 1019) ∷ []) (stored ∷ []) refl
      idle-IsAligned (omega arith) ((stored-IsSafe 2 (omega arith), tt), tt)
      (stored-IsSafe 2 (omega arith), tt)

-- Its commit has no future.
zonetick_run_loses_example :
    (s' : State) × ((do
      (rc, t) ← zonetick_run true 0 taken_answer 3 2 true 44 idle
      turn (read_ok (stored ∷ [])) no_future t)
      ≡ some s')
    × IsLost (opened_ctx idle 3 2 true 44) idle s'
zonetick_run_loses_example =
    zonetick_run_loses 3 2 true 44 idle (read_ok (stored ∷ [])) no_future refl idle-IsAligned refl
      refl (omega arith) (stored-IsSafe 2 (omega arith), tt)

-- The error of a transaction that used its keys wrongly, which the library does not retry.
zonetick_run_retries_example :
    let ctx = opened_ctx idle 3 2 true 44 in
    (s' : State) × (made : List Call) × ((do
      (rc, t) ← zonetick_run true 0 taken_answer 3 2 true 44 idle
      turns (failing ctx idle ((2001, 2001) ∷ (2001, 2001) ∷ [])) t)
      ≡ some s')
    × InTick ctx (on_range_read ctx) made idle s'
zonetick_run_retries_example =
    zonetick_run_retries 3 2 true 44 idle ((2001, 2001) ∷ (2001, 2001) ∷ []) refl idle-IsAligned

-- The idle process after the start of a tick.
pub begun :
    (s' : State) × (zonetick_run true 0 taken_answer 3 2 true 44 idle ≡ some (pos 0, s'))
    × InTick
        (opened_ctx idle 3 2 true 44)
        (on_range_read (opened_ctx idle 3 2 true 44))
        (range_call (opened_ctx idle 3 2 true 44) ∷ [])
        idle
        s'
begun = started 3 2 true 44 idle taken_answer refl refl idle-IsAligned

abbrev Taken : Answer → Type 0
Taken ans = accepted ans ≡ true

begun-Reach : Reach Taken idle (44 ∷ []) begun.0
begun-Reach = Reach.next Reach.here (Step.start true 0 taken_answer 3 2 true 44 refl refl begun.1)

Reach-Sound_example :
    IsSound begun.0
    × ((a : ℕ)
        → count a (answered begun.0) + count a (pending begun.0)
          ≤ count a (answered idle) + count a (pending idle) + count a (44 ∷ []))
Reach-Sound_example = Reach-Sound idle-IsSound begun-Reach

Reach-answered_example :
    count 44 (answered begun.0) + count 44 (pending begun.0)
    ≡ count 44 (answered idle) + count 44 (pending idle) + count 44 (44 ∷ [])
Reach-answered_example = Reach-answered (λ ans taken. taken) idle-IsSound begun-Reach 44

Reach-fires_example : (u' : State) × Step Taken [] begun.0 u' × IsSound u'
Reach-fires_example =
    Reach-fires (read_ok (stored ∷ [])) taken_answer
      (record { cb = on_range_read (opened_ctx idle 3 2 true 44); future = begun.2.future }) [] []
      idle-IsSound begun-Reach refl begun.2.waits (omega arith, (stored-IsSafe 2 (omega arith), tt))

abbrev waiting : State
waiting = record idle {
  next = 3;
  futures = 2 ∷ 1 ∷ [];
  wrappers =
      record { cb = on_range_read (opened_ctx idle 3 2 true 44); future = 2 }
      ∷ record { cb = on_commit (opened_ctx idle 4 2 true 45); future = 1 }
      ∷ [];
}

waiting-IsAligned : IsAligned waiting
waiting-IsAligned = record { paired = refl; fresh = (omega arith, (omega arith, tt)) }

abbrev first : Wrapper Callback
first = record { cb = on_range_read (opened_ctx idle 3 2 true 44); future = 2 }

abbrev second : Wrapper Callback
second = record { cb = on_commit (opened_ctx idle 4 2 true 45); future = 1 }

future_callback-released_example :
    (future_callback (λ cb s. some s) second waiting ≡ some (released (first ∷ []) [] waiting))
    × IsAligned (released (first ∷ []) [] waiting)
future_callback-released_example =
    future_callback-released (λ cb s. some s) second (first ∷ []) [] waiting waiting refl
      waiting-IsAligned refl

async-Submits_example :
    Submits no_memory
      (get 9 (1 ∷ []))
      first.cb
      waiting
      (async_get no_memory 9 (1 ∷ []) first.cb waiting)
    × Submits no_memory
        (range_read 9
          (first_greater_or_equal (1 ∷ []))
          (first_greater_or_equal (2 ∷ []))
          want_whole)
        first.cb
        waiting
        (async_get_range no_memory 9 (1 ∷ []) (2 ∷ []) first.cb waiting)
    × Submits no_memory (commit 9) first.cb waiting (async_commit no_memory 9 first.cb waiting)
    × Submits no_memory
        (on_error 9 1020)
        first.cb
        waiting
        (handle_error no_memory 9 1020 first.cb waiting)
async-Submits_example =
    async-Submits no_memory 9 1020 (1 ∷ []) (1 ∷ []) (2 ∷ []) first.cb waiting (ground arith)
      waiting-IsAligned
