-- ===== src/Throughput/Command.antt =====
-- tools/zonetick_throughput.c: the options and `main`, as a return code, what is acquired and
-- released, and what is printed.
use gyreplane.Prelude.{
  ℕ, zero, suc, Bool, true, false, not, Option, none, some, List, [], ◌∷◌, ◌++◌, ◌>>=◌, ◌==◌,
  if◌then◌else◌,
}
use gyreplane.Prelude.Bytes.{u32}
use gyreplane.Prelude.Int.{ℤ, pos, negsuc, to_word, half64}
use gyreplane.Align.{Double}
use gyreplane.ZoneTick.{State}
use gyreplane.Process.{
  Event, acquire, release, thread, event_loop, Ending, returns, blocks, Answers, Global,
  global_init, thread_init, thread_cleanup, global_cleanup,
}
use gyreplane.Throughput.{Probed, seed_entities, probe_entity}
use gyreplane.Throughput.Timed.{Round, now_sec, timed, summary}

-- What `getopt` returns, with what `atol`, `atoi` and `atof` make of the argument; a path is its
-- address.
pub data ToolOpt (D : Type 0) : Type 0 where
  cluster : ℕ → ToolOpt D
  zone entities : ℤ → ToolOpt D
  seconds : D → ToolOpt D
  probe help unknown : ToolOpt D

-- The variables of `main`; `none` is the path of the initializer.
pub record ToolConfig (D : Type 0) : Type 0 where
  pub cluster_file : Option ℕ
  pub z_id : ℤ
  pub n_entities : ℕ
  pub duration : D
  pub probe_only : Bool

pub data ToolParsed (D : Type 0) : Type 0 where
  leave : ℤ → ToolParsed D
  go_on : ToolConfig D → ToolParsed D

-- What is printed at the end: nothing, what the probe finds, or the counters, the time that passed,
-- the ticks per second and whether they meet the target.
pub data Printed (D : Type 0) : Type 0 where
  nothing : Printed D
  probed : Probed → Printed D
  measured : (ticks_done ticks_failed : ℕ) → D × D × Bool → Printed D

-- How a run ends, what it acquired and released around its ticks, in which state the ticks are then,
-- with what they still hold, and what was printed.
pub record ToolRun (D : Type 0) : Type 0 where
  pub code : Ending
  pub events : List Event
  pub state : State
  pub printed : Printed D

-- What the run meets: the answers of libfdb_c, the unwritten bytes behind each seeded value, what is
-- stored under a key that is read, the clock and the rounds of the loops; `self` is the
-- address of `loop_ctx`, and `left` bounds the readings of the clock in each loop.
pub record Surroundings : Type 0 where
  pub library : Answers
  pub create : ℕ
  pub committed : ℕ
  pub rest : ℕ → List ℕ
  pub read_error : ℕ
  pub stored : List ℕ → Option (List ℕ)
  pub self : ℕ
  pub clock : ℕ → ℕ × ℕ
  pub rounds : ℕ → Round
  pub left : ℕ

-- The state of the ticks at the start: nothing is under way.
abbrev pub quiet : Bool → State
quiet db = record {
  db = db;
  active_transactions = 0;
  next = 1;
  futures = [];
  wrappers = [];
  transactions = [];
  calls = [];
  app = record { contexts = []; done = [] };
}

module _ {D : Type 0} ⦃F : Double D⦄ where
  abbrev pub tool_defaults : ToolConfig D
  tool_defaults = record {
    cluster_file = none;
    z_id = negsuc 0;
    n_entities = 200;
    duration = F.decimal 50 1;
    probe_only = false;
  }

  unfoldable pub parse_tool : List (ToolOpt D) → ToolConfig D → ToolParsed D
  parse_tool [] c = go_on c
  parse_tool (cluster path ∷ opts) c = parse_tool opts (record c { cluster_file = some path })
  parse_tool (zone z ∷ opts) c = parse_tool opts (record c { z_id = z })
  parse_tool (entities n ∷ opts) c =
      parse_tool opts (record c { n_entities = u32 (to_word half64 n) })
  parse_tool (seconds d ∷ opts) c = parse_tool opts (record c { duration = d })
  parse_tool (probe ∷ opts) c = parse_tool opts (record c { probe_only = true })
  parse_tool (help ∷ opts) c = leave (pos 0)
  parse_tool (unknown ∷ opts) c = leave (pos 1)

-- `pthread_join` on the thread of the network, which returns once the network is stopped.
abbrev pub join_network : (stop : ℕ) → List Event
join_network stop = if stop == 0 then release (thread 0) ∷ [] else []

-- The end of a run that got to its cleanup.
abbrev pub joined : (stop : ℕ) → ℤ → Ending
joined stop code = if stop == 0 then returns code else blocks

module _ {D : Type 0} ⦃F : Double D⦄ (w : Surroundings) where
  -- The probe, and the cleanup after it.
  unfoldable pub run_probe : (z_id : ℕ) → State → (opened closing : List Event) → Option (ToolRun D)
  unfolding probe_entity
  run_probe z_id s opened closing = do
    (code, seen, s) ← probe_entity w.create w.read_error w.stored z_id 0 s
    some (record {
      code = joined w.library.stop code;
      events = opened ++ closing;
      state = s;
      printed = probed seen;
    })

  -- The seeding, the measurement and the cleanup; a seeding that fails leaves at once.
  unfoldable pub run_ticks :
      (z_id n_entities : ℕ) (duration : D)
      → State
      → (opened closing : List Event) → Option (ToolRun D)
  unfolding seed_entities timed summary
  run_ticks z_id n_entities duration s opened closing = do
    (code, s) ← seed_entities w.create w.committed w.rest z_id n_entities s
    elim code [
      | pos zero ↦ (do
        (j, t) ← timed w.self (λ i. now_sec (w.clock i)) w.rounds w.left duration z_id s
        some (record {
          code = joined w.library.stop (pos 0);
          events = opened ++ closing;
          state = t.state;
          printed =
              measured t.loop_ctx.ticks_done t.loop_ctx.ticks_failed
                (summary w.self (λ i. now_sec (w.clock i)) w.rounds j t.loop_ctx);
        }))
      | _ ↦ some (record { code = returns (pos 1); events = opened; state = s; printed = nothing })
    ]

  -- What happens after `fdb_thread_init`, by the database that it left and what it acquired. The
  -- thread of the network is thread 0. Neither the results of `pthread_create` and
  -- `h2o_evloop_create` nor that of `fdb_thread_init` are looked at; the first two succeed.
  unfoldable pub run_opened :
      ToolConfig D → ℕ → Global → (started : List Event) → ℤ × ℕ × List Event → Option (ToolRun D)
  unfolding thread_cleanup global_cleanup run_probe run_ticks
  run_opened config z_id fdb started (rc, db, made) =
      let opened = started ++ acquire (thread 0) ∷ acquire event_loop ∷ made in
      let closing =
        thread_cleanup db ++ (global_cleanup w.library.stop fdb ++ join_network w.library.stop) in
      let s = quiet (not (db == 0)) in
      if config.probe_only
      then run_probe z_id s opened closing
      else run_ticks z_id config.n_entities config.duration s opened closing

  -- What happens after `fdb_global_init`, by what it returned.
  unfoldable pub run_with : ToolConfig D → ℕ → ℤ × Global × List Event → Option (ToolRun D)
  unfolding thread_init run_opened
  run_with config z_id (pos zero, fdb, started) =
      run_opened config z_id fdb started (thread_init (w.library.create 0) 1)
  run_with config z_id (pos (suc n), fdb, started) =
      some (record {
        code = returns (pos 1);
        events = started;
        state = quiet false;
        printed = nothing;
      })
  run_with config z_id (negsuc n, fdb, started) =
      some (record {
        code = returns (pos 1);
        events = started;
        state = quiet false;
        printed = nothing;
      })

  -- What happens after the options; a zone is cut to 32 bits.
  unfoldable pub run_tool : ToolConfig D → ℤ → Option (ToolRun D)
  unfolding global_init run_with
  run_tool config (negsuc n) =
      some (record { code = returns (pos 1); events = []; state = quiet false; printed = nothing })
  run_tool config (pos n) = run_with config (u32 n) (global_init w.library config.cluster_file 1)

  unfoldable pub after_parse : ToolParsed D → Option (ToolRun D)
  unfolding run_tool
  after_parse (leave code) =
      some (record { code = returns code; events = []; state = quiet false; printed = nothing })
  after_parse (go_on config) = run_tool config config.z_id

  unfoldable pub tool_main : List (ToolOpt D) → Option (ToolRun D)
  unfolding parse_tool after_parse
  tool_main opts = after_parse (parse_tool opts tool_defaults)
