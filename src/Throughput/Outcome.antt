-- ===== src/Throughput/Outcome.antt =====
-- How a run of the tool goes, by its options and what it meets.
use gyreplane.Prelude.{
  ℕ, zero, suc, ◌+◌, ◌≤◌, ◌<◌, ◌≡◌, refl, ap, ◌∙◌, inl, inr, Bool, true, false, Option, some, List,
  [], ◌∷◌, ◌==◌, if◌then◌else◌, Bool-cases, arith,
}
use gyreplane.Prelude.Bytes.{u32}
use gyreplane.Prelude.Int.{pos}
use gyreplane.Align.{Double}
use gyreplane.Kv.{entity_key}
use gyreplane.Process.{
  acquire, returns, thread_states, network, database, Global, global_init, thread_init,
  thread_cleanup, global_cleanup,
}
use gyreplane.Throughput.Recovery.{HoldsBytes}
use gyreplane.Throughput.Timed.{now_sec}
use gyreplane.Throughput.Loop.{IsRound}
use gyreplane.Throughput.Ends.{IsPast}
use gyreplane.Throughput.Command.{
  ToolConfig, Surroundings, ToolRun, nothing, quiet, run_probe, run_ticks, run_opened, run_with,
  run_tool, ToolOpt, parse_tool, tool_defaults, go_on, after_parse, tool_main,
}
use gyreplane.Throughput.Endings.{
  ToolOutcome, starts, opening, closing, run_probe-ToolOutcome, run_ticks-ToolOutcome,
}

module _ {D : Type 0} ⦃F : Double D⦄ (config : ToolConfig D) (w : Surroundings) where
  -- The library of a process whose network runs.
  abbrev networked : Global
  networked = record { cluster_file = config.cluster_file; num_threads = 1; network_started = true }

  -- The run after `fdb_thread_init`, with the database 1.
  abbrev with_database : ℕ → Option (ToolRun D)
  with_database z_id =
      run_opened w config z_id networked (acquire thread_states ∷ acquire network ∷ [])
        (pos 0, 1, acquire (database 1) ∷ [])

  -- What the ticks of a run need: safe reads, and a clock that passes its deadlines.
  pub record IsServed (last : ℕ) : Type 0 where
    pub rounds : (i : ℕ) → IsRound Unit (w.rounds i)
    pub past : IsPast (λ i. now_sec (w.clock i)) config.duration last
    pub first : 0 < last
    pub enough : last + 2 ≤ w.left

  -- A run of this zone without a fault, with such an outcome.
  abbrev pub Runs : ℕ → Option (ToolRun D) → Type 0
  Runs z_id result = (run : ToolRun D) × (result ≡ some run) × ToolOutcome config w z_id run

  run_opened-Runs :
      (z_id last : ℕ)
      → starts w ≡ true
      → HoldsBytes (w.stored (entity_key z_id 0))
      → IsServed last
      → Runs z_id (with_database z_id)
  unfolding run_opened thread_cleanup global_cleanup
  run_opened-Runs z_id last up bytes fine = elim (Bool-cases config.probe_only) [
    | inl only ↦
        let (run, ran, outcome) = run_probe-ToolOutcome config w up z_id only bytes in
        (run, chosen only ∙ ran, outcome)
    | inr ticks ↦
        let (run, ran, outcome) =
          run_ticks-ToolOutcome config w up z_id last ticks fine.rounds fine.past fine.first
            fine.enough in
        (run, chosen ticks ∙ ran, outcome)
  ]
    where
      branch : Bool → Option (ToolRun D)
      branch b =
          if b
          then run_probe w z_id (quiet true) opening (closing w.library.stop)
          else run_ticks w z_id config.n_entities config.duration (quiet true) opening
              (closing w.library.stop)

      chosen : {b : Bool} → config.probe_only ≡ b → with_database z_id ≡ branch b
      chosen e = ap branch e

  run_with-Runs :
      (z_id last : ℕ)
      → starts w ≡ true
      → (w.library.create 0 == 0) ≡ true
      → HoldsBytes (w.stored (entity_key z_id 0))
      → IsServed last
      → Runs z_id
          (run_with w config z_id (pos 0, networked, acquire thread_states ∷ acquire network ∷ []))
  unfolding run_with thread_init
  run_with-Runs z_id last up created bytes fine =
      let (run, ran, outcome) = run_opened-Runs z_id last up bytes fine in
      (
        run,
        ap
              (λ b.
                run_opened w config z_id networked (acquire thread_states ∷ acquire network ∷ []) (
                  if b
                  then (pos 0, 1, acquire (database 1) ∷ [])
                  else (pos (w.library.create 0), 0, [])))
              created
            ∙ ran,
        outcome,
      )

  no_network_run :
      (z_id code : ℕ) (fdb : Global)
      → starts w ≡ false
      → (code == 0) ≡ false
      → Runs z_id (run_with w config z_id (pos code, fdb, acquire thread_states ∷ []))
  unfolding run_with
  no_network_run z_id zero fdb down e = absurd (ground arith)
  no_network_run z_id (suc n) fdb down e = (
    record {
      code = returns (pos 1);
      events = acquire thread_states ∷ [];
      state = quiet false;
      printed = nothing;
    },
    refl,
    ToolOutcome.no_network down refl,
  )

  run_tool-Runs :
      (z last : ℕ)
      → (w.library.create 0 == 0) ≡ true
      → HoldsBytes (w.stored (entity_key (u32 z) 0))
      → IsServed last
      → Runs (u32 z) (run_tool w config (pos z))
  unfolding run_tool global_init
  run_tool-Runs z last created bytes fine = elim (Bool-cases (w.library.select == 0)) [
    | inr e ↦ rw e (no_network_run (u32 z) w.library.select _ (ground arith) e)
    | inl selected ↦ elim (Bool-cases (w.library.setup == 0)) [
      | inr e ↦ rw (selected, e) (no_network_run (u32 z) w.library.setup _ (ground arith) e)
      | inl ready ↦
          rw (selected, ready) (run_with-Runs (u32 z) last (ground arith) created bytes fine)
    ]
  ]

  -- A run of the tool whose options name a zone that is not negative, whose database can be opened
  -- and where what is stored under the key of the zone's entity 0 is bytes or missing. If its
  -- reads give entities that a tick can move without overflow, and the clock shows no time before
  -- the deadlines from some later reading on, two short of the bound at most, it has no fault,
  -- whatever else the library answers. Exactly if the network cannot start, it returns one with
  -- only the thread states acquired and nothing printed. Otherwise, to probe, it returns zero
  -- exactly if neither creating the transaction nor the read fails, and then it has printed what
  -- is stored under that key; nothing is held for the probe. Otherwise, exactly if creating the
  -- transaction or the commit of the seeding fails, it returns one with nothing printed and
  -- nothing of the process given back. Otherwise it prints its counters and the rate that follows
  -- from them and a reading of the clock; the counters, modulo 2 ^ 32, count every transaction
  -- that was created for a tick but for at most one; that one is in flight, with the one callback
  -- that is to come, or it is stuck. What the ticks hold then is kept. The probe and the ticks are
  -- followed by the cleanup of the process: it gives back all that was acquired but the event loop
  -- and then returns, zero after the ticks; or, if `fdb_stop_network` fails, it keeps the network
  -- and its thread too and waits for the thread for ever.
  pub tool_main-ToolOutcome :
      (opts : List (ToolOpt D)) (z last : ℕ)
      → parse_tool opts tool_defaults ≡ go_on config
      → config.z_id ≡ pos z
      → (w.library.create 0 == 0) ≡ true
      → HoldsBytes (w.stored (entity_key (u32 z) 0))
      → IsServed last
      → Runs (u32 z) (tool_main w opts)
  unfolding tool_main after_parse
  tool_main-ToolOutcome opts z last parsed zone created bytes fine =
      let (run, ran, outcome) = run_tool-Runs z last created bytes fine in
      (run, ap (after_parse w) parsed ∙ ap (run_tool w config) zone ∙ ran, outcome)
