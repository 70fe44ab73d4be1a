-- ===== src/Throughput/Endings.antt =====
-- The ways in which a run of the tool ends, once its network runs.
use mathlib.Core.List.{Perm, perm_append_comm}
use mathlib.Core.List.Perm
use gyreplane.Prelude.{
  ℕ, ◌+◌, ◌≤◌, ◌<◌, ◌≡◌, ◌↔◌, ◌⊎◌, refl, ap, inl, inr, Bool, true, false, some, List, [], ◌∷◌, ◌++◌,
  ◌&&◌, ◌==◌, ==_iff, Bool-cases, arith, if◌then◌else◌, subst,
}
use gyreplane.Prelude.Int.{ℤ, pos, negsuc}
use gyreplane.Kv.{entity_key}
use gyreplane.Align.{Double, ◌⊕◌}
use gyreplane.ZoneTick.{State}
use gyreplane.ZoneTick.System.{IsSound}
use gyreplane.Process.{
  Event, acquire, release, Ending, returns, blocks, thread_states, network, thread, event_loop,
  database,
}
use gyreplane.Process.Balance.{acquired, released}
use gyreplane.Throughput.{seed_entities}
use gyreplane.Throughput.Seed.{seed_refused, seed_done}
use gyreplane.Throughput.Recovery.{HoldsBytes, shown, probe_entity-shown}
use gyreplane.Throughput.Timed.{Running, now_sec, summary}
use gyreplane.Throughput.Loop.{IsRound, InLoop}
use gyreplane.Throughput.Ends.{IsPast, timed-InLoop}
use gyreplane.Throughput.Command.{
  ToolConfig, Surroundings, ToolRun, nothing, probed, measured, quiet, join_network, joined,
  run_probe, run_ticks,
}

-- What is acquired before the probe or the seeding, and what is released at the end.
abbrev pub opening : List Event
opening =
    acquire thread_states
    ∷ acquire network
    ∷ acquire (thread 0)
    ∷ acquire event_loop
    ∷ acquire (database 1)
    ∷ []

abbrev pub closing : (stop : ℕ) → List Event
closing stop =
    release (database 1)
    ∷ (((if stop == 0 then release network ∷ [] else []) ++ release thread_states ∷ [])
        ++ join_network stop)

-- The network could be started.
abbrev pub starts : Surroundings → Bool
starts w = w.library.select == 0 && w.library.setup == 0

-- The cleanup was made: only the event loop is still held, and the code is returned; or, if the network
-- cannot be stopped, that and its thread are held too, and the run waits for the thread for ever.
abbrev pub IsClosed : (stop : ℕ) → ℤ → Ending → List Event → Type 0
IsClosed stop code ending events =
    ((stop ≡ 0) × (ending ≡ returns code) × Perm (acquired events) (event_loop ∷ released events))
    ⊎ (((stop == 0) ≡ false)
        × (ending ≡ blocks)
        × Perm (acquired events) (event_loop ∷ network ∷ thread 0 ∷ released events))

-- Nothing is held for a tick or a call.
abbrev pub IsIdle : State → Type 0
IsIdle s = (s.futures ≡ []) × (s.wrappers ≡ []) × (s.transactions ≡ []) × (s.app.contexts ≡ [])

module _ {D : Type 0} ⦃F : Double D⦄ where
  -- How a run goes, past its options, of a zone: the network did not start; the seeding failed, and
  -- nothing is given back; the probe was made; or the ticks were measured.
  pub data ToolOutcome (config : ToolConfig D) (w : Surroundings) (z_id : ℕ)
      : ToolRun D → Type 0 where
    no_network :
        {run : ToolRun D}
        → starts w ≡ false
        → run ≡ record {
          code = returns (pos 1);
          events = acquire thread_states ∷ [];
          state = quiet false;
          printed = nothing;
        }
        → ToolOutcome config w z_id run
    unseeded :
        {run : ToolRun D}
        → starts w ≡ true
        → config.probe_only ≡ false
        → (w.create == 0 && w.committed == 0) ≡ false
        → run.code ≡ returns (pos 1)
        → run.printed ≡ nothing
        → run.events ≡ opening
        → IsIdle run.state
        → ToolOutcome config w z_id run
    probed_only :
        {run : ToolRun D} (code : ℤ)
        → starts w ≡ true
        → config.probe_only ≡ true
        → (code ≡ pos 0) ↔ ((w.create == 0 && w.read_error == 0) ≡ true)
        → (code ≡ pos 0 → run.printed ≡ probed (shown (w.stored (entity_key z_id 0))))
        → IsClosed w.library.stop code run.code run.events
        → IsIdle run.state
        → ToolOutcome config w z_id run
    ticked :
        {run : ToolRun D} (t : Running D) (j : ℕ)
        → starts w ≡ true
        → config.probe_only ≡ false
        → (w.create ≡ 0) × (w.committed ≡ 0)
        → InLoop Unit z_id (now_sec (w.clock 0) ⊕ config.duration) 0 t
        → run.state ≡ t.state
        → run.printed
          ≡ measured t.loop_ctx.ticks_done t.loop_ctx.ticks_failed
              (summary w.self (λ i. now_sec (w.clock i)) w.rounds j t.loop_ctx)
        → IsClosed w.library.stop (pos 0) run.code run.events
        → ToolOutcome config w z_id run

-- A state where no callback is to come and nothing is held is sound.
quiet-IsSound : (s : State) → s.futures ≡ [] → s.wrappers ≡ [] → IsSound s
quiet-IsSound s no_futures no_wrappers = record {
  aligned = record { paired = rw (no_futures, no_wrappers) refl; fresh = rw no_wrappers tt };
  owns = record {
    contexts = λ a. rw no_wrappers (omega arith);
    transactions = λ a. rw no_wrappers (omega arith);
    named = rw no_wrappers tt;
  };
}

closing-IsClosed :
    (stop : ℕ) (code : ℤ) → IsClosed stop code (joined stop code) (opening ++ closing stop)
closing-IsClosed stop code = elim (Bool-cases (stop == 0)) [
  | inl stopped ↦ inl ((==_iff stop 0).0 stopped, rw stopped refl, rw stopped all)
  | inr running ↦ inr (running, rw running refl, rw running others)
]
  where
    all :
        Perm
          (thread_states ∷ network ∷ thread 0 ∷ event_loop ∷ database 1 ∷ [])
          (event_loop ∷ database 1 ∷ network ∷ thread_states ∷ thread 0 ∷ [])
    all =
        Perm.trans
          (perm_append_comm (thread_states ∷ network ∷ thread 0 ∷ [])
            (event_loop ∷ database 1 ∷ []))
          (Perm.cons event_loop
            (Perm.cons (database 1) (Perm.swap network thread_states (thread 0 ∷ []))))

    others :
        Perm
          (thread_states ∷ network ∷ thread 0 ∷ event_loop ∷ database 1 ∷ [])
          (event_loop ∷ network ∷ thread 0 ∷ database 1 ∷ thread_states ∷ [])
    others =
        Perm.trans (Perm.swap network thread_states (thread 0 ∷ event_loop ∷ database 1 ∷ [])) (
          Perm.trans
            (perm_append_comm (network ∷ thread_states ∷ thread 0 ∷ [])
              (event_loop ∷ database 1 ∷ []))
            (Perm.cons event_loop (
              Perm.trans
                (perm_append_comm (database 1 ∷ []) (network ∷ thread_states ∷ thread 0 ∷ []))
                (Perm.cons network (
                  Perm.trans (Perm.swap (thread 0) thread_states (database 1 ∷ []))
                    (Perm.cons (thread 0) (Perm.swap (database 1) thread_states [])))))))

module _ {D : Type 0} ⦃F : Double D⦄ (config : ToolConfig D) (w : Surroundings)
    (up : starts w ≡ true) where
  pub run_probe-ToolOutcome :
      (z_id : ℕ)
      → config.probe_only ≡ true
      → HoldsBytes (w.stored (entity_key z_id 0))
      → (run : ToolRun D) × (run_probe w z_id (quiet true) opening (closing w.library.stop)
          ≡ some run)
        × ToolOutcome config w z_id run
  unfolding run_probe
  run_probe-ToolOutcome z_id only bytes =
      let (rc, printed, s', made, ran, same, fine, found_there) =
        probe_entity-shown w.create w.read_error w.stored z_id 0 (quiet true) refl bytes in
      (
        record {
          code = joined w.library.stop rc;
          events = opening ++ closing w.library.stop;
          state = s';
          printed = probed printed;
        },
        rw ran refl,
        ToolOutcome.probed_only rc up only fine (λ e. ap probed (found_there e))
            (closing-IsClosed w.library.stop rc)
            (
              ap (λ (s : State). s.futures) same,
              ap (λ (s : State). s.wrappers) same,
              ap (λ (s : State). s.transactions) same,
              ap (λ (s : State). s.app.contexts) same,
            ),
      )

  -- A run of the seeding and what follows it.
  abbrev Ran : ℕ → Type 0
  Ran z_id =
      (run : ToolRun D) × (run_ticks w z_id config.n_entities config.duration (quiet true) opening
          (closing w.library.stop)
        ≡ some run)
      × ToolOutcome config w z_id run

  -- The measurement, from the state that the seeding leaves.
  measured_run :
      (z_id : ℕ) (s : State) (last : ℕ)
      → config.probe_only ≡ false
      → (w.create ≡ 0) × (w.committed ≡ 0)
      → seed_entities w.create w.committed w.rest z_id config.n_entities (quiet true)
        ≡ some (pos 0, s)
      → s.db ≡ true
      → s.futures ≡ []
      → s.wrappers ≡ []
      → s.active_transactions ≡ 0
      → ((i : ℕ) → IsRound Unit (w.rounds i))
      → IsPast (λ i. now_sec (w.clock i)) config.duration last
      → 0 < last
      → last + 2 ≤ w.left
      → Ran z_id
  unfolding run_ticks
  measured_run z_id s last ticks fine_seed seeded db no_futures no_wrappers none_created fine past
        first enough =
      let (j, t, ran, _, loop) =
        timed-InLoop w.self (λ i. now_sec (w.clock i)) w.rounds config.duration z_id s last w.left
          Unit fine db (quiet-IsSound s no_futures no_wrappers) no_wrappers past first enough in
      let rate = summary w.self (λ i. now_sec (w.clock i)) w.rounds j t.loop_ctx in
      (
        record {
          code = joined w.library.stop (pos 0);
          events = opening ++ closing w.library.stop;
          state = t.state;
          printed = measured t.loop_ctx.ticks_done t.loop_ctx.ticks_failed rate;
        },
        rw (seeded, ran) refl,
        ToolOutcome.ticked t j up ticks fine_seed
            (subst (λ n. InLoop Unit z_id (now_sec (w.clock 0) ⊕ config.duration) n t) none_created
              loop)
            refl refl (closing-IsClosed w.library.stop (pos 0)),
      )

  unseeded_run :
      (z_id : ℕ) (s : State)
      → config.probe_only ≡ false
      → (w.create == 0 && w.committed == 0) ≡ false
      → IsIdle s
      → seed_entities w.create w.committed w.rest z_id config.n_entities (quiet true)
        ≡ some (negsuc 0, s)
      → Ran z_id
  unfolding run_ticks
  unseeded_run z_id s ticks why idle seeded = (
    record { code = returns (pos 1); events = opening; state = s; printed = nothing },
    rw seeded refl,
    ToolOutcome.unseeded up ticks why refl refl refl idle,
  )

  pub run_ticks-ToolOutcome :
      (z_id last : ℕ)
      → config.probe_only ≡ false
      → ((i : ℕ) → IsRound Unit (w.rounds i))
      → IsPast (λ i. now_sec (w.clock i)) config.duration last
      → 0 < last
      → last + 2 ≤ w.left
      → Ran z_id
  run_ticks-ToolOutcome z_id last ticks fine past first enough =
      let seeding =
        seed_done w.create w.committed w.rest z_id config.n_entities (quiet true) refl in
      elim (Bool-cases (w.create == 0)) [
        | inr refused ↦
            unseeded_run z_id (quiet true) ticks (ground arith) (refl, refl, refl, refl)
              (seed_refused w.create w.committed w.rest z_id config.n_entities (quiet true) refl
                refused)
        | inl created ↦ elim (Bool-cases (w.committed == 0)) [
          | inr uncommitted ↦
              unseeded_run z_id _ ticks (ground arith) (refl, refl, refl, refl)
                (rw uncommitted at seeding created)
          | inl committed ↦
              measured_run z_id _ last ticks
                ((==_iff w.create 0).0 created, (==_iff w.committed 0).0 committed)
                (rw committed at seeding created) refl refl refl refl fine past first enough
        ]
      ]
