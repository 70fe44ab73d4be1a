-- ===== src/Tests/Tools.antt =====
-- The throughput tool on a database kept as a list of pairs, and its loops on a clock of whole numbers.
use gyreplane.Prelude.{
  ℕ, ◌≡◌, ◌≢◌, ◌^◌, ◌<◌, ◌↔◌, refl, sym, subst, true, some, List, [], ◌∷◌, ◌++◌, ◌&&◌, ◌==◌, arith,
  if◌then◌else◌, replicate, All,
}
use gyreplane.Prelude.Int.{ℤ, pos, negsuc}
use gyreplane.Kv.{entity_key, entity_range_begin, entity_range_end}
use gyreplane.Motion.Advance.{advanced, InBounds, sum_Fits}
use gyreplane.Fdb.{Call}
use gyreplane.ZoneTick.{TickCtx, State, handle_range_read}
use gyreplane.ZoneTick.Update.{IsSafe}
use gyreplane.ZoneTick.Run.{opened_ctx}
use gyreplane.ZoneTick.Store.{handle_range_read-apply}
use gyreplane.ZoneTick.Zones.{Committed, elapsed, History, zone_read}
use gyreplane.ZoneTick.Complete.{taken_answer, read_ok}
use gyreplane.Throughput.{seeded, seeded_value, seed_entities, Probed, found, probe_entity}
use gyreplane.Throughput.Seed.{
  IsRest, seed_calls, seed_done, stored_entity-seeded_value, seed_entities-apply,
}
use gyreplane.Throughput.Recovery.{shown, probe_entity-shown, probe_entity-seed_entities}
use gyreplane.Tests.Stores.{Pairs, find, put_all, pairs_database, scan-IsSafe}
use gyreplane.Tests.Ticks.{idle, stored}

-- A buffer whose unwritten bytes are all 7.
abbrev pub unwritten : ℕ → List ℕ
unwritten e_id = replicate 156 7

pub unwritten-IsRest : (e_id : ℕ) → IsRest (unwritten e_id)
unwritten-IsRest e_id = (refl, omega arith)

-- Two entities of zone 3, on a database that holds one of zone 3 already.
seed_entities-apply_example :
    (rc : ℤ) × (s' : State) × (made : List Call) × (seed_entities 0 0 unwritten 3 2 idle
      ≡ some (rc, s'))
    × (rc ≡ (if 0 == 0 && 0 == 0 then pos 0 else negsuc 0))
    × (s' ≡ record idle { next = s'.next; calls = idle.calls ++ made })
    × ((0 == 0) ≡ true
        → ((e : ℕ)
            → e < 2
            → find (put_all (stored ∷ []) made) (entity_key 3 e)
              ≡ some (seeded_value (unwritten e) e))
          × ((k : List ℕ)
              → ((e : ℕ) → e < 2 → k ≢ entity_key 3 e)
              → find (put_all (stored ∷ []) made) k ≡ find (stored ∷ []) k))
seed_entities-apply_example =
    seed_entities-apply 0 0 unwritten 3 2 idle refl pairs_database (stored ∷ []) (omega arith)
      (omega arith)

-- A probe whose read fails.
probe_entity-shown_example :
    (rc : ℤ) × (printed : Probed) × (s' : State) × (made : List Call) × (probe_entity 0 1031
        (λ key. some (1 ∷ []))
        3
        0
        idle
      ≡ some (rc, printed, s'))
    × (s' ≡ record idle { next = s'.next; calls = idle.calls ++ made })
    × ((rc ≡ pos 0) ↔ ((0 == 0 && 1031 == 0) ≡ true))
    × (rc ≡ pos 0 → printed ≡ shown (some (1 ∷ [])))
probe_entity-shown_example =
    probe_entity-shown 0 1031 (λ key. some (1 ∷ [])) 3 0 idle refl (omega arith, tt)

-- Entity 0 alone, on an empty database: its seeding, and a tick of it twice as long as the tool's.
abbrev pub seeding : List Call
seeding = seed_calls unwritten 1 3 1

abbrev pub seeded_pairs : Pairs
seeded_pairs = put_all [] seeding

pub seeded_IsSafe : (ticks : ℕ) → ticks < 2 ^ 32 → All (IsSafe ticks) seeded_pairs
seeded_IsSafe ticks small =
    let (bytes, stands) =
      stored_entity-seeded_value (unwritten 0) 0 (unwritten-IsRest 0) (omega arith) in
    ((bytes, subst (λ p. InBounds (advanced ticks p)) (sym stands) in_bounds), tt)
  where
    in_bounds : InBounds (advanced ticks (seeded 0))
    in_bounds = (
      sum_Fits (pos 0) (pos 100) ticks (omega arith) (omega arith),
      sum_Fits (pos 0) (pos 0) ticks (omega arith) (omega arith),
      sum_Fits (pos 0) (pos 0) ticks (omega arith) (omega arith),
    )

abbrev pub tick : TickCtx
tick = opened_ctx idle 3 2 true 44

pub read_IsSafe :
    (ticks : ℕ) → ticks < 2 ^ 32 → All (IsSafe ticks) (zone_read pairs_database 3 seeded_pairs)
read_IsSafe ticks small =
    scan-IsSafe ticks seeded_pairs seeded_pairs (entity_range_begin 3) (entity_range_end 3)
      (seeded_IsSafe ticks small)

ticked :
    (s' : State) × (made : List Call) × (handle_range_read
        (read_ok (zone_read pairs_database 3 seeded_pairs))
        taken_answer
        tick
        idle
      ≡ some s')
    × (s'.calls ≡ idle.calls ++ made)
ticked =
    let (s', made, ran, called, _) =
      handle_range_read-apply pairs_database tick seeded_pairs taken_answer idle (omega arith) refl
        (read_IsSafe 2 (omega arith)) in
    (s', made, ran, called)

abbrev ticked_log : List Committed
ticked_log = record { ctx = tick; given = zone_read pairs_database 3 seeded_pairs } ∷ []

ticked-History : History pairs_database seeded_pairs ticked_log (put_all seeded_pairs ticked.1)
ticked-History =
    History.tick tick taken_answer idle ticked.0 ticked.1 History.here (omega arith) (omega arith)
      (read_IsSafe 2 (omega arith)) ticked.2 ticked.3

probe_entity-seed_entities_example :
    (t' : State) × (probe_entity 0 0 (find (put_all seeded_pairs ticked.1)) 3 0 idle
      ≡ some (pos 0, found (advanced (elapsed 3 ticked_log) (seeded 0)), t'))
probe_entity-seed_entities_example =
    probe_entity-seed_entities pairs_database unwritten 3 1 0 idle
      (record idle { next = 3; calls = seeding }) idle seeding (λ c begin end. refl) refl refl
      (omega arith) (omega arith) (omega arith) (omega arith) (unwritten-IsRest 0)
      (seed_done 0 0 unwritten 3 1 idle refl refl) refl ticked-History
