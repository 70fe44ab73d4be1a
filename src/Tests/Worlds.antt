-- ===== src/Tests/Worlds.antt =====
-- A tick of zone 3 from its start to its commit, on a database of pairs.
use mathlib.Core.List.{Memᴰ}
use mathlib.Core.Option.{map}
use gyreplane.Prelude.{◌≤◌, ◌≡◌, refl, ap, sym, ◌∙◌, [], ◌∷◌, ◌++◌, some, arith, length, true}
use gyreplane.Kv.{entity_key}
use gyreplane.Kv.Range.{entity_key-InZone_iff}
use gyreplane.Motion.Advance.{advanced}
use gyreplane.Fdb.{commit}
use gyreplane.ZoneTick.{on_commit, State}
use gyreplane.ZoneTick.Handlers.{range_call}
use gyreplane.ZoneTick.Update.{writes}
use gyreplane.ZoneTick.Tick.{InTick, Ended, turn, turn_of, read_turn, commit_turn}
use gyreplane.ZoneTick.Complete.{taken_answer, read_ok, error_only}
use gyreplane.ZoneTick.System.{IsSound}
use gyreplane.ZoneTick.Zones.{given_for, zone_read, entity_at}
use gyreplane.ZoneTick.World.{Read, World, untouched, WorldStep, WorldReach}
use gyreplane.ZoneTick.Confirmed.{confirmed, awaiting}
use gyreplane.ZoneTick.Progress.{IsUsable, WorldReach-trans, WorldReach-commits}
use gyreplane.ZoneTick.Serial.{WorldReach-given}
use gyreplane.ZoneTick.Tally.{tally, time_of, WorldReach-tally}
use gyreplane.Tests.Stores.{put_all, pairs_database}
use gyreplane.Tests.Ticks.{idle, idle-IsSound, begun}
use gyreplane.Tests.Tools.{seeded_pairs, read_IsSafe, tick}

-- The state after the range read, and the one after the commit.
after_read :
    (s' : State) × (turn (read_ok (zone_read pairs_database 3 seeded_pairs)) taken_answer begun.0
      ≡ some s')
    × InTick tick
        (on_commit tick)
        (range_call tick ∷ []
          ++ (writes tick (zone_read pairs_database 3 seeded_pairs) ++ commit tick.tr ∷ []))
        idle
        s'
after_read =
    read_turn tick idle (read_ok (zone_read pairs_database 3 seeded_pairs)) taken_answer begun.2
      refl refl refl (omega arith) (read_IsSafe 2 (omega arith))

after_commit :
    (s' : State) × (turn (error_only 0) taken_answer after_read.0 ≡ some s')
    × Ended tick idle true
        (range_call tick ∷ []
          ++ (writes tick (zone_read pairs_database 3 seeded_pairs) ++ commit tick.tr ∷ []))
        s'
after_commit = commit_turn tick idle (error_only 0) taken_answer after_read.2 refl refl

abbrev given : Read
given = record {
  ctx = tick;
  kvs = zone_read pairs_database 3 seeded_pairs;
  made = writes tick (zone_read pairs_database 3 seeded_pairs) ++ commit tick.tr ∷ [];
}

abbrev beginning : World pairs_database
beginning = untouched pairs_database idle seeded_pairs

abbrev ending : World pairs_database
ending = record {
  state = after_commit.0;
  contents = put_all seeded_pairs given.made;
  reads = given ∷ [];
  log = record { ctx = tick; given = given.kvs } ∷ [];
  told = tick ∷ [];
}

-- The tick waits for its commit.
abbrev middle : World pairs_database
middle = record {
  state = after_read.0;
  contents = seeded_pairs;
  reads = given ∷ [];
  log = [];
  told = [];
}

middle-WorldReach : WorldReach pairs_database beginning middle
unfolding turn
middle-WorldReach =
    WorldReach.next
      (WorldReach.next WorldReach.here
        (WorldStep.start true 0 taken_answer 3 2 true 44 refl begun.1))
      (WorldStep.read tick taken_answer begun.2.future [] [] given.made begun.2.waits (omega arith)
        (omega arith) (read_IsSafe 2 (omega arith))
        (ap (λ ws. turn_of ws (read_ok given.kvs) taken_answer begun.0) (sym begun.2.waits)
          ∙ after_read.1)
        (after_read.2.calls ∙ ap (λ calls. calls ++ given.made) (sym begun.2.calls)))

middle-IsUsable : IsUsable pairs_database tick.tr middle-WorldReach
unfolding middle-WorldReach
middle-IsUsable = ((tt, tt), tt)

ending-WorldReach : WorldReach pairs_database beginning ending
unfolding turn
ending-WorldReach = WorldReach.next middle-WorldReach (
    WorldStep.commit_done given taken_answer after_read.2.future [] [] after_read.2.waits
      (Memᴰ.head refl) refl
      (ap (λ ws. turn_of ws (error_only 0) taken_answer after_read.0) (sym after_read.2.waits)
        ∙ after_commit.1))

WorldReach-commits_example :
    (w : World pairs_database) × (further : WorldReach pairs_database middle w) × IsUsable
      pairs_database tick.tr
      (WorldReach-trans pairs_database middle-WorldReach further)
    × (w.log ≡ record { ctx = tick; given = zone_read pairs_database 3 seeded_pairs } ∷ [])
    × (w.told ≡ [] ++ tick ∷ [])
    × (confirmed w.state ≡ confirmed middle.state ++ awaiting (tick ∷ []))
WorldReach-commits_example =
    WorldReach-commits pairs_database (on_commit tick) after_read.2.future [] [] idle-IsSound
      middle-WorldReach middle-IsUsable after_read.2.waits (omega arith) (omega arith)
      (read_IsSafe 2 (omega arith))

WorldReach-given_example :
    IsSound ending.state
    × (confirmed ending.state ≡ confirmed idle ++ awaiting ending.told)
    × (length ending.told ≤ length ending.log)
    × (entity_at pairs_database ending.contents (entity_key 3 0)
        ≡ map
            (advanced (given_for (entity_key 3 0) ending.log))
            (entity_at pairs_database seeded_pairs (entity_key 3 0)))
WorldReach-given_example =
    WorldReach-given pairs_database (entity_key 3 0) idle-IsSound ending-WorldReach

-- The tick is committed at once, or after its commit was refused and its range read again.
abbrev Retried : Type 0
Retried =
    (w : World pairs_database) × (further : WorldReach pairs_database middle w) × IsUsable
      pairs_database tick.tr (WorldReach-trans pairs_database middle-WorldReach further)
    × (w.log ≡ record { ctx = tick; given = zone_read pairs_database 3 seeded_pairs } ∷ [])
    × (w.told ≡ [] ++ tick ∷ [])
    × (confirmed w.state ≡ confirmed middle.state ++ awaiting (tick ∷ []))

retried : Retried
retried =
    WorldReach-commits pairs_database (on_commit tick) after_read.2.future [] [] idle-IsSound
      middle-WorldReach middle-IsUsable after_read.2.waits (omega arith) (omega arith)
      (read_IsSafe 2 (omega arith))

WorldReach-tally_example :
    (entity_at pairs_database ending.contents (entity_key 3 0)
      ≡ map
          (advanced (time_of 3 (tally ending.log)))
          (entity_at pairs_database seeded_pairs (entity_key 3 0)))
    × (entity_at pairs_database ending.contents (entity_key 3 0)
        ≡ entity_at pairs_database retried.0.contents (entity_key 3 0))
WorldReach-tally_example =
    WorldReach-tally pairs_database 3 (entity_key 3 0) (λ c begin end. refl) idle-IsSound
      idle-IsSound (omega arith)
      ((entity_key-InZone_iff 3 3 0 (omega arith) (omega arith) (omega arith)).1
        (refl, omega arith))
      ending-WorldReach (WorldReach-trans pairs_database middle-WorldReach retried.1)
      (ap tally (sym retried.3))
