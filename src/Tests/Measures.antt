-- ===== src/Tests/Measures.antt =====
-- A seeding of zone 3, four rounds of the tool on what it has stored, and a probe.
use mathlib.Core.Option.{map, some-injective}
use gyreplane.Prelude.{
  ℕ, ◌+◌, ◌≡◌, refl, sym, subst, inl, inr, List, [], ◌∷◌, some, arith, Bool-cases,
}
use gyreplane.Prelude.Int.{pos}
use gyreplane.Kv.{entity_key}
use gyreplane.Kv.Range.{InZone, entity_key-InZone_iff}
use gyreplane.Motion.Advance.{advanced, HasRoom}
use gyreplane.ZoneTick.{State}
use gyreplane.ZoneTick.Zones.{entity_at}
use gyreplane.Throughput.{seeded, found, probe_entity}
use gyreplane.Throughput.Seed.{seed_done}
use gyreplane.Throughput.Timed.{timed}
use gyreplane.Throughput.Normal.{Rests}
use gyreplane.Throughput.Counted.{ticked}
use gyreplane.Throughput.Serving.{Serving, at_start, course, course_rounds, IsRoomy}
use gyreplane.Throughput.Durable.{timed-durable}
use gyreplane.Throughput.Acceptance.{timed-probe_entity}
use gyreplane.ZoneTick.Store.{key_eq}
use gyreplane.Tests.Keys.{ship_value-IsBytes, stored_ship}
use gyreplane.Tests.Fits.{whole}
use gyreplane.Tests.Stores.{Pairs, find, put_all, pairs_database}
use gyreplane.Tests.Ticks.{idle, idle-IsSound, stored}
use gyreplane.Tests.Tools.{unwritten, unwritten-IsRest, seeding}

-- The clock shows how often it was read; the deadline is at 5.
abbrev start : Pairs → Serving Pairs ℕ
start c = at_start 5 3 idle c

abbrev end : Serving Pairs ℕ
end = course pairs_database 9 3 (start (put_all [] seeding)) 4

nothing_stored : (n : ℕ) (k value : List ℕ) → InZone 3 k → find [] k ≡ some value → IsRoomy n value
nothing_stored n k value within e = absurd (ground (arith, e))

timed-probe_entity_example :
    (timed 9 (λ i. i) (course_rounds pairs_database 9 3 (start (put_all [] seeding))) 5 5 3 idle
      ≡ some (1 + 4 + 1, end.running))
    × (end.running.loop_ctx.ticks_done ≡ 4)
    × ((u' : State) × (probe_entity 0 0 (find end.contents) 3 0 idle
          ≡ some (pos 0, found (advanced 4 (seeded 0)), u')))
timed-probe_entity_example =
    timed-probe_entity pairs_database (λ c begin end. refl) 9 3 (omega arith) unwritten 1 4 idle
      (record idle { next = 3; calls = seeding }) seeding [] (λ i. i) 5 5 0 idle idle refl refl refl
      idle-IsSound.aligned (omega arith) (omega arith) (omega arith) (omega arith) unwritten-IsRest
      (nothing_stored 4) (seed_done 0 0 unwritten 3 1 idle refl refl) refl
      (λ j from to. ground arith) refl (omega arith)

-- The ship in place of a seeding.
ship_IsRoomy : (k value : List ℕ) → InZone 3 k → find (stored ∷ []) k ≡ some value → IsRoomy 4 value
ship_IsRoomy k value within e = elim (Bool-cases (key_eq stored.key k)) [
  | inr other ↦ absurd (ground (arith, e))
  | inl same ↦ subst (IsRoomy 4) (some-injective _ _ (rw same at e)) (
    ship_value-IsBytes,
    subst (λ p. HasRoom 4 p.pos_um_x) (sym stored_ship) (omega arith),
    subst (λ p. HasRoom 4 p.pos_um_y) (sym stored_ship) (omega arith),
    subst (λ p. HasRoom 4 p.pos_um_z) (sym stored_ship) (omega arith),
  )
]

abbrev end_of_ship : Serving Pairs ℕ
end_of_ship = course pairs_database 9 3 (start (stored ∷ [])) 4

timed-durable_example :
    (timed 9 (λ i. i) (course_rounds pairs_database 9 3 (start (stored ∷ []))) 5 5 3 idle
      ≡ some (1 + 4 + 1, end_of_ship.running))
    × Rests idle (ticked 5 3 4) end_of_ship.running
    × (entity_at pairs_database end_of_ship.contents (entity_key 3 7)
        ≡ map
            (advanced end_of_ship.running.loop_ctx.ticks_done)
            (entity_at pairs_database (stored ∷ []) (entity_key 3 7)))
timed-durable_example =
    timed-durable pairs_database (λ c begin end. refl) 9 3 (omega arith) (λ i. i) 5 idle
      (stored ∷ []) 4 5 (entity_key 3 7) refl idle-IsSound.aligned (omega arith) ship_IsRoomy
      (λ j from to. ground arith) refl (omega arith)
      ((entity_key-InZone_iff 3 3 7 (omega arith) (omega arith) (omega arith)).1
        (refl, omega arith))
