-- ===== src/Throughput/Acceptance.antt =====
-- The three uses of the tool one after the other: seeding, measurement and probe.
use mathlib.Core.Option.{some-injective}
use gyreplane.Prelude.{
  ℕ, zero, suc, ◌+◌, ◌^◌, ◌≤◌, ◌<◌, ◌≡◌, ◌≢◌, ◌⊎◌, refl, ap, sym, subst, ◌∙◌, inl, inr, true, false,
  Option, none, some, List, ◌++◌, arith, Bool-cases, ◌==◌, ==_iff,
}
use gyreplane.Prelude.Int.{pos}
use gyreplane.Kv.{entity_key}
use gyreplane.Kv.Range.{InZone, entity_key-InZone_iff}
use gyreplane.Kv.Values.{stored_entity}
use gyreplane.Motion.Advance.{advanced, HasRoom}
use gyreplane.Align.{Double, ◌⊕◌}
use gyreplane.Fdb.Submit.{IsAligned}
use gyreplane.Fdb.{Call}
use gyreplane.ZoneTick.{State}
use gyreplane.ZoneTick.Store.{Database, IsWhole, key_eq, key_eq_refl, key_eq→eq}
use gyreplane.Throughput.{found, probe_entity, seed_entities, seeded, seeded_value}
use gyreplane.Throughput.Seed.{IsRest, stored_entity-seeded_value}
use gyreplane.Throughput.Recovery.{HoldsBytes, seeded_lookup, probe_done, after_probe, shown}
use gyreplane.Throughput.Timed.{TickLoopCtx, timed}
use gyreplane.Throughput.Serving.{at_start, course, course_rounds, IsRoomy, IsMoved}
use gyreplane.Throughput.Durable.{course-Along, timed-durable}

-- A key is that of one of the seeded entities, or of none.
seeded-cases :
    (z_id n : ℕ) (k : List ℕ)
    → ((e : ℕ) × (e < n) × (k ≡ entity_key z_id e)) ⊎ ((e : ℕ) → e < n → k ≢ entity_key z_id e)
seeded-cases z_id zero k = inr (λ e small. absurd (omega arith))
seeded-cases z_id (suc n) k = elim (Bool-cases (key_eq (entity_key z_id n) k)) [
  | inl same ↦ inl (n, omega arith, sym (key_eq→eq (entity_key z_id n) k same))
  | inr differ ↦ elim (seeded-cases z_id n k) [
    | inl (e, small, same) ↦ inl (e, omega arith, same)
    | inr none_of ↦ inr (not_seeded none_of differ)
  ]
]
  where
    not_seeded :
        ((e : ℕ) → e < n → k ≢ entity_key z_id e)
        → key_eq (entity_key z_id n) k ≡ false
        → (e : ℕ) → e < suc n
        → k ≢ entity_key z_id e
    not_seeded none_of differ e small same = elim (Bool-cases (e == n)) [
      | inr other ↦ none_of e (ground arith) same
      | inl last ↦
          let here : key_eq (entity_key z_id n) k ≡ true =
            ap (key_eq (entity_key z_id n)) (same ∙ ap (entity_key z_id) ((==_iff e n).0 last))
            ∙ key_eq_refl (entity_key z_id n) in
          absurd (cc (here, differ))
    ]

seeded_IsRoomy :
    (n e : ℕ) (rest : List ℕ)
    → n < 2 ^ 32
    → e < 2 ^ 32
    → IsRest rest
    → IsRoomy n (seeded_value rest e)
seeded_IsRoomy n e rest few small unread =
    let (bytes, stands) = stored_entity-seeded_value rest e unread small in
    (
      bytes,
      subst (λ p. HasRoom n p.pos_um_x) (sym stands) (omega arith, omega arith),
      subst (λ p. HasRoom n p.pos_um_y) (sym stands) (omega arith, omega arith),
      subst (λ p. HasRoom n p.pos_um_z) (sym stands) (omega arith, omega arith),
    )

shown_moved :
    (n : ℕ) (before now : Option (List ℕ)) (value : List ℕ) (e_id : ℕ)
    → before ≡ some value
    → stored_entity value ≡ seeded e_id
    → IsMoved n before now
    → HoldsBytes now × (shown now ≡ found (advanced n (seeded e_id)))
shown_moved n none now value e_id at stands moved = absurd (ground (arith, at))
shown_moved n (some v) now value e_id at stands (value', there, bytes, moved) =
    let same : stored_entity v ≡ seeded e_id = ap stored_entity (some-injective _ _ at) ∙ stands in
    (subst HoldsBytes (sym there) bytes, ap shown there ∙ ap found (moved ∙ ap (advanced n) same))

module _ {Contents : Type 0} (db : Database Contents) (z_id : ℕ) (zone : z_id < 2 ^ 32)
    (rest : ℕ → List ℕ) (entities n : ℕ) (s s' : State) (made : List Call) (c : Contents) where
  -- What a committed seeding has left under the keys of the zone.
  seeded_room :
      s.db ≡ true
      → n < 2 ^ 32
      → entities < 2 ^ 32
      → ((e : ℕ) → IsRest (rest e))
      → ((k value : List ℕ) → InZone z_id k → db.lookup c k ≡ some value → IsRoomy n value)
      → seed_entities 0 0 rest z_id entities s ≡ some (pos 0, s')
      → s'.calls ≡ s.calls ++ made
      → (k value : List ℕ) → InZone z_id k
      → db.lookup (db.apply c made) k ≡ some value
      → IsRoomy n value
  seeded_room has_db small few unread room ran called k value within e =
      let (own, others) =
        seeded_lookup db rest z_id entities s s' made c has_db zone few ran called in
      elim (seeded-cases z_id entities k) [
        | inl (i, below, same) ↦
            let at = ap (db.lookup (db.apply c made)) same ∙ own i below in
            subst (IsRoomy n) (some-injective _ _ (sym at ∙ e))
              (seeded_IsRoomy n i (rest i) small (omega arith) (unread i))
        | inr other ↦ room k value within (sym (others k other) ∙ e)
      ]

module _ {Contents D : Type 0} ⦃F : Double D⦄ (db : Database Contents) (whole : IsWhole db)
    (self z_id : ℕ) (zone : z_id < 2 ^ 32) (rest : ℕ → List ℕ) (entities n : ℕ) (s s' : State)
    (made : List Call) (c : Contents) where
  -- Take a seeding that was committed, of a zone and a number of entities below 2 ^ 32, on a
  -- database whose reads leave nothing out and whose other values of the zone are bytes that stand
  -- for entities which `n` ticks cannot carry past the ends of an int64_t, for `n` below 2 ^ 32;
  -- then a measurement in which the database gives in each round what it holds and takes what is
  -- committed, and the clock shows times before the deadline at its first `n` readings in the loop
  -- and not at the next; then a probe that meets no error. The measurement ends with exactly `n`
  -- ticks counted, and for a seeded entity whose number is below 0xFF000000 the probe finds it
  -- where it was seeded, moved by its velocity times the ticks that were counted.
  pub timed-probe_entity :
      (now : ℕ → D) (duration : D) (left e_id : ℕ) (t u : State)
      → s.db ≡ true
      → t.db ≡ true
      → u.db ≡ true
      → IsAligned t
      → n < 2 ^ 32
      → entities < 2 ^ 32
      → e_id < entities
      → e_id < 0xff000000
      → ((e : ℕ) → IsRest (rest e))
      → ((k value : List ℕ) → InZone z_id k → db.lookup c k ≡ some value → IsRoomy n value)
      → seed_entities 0 0 rest z_id entities s ≡ some (pos 0, s')
      → s'.calls ≡ s.calls ++ made
      → ((j : ℕ) → 1 ≤ j → j < 1 + n → F.less (now j) (now 0 ⊕ duration) ≡ true)
      → F.less (now (1 + n)) (now 0 ⊕ duration) ≡ false
      → n < left
      → let start = at_start (now 0 ⊕ duration) z_id t (db.apply c made) in
        let end = course db self z_id start n in
        (timed self now (course_rounds db self z_id start) left duration z_id t
          ≡ some (1 + n + 1, end.running))
        × (end.running.loop_ctx.ticks_done ≡ n)
        × ((u' : State) × (probe_entity 0 0 (db.lookup end.contents) z_id e_id u
              ≡ some (pos 0, found (advanced n (seeded e_id)), u')))
  timed-probe_entity now duration left e_id t u s_db t_db u_db al small few below low unread room
        ran called before over enough =
      let key = entity_key z_id e_id in
      let room' =
        seeded_room db z_id zone rest entities n s s' made c s_db small few unread room ran
          called in
      let own =
        (seeded_lookup db rest z_id entities s s' made c s_db zone few ran called).0 e_id below in
      let stands = (stored_entity-seeded_value (rest e_id) e_id (unread e_id) (omega arith)).1 in
      let within = (entity_key-InZone_iff z_id z_id e_id zone zone (omega arith)).1 (refl, low) in
      let (loops, rests, _) =
        timed-durable db whole self z_id zone now duration t (db.apply c made) n left key t_db al
          small room' before over enough within in
      let along =
        course-Along db whole self z_id zone now duration t (db.apply c made) n n t_db al small
          room' (omega arith) in
      let end = course db self z_id (at_start (now 0 ⊕ duration) z_id t (db.apply c made)) n in
      let (held, shows) =
        shown_moved n (db.lookup (db.apply c made) key) (db.lookup end.contents key)
          (seeded_value (rest e_id) e_id) e_id own stands (along.moved key within) in
      (
        loops,
        ap (λ (l : TickLoopCtx D). l.ticks_done) rests.loop_ctx ∙ omega arith,
        (
          _,
          probe_done 0 0 (db.lookup end.contents) z_id e_id u u_db refl held
              ∙ ap (λ p. some (pos 0, p, after_probe z_id e_id u)) shows,
        ),
      )
