-- ===== src/Throughput/Moved.antt =====
-- A round of the tool on a database that serves it: what it reads, and what it leaves under a key.
use mathlib.Core.Option.{map, some-injective}
use gyreplane.Prelude.{
  ℕ, ◌+◌, ◌^◌, ◌≤◌, ◌<◌, ◌≡◌, refl, ap, sym, subst, ◌∙◌, Bool, true, false, Option, none, some,
  List, [], ◌∷◌, arith, All, if◌then◌else◌,
}
use gyreplane.Prelude.Bytes.{IsBytes}
use gyreplane.Kv.{entity_range_begin, entity_range_end}
use gyreplane.Kv.Range.{InZone}
use gyreplane.Kv.Values.{stored_entity, stored_entity-IsPacket, encode_entity-IsBytes}
use gyreplane.Motion.Advance.{advanced, advanced-add, advanced-IsPacket, InBounds}
use gyreplane.ZoneTick.{KeyValue}
use gyreplane.ZoneTick.Update.{IsSafe, moved_value, advanced_zero, stored_entity-moved_value}
use gyreplane.ZoneTick.Store.{Database, IsWhole, has_key, last_write-writes}
use gyreplane.ZoneTick.Zones.{zone_read}
use gyreplane.Throughput.Timed.{Running}
use gyreplane.Throughput.Normal.{begun_ctx, round_calls}
use gyreplane.Throughput.Serving.{IsRoomy, IsRoomy-InBounds, IsMoved}

module _ {Contents : Type 0} (db : Database Contents) (whole : IsWhole db) (self z_id : ℕ)
    (zone : z_id < 2 ^ 32) where
  -- What the next round reads can be ticked.
  pub read_IsSafe :
      (n m : ℕ) (start c : Contents)
      → m + 1 ≤ n
      → ((k value : List ℕ) → InZone z_id k → db.lookup start k ≡ some value → IsRoomy n value)
      → ((k : List ℕ) → InZone z_id k → IsMoved m (db.lookup start k) (db.lookup c k))
      → (kvs : List KeyValue)
      → All (λ kv. (InZone z_id kv.key) × (db.lookup c kv.key ≡ some kv.value)) kvs
      → All (IsSafe 1) kvs
  read_IsSafe n m start c few room moved [] held = tt
  read_IsSafe n m start c few room moved (kv ∷ kvs) held = (
    one (db.lookup start kv.key) refl (moved kv.key held.0.0),
    read_IsSafe n m start c few room moved kvs held.1,
  )
    where
      one :
          (before : Option (List ℕ))
          → db.lookup start kv.key ≡ before
          → IsMoved m before (db.lookup c kv.key)
          → IsSafe 1 kv
      one none e gone = absurd (cc (gone, held.0.1))
      one (some value) e (value', at, bytes, stands) =
          let same : value' ≡ kv.value = some-injective _ _ (sym at ∙ held.0.1) in
          (
            subst IsBytes same bytes,
            subst (λ v. InBounds (advanced 1 (stored_entity v))) same
                (subst InBounds
                  (sym (ap (advanced 1) stands ∙ advanced-add m 1 (stored_entity value)))
                  (IsRoomy-InBounds n (m + 1) value few (room kv.key value held.0.0 e))),
          )

  module _ {D : Type 0} where
    -- What a round leaves under a key.
    round-lookup :
        (c : Contents) (t : Running D) (k : List ℕ)
        → t.loop_ctx.z_id ≡ z_id
        → db.lookup (db.apply c (round_calls self (zone_read db z_id c) t)) k ≡ (
            if has_key k (zone_read db z_id c)
            then map (moved_value 1) (db.lookup c k)
            else db.lookup c k)
    round-lookup c t k same =
        db.apply_lookup c (round_calls self (zone_read db z_id c) t) k
        ∙ last_write-writes db (begun_ctx self t) c (entity_range_begin z_id)
            (entity_range_end z_id) k (zone_read db z_id c) (db.lookup c k) (db.read_stored c _ _)

    -- The value under a key of the zone is moved by one more tick.
    pub round-IsMoved :
        (n m : ℕ) (c : Contents) (t : Running D) (k : List ℕ) (before : Option (List ℕ))
        → m + 1 ≤ n
        → n < 2 ^ 32
        → t.loop_ctx.z_id ≡ z_id
        → InZone z_id k
        → ((value : List ℕ) → before ≡ some value → IsRoomy n value)
        → IsMoved m before (db.lookup c k)
        → IsMoved
            (m + 1)
            before
            (db.lookup (db.apply c (round_calls self (zone_read db z_id c) t)) k)
    round-IsMoved n m c t k none few small same within room moved =
        round-lookup c t k same ∙ unread (has_key k (zone_read db z_id c))
      where
        unread :
            (b : Bool) → (if b then map (moved_value 1) (db.lookup c k) else db.lookup c k) ≡ none
        unread true = ap (map (moved_value 1)) moved
        unread false = moved
    round-IsMoved n m c t k (some value) few small same within room (value', at, bytes, stands) =
        let e = stored_entity value in
        let fits : InBounds (advanced 1 (stored_entity value')) =
          subst InBounds (sym (ap (advanced 1) stands ∙ advanced-add m 1 e))
            (IsRoomy-InBounds n (m + 1) value few (room value refl)) in
        let ok = stored_entity-IsPacket value' bytes in
        let read = db.read_all c _ _ k value' (whole c _ _) within at in
        (
          moved_value 1 value',
          round-lookup c t k same
              ∙ ap (λ b. if b then map (moved_value 1) (db.lookup c k) else db.lookup c k) read
              ∙ ap (map (moved_value 1)) at,
          encode_entity-IsBytes (advanced 1 (stored_entity value'))
              (advanced-IsPacket 1 (stored_entity value') ok (omega arith) fits),
          stored_entity-moved_value 1 (record { key = k; value = value' }) (omega arith)
                (bytes, fits)
              ∙ ap (advanced 1) stands
              ∙ advanced-add m 1 e,
        )

pub moved_entity :
    (n : ℕ) (before now : Option (List ℕ))
    → IsMoved n before now
    → map stored_entity now ≡ map (advanced n) (map stored_entity before)
moved_entity n none now gone = ap (map stored_entity) gone
moved_entity n (some value) now (value', at, _, stands) = ap (map stored_entity) at ∙ ap some stands

pub start_moved :
    (before : Option (List ℕ))
    → ((value : List ℕ) → before ≡ some value → IsBytes value)
    → IsMoved 0 before before
start_moved none bytes = refl
start_moved (some value) bytes =
    (value, refl, bytes value refl, sym (advanced_zero (stored_entity value)))
