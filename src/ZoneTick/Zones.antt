-- ===== src/ZoneTick/Zones.antt =====
-- Many ticks of many zones on one database, in the order of their commits.
use mathlib.Core.Option.{map, some-injective}
use mathlib.Core.List.{append_cancel_left}
use gyreplane.Prelude.{
  ℕ, ◌+◌, ◌^◌, ◌<◌, ◌≡◌, refl, ap, sym, subst, ◌∙◌, inl, inr, true, false, Option, none, some, List,
  [], ◌∷◌, ◌++◌, arith, ◌==◌, if◌then◌else◌, Bool-cases, All,
}
use gyreplane.Prelude.Bytes.{IsBytes}
use gyreplane.Packet.{EntityPacket}
use gyreplane.Kv.{entity_range_begin, entity_range_end}
use gyreplane.Kv.KeyOrder.{in_range}
use gyreplane.Kv.Values.{stored_entity, stored_entity-IsPacket, encode_entity-IsBytes}
use gyreplane.Motion.Advance.{advanced, advanced-add, advanced-IsPacket}
use gyreplane.Fdb.{Answer, Call}
use gyreplane.ZoneTick.{TickCtx, State, KeyValue, handle_range_read}
use gyreplane.ZoneTick.Update.{IsSafe, moved_value, advanced_zero, stored_entity-moved_value}
use gyreplane.ZoneTick.Complete.{read_ok}
use gyreplane.ZoneTick.Store.{Database, key_eq, key_eq→eq, has_key, handle_range_read-lookup}

-- A tick that was committed, with the entities that it was given.
pub record Committed : Type 0 where
  pub ctx : TickCtx
  pub given : List KeyValue

-- How long a zone has been ticked for.
abbrev pub elapsed : ℕ → List Committed → ℕ
elapsed z [] = 0
elapsed z (t ∷ ts) = if t.ctx.z_id == z then elapsed z ts + t.ctx.tick_count else elapsed z ts

-- How long the ticks that were given a key lasted.
abbrev pub given_for : List ℕ → List Committed → ℕ
given_for k [] = 0
given_for k (t ∷ ts) =
    if has_key k t.given then given_for k ts + t.ctx.tick_count else given_for k ts

module _ {Contents : Type 0} (db : Database Contents) where
  abbrev pub zone_read : ℕ → Contents → List KeyValue
  zone_read z c = db.read c (entity_range_begin z) (entity_range_end z)

  -- The database after commits of ticks, the newest in front. Each has read the contents that its
  -- commit is applied to, since FoundationDB refuses a commit whose reads are out of date.
  pub data History (c : Contents) : List Committed → Contents → Type 0 where
    here : History c [] c
    tick :
        {ts : List Committed} {c' : Contents} (ctx : TickCtx) (ans : Answer) (s s' : State)
        (made : List Call)
        → History c ts c'
        → ctx.z_id < 2 ^ 32
        → ctx.tick_count < 2 ^ 32
        → All (IsSafe ctx.tick_count) (zone_read ctx.z_id c')
        → handle_range_read (read_ok (zone_read ctx.z_id c')) ans ctx s ≡ some s'
        → s'.calls ≡ s.calls ++ made
        → History c (record { ctx = ctx; given = zone_read ctx.z_id c' } ∷ ts) (db.apply c' made)

  -- What a stored value is, if there is one.
  abbrev pub entity_at : Contents → List ℕ → Option EntityPacket
  entity_at c k = map stored_entity (db.lookup c k)

  pub found_IsSafe :
      (c : Contents) (ticks : ℕ) (begin end k value : List ℕ) (kvs : List KeyValue)
      → All (λ kv. (in_range begin end kv.key ≡ true) × (db.lookup c kv.key ≡ some kv.value)) kvs
      → All (IsSafe ticks) kvs
      → has_key k kvs ≡ true
      → db.lookup c k ≡ some value
      → IsSafe ticks (record { key = k; value = value })
  found_IsSafe c ticks begin end k value [] stored safe held found = absurd (ground arith)
  found_IsSafe c ticks begin end k value (kv ∷ kvs) stored safe held found =
      elim (Bool-cases (key_eq kv.key k)) [
        | inl same ↦
            let at =
              subst (λ key. db.lookup c key ≡ some kv.value) (key_eq→eq kv.key k same) stored.0.1 in
            subst (λ v. IsSafe ticks (record { key = k; value = v }))
              (some-injective _ _ (sym at ∙ found)) safe.0
        | inr other ↦
            found_IsSafe c ticks begin end k value kvs stored.1 safe.1 (ground arith) found
      ]

  -- What a committed tick leaves under a key.
  pub tick-lookup :
      (ctx : TickCtx) (ans : Answer) (s s' : State) (made : List Call) (c : Contents)
      → ctx.tick_count < 2 ^ 32
      → All (IsSafe ctx.tick_count) (zone_read ctx.z_id c)
      → handle_range_read (read_ok (zone_read ctx.z_id c)) ans ctx s ≡ some s'
      → s'.calls ≡ s.calls ++ made
      → (k : List ℕ)
      → db.lookup (db.apply c made) k ≡ (
          if has_key k (zone_read ctx.z_id c)
          then map (moved_value ctx.tick_count) (db.lookup c k)
          else db.lookup c k)
  tick-lookup ctx ans s s' made c small safe ran called k =
      let (t, made', ran', called', after) = handle_range_read-lookup db ctx c ans s small safe in
      let same : s' ≡ t = some-injective _ _ (sym ran ∙ ran') in
      let calls_same : made' ≡ made =
        append_cancel_left s.calls made' made
          (sym called' ∙ ap (λ (x : State). x.calls) (sym same) ∙ called) in
      subst
        (λ m. db.lookup (db.apply c m) k ≡ (
          if has_key k (zone_read ctx.z_id c)
          then map (moved_value ctx.tick_count) (db.lookup c k)
          else db.lookup c k))
        calls_same (after k)

  -- The entity under a key that a tick was given.
  ticked_entity :
      (ticks : ℕ) (c c' : Contents) (begin end k : List ℕ)
      → ticks < 2 ^ 32
      → All (IsSafe ticks) (db.read c begin end)
      → has_key k (db.read c begin end) ≡ true
      → db.lookup c' k ≡ map (moved_value ticks) (db.lookup c k)
      → entity_at c' k ≡ map (advanced ticks) (entity_at c k)
  ticked_entity ticks c c' begin end k small safe held after =
      ap (map stored_entity) after ∙ moved_there (db.lookup c k) refl
    where
      moved_there :
          (found : Option (List ℕ))
          → db.lookup c k ≡ found
          → map stored_entity (map (moved_value ticks) found)
            ≡ map (advanced ticks) (map stored_entity found)
      moved_there none e = refl
      moved_there (some value) e = ap some (
          stored_entity-moved_value ticks (record { key = k; value = value }) small
            (found_IsSafe c ticks begin end k value (db.read c begin end)
              (db.read_stored c begin end) safe held e))

  advanced_twice :
      (a b : ℕ) (found : Option EntityPacket)
      → map (advanced b) (map (advanced a) found) ≡ map (advanced (a + b)) found
  advanced_twice a b none = refl
  advanced_twice a b (some p) = ap some (advanced-add a b p)

  advanced_never : (found : Option EntityPacket) → found ≡ map (advanced 0) found
  advanced_never none = refl
  advanced_never (some p) = ap some (sym (advanced_zero p))

  -- After committed ticks of any zones, in the order of their commits, with zones and numbers of
  -- ticks below 2 ^ 32 and free of overflow, whether their reads were whole or left entities out:
  -- what is stored under a key has been moved by exactly the ticks that were given it, and is as it
  -- was if none was.
  pub History-given :
      {c c' : Contents} {ts : List Committed} (k : List ℕ)
      → History c ts c'
      → (entity_at c' k ≡ map (advanced (given_for k ts)) (entity_at c k))
        × (All (λ t. has_key k t.given ≡ false) ts → db.lookup c' k ≡ db.lookup c k)
  History-given {c = c} k here = (advanced_never (entity_at c k), λ _. refl)
  History-given {c = c} k
        (tick {ts = ts} {c' = c'} ctx ans s s' made before known few safe ran called) =
      let (moved, kept) = History-given k before in
      let after = tick-lookup ctx ans s s' made c' few safe ran called k in
      elim (Bool-cases (has_key k (zone_read ctx.z_id c'))) [
        | inl held ↦ (
          rw held (
              ticked_entity ctx.tick_count c' _ _ _ k few safe held (rw held at after)
              ∙ ap (map (advanced ctx.tick_count)) moved
              ∙ advanced_twice (given_for k ts) ctx.tick_count (entity_at c k)),
          λ never. absurd (cc (held, never.0)),
        )
        | inr missing ↦ (
          rw missing (ap (map stored_entity) (rw missing at after) ∙ moved),
          λ never. (rw missing at after) ∙ kept never.1,
        )
      ]

  -- A value that is bytes stays bytes.
  pub History-IsBytes :
      {c c' : Contents} {ts : List Committed} (k : List ℕ)
      → History c ts c'
      → ((value : List ℕ) → db.lookup c k ≡ some value → IsBytes value)
      → (value : List ℕ) → db.lookup c' k ≡ some value
      → IsBytes value
  History-IsBytes k here bytes value found = bytes value found
  History-IsBytes {c = c} k (tick {c' = c'} ctx ans s s' made before known few safe ran called)
        bytes value found =
      let old = History-IsBytes k before bytes in
      let after = sym (tick-lookup ctx ans s s' made c' few safe ran called k) ∙ found in
      elim (Bool-cases (has_key k (zone_read ctx.z_id c'))) [
        | inr missing ↦ old value (rw missing at after)
        | inl held ↦ written held (db.lookup c' k) refl (rw held at after)
      ]
    where
      written :
          has_key k (zone_read ctx.z_id c') ≡ true
          → (old : Option (List ℕ)) → db.lookup c' k ≡ old
          → map (moved_value ctx.tick_count) old ≡ some value
          → IsBytes value
      written held none e h = absurd (ground arith)
      written held (some v) e h =
          let safe_v =
            found_IsSafe c' ctx.tick_count _ _ k v (zone_read ctx.z_id c') (db.read_stored c' _ _)
              safe held e in
          subst IsBytes (some-injective _ _ h) (
            encode_entity-IsBytes (advanced ctx.tick_count (stored_entity v)) (
              advanced-IsPacket ctx.tick_count (stored_entity v) (stored_entity-IsPacket v safe_v.0)
                few safe_v.1))
