-- ===== src/ZoneTick/Update.antt =====
-- The loop over the entities that a tick read.
use mathlib.Core.List.{append-nil, append_assoc}
use mathlib.Core.Option.{some-injective}
use gyreplane.Prelude.{
  ℕ, ◌^◌, ◌<◌, ◌≡◌, refl, ap, sym, ◌∙◌, arith, some, List, [], ◌∷◌, ◌++◌, All, length,
}
use gyreplane.Prelude.Bytes.{IsBytes}
use gyreplane.Prelude.Int.{ℤ, ◌+ℤ◌, *ℤ-pos_parts, +ℤ_parts, eq_of_parts}
use gyreplane.Packet.{EntityPacket, xr_packet_size}
use gyreplane.Motion.{vel_to_um_per_tick}
use gyreplane.Kv.{encode_entity, decode_entity}
use gyreplane.Kv.Values.{
  stored_entity, decode_entity_total, stored_entity-IsPacket, decode_entity-encode_entity,
  encode_entity-IsBytes,
}
use gyreplane.Motion.Advance.{moved, advanced, InBounds, advance_iff, advanced-IsPacket}
use gyreplane.Fdb.{Call, write, sync_set}
use gyreplane.ZoneTick.{TickCtx, State, KeyValue, update_value, update_all}

-- A stored value whose entity the ticks do not carry past the ends of an int64_t.
abbrev pub IsSafe : ℕ → KeyValue → Type 0
IsSafe ticks kv = IsBytes kv.value × InBounds (advanced ticks (stored_entity kv.value))

-- The entity of a stored value after the ticks, and what is stored for it.
abbrev pub moved_value : ℕ → List ℕ → List ℕ
moved_value ticks value = encode_entity (advanced ticks (stored_entity value))

update_value-moved :
    (ticks : ℕ) (kv : KeyValue)
    → ticks < 2 ^ 32
    → IsSafe ticks kv
    → update_value ticks kv.value ≡ some (moved_value ticks kv.value)
unfolding update_value
update_value-moved ticks kv small (bytes, fit) =
    let e = stored_entity kv.value in
    let ok = stored_entity-IsPacket kv.value bytes in
    rw
      (
        (decode_entity_total kv.value bytes).0,
        (advance_iff ticks e ok small (advanced ticks e)).1 (refl, fit),
      )
      refl

-- For fewer than 2 ^ 32 ticks and a stored value whose entity they do not carry past the ends of
-- an int64_t, a tick stores a value of a hundred bytes that decodes to the entity with its
-- position moved by exactly its velocity times the ticks and all else as it was.
pub update_value-decodes :
    (ticks : ℕ) (kv : KeyValue)
    → ticks < 2 ^ 32
    → IsSafe ticks kv
    → (value : List ℕ) × (update_value ticks kv.value ≡ some value)
      × (length value ≡ xr_packet_size)
      × (decode_entity value (length value) ≡ some (advanced ticks (stored_entity kv.value)))
update_value-decodes ticks kv small safe =
    let e = stored_entity kv.value in
    let moved_ok =
      advanced-IsPacket ticks e (stored_entity-IsPacket kv.value safe.0) small safe.1 in
    let (size, back) = decode_entity-encode_entity (advanced ticks e) moved_ok in
    (moved_value ticks kv.value, update_value-moved ticks kv small safe, size, back)

-- No time moves nothing.
moved_zero : (z v : ℤ) → z +ℤ moved v 0 ≡ z
moved_zero z v =
    eq_of_parts _ _ (omega (arith, *ℤ-pos_parts (vel_to_um_per_tick v) 0, +ℤ_parts z (moved v 0)))

pub advanced_zero : (p : EntityPacket) → advanced 0 p ≡ p
advanced_zero p = λ i. record p {
  pos_um_x = moved_zero p.pos_um_x p.vel_x i;
  pos_um_y = moved_zero p.pos_um_y p.vel_y i;
  pos_um_z = moved_zero p.pos_um_z p.vel_z i;
}

-- The entity that a tick stores.
pub stored_entity-moved_value :
    (ticks : ℕ) (kv : KeyValue)
    → ticks < 2 ^ 32
    → IsSafe ticks kv
    → stored_entity (moved_value ticks kv.value) ≡ advanced ticks (stored_entity kv.value)
stored_entity-moved_value ticks kv small (bytes, fit) =
    let p = advanced ticks (stored_entity kv.value) in
    let ok =
      advanced-IsPacket ticks (stored_entity kv.value) (stored_entity-IsPacket kv.value bytes) small
        fit in
    some-injective _ _ (
      sym (decode_entity_total (moved_value ticks kv.value) (encode_entity-IsBytes p ok)).0
      ∙ (decode_entity-encode_entity p ok).1)

pub length-moved_value :
    (ticks : ℕ) (kv : KeyValue)
    → ticks < 2 ^ 32
    → IsSafe ticks kv
    → length (moved_value ticks kv.value) ≡ xr_packet_size
length-moved_value ticks kv small (bytes, fit) =
    let p = stored_entity kv.value in
    (decode_entity-encode_entity (advanced ticks p)
      (advanced-IsPacket ticks p (stored_entity-IsPacket kv.value bytes) small fit)).0

-- The writes of a tick, in the order of the array.
abbrev pub writes : TickCtx → List KeyValue → List Call
writes ctx [] = []
writes ctx (kv ∷ kvs) = write ctx.tr kv.key (moved_value ctx.tick_count kv.value) ∷ writes ctx kvs

pub update_all-writes :
    (ctx : TickCtx) (kvs : List KeyValue) (s : State)
    → ctx.tick_count < 2 ^ 32
    → All (IsSafe ctx.tick_count) kvs
    → update_all ctx kvs s ≡ some (record s { calls = s.calls ++ writes ctx kvs })
unfolding update_all sync_set
update_all-writes ctx [] s small safe =
    ap (λ cs. some (record s { calls = cs })) (sym (append-nil s.calls))
update_all-writes ctx (kv ∷ kvs) s small safe =
    rw (update_value-moved ctx.tick_count kv small safe.0) (
      update_all-writes ctx kvs _ small safe.1
      ∙ ap (λ cs. some (record s { calls = cs })) (append_assoc s.calls _ _))
