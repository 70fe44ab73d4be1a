-- ===== src/Tests/Packets.antt =====
-- The entity packet, its motion and its stored value on one entity.
use gyreplane.Prelude.{ℕ, ◌^◌, ◌<◌, ◌≡◌, ◌↔◌, refl, some, List, arith, replicate}
use gyreplane.Prelude.Bytes.{IsBytes}
use gyreplane.Prelude.Int.{pos, negsuc, ◌+ℤ◌}
use gyreplane.Packet.{EntityPacket, IsPacket, encode, decode}
use gyreplane.Packet.RoundTrip.{decode-encode, encode-decode, canonical}
use gyreplane.Motion.{vel_to_um_per_tick, advance}
use gyreplane.Packet.Layout.{layout, encode-layout}
use gyreplane.Motion.Advance.{advanced, InBounds, advance_iff, advance_room}

-- An entity with the fastest velocity forwards and the lowest one.
abbrev pub ship : EntityPacket
ship = record {
  global_id = 7;
  pos_um_x = pos 1000;
  pos_um_y = negsuc 1;
  pos_um_z = pos 0;
  vel_x = pos 32767;
  vel_y = negsuc 32767;
  vel_z = pos 1;
  hlc = 9;
  class_owner = 4294967295;
  sub_index = 2;
  rot_x = negsuc 0;
  rot_y = pos 3;
  rot_z = pos 4;
  payload = replicate 42 5;
}

pub ship-IsPacket : IsPacket ship
ship-IsPacket = record {
  global_id = omega arith;
  pos_um_x = omega arith;
  pos_um_y = omega arith;
  pos_um_z = omega arith;
  vel_x = omega arith;
  vel_y = omega arith;
  vel_z = omega arith;
  hlc = omega arith;
  class_owner = omega arith;
  sub_index = omega arith;
  rot_x = omega arith;
  rot_y = omega arith;
  rot_z = omega arith;
  payload_len = refl;
  payload_bytes = omega arith;
}

decode-encode_example : decode (encode ship) ≡ some ship
decode-encode_example = decode-encode ship ship-IsPacket

-- A buffer with every byte set.
abbrev full : List ℕ
full = replicate 100 255

full-IsBytes : IsBytes full
full-IsBytes = omega arith

encode-decode_example :
    (p : EntityPacket) × (decode full ≡ some p) × IsPacket p × (encode p ≡ canonical full)
encode-decode_example = encode-decode full refl full-IsBytes

-- The lowest velocity overshoots the scale.
lowest_velocity : vel_to_um_per_tick (negsuc 32767) ≡ negsuc 500014
unfolding vel_to_um_per_tick
lowest_velocity = refl

advance_iff_example :
    (advance 2 ship ≡ some (advanced 2 ship))
    ↔ ((advanced 2 ship ≡ advanced 2 ship) × InBounds (advanced 2 ship))
advance_iff_example = advance_iff 2 ship ship-IsPacket (omega arith) (advanced 2 ship)

pub ship-advances :
    (ticks : ℕ)
    → ticks < 2 ^ 32
    → (advance ticks ship ≡ some (advanced ticks ship)) × IsPacket (advanced ticks ship)
ship-advances ticks small =
    advance_room ticks ship ship-IsPacket small (omega arith) (omega arith) (omega arith)

advance_room_example : (advance 2 ship ≡ some (advanced 2 ship)) × IsPacket (advanced 2 ship)
advance_room_example =
    advance_room 2 ship ship-IsPacket (omega arith) (omega arith) (omega arith) (omega arith)

pub ship-InBounds : (ticks : ℕ) → ticks < 2 ^ 32 → InBounds (advanced ticks ship)
ship-InBounds ticks small =
    ((advance_iff ticks ship ship-IsPacket small (advanced ticks ship)).0
      (ship-advances ticks small).0).1

ship-advances_again : advance 2 (advanced 1 ship) ≡ some (advanced 2 (advanced 1 ship))
unfolding vel_to_um_per_tick ◌+ℤ◌
ship-advances_again =
    (advance_room 2 (advanced 1 ship) (ship-advances 1 (omega arith)).1 (omega arith) (omega arith)
      (omega arith) (omega arith)).0

encode-layout_example : encode ship ≡ layout ship
encode-layout_example = encode-layout ship
