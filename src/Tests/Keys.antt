-- ===== src/Tests/Keys.antt =====
-- The keys of two zones and the values under them.
use gyreplane.Prelude.{
  ℕ, ◌<◌, ◌≡◌, ◌↔◌, refl, sym, ◌∙◌, some, [], ◌∷◌, arith, length, replicate, ltb,
}
use mathlib.Core.Option.{some-injective}
use gyreplane.Prelude.Bytes.{IsBytes, le_bytes, of_le, of_le-le_bytes}
use gyreplane.Packet.{IsPacket}
use gyreplane.Kv.{
  encode_u32_be, entity_key, Host, ZoneVal, zf_zone_val_size, zero_zone, encode_zone, decode_zone,
  zero_packet, encode_entity, decode_entity,
}
use gyreplane.Kv.KeyOrder.{key_lt}
use gyreplane.Kv.Integers.{key_lt-encode_u32_be}
use gyreplane.Kv.Range.{InZone, entity_key-InZone_iff}
use gyreplane.Kv.Values.{
  stored_entity, decode_entity_total, decode_entity-encode_entity, encode_entity-IsBytes,
  decode_zone-encode_zone,
}
use gyreplane.Tests.Packets.{ship, ship-IsPacket}

abbrev zone : ℕ
zone = 3

abbrev entity : ℕ
entity = 7

-- Most significant byte first.
encoded : encode_u32_be 0x01020304 ≡ 1 ∷ 2 ∷ 3 ∷ 4 ∷ []
unfolding encode_u32_be
encoded = refl

key_lt-encode_u32_be_example : key_lt (encode_u32_be 255) (encode_u32_be 256) ≡ ltb 255 256
key_lt-encode_u32_be_example = key_lt-encode_u32_be 255 256 (omega arith) (omega arith)

entity_key-InZone_iff_example :
    InZone 3 (entity_key 3 0xff000000) ↔ ((zone ≡ zone) × (0xff000000 < 0xff000000))
entity_key-InZone_iff_example =
    entity_key-InZone_iff 3 3 0xff000000 (omega arith) (omega arith) (omega arith)

-- The first key that the range of its own zone misses.
missed : ¬ (InZone 3 (entity_key 3 0xff000000))
missed h =
    let (same, below) =
      (entity_key-InZone_iff 3 3 0xff000000 (omega arith) (omega arith) (omega arith)).0 h in
    absurd (omega arith)

-- A stored value of three bytes.
decode_entity_total_example :
    (decode_entity (1 ∷ 2 ∷ 3 ∷ []) 3 ≡ some (stored_entity (1 ∷ 2 ∷ 3 ∷ [])))
    × IsPacket (stored_entity (1 ∷ 2 ∷ 3 ∷ []))
decode_entity_total_example = decode_entity_total (1 ∷ 2 ∷ 3 ∷ []) (omega arith)

-- It counts as the packet of zeros.
short_value : stored_entity (1 ∷ 2 ∷ 3 ∷ []) ≡ zero_packet
unfolding stored_entity
short_value = refl

pub ship_value-IsBytes : IsBytes (encode_entity ship)
ship_value-IsBytes = encode_entity-IsBytes ship ship-IsPacket

pub stored_ship : stored_entity (encode_entity ship) ≡ ship
stored_ship = some-injective _ _ (
    sym (decode_entity_total (encode_entity ship) ship_value-IsBytes).0
    ∙ (decode_entity-encode_entity ship ship-IsPacket).1)

-- A host that stores the least significant byte first.
little : Host
little = record {
  u32_bytes = le_bytes 4;
  u32_value = of_le;
  u32_length = λ v. refl;
  u32_again = λ v h. of_le-le_bytes 4 v h;
}

abbrev record_of_zone : ZoneVal
record_of_zone = record {
  authority_cap = 100;
  interest_cap = 50;
  cost = replicate 8 1;
  population = 3;
}

decode_zone-encode_zone_example :
    (length (encode_zone little record_of_zone) ≡ zf_zone_val_size)
    × (decode_zone little
          (encode_zone little record_of_zone)
          (length (encode_zone little record_of_zone))
        ≡ some record_of_zone)
    × (decode_zone little (1 ∷ []) 1 ≡ some zero_zone)
decode_zone-encode_zone_example =
    decode_zone-encode_zone little record_of_zone (1 ∷ []) (omega arith) (omega arith) refl
      (omega arith) (omega arith)
