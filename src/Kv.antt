-- ===== src/Kv.antt =====
-- src/zf_kv.h and src/zf_kv.c: the keys and values of the zone's entities in FoundationDB.
-- A key builder is the bytes that it writes; the length that the C returns is the list's.
pub mod KeyOrder
pub mod Integers
pub mod Range
pub mod Values
use gyreplane.Prelude.{
  ℕ, ◌+◌, ◌*◌, ◌/◌, ◌^◌, ◌<◌, ◌≡◌, bit_and, bit_or, Option, none, some, List, [], ◌∷◌, ◌++◌, ◌>>=◌,
  leb, if◌then◌else◌, length, get_elem?, replicate,
}
use gyreplane.Prelude.Bytes.{u8, u32, IsBytes}
use gyreplane.Prelude.Int.{pos}
use gyreplane.Packet.{
  EntityPacket, xr_packet_size, xr_packet_payload_len, encode, decode, copy_from,
}

-- "zf/zone/"
abbrev pub ss_zf_zone : List ℕ
ss_zf_zone = b'z' ∷ b'f' ∷ b'/' ∷ b'z' ∷ b'o' ∷ b'n' ∷ b'e' ∷ b'/' ∷ []

-- "zf/entity/"
abbrev pub ss_zf_entity : List ℕ
ss_zf_entity = b'z' ∷ b'f' ∷ b'/' ∷ b'e' ∷ b'n' ∷ b't' ∷ b'i' ∷ b't' ∷ b'y' ∷ b'/' ∷ []

unfoldable pub encode_u32_be : ℕ → List ℕ
encode_u32_be val =
    u8 (bit_and (val / 2 ^ 24) 0xff)
    ∷ u8 (bit_and (val / 2 ^ 16) 0xff)
    ∷ u8 (bit_and (val / 2 ^ 8) 0xff)
    ∷ u8 (bit_and val 0xff)
    ∷ []

-- `none` is a read out of range.
pub decode_u32_be : List ℕ → Option ℕ
decode_u32_be buf = do
  a ← get_elem? buf 0
  b ← get_elem? buf 1
  c ← get_elem? buf 2
  d ← get_elem? buf 3
  some (bit_or (bit_or (bit_or (u32 (a * 2 ^ 24)) (u32 (b * 2 ^ 16))) (u32 (c * 2 ^ 8))) d)

pub zone_key : ℕ → List ℕ
zone_key z_id = ss_zf_zone ++ encode_u32_be z_id

unfoldable pub entity_range_begin : ℕ → List ℕ
entity_range_begin z_id = ss_zf_entity ++ (encode_u32_be z_id ++ b'/' ∷ [])

unfoldable pub entity_range_end : ℕ → List ℕ
entity_range_end z_id = entity_range_begin z_id ++ 0xff ∷ []

unfoldable pub entity_key : ℕ → ℕ → List ℕ
entity_key z_id e_id = ss_zf_entity ++ (encode_u32_be z_id ++ b'/' ∷ encode_u32_be e_id)

-- Byte order of the machine that the server runs on.
pub record Host : Type 0 where
  pub u32_bytes : ℕ → List ℕ
  pub u32_value : List ℕ → ℕ
  pub u32_length : (v : ℕ) → length (u32_bytes v) ≡ 4
  pub u32_again : (v : ℕ) → v < 2 ^ 32 → u32_value (u32_bytes v) ≡ v

-- `cost` is a double, kept as its eight bytes.
pub record ZoneVal : Type 0 where
  pub authority_cap : ℕ
  pub interest_cap : ℕ
  pub cost : List ℕ
  pub population : ℕ

abbrev pub zf_zone_val_size : ℕ
zf_zone_val_size = 20

abbrev pub zero_zone : ZoneVal
zero_zone = record { authority_cap = 0; interest_cap = 0; cost = replicate 8 0; population = 0 }

module _ (host : Host) where
  -- The packed struct's bytes.
  pub encode_zone : ZoneVal → List ℕ
  encode_zone val =
      host.u32_bytes val.authority_cap
      ++ (host.u32_bytes val.interest_cap ++ (val.cost ++ host.u32_bytes val.population))

  pub decode_zone : List ℕ → ℕ → Option ZoneVal
  decode_zone buf len =
      if leb zf_zone_val_size len
      then (do
        authority_cap ← copy_from buf 0 4
        interest_cap ← copy_from buf 4 4
        cost ← copy_from buf 8 8
        population ← copy_from buf 16 4
        some (record {
          authority_cap = host.u32_value authority_cap;
          interest_cap = host.u32_value interest_cap;
          cost = cost;
          population = host.u32_value population;
        }))
      else some zero_zone

-- The packet that `memset` leaves.
abbrev pub zero_packet : EntityPacket
zero_packet = record {
  global_id = 0;
  pos_um_x = pos 0;
  pos_um_y = pos 0;
  pos_um_z = pos 0;
  vel_x = pos 0;
  vel_y = pos 0;
  vel_z = pos 0;
  hlc = 0;
  class_owner = 0;
  sub_index = 0;
  rot_x = pos 0;
  rot_y = pos 0;
  rot_z = pos 0;
  payload = replicate xr_packet_payload_len 0;
}

pub encode_entity : EntityPacket → List ℕ
encode_entity val = encode val

pub decode_entity : List ℕ → ℕ → Option EntityPacket
decode_entity buf len = if leb xr_packet_size len then decode buf else some zero_packet
