-- ===== src/Packet.antt =====
-- src/gen/xr_grid_entity_packet.h and src/gen/xr_grid_entity_packet.c: the 100-byte entity packet.
-- A C integer of w bits is its value: a number below 2 ^ w, or an integer that fits.
pub mod Layout
pub mod Fields
pub mod Decode
pub mod RoundTrip
use gyreplane.Prelude.{
  ℕ, zero, suc, ◌+◌, ◌*◌, ◌/◌, ◌%◌, ◌^◌, ◌-◌, bit_and, bit_or, ◌<◌, ◌≡◌, Option, none, some, List,
  ◌++◌, ◌>>=◌, leb, if◌then◌else◌, length, get_elem?, set, take, drop, replicate,
}
use gyreplane.Prelude.Bytes.{u8, u16, u32, u64, IsBytes}
use gyreplane.Prelude.Int.{ℤ, half16, half64, Fits, to_word, of_word}

abbrev pub xr_packet_size : ℕ
xr_packet_size = 100

abbrev pub xr_packet_payload_offset : ℕ
xr_packet_payload_offset = 58

abbrev pub xr_packet_payload_len : ℕ
xr_packet_payload_len = xr_packet_size - xr_packet_payload_offset

-- Micrometers a tick at the top of the scale.
abbrev pub xr_packet_v_max : ℕ
xr_packet_v_max = 500000

pub record EntityPacket : Type 0 where
  pub global_id : ℕ
  pub pos_um_x : ℤ
  pub pos_um_y : ℤ
  pub pos_um_z : ℤ
  pub vel_x : ℤ
  pub vel_y : ℤ
  pub vel_z : ℤ
  pub hlc : ℕ
  pub class_owner : ℕ
  pub sub_index : ℕ
  pub rot_x : ℤ
  pub rot_y : ℤ
  pub rot_z : ℤ
  pub payload : List ℕ

-- The values that the C types can hold.
pub record IsPacket (p : EntityPacket) : Type 0 where
  pub global_id : p.global_id < 2 ^ 32
  pub pos_um_x : Fits half64 p.pos_um_x
  pub pos_um_y : Fits half64 p.pos_um_y
  pub pos_um_z : Fits half64 p.pos_um_z
  pub vel_x : Fits half16 p.vel_x
  pub vel_y : Fits half16 p.vel_y
  pub vel_z : Fits half16 p.vel_z
  pub hlc : p.hlc < 2 ^ 32
  pub class_owner : p.class_owner < 2 ^ 32
  pub sub_index : p.sub_index < 2 ^ 32
  pub rot_x : Fits half16 p.rot_x
  pub rot_y : Fits half16 p.rot_y
  pub rot_z : Fits half16 p.rot_z
  pub payload_len : length p.payload ≡ xr_packet_payload_len
  pub payload_bytes : IsBytes p.payload

-- The loop of `put_u32` and `put_i64` at index `i`, with `left` rounds to go. A write out of
-- range changes nothing; `encode` makes none.
pub put_loop : ℕ → ℕ → List ℕ → ℕ → ℕ → List ℕ
put_loop zero i b off v = b
put_loop (suc left) i b off v =
    put_loop left (i + 1) (set b (off + i) (u8 (bit_and (v / 2 ^ (i * 8)) 0xff))) off v

pub put_u32 : List ℕ → ℕ → ℕ → List ℕ
unfolding put_loop
put_u32 b off v = put_loop 4 0 b off v

pub put_i64 : List ℕ → ℕ → ℤ → List ℕ
unfolding put_loop
put_i64 b off v = put_loop 8 0 b off (to_word half64 v)

pub put_i16 : List ℕ → ℕ → ℤ → List ℕ
put_i16 b off v =
    let u = to_word half16 v in
    set (set b off (u8 (bit_and u 0xff))) (off + 1) (u8 (bit_and (u / 2 ^ 8) 0xff))

-- The loop of `get_u32` and `get_i64`, whose shifts are cut to the width that `cut` keeps.
-- `none` is a read out of range.
pub get_loop : (cut : ℕ → ℕ) → ℕ → ℕ → List ℕ → ℕ → ℕ → Option ℕ
get_loop cut zero i b off v = some v
get_loop cut (suc left) i b off v = do
  x ← get_elem? b (off + i)
  get_loop cut left (i + 1) b off (bit_or v (cut (x * 2 ^ (i * 8))))

pub get_u32 : List ℕ → ℕ → Option ℕ
unfolding get_loop
get_u32 b off = get_loop u32 4 0 b off 0

pub get_i64 : List ℕ → ℕ → Option ℤ
unfolding get_loop
get_i64 b off = do u ← get_loop u64 8 0 b off 0; some (of_word half64 u)

pub get_i16 : List ℕ → ℕ → Option ℤ
get_i16 b off = do
  x ← get_elem? b off
  y ← get_elem? b (off + 1)
  some (of_word half16 (u16 (bit_or x (y * 2 ^ 8))))

-- `memcpy(dst + off, src, n)`, with both ranges inside their arrays.
pub copy_to : List ℕ → ℕ → List ℕ → ℕ → List ℕ
copy_to dst off src n = take off dst ++ (take n src ++ drop (off + n) dst)

-- `memcpy(dst, src + off, n)` into an array of n bytes; `none` is a read out of range.
unfoldable pub copy_from : List ℕ → ℕ → ℕ → Option (List ℕ)
copy_from src off n = if leb (off + n) (length src) then some (take n (drop off src)) else none

pub encode : EntityPacket → List ℕ
unfolding put_u32 put_i64 put_i16 copy_to
encode p =
    let b = replicate xr_packet_size 0 in
    let b = put_u32 b 0 p.global_id in
    let b = put_i64 b 4 p.pos_um_x in
    let b = put_i64 b 12 p.pos_um_y in
    let b = put_i64 b 20 p.pos_um_z in
    let b = put_i16 b 28 p.vel_x in
    let b = put_i16 b 30 p.vel_y in
    let b = put_i16 b 32 p.vel_z in
    let b = put_u32 b 40 p.hlc in
    let b = put_u32 b 44 p.class_owner in
    let b = put_u32 b 48 p.sub_index in
    let b = put_i16 b 52 p.rot_x in
    let b = put_i16 b 54 p.rot_y in
    let b = put_i16 b 56 p.rot_z in
    copy_to b xr_packet_payload_offset p.payload xr_packet_payload_len

pub decode : List ℕ → Option EntityPacket
decode b = do
  global_id ← get_u32 b 0
  pos_um_x ← get_i64 b 4
  pos_um_y ← get_i64 b 12
  pos_um_z ← get_i64 b 20
  vel_x ← get_i16 b 28
  vel_y ← get_i16 b 30
  vel_z ← get_i16 b 32
  hlc ← get_u32 b 40
  class_owner ← get_u32 b 44
  sub_index ← get_u32 b 48
  rot_x ← get_i16 b 52
  rot_y ← get_i16 b 54
  rot_z ← get_i16 b 56
  payload ← copy_from b xr_packet_payload_offset xr_packet_payload_len
  some (record {
    global_id = global_id;
    pos_um_x = pos_um_x;
    pos_um_y = pos_um_y;
    pos_um_z = pos_um_z;
    vel_x = vel_x;
    vel_y = vel_y;
    vel_z = vel_z;
    hlc = hlc;
    class_owner = class_owner;
    sub_index = sub_index;
    rot_x = rot_x;
    rot_y = rot_y;
    rot_z = rot_z;
    payload = payload;
  })
