-- ===== src/Packet/Decode.antt =====
-- `xr_grid_entity_packet_decode` against the field table of the header.
use gyreplane.Prelude.{
  ℕ, ◌≤◌, ◌<◌, ◌≡◌, refl, Option, none, some, List, ◌++◌, arith, length, ◌>>=◌, le→leb,
}
use gyreplane.Prelude.Bytes.{IsBytes, of_le}
use gyreplane.Prelude.Int.{of_word, half16, half64}
use gyreplane.Packet.{
  EntityPacket, get_u32, get_i64, get_i16, xr_packet_size, xr_packet_payload_len,
  xr_packet_payload_offset, copy_from, decode,
}
use gyreplane.Packet.Fields.{slice, slice-append, get_u32-of_le, get_i64-of_le, get_i16-of_le}

-- The table: what each field of the packet in `b` is.
unfoldable pub view : List ℕ → EntityPacket
view b = record {
  global_id = of_le (slice 0 4 b);
  pos_um_x = of_word half64 (of_le (slice 4 8 b));
  pos_um_y = of_word half64 (of_le (slice 12 8 b));
  pos_um_z = of_word half64 (of_le (slice 20 8 b));
  vel_x = of_word half16 (of_le (slice 28 2 b));
  vel_y = of_word half16 (of_le (slice 30 2 b));
  vel_z = of_word half16 (of_le (slice 32 2 b));
  hlc = of_le (slice 40 4 b);
  class_owner = of_le (slice 44 4 b);
  sub_index = of_le (slice 48 4 b);
  rot_x = of_word half16 (of_le (slice 52 2 b));
  rot_y = of_word half16 (of_le (slice 54 2 b));
  rot_z = of_word half16 (of_le (slice 56 2 b));
  payload = slice xr_packet_payload_offset xr_packet_payload_len b;
}

-- The packet is that in the first hundred bytes.
pub view-append : (xs ys : List ℕ) → xr_packet_size ≤ length xs → view (xs ++ ys) ≡ view xs
unfolding view
view-append xs ys long = λ i. record {
  global_id = of_le (slice-append 0 4 xs ys (omega arith) i);
  pos_um_x = of_word half64 (of_le (slice-append 4 8 xs ys (omega arith) i));
  pos_um_y = of_word half64 (of_le (slice-append 12 8 xs ys (omega arith) i));
  pos_um_z = of_word half64 (of_le (slice-append 20 8 xs ys (omega arith) i));
  vel_x = of_word half16 (of_le (slice-append 28 2 xs ys (omega arith) i));
  vel_y = of_word half16 (of_le (slice-append 30 2 xs ys (omega arith) i));
  vel_z = of_word half16 (of_le (slice-append 32 2 xs ys (omega arith) i));
  hlc = of_le (slice-append 40 4 xs ys (omega arith) i);
  class_owner = of_le (slice-append 44 4 xs ys (omega arith) i);
  sub_index = of_le (slice-append 48 4 xs ys (omega arith) i);
  rot_x = of_word half16 (of_le (slice-append 52 2 xs ys (omega arith) i));
  rot_y = of_word half16 (of_le (slice-append 54 2 xs ys (omega arith) i));
  rot_z = of_word half16 (of_le (slice-append 56 2 xs ys (omega arith) i));
  payload = slice-append xr_packet_payload_offset xr_packet_payload_len xs ys (omega arith) i;
}

-- From a buffer of at least 100 bytes the decoder reads nothing out of range, and gives each field
-- the little-endian value, in two's complement where it is signed, of the bytes at its offset.
pub decode-view : (b : List ℕ) → xr_packet_size ≤ length b → IsBytes b → decode b ≡ some (view b)
unfolding decode view copy_from
decode-view b long bytes =
    rw
      (
        get_u32-of_le b 0 bytes (omega arith),
        get_i64-of_le b 4 bytes (omega arith),
        get_i64-of_le b 12 bytes (omega arith),
        get_i64-of_le b 20 bytes (omega arith),
        get_i16-of_le b 28 bytes (omega arith),
        get_i16-of_le b 30 bytes (omega arith),
        get_i16-of_le b 32 bytes (omega arith),
        get_u32-of_le b 40 bytes (omega arith),
        get_u32-of_le b 44 bytes (omega arith),
        get_u32-of_le b 48 bytes (omega arith),
        get_i16-of_le b 52 bytes (omega arith),
        get_i16-of_le b 54 bytes (omega arith),
        get_i16-of_le b 56 bytes (omega arith),
        le→leb 100 (length b) long,
      )
      refl

module _ {A B : Type 0} where
  none_after : (m : Option A) (k : A → Option B) → ((a : A) → k a ≡ none) → (m >>= k) ≡ none
  none_after none k h = refl
  none_after (some a) k h = h a

short_payload : (b : List ℕ) → length b < xr_packet_size → copy_from b 58 42 ≡ none
unfolding copy_from
short_payload b short = ground arith

-- From a shorter buffer the decoder would read out of range.
pub decode_short : (b : List ℕ) → length b < xr_packet_size → decode b ≡ none
unfolding decode
decode_short b short = none_after (get_u32 b 0) _ λ _. none_after (get_i64 b 4) _ λ _.
    none_after (get_i64 b 12) _ λ _. none_after (get_i64 b 20) _ λ _.
      none_after (get_i16 b 28) _ λ _. none_after (get_i16 b 30) _ λ _.
        none_after (get_i16 b 32) _ λ _. none_after (get_u32 b 40) _ λ _.
          none_after (get_u32 b 44) _ λ _. none_after (get_u32 b 48) _ λ _.
            none_after (get_i16 b 52) _ λ _.
              none_after (get_i16 b 54) _
                λ _. none_after (get_i16 b 56) _ λ _. rw (short_payload b short) refl
