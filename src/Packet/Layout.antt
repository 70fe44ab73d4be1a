-- ===== src/Packet/Layout.antt =====
-- `xr_grid_entity_packet_encode` against the field table of the header.
use mathlib.Core.List.{append-nil}
use gyreplane.Prelude.{
  ℕ, ◌/◌, ◌%◌, ◌^◌, ◌≡◌, ap, ap₂, List, ◌∷◌, ◌++◌, arith, bit_and, take, replicate,
}
use gyreplane.Prelude.Bits.{bit_and_byte}
use gyreplane.Prelude.Bytes.{le_bytes, u8}
use gyreplane.Prelude.Int.{to_word, half16, half64}
use gyreplane.Packet.{EntityPacket, xr_packet_payload_len, encode}

-- The table: each field little-endian at its offset, six zero bytes at 34 and the payload at 58.
unfoldable pub layout : EntityPacket → List ℕ
layout p =
    le_bytes 4 p.global_id
    ++ (le_bytes 8 (to_word half64 p.pos_um_x)
        ++ (le_bytes 8 (to_word half64 p.pos_um_y)
            ++ (le_bytes 8 (to_word half64 p.pos_um_z)
                ++ (le_bytes 2 (to_word half16 p.vel_x)
                    ++ (le_bytes 2 (to_word half16 p.vel_y)
                        ++ (le_bytes 2 (to_word half16 p.vel_z)
                            ++ (replicate 6 0
                                ++ (le_bytes 4 p.hlc
                                    ++ (le_bytes 4 p.class_owner
                                        ++ (le_bytes 4 p.sub_index
                                            ++ (le_bytes 2 (to_word half16 p.rot_x)
                                                ++ (le_bytes 2 (to_word half16 p.rot_y)
                                                    ++ (le_bytes 2 (to_word half16 p.rot_z)
                                                        ++ take xr_packet_payload_len
                                                            p.payload)))))))))))))

-- The byte that the loop writes at index `i`.
abbrev stored : ℕ → ℕ → ℕ
stored v d = u8 (bit_and (v / d) 0xff)

stored_eq : (v d q : ℕ) → v / d ≡ q → stored v d ≡ q % 256
stored_eq v d q e = omega (arith, bit_and_byte (v / d))

module _ (v : ℕ) {xs ys : List ℕ} (rest : xs ≡ ys) where
  four :
      stored v 1 ∷ stored v (256 ^ 1) ∷ stored v (256 ^ 2) ∷ stored v (256 ^ 3) ∷ xs
      ≡ le_bytes 4 v ++ ys
  four = ap₂ ◌∷◌ (stored_eq v 1 _ (omega arith)) (
      ap₂ ◌∷◌ (stored_eq v (256 ^ 1) _ (omega arith)) (
        ap₂ ◌∷◌ (stored_eq v (256 ^ 2) _ (omega arith))
          (ap₂ ◌∷◌ (stored_eq v (256 ^ 3) _ (omega arith)) rest)))

  two : u8 (bit_and v 0xff) ∷ stored v (256 ^ 1) ∷ xs ≡ le_bytes 2 v ++ ys
  two =
      ap₂ ◌∷◌ (omega (arith, bit_and_byte v)) (ap₂ ◌∷◌ (stored_eq v (256 ^ 1) _ (omega arith)) rest)

module _ (v : ℕ) {xs ys : List ℕ} (rest : xs ≡ ys) where
  eight :
      stored v 1
        ∷ stored v (256 ^ 1)
        ∷ stored v (256 ^ 2)
        ∷ stored v (256 ^ 3)
        ∷ stored v (256 ^ 4)
        ∷ stored v (256 ^ 5)
        ∷ stored v (256 ^ 6)
        ∷ stored v (256 ^ 7)
        ∷ xs
      ≡ le_bytes 8 v ++ ys
  eight = ap₂ ◌∷◌ (stored_eq v 1 _ (omega arith)) (
      ap₂ ◌∷◌ (stored_eq v (256 ^ 1) _ (omega arith)) (
        ap₂ ◌∷◌ (stored_eq v (256 ^ 2) _ (omega arith))
          (ap₂ ◌∷◌ (stored_eq v (256 ^ 3) _ (omega arith)) upper)))
    where
      upper :
          stored v (256 ^ 4) ∷ stored v (256 ^ 5) ∷ stored v (256 ^ 6) ∷ stored v (256 ^ 7) ∷ xs
          ≡ le_bytes 4 (v / 256 / 256 / 256 / 256) ++ ys
      upper = ap₂ ◌∷◌ (stored_eq v (256 ^ 4) _ (omega arith)) (
          ap₂ ◌∷◌ (stored_eq v (256 ^ 5) _ (omega arith)) (
            ap₂ ◌∷◌ (stored_eq v (256 ^ 6) _ (omega arith))
              (ap₂ ◌∷◌ (stored_eq v (256 ^ 7) _ (omega arith)) rest)))

-- The encoder writes exactly the field table, for every value of the fields: each field
-- little-endian at its offset, zeros at 34 to 39, and the first 42 payload bytes at 58.
pub encode-layout : (p : EntityPacket) → encode p ≡ layout p
unfolding encode layout
encode-layout p = four _ (
    eight _ (
      eight _ (
        eight _ (
          two _ (
            two _ (
              two _ (
                ap six_zeros
                  (four _ (four _ (four _ (two _ (two _ (two _ (append-nil _))))))))))))))
  where
    six_zeros : List ℕ → List ℕ
    six_zeros xs = replicate 6 0 ++ xs
