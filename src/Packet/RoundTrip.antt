-- ===== src/Packet/RoundTrip.antt =====
-- Encoding and decoding undo each other, but for the six bytes of the wire that no field owns.
use mathlib.Core.List.{append_assoc}
use gyreplane.Prelude.{
  ℕ, ◌+◌, ◌%◌, ◌^◌, ◌≤◌, ◌<◌, ◌≡◌, ap, ap₂, sym, subst, All-take, All-drop, ◌∙◌, some, List, ◌++◌,
  arith, length, take, drop, replicate, take-append-drop, take-take-drop, take_all, length-take,
  length-drop, drop-drop,
}
use gyreplane.Prelude.Bytes.{
  IsBytes, IsByte, of_le, le_bytes, of_le-le_bytes, le_bytes-of_le, of_le-lt,
}
use gyreplane.Prelude.Int.{
  ℤ, Fits, of_word, to_word, half16, half64, of_word-to_word16, of_word-to_word64,
  to_word-of_word16, to_word-of_word64, of_word16-Fits, of_word64-Fits, to_word16-lt, to_word64-lt,
}
use gyreplane.Packet.{EntityPacket, IsPacket, xr_packet_size, encode, decode}
use gyreplane.Packet.Layout.{layout, encode-layout}
use gyreplane.Packet.Fields.{slice}
use gyreplane.Packet.Decode.{view, decode-view}

u32_back : (v : ℕ) → v < 2 ^ 32 → of_le (le_bytes 4 v) ≡ v
u32_back v h = of_le-le_bytes 4 v h

i64_back : (z : ℤ) → Fits half64 z → of_word half64 (of_le (le_bytes 8 (to_word half64 z))) ≡ z
i64_back z h = ap (of_word half64) (of_le-le_bytes 8 _ (to_word64-lt z)) ∙ of_word-to_word64 z h

i16_back : (z : ℤ) → Fits half16 z → of_word half16 (of_le (le_bytes 2 (to_word half16 z))) ≡ z
i16_back z h = ap (of_word half16) (of_le-le_bytes 2 _ (to_word16-lt z)) ∙ of_word-to_word16 z h

view-layout : (p : EntityPacket) → IsPacket p → view (layout p) ≡ p
unfolding view layout
view-layout p ok = λ i. record {
  global_id = u32_back p.global_id ok.global_id i;
  pos_um_x = i64_back p.pos_um_x ok.pos_um_x i;
  pos_um_y = i64_back p.pos_um_y ok.pos_um_y i;
  pos_um_z = i64_back p.pos_um_z ok.pos_um_z i;
  vel_x = i16_back p.vel_x ok.vel_x i;
  vel_y = i16_back p.vel_y ok.vel_y i;
  vel_z = i16_back p.vel_z ok.vel_z i;
  hlc = u32_back p.hlc ok.hlc i;
  class_owner = u32_back p.class_owner ok.class_owner i;
  sub_index = u32_back p.sub_index ok.sub_index i;
  rot_x = i16_back p.rot_x ok.rot_x i;
  rot_y = i16_back p.rot_y ok.rot_y i;
  rot_z = i16_back p.rot_z ok.rot_z i;
  payload = payload_back i;
}
  where
    payload_back : take 42 (take 42 p.payload) ≡ p.payload
    payload_back =
        take_all 42 (take 42 p.payload)
          (subst (λ n. n ≤ 42) (sym (length-take 42 p.payload (omega arith))) (omega arith))
        ∙ take_all 42 p.payload (omega arith)

-- The bytes of the table are bytes, a hundred of them.
byte_lt : (v : ℕ) → v % 256 < 256
byte_lt v = omega arith

zero_fits : 0 < 256
zero_fits = omega arith

layout-IsBytes : (p : EntityPacket) → IsPacket p → IsBytes (layout p)
unfolding layout
layout-IsBytes p ok =
    let tail : IsBytes (take 42 p.payload) = All-take IsByte 42 p.payload ok.payload_bytes in
    search (byte_lt, zero_fits, tail)

length-layout : (p : EntityPacket) → IsPacket p → length (layout p) ≡ 100
unfolding layout
length-layout p ok = omega (arith, length-take 42 p.payload (omega arith))

pub encode_shape : (p : EntityPacket) → IsPacket p → (length (encode p) ≡ 100) × IsBytes (encode p)
encode_shape p ok = rw (encode-layout p) (length-layout p ok, layout-IsBytes p ok)

-- Decoding an encoded packet gives the packet back, if each field holds a value of its C type.
pub decode-encode : (p : EntityPacket) → IsPacket p → decode (encode p) ≡ some p
decode-encode p ok = rw (encode-layout p) (
    decode-view (layout p) (subst (λ n. 100 ≤ n) (sym (length-layout p ok)) (omega arith))
      (layout-IsBytes p ok)
    ∙ ap some (view-layout p ok))

-- What re-encoding gives: the buffer with its six bytes that no field owns set to zero.
abbrev pub canonical : List ℕ → List ℕ
canonical b = take 34 b ++ (replicate 6 0 ++ drop 40 b)

module _ (b : List ℕ) (bytes : IsBytes b) where
  slice-IsBytes : (off n : ℕ) → IsBytes (slice off n b)
  slice-IsBytes off n = All-take IsByte n (drop off b) (All-drop IsByte off b bytes)

  length-slice : (off n : ℕ) → off + n ≤ length b → length (slice off n b) ≡ n
  length-slice off n h = length-take n (drop off b) (omega (arith, length-drop off b))

  slice_lt : (off n : ℕ) → off + n ≤ length b → of_le (slice off n b) < 256 ^ n
  slice_lt off n h =
      subst (λ k. of_le (slice off n b) < 256 ^ k) (length-slice off n h)
        (of_le-lt (slice off n b) (slice-IsBytes off n))

  u32_again : (off n : ℕ) → off + n ≤ length b → le_bytes n (of_le (slice off n b)) ≡ slice off n b
  u32_again off n h =
      ap (λ (k : ℕ). le_bytes k (of_le (slice off n b))) (sym (length-slice off n h))
      ∙ le_bytes-of_le (slice off n b) (slice-IsBytes off n)

  i64_again :
      (off : ℕ)
      → off + 8 ≤ length b
      → le_bytes 8 (to_word half64 (of_word half64 (of_le (slice off 8 b)))) ≡ slice off 8 b
  i64_again off h = ap (le_bytes 8) (to_word-of_word64 _ (slice_lt off 8 h)) ∙ u32_again off 8 h

  i16_again :
      (off : ℕ)
      → off + 2 ≤ length b
      → le_bytes 2 (to_word half16 (of_word half16 (of_le (slice off 2 b)))) ≡ slice off 2 b
  i16_again off h = ap (le_bytes 2) (to_word-of_word16 _ (slice_lt off 2 h)) ∙ u32_again off 2 h

-- A field in front of what follows it, up to the end of the list or to a stop.
to_end :
    (b : List ℕ) (off n : ℕ) {xs ys : List ℕ}
    → xs ≡ slice off n b
    → ys ≡ drop (off + n) b
    → xs ++ ys ≡ drop off b
to_end b off n e f = ap₂ ◌++◌ e (f ∙ sym (drop-drop off n b)) ∙ take-append-drop n (drop off b)

to_stop :
    (b t : List ℕ) (off n m : ℕ) {xs ys : List ℕ}
    → xs ≡ slice off n b
    → ys ≡ slice (off + n) m b ++ t
    → xs ++ ys ≡ slice off (n + m) b ++ t
to_stop b t off n m e f =
    ap₂ ◌++◌ e f
    ∙ sym (append_assoc (slice off n b) (slice (off + n) m b) t)
    ∙ ap (λ zs. zs ++ t)
        (ap (λ zs. slice off n b ++ take m zs) (sym (drop-drop off n b))
          ∙ take-take-drop n m (drop off b))

payload_again : (b : List ℕ) → length b ≡ 100 → take 42 (slice 58 42 b) ≡ drop 58 b
payload_again b size = ap (take 42) whole ∙ whole
  where
    whole : take 42 (drop 58 b) ≡ drop 58 b
    whole = take_all 42 (drop 58 b) (omega (arith, length-drop 58 b))

-- The encoder puts every field of a 100-byte buffer back where the decoder read it.
encode-view : (b : List ℕ) → length b ≡ 100 → IsBytes b → encode (view b) ≡ canonical b
unfolding view layout
encode-view b size bytes =
    encode-layout (view b)
    ∙ to_stop b rest 0 4 30 (u32_again b bytes 0 4 (omega arith)) (
        to_stop b rest 4 8 22 (i64_again b bytes 4 (omega arith)) (
          to_stop b rest 12 8 14 (i64_again b bytes 12 (omega arith)) (
            to_stop b rest 20 8 6 (i64_again b bytes 20 (omega arith)) (
              to_stop b rest 28 2 4 (i16_again b bytes 28 (omega arith)) (
                to_stop b rest 30 2 2 (i16_again b bytes 30 (omega arith)) (
                  ap₂ ◌++◌ (i16_again b bytes 32 (omega arith))
                    (ap (λ xs. replicate 6 0 ++ xs) back)))))))
  where
    rest : List ℕ
    rest = replicate 6 0 ++ drop 40 b

    back :
        le_bytes 4 (of_le (slice 40 4 b))
          ++ (le_bytes 4 (of_le (slice 44 4 b))
              ++ (le_bytes 4 (of_le (slice 48 4 b))
                  ++ (le_bytes 2 (to_word half16 (of_word half16 (of_le (slice 52 2 b))))
                      ++ (le_bytes 2 (to_word half16 (of_word half16 (of_le (slice 54 2 b))))
                          ++ (le_bytes 2 (to_word half16 (of_word half16 (of_le (slice 56 2 b))))
                              ++ take 42 (slice 58 42 b))))))
        ≡ drop 40 b
    back = to_end b 40 4 (u32_again b bytes 40 4 (omega arith)) (
        to_end b 44 4 (u32_again b bytes 44 4 (omega arith)) (
          to_end b 48 4 (u32_again b bytes 48 4 (omega arith)) (
            to_end b 52 2 (i16_again b bytes 52 (omega arith)) (
              to_end b 54 2 (i16_again b bytes 54 (omega arith))
                (to_end b 56 2 (i16_again b bytes 56 (omega arith)) (payload_again b size))))))

pub view-IsPacket : (b : List ℕ) → 100 ≤ length b → IsBytes b → IsPacket (view b)
unfolding view
view-IsPacket b long bytes = record {
  global_id = slice_lt b bytes 0 4 (omega arith);
  pos_um_x = of_word64-Fits _ (slice_lt b bytes 4 8 (omega arith));
  pos_um_y = of_word64-Fits _ (slice_lt b bytes 12 8 (omega arith));
  pos_um_z = of_word64-Fits _ (slice_lt b bytes 20 8 (omega arith));
  vel_x = of_word16-Fits _ (slice_lt b bytes 28 2 (omega arith));
  vel_y = of_word16-Fits _ (slice_lt b bytes 30 2 (omega arith));
  vel_z = of_word16-Fits _ (slice_lt b bytes 32 2 (omega arith));
  hlc = slice_lt b bytes 40 4 (omega arith);
  class_owner = slice_lt b bytes 44 4 (omega arith);
  sub_index = slice_lt b bytes 48 4 (omega arith);
  rot_x = of_word16-Fits _ (slice_lt b bytes 52 2 (omega arith));
  rot_y = of_word16-Fits _ (slice_lt b bytes 54 2 (omega arith));
  rot_z = of_word16-Fits _ (slice_lt b bytes 56 2 (omega arith));
  payload_len = length-slice b bytes 58 42 (omega arith);
  payload_bytes = slice-IsBytes b bytes 58 42;
}

-- Any 100 bytes decode to a packet whose fields fit their C types, and encoding that packet gives
-- the same bytes but for the six at 34 to 39, which become zero.
pub encode-decode :
    (b : List ℕ)
    → length b ≡ xr_packet_size
    → IsBytes b
    → (p : EntityPacket) × (decode b ≡ some p) × IsPacket p × (encode p ≡ canonical b)
encode-decode b size bytes = (
  view b,
  decode-view b (omega arith) bytes,
  view-IsPacket b (omega arith) bytes,
  encode-view b size bytes,
)
