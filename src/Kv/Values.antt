-- ===== src/Kv/Values.antt =====
-- The stored values: the zone record in host byte order, and the entity's wire packet.
use mathlib.Core.List.{append-nil, append_assoc}
use gyreplane.Prelude.{
  ℕ, ◌+◌, ◌^◌, ◌≤◌, ◌<◌, ◌≡◌, refl, ap, sym, ◌∙◌, subst, All-append, some, List, [], ◌++◌, arith,
  length, length-append, leb, le→leb, leb→le, take-append, drop-append, if◌then◌else◌, Bool-cases,
  inl, inr, false,
}
use mathlib.Core.Option.{some-injective}
use gyreplane.Prelude.Bytes.{IsByte, IsBytes}
use gyreplane.Packet.{EntityPacket, IsPacket, xr_packet_size, encode, copy_from}
use gyreplane.Packet.RoundTrip.{decode-encode, encode_shape, view-IsPacket}
use gyreplane.Packet.Decode.{view, view-append, decode-view}
use gyreplane.Kv.{
  Host, ZoneVal, zf_zone_val_size, zero_zone, encode_zone, decode_zone, zero_packet, encode_entity,
  decode_entity,
}

-- The stored value of an entity is a hundred bytes, and decodes to the entity.
pub decode_entity-encode_entity :
    (p : EntityPacket)
    → IsPacket p
    → (length (encode_entity p) ≡ xr_packet_size)
      × (decode_entity (encode_entity p) (length (encode_entity p)) ≡ some p)
unfolding encode_entity decode_entity
decode_entity-encode_entity p ok =
    ((encode_shape p ok).0, rw (le→leb _ _ long) (decode-encode p ok))
  where
    long : 100 ≤ length (encode p)
    long = omega (arith, (encode_shape p ok).0)

pub encode_entity-IsBytes : (p : EntityPacket) → IsPacket p → IsBytes (encode_entity p)
unfolding encode_entity
encode_entity-IsBytes p ok = (encode_shape p ok).1

-- What a stored value stands for: the packet in it, or the packet of zeros if it is too short.
unfoldable pub stored_entity : List ℕ → EntityPacket
stored_entity b = if leb xr_packet_size (length b) then view b else zero_packet

pub zero_packet-IsPacket : IsPacket zero_packet
zero_packet-IsPacket = record {
  global_id = omega arith;
  pos_um_x = omega arith;
  pos_um_y = omega arith;
  pos_um_z = omega arith;
  vel_x = omega arith;
  vel_y = omega arith;
  vel_z = omega arith;
  hlc = omega arith;
  class_owner = omega arith;
  sub_index = omega arith;
  rot_x = omega arith;
  rot_y = omega arith;
  rot_z = omega arith;
  payload_len = refl;
  payload_bytes = omega arith;
}

pub stored_entity-IsPacket : (b : List ℕ) → IsBytes b → IsPacket (stored_entity b)
unfolding stored_entity
stored_entity-IsPacket b bytes = elim (Bool-cases (leb 100 (length b))) [
  | inl long ↦ rw long (view-IsPacket b (leb→le _ _ long) bytes)
  | inr short ↦ rw short zero_packet-IsPacket
]

-- A stored packet with more bytes behind it stands for the packet.
pub stored_entity-append :
    (p : EntityPacket) (rest : List ℕ)
    → IsPacket p
    → IsBytes rest
    → IsBytes (encode_entity p ++ rest) × (stored_entity (encode_entity p ++ rest) ≡ p)
unfolding stored_entity encode_entity
stored_entity-append p rest ok bytes = (
  All-append IsByte (encode p) rest shape.1 bytes,
  rw (le→leb 100 (length (encode p ++ rest)) long) (
      view-append (encode p) rest (omega (arith, shape.0))
      ∙ some-injective _ _
          (sym (decode-view (encode p) (omega (arith, shape.0)) shape.1) ∙ decode-encode p ok)),
)
  where
    shape : (length (encode p) ≡ 100) × IsBytes (encode p)
    shape = encode_shape p ok

    long : 100 ≤ length (encode p ++ rest)
    long = omega (arith, shape.0, length-append (encode p) rest)

-- Whatever the bytes of a stored value and their number, decoding it reads nothing out of range and
-- gives a packet whose fields fit their types: that in the first hundred bytes, or the packet of
-- zeros if there are fewer.
pub decode_entity_total :
    (b : List ℕ)
    → IsBytes b
    → (decode_entity b (length b) ≡ some (stored_entity b)) × IsPacket (stored_entity b)
unfolding decode_entity stored_entity
decode_entity_total b bytes = (decoded, stored_entity-IsPacket b bytes)
  where
    decoded : decode_entity b (length b) ≡ some (stored_entity b)
    decoded = elim (Bool-cases (leb 100 (length b))) [
      | inl long ↦ rw long (decode-view b (leb→le _ _ long) bytes)
      | inr short ↦ rw short refl
    ]

copy_from-append :
    (xs ys zs : List ℕ) {off n : ℕ}
    → length xs ≡ off
    → length ys ≡ n
    → copy_from (xs ++ (ys ++ zs)) off n ≡ some ys
unfolding copy_from
copy_from-append xs ys zs {off} {n} hx hy =
    rw (le→leb (off + n) (length (xs ++ (ys ++ zs))) fits, drop-append xs (ys ++ zs) hx)
      (ap some (take-append ys zs hy))
  where
    fits : off + n ≤ length (xs ++ (ys ++ zs))
    fits = omega (arith, length-append xs (ys ++ zs), length-append ys zs)

-- The four fields of the packed struct, one behind the other.
module _ (a b c d : List ℕ) (ha : length a ≡ 4) (hb : length b ≡ 4) (hc : length c ≡ 8)
    (hd : length d ≡ 4) where
  abbrev packed : List ℕ
  packed = a ++ (b ++ (c ++ d))

  length-packed : length packed ≡ 20
  length-packed =
      omega (arith, length-append a (b ++ (c ++ d)), length-append b (c ++ d), length-append c d)

  third_field : copy_from packed 8 8 ≡ some c
  third_field =
      subst (λ w. copy_from w 8 8 ≡ some c) (append_assoc a b (c ++ d))
        (copy_from-append (a ++ b) c d (omega (arith, length-append a b)) hc)

  fourth_field : copy_from packed 16 4 ≡ some d
  fourth_field =
      subst (λ w. copy_from w 16 4 ≡ some d) regrouped
        (copy_from-append (a ++ (b ++ c)) d []
          (omega (arith, length-append a (b ++ c), length-append b c)) hd)
    where
      regrouped : (a ++ (b ++ c)) ++ (d ++ []) ≡ packed
      regrouped = rw (append-nil, append_assoc, append_assoc) refl

module _ (host : Host) where
  length-encode_zone :
      (val : ZoneVal) → length val.cost ≡ 8 → length (encode_zone host val) ≡ zf_zone_val_size
  unfolding encode_zone
  length-encode_zone val hc =
      length-packed _ _ val.cost _ (host.u32_length _) (host.u32_length _) hc (host.u32_length _)

  -- A zone's record, whose fields hold values of their C types, is stored in twenty bytes and read
  -- back unchanged, on any host that reads back the integers it stores; a stored value of fewer
  -- bytes gives the record of zeros.
  pub decode_zone-encode_zone :
      (val : ZoneVal) (short : List ℕ)
      → val.authority_cap < 2 ^ 32
      → val.interest_cap < 2 ^ 32
      → length val.cost ≡ 8
      → val.population < 2 ^ 32
      → length short < zf_zone_val_size
      → (length (encode_zone host val) ≡ zf_zone_val_size)
        × (decode_zone host (encode_zone host val) (length (encode_zone host val)) ≡ some val)
        × (decode_zone host short (length short) ≡ some zero_zone)
  unfolding encode_zone decode_zone
  decode_zone-encode_zone val short ha hi hc hp hs = (
    length-encode_zone val hc,
    rw
        (
          le→leb 20 (length (a ++ (b ++ (val.cost ++ d))))
              (omega (arith, length-packed a b val.cost d la lb hc ld)),
          copy_from-append [] a (b ++ (val.cost ++ d)) refl la,
          copy_from-append a b (val.cost ++ d) la lb,
          third_field a b val.cost d la lb hc ld,
          fourth_field a b val.cost d la lb hc ld,
          host.u32_again val.authority_cap ha,
          host.u32_again val.interest_cap hi,
          host.u32_again val.population hp,
        )
        refl,
    rw (too_short (length short) hs) refl,
  )
    where
      a : List ℕ
      a = host.u32_bytes val.authority_cap

      b : List ℕ
      b = host.u32_bytes val.interest_cap

      d : List ℕ
      d = host.u32_bytes val.population

      la : length a ≡ 4
      la = host.u32_length _

      lb : length b ≡ 4
      lb = host.u32_length _

      ld : length d ≡ 4
      ld = host.u32_length _

      too_short : (n : ℕ) → n < 20 → leb 20 n ≡ false
      too_short n h = ground arith
