-- ===== src/Motion.antt =====
-- src/zf_zonetick.c: the velocity in micrometers a tick, and the position update of one entity.
-- Arithmetic on int64_t is exact where the result fits; `none` is a signed overflow, which C
-- leaves undefined.
pub mod Velocity
pub mod Advance
use gyreplane.Prelude.{ℕ, suc, ◌/◌, ◌-◌, ◌^◌, Option, none, some, Bool, ltb, if◌then◌else◌, ◌>>=◌}
use gyreplane.Prelude.Int.{ℤ, pos, negsuc, neg, ◌+ℤ◌, ◌*ℤ◌, half64}
use gyreplane.Packet.{EntityPacket, xr_packet_v_max}

abbrev pub int16_max : ℕ
int16_max = 32767

-- C's `/` by a positive number: it drops the fraction.
unfoldable pub quot : ℤ → ℕ → ℤ
unfolding neg
quot (pos n) d = pos (n / d)
quot (negsuc n) d = neg (pos (suc n / d))

unfoldable pub vel_to_um_per_tick : ℤ → ℤ
unfolding quot ◌*ℤ◌
vel_to_um_per_tick v = quot (v *ℤ pos xr_packet_v_max) int16_max

abbrev pub fits_i64 : ℤ → Bool
fits_i64 (pos n) = ltb n half64
fits_i64 (negsuc n) = ltb n half64

unfoldable pub to_i64 : ℤ → Option ℤ
to_i64 z = if fits_i64 z then some z else none

-- `p += vel_to_um_per_tick(v) * tick_count`, in its two steps.
pub displacement : ℤ → ℕ → Option ℤ
displacement v tick_count = to_i64 (vel_to_um_per_tick v *ℤ pos tick_count)

pub advance : ℕ → EntityPacket → Option EntityPacket
advance tick_count ev = do
  dx ← displacement ev.vel_x tick_count
  dy ← displacement ev.vel_y tick_count
  dz ← displacement ev.vel_z tick_count
  x ← to_i64 (ev.pos_um_x +ℤ dx)
  y ← to_i64 (ev.pos_um_y +ℤ dy)
  z ← to_i64 (ev.pos_um_z +ℤ dz)
  some (record ev { pos_um_x = x; pos_um_y = y; pos_um_z = z })
