-- ===== src/Motion/Velocity.antt =====
-- The conversion of the wire's velocity: bounds, symmetry, order and rounding.
use gyreplane.Prelude.{◌*◌, ◌/◌, ◌≤◌, ◌≡◌, arith}
use gyreplane.Prelude.Int.{
  ℤ, pos, negsuc, pos_part, neg_part, neg, neg_parts, eq_of_parts, ◌≤ℤ◌, Fits, half16,
}
use gyreplane.Motion.{vel_to_um_per_tick}

velocity_parts :
    (v : ℤ)
    → (pos_part (vel_to_um_per_tick v) ≡ pos_part v * 500000 / 32767)
      × (neg_part (vel_to_um_per_tick v) ≡ neg_part v * 500000 / 32767)
unfolding vel_to_um_per_tick
velocity_parts (pos n) = ground arith
velocity_parts (negsuc n) = ground arith

pub velocity_part_bounds :
    (v : ℤ)
    → Fits half16 v
    → (pos_part (vel_to_um_per_tick v) ≤ 500000) × (neg_part (vel_to_um_per_tick v) ≤ 500015)
velocity_part_bounds (pos n) h = omega (arith, velocity_parts (pos n))
velocity_part_bounds (negsuc n) h = omega (arith, velocity_parts (negsuc n))

velocity_mono : (u v : ℤ) → u ≤ℤ v → vel_to_um_per_tick u ≤ℤ vel_to_um_per_tick v
velocity_mono (pos m) (pos n) h = omega (arith, velocity_parts (pos m), velocity_parts (pos n))
velocity_mono (pos m) (negsuc n) h =
    omega (arith, velocity_parts (pos m), velocity_parts (negsuc n))
velocity_mono (negsuc m) (pos n) h =
    omega (arith, velocity_parts (negsuc m), velocity_parts (pos n))
velocity_mono (negsuc m) (negsuc n) h =
    omega (arith, velocity_parts (negsuc m), velocity_parts (negsuc n))

-- The conversion treats both directions alike and keeps the order of velocities.
pub vel_to_um_per_tick_symmetric_mono :
    (u v : ℤ)
    → (vel_to_um_per_tick (neg v) ≡ neg (vel_to_um_per_tick v))
      × (u ≤ℤ v → vel_to_um_per_tick u ≤ℤ vel_to_um_per_tick v)
vel_to_um_per_tick_symmetric_mono u v = (
  eq_of_parts _ _ (
      omega (
        arith,
        velocity_parts v,
        velocity_parts (neg v),
        neg_parts v,
        neg_parts (vel_to_um_per_tick v),
      )),
  velocity_mono u v,
)
