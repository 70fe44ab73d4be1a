-- ===== src/Motion/Advance.antt =====
-- When the position update of one entity is free of overflow, and what it does.
use gyreplane.Prelude.{
  ℕ, ◌+◌, ◌*◌, ◌^◌, ◌≤◌, ◌<◌, ◌≡◌, ◌↔◌, subst, refl, ap, sym, ◌∙◌, some, none, Option, arith, ◌>>=◌,
}
use mathlib.Core.Option.{some-injective}
use gyreplane.Prelude.Int.{
  ℤ, pos, negsuc, pos_part, neg_part, ◌+ℤ◌, ◌*ℤ◌, *ℤ-pos_parts, +ℤ_parts, +ℤ_bound, eq_of_parts,
  Fits, half16, half64,
}
use gyreplane.Packet.{EntityPacket, IsPacket}
use gyreplane.Motion.{vel_to_um_per_tick, to_i64, displacement, advance}
use gyreplane.Motion.Velocity.{velocity_part_bounds}

pub to_i64-some : (z : ℤ) → Fits half64 z → to_i64 z ≡ some z
unfolding to_i64
to_i64-some (pos n) h = ground arith
to_i64-some (negsuc n) h = ground arith

pub to_i64_inverse : (z r : ℤ) → to_i64 z ≡ some r → (r ≡ z) × Fits half64 z
unfolding to_i64
to_i64_inverse (pos n) r h = ground arith
to_i64_inverse (negsuc n) r h = ground arith

-- The exact displacement after a number of ticks.
abbrev pub moved : ℤ → ℕ → ℤ
moved v ticks = vel_to_um_per_tick v *ℤ pos ticks

-- Bounds on the two parts are bounds on the integer.
Fits-of_parts : (z : ℤ) → pos_part z < 2 ^ 63 → neg_part z ≤ 2 ^ 63 → Fits half64 z
Fits-of_parts (pos n) h k = h
Fits-of_parts (negsuc n) h k = omega arith

scaled : (a b t : ℕ) → a ≤ b → a * t ≤ b * t
scaled a b t h = grind arith

moved_parts :
    (v : ℤ) (ticks : ℕ)
    → Fits half16 v
    → (pos_part (moved v ticks) ≤ 500000 * ticks) × (neg_part (moved v ticks) ≤ 500015 * ticks)
moved_parts v ticks fit =
    let (forwards, backwards) = velocity_part_bounds v fit in
    let (p, q) = *ℤ-pos_parts (vel_to_um_per_tick v) ticks in
    (rw p (scaled _ _ ticks forwards), rw q (scaled _ _ ticks backwards))

pub displacement-moved :
    (v : ℤ) (ticks : ℕ)
    → Fits half16 v
    → ticks < 2 ^ 32
    → displacement v ticks ≡ some (moved v ticks)
unfolding displacement
displacement-moved v ticks fit small = to_i64-some _ (
    Fits-of_parts _ (omega (arith, moved_parts v ticks fit))
      (omega (arith, moved_parts v ticks fit)))

-- A coordinate that no displacement of so many ticks can carry past the ends of an int64_t.
abbrev pub HasRoom : ℕ → ℤ → Type 0
HasRoom ticks z = (pos_part z + 500000 * ticks < 2 ^ 63) × (neg_part z + 500015 * ticks ≤ 2 ^ 63)

-- The entity after so many ticks, by exact arithmetic.
abbrev pub advanced : ℕ → EntityPacket → EntityPacket
advanced ticks p = record p {
  pos_um_x = p.pos_um_x +ℤ moved p.vel_x ticks;
  pos_um_y = p.pos_um_y +ℤ moved p.vel_y ticks;
  pos_um_z = p.pos_um_z +ℤ moved p.vel_z ticks;
}

pub sum_Fits :
    (z v : ℤ) (ticks : ℕ) → Fits half16 v → HasRoom ticks z → Fits half64 (z +ℤ moved v ticks)
sum_Fits z v ticks fit room =
    let parts = moved_parts v ticks fit in
    let bound = +ℤ_bound z (moved v ticks) in Fits-of_parts _ (omega arith) (omega arith)

moved-add : (v : ℤ) (a b : ℕ) → moved v (a + b) ≡ moved v a +ℤ moved v b
moved-add v a b = eq_of_parts _ _ (
    omega (
      arith,
      *ℤ-pos_parts (vel_to_um_per_tick v) (a + b),
      *ℤ-pos_parts (vel_to_um_per_tick v) a,
      *ℤ-pos_parts (vel_to_um_per_tick v) b,
      +ℤ_parts (moved v a) (moved v b),
    ))

coordinate-add : (z v : ℤ) (a b : ℕ) → z +ℤ moved v a +ℤ moved v b ≡ z +ℤ moved v (a + b)
coordinate-add z v a b = rw (moved-add v a b) (
    eq_of_parts _ _ (
      omega (
        arith,
        +ℤ_parts (z +ℤ moved v a) (moved v b),
        +ℤ_parts z (moved v a),
        +ℤ_parts z (moved v a +ℤ moved v b),
        +ℤ_parts (moved v a) (moved v b),
      )))

pub advanced-add : (a b : ℕ) (p : EntityPacket) → advanced b (advanced a p) ≡ advanced (a + b) p
advanced-add a b p = λ i. record p {
  pos_um_x = coordinate-add p.pos_um_x p.vel_x a b i;
  pos_um_y = coordinate-add p.pos_um_y p.vel_y a b i;
  pos_um_z = coordinate-add p.pos_um_z p.vel_z a b i;
}

-- The second half of the update, at the exact coordinates.
abbrev placed : EntityPacket → ℤ → ℤ → ℤ → Option EntityPacket
placed p x y z = do
  x ← to_i64 x
  y ← to_i64 y
  z ← to_i64 z
  some (record p { pos_um_x = x; pos_um_y = y; pos_um_z = z })

bind_inverse :
    {A B : Type 0} (m : Option A) (k : A → Option B) {b : B}
    → (m >>= k) ≡ some b
    → (a : A) × (m ≡ some a) × (k a ≡ some b)
bind_inverse none k e = cc
bind_inverse (some a) k e = (a, refl, e)

abbrev at_place : EntityPacket → ℤ → ℤ → ℤ → EntityPacket
at_place p x y z = record p { pos_um_x = x; pos_um_y = y; pos_um_z = z }

-- The coordinates are values of an int64_t.
abbrev pub InBounds : EntityPacket → Type 0
InBounds p = Fits half64 p.pos_um_x × Fits half64 p.pos_um_y × Fits half64 p.pos_um_z

placed_inverse :
    (p q : EntityPacket) (x y z : ℤ)
    → placed p x y z ≡ some q
    → (q ≡ at_place p x y z) × InBounds (at_place p x y z)
placed_inverse p q x y z e =
    let (x', fx, ex) = bind_inverse (to_i64 x) _ e in
    let (y', fy, ey) = bind_inverse (to_i64 y) _ ex in
    let (z', fz, ez) = bind_inverse (to_i64 z) _ ey in
    let (same_x, ok_x) = to_i64_inverse x x' fx in
    let (same_y, ok_y) = to_i64_inverse y y' fy in
    let (same_z, ok_z) = to_i64_inverse z z' fz in
    (
      sym (some-injective _ _ ez) ∙ (λ i. at_place p (same_x i) (same_y i) (same_z i)),
      (ok_x, ok_y, ok_z),
    )

at_place-IsPacket :
    (p : EntityPacket) (x y z : ℤ)
    → IsPacket p
    → InBounds (at_place p x y z)
    → IsPacket (at_place p x y z)
at_place-IsPacket p x y z ok (fx, fy, fz) = record {
  global_id = ok.global_id;
  pos_um_x = fx;
  pos_um_y = fy;
  pos_um_z = fz;
  vel_x = ok.vel_x;
  vel_y = ok.vel_y;
  vel_z = ok.vel_z;
  hlc = ok.hlc;
  class_owner = ok.class_owner;
  sub_index = ok.sub_index;
  rot_x = ok.rot_x;
  rot_y = ok.rot_y;
  rot_z = ok.rot_z;
  payload_len = ok.payload_len;
  payload_bytes = ok.payload_bytes;
}

module _ (ticks : ℕ) (p : EntityPacket) (ok : IsPacket p) (small : ticks < 2 ^ 32) where
  advance-placed :
      advance ticks p
      ≡ placed p (advanced ticks p).pos_um_x (advanced ticks p).pos_um_y (advanced ticks p).pos_um_z
  unfolding advance
  advance-placed =
      rw
        (
          displacement-moved p.vel_x ticks ok.vel_x small,
          displacement-moved p.vel_y ticks ok.vel_y small,
          displacement-moved p.vel_z ticks ok.vel_z small,
        )
        refl

  -- For a packet whose fields hold values of their C types and fewer than 2 ^ 32 ticks, the update
  -- returns a packet exactly when the three exact coordinates fit an int64_t. It is then the
  -- packet with each coordinate moved by its velocity in micrometers a tick times the number of
  -- ticks, and with nothing else changed.
  pub advance_iff :
      (q : EntityPacket)
      → (advance ticks p ≡ some q) ↔ ((q ≡ advanced ticks p) × InBounds (advanced ticks p))
  advance_iff q = (
    λ e. placed_inverse p q _ _ _ (sym advance-placed ∙ e),
    λ (same, (fx, fy, fz)).
        rw (advance-placed, to_i64-some _ fx)
          (rw (to_i64-some _ fy) (rw (to_i64-some _ fz) (ap some (sym same)))),
  )

  pub advanced-IsPacket : InBounds (advanced ticks p) → IsPacket (advanced ticks p)
  advanced-IsPacket fit = at_place-IsPacket p _ _ _ ok fit

  -- For a packet whose fields hold values of their C types and fewer than 2 ^ 32 ticks, if every
  -- coordinate is further from the ends of an int64_t than the fastest entity goes in that many
  -- ticks, the update has no signed overflow and gives the moved packet, whose fields fit.
  pub advance_room :
      HasRoom ticks p.pos_um_x
      → HasRoom ticks p.pos_um_y
      → HasRoom ticks p.pos_um_z
      → (advance ticks p ≡ some (advanced ticks p)) × IsPacket (advanced ticks p)
  advance_room rx ry rz = ((advance_iff (advanced ticks p)).1 (refl, fit), advanced-IsPacket fit)
    where
      fit : InBounds (advanced ticks p)
      fit = (
        sum_Fits p.pos_um_x p.vel_x ticks ok.vel_x rx,
        sum_Fits p.pos_um_y p.vel_y ticks ok.vel_y ry,
        sum_Fits p.pos_um_z p.vel_z ticks ok.vel_z rz,
      )

-- For a packet whose fields hold values of their C types and a + b below 2 ^ 32, ticking an entity
-- a times and then b times, each without overflow, is ticking it a + b times.
pub advance-add :
    (a b : ℕ) (p q r : EntityPacket)
    → IsPacket p
    → a + b < 2 ^ 32
    → advance a p ≡ some q
    → advance b q ≡ some r
    → advance (a + b) p ≡ some r
advance-add a b p q r ok small first second =
    let (at_q, fit_q) = (advance_iff a p ok (omega arith) q).0 first in
    let ok_q = subst IsPacket (sym at_q) (advanced-IsPacket a p ok (omega arith) fit_q) in
    let (at_r, fit_r) = (advance_iff b q ok_q (omega arith) r).0 second in
    let same = ap (advanced b) at_q ∙ advanced-add a b p in
    (advance_iff (a + b) p ok small r).1 (at_r ∙ same, subst InBounds same fit_r)
