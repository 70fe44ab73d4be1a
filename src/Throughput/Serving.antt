-- ===== src/Throughput/Serving.antt =====
-- The tool on a database that serves it: each round reads what the rounds before it have stored.
use gyreplane.Prelude.{
  ℕ, zero, suc, ◌-◌, ◌≤◌, ◌≡◌, Option, none, some, List, ◌>>=◌, arith, drop, length,
}
use gyreplane.Prelude.Bytes.{IsBytes}
use gyreplane.Kv.Values.{stored_entity, stored_entity-IsPacket}
use gyreplane.Motion.Advance.{HasRoom, sum_Fits, advanced, InBounds}
use gyreplane.ZoneTick.{State}
use gyreplane.ZoneTick.Store.{Database}
use gyreplane.ZoneTick.Zones.{zone_read}
use gyreplane.Throughput.Timed.{Running, Round, start_tick, evloop_run}
use gyreplane.Throughput.Counted.{ticked}
use gyreplane.Throughput.Normal.{served}

-- The contents of the database and the tool.
pub record Serving (Contents D : Type 0) : Type 0 where
  pub contents : Contents
  pub running : Running D

-- Before the first round, with this deadline.
abbrev pub at_start :
    {Contents D : Type 0}
    → (deadline : D) (z_id : ℕ) (s : State) (c : Contents) → Serving Contents D
at_start deadline z_id s c = record {
  contents = c;
  running = record { loop_ctx = ticked deadline z_id 0; state = s };
}

module _ {Contents : Type 0} (db : Database Contents) (self z_id : ℕ) where
  -- The round in which the database gives what it holds.
  abbrev pub zone_round : Contents → Round
  zone_round c = served (zone_read db z_id c)

  module _ {D : Type 0} where
    abbrev pub round_of : Serving Contents D → Option (Running D)
    round_of v = do
      t ← start_tick self (zone_round v.contents) v.running
      evloop_run (zone_round v.contents).events t

    -- The calls that the tool made are applied at the end of the round.
    abbrev pub served_by : Serving Contents D → Option (Running D) → Serving Contents D
    served_by v none = v
    served_by v (some t) = record {
      contents = db.apply v.contents (drop (length v.running.state.calls) t.state.calls);
      running = t;
    }

    -- After so many rounds.
    unfoldable pub course : Serving Contents D → ℕ → Serving Contents D
    course v zero = v
    course v (suc n) = served_by (course v n) (round_of (course v n))

    abbrev pub course_rounds : Serving Contents D → ℕ → Round
    course_rounds v i = zone_round (course v (i - 1)).contents

-- A stored value that so many ticks can move without overflow.
abbrev pub IsRoomy : ℕ → List ℕ → Type 0
IsRoomy n value =
    let e = stored_entity value in
    IsBytes value × HasRoom n e.pos_um_x × HasRoom n e.pos_um_y × HasRoom n e.pos_um_z

pub IsRoomy-InBounds :
    (n i : ℕ) (value : List ℕ)
    → i ≤ n
    → IsRoomy n value
    → InBounds (advanced i (stored_entity value))
IsRoomy-InBounds n i value few (bytes, rx, ry, rz) =
    let e = stored_entity value in
    let ok = stored_entity-IsPacket value bytes in
    (
      sum_Fits e.pos_um_x e.vel_x i ok.vel_x (omega arith, omega arith),
      sum_Fits e.pos_um_y e.vel_y i ok.vel_y (omega arith, omega arith),
      sum_Fits e.pos_um_z e.vel_z i ok.vel_z (omega arith, omega arith),
    )

-- What has become of a stored value after so many ticks.
abbrev pub IsMoved : ℕ → Option (List ℕ) → Option (List ℕ) → Type 0
IsMoved m none now = now ≡ none
IsMoved m (some value) now =
    (value' : List ℕ) × (now ≡ some value')
    × IsBytes value'
    × (stored_entity value' ≡ advanced m (stored_entity value))
