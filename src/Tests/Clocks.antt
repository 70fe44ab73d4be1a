-- ===== src/Tests/Clocks.antt =====
-- The loops and the run of the throughput tool, on a clock of whole numbers.
use gyreplane.Prelude.{ℕ, ◌+◌, ◌≤◌, ◌≡◌, refl, true, none, some, [], ◌∷◌, arith}
use gyreplane.Prelude.Int.{pos}
use gyreplane.Align.{◌⊕◌}
use gyreplane.ZoneTick.Complete.{taken_answer, read_ok, error_only}
use gyreplane.Throughput.Timed.{now_sec, Running, Round, timed}
use gyreplane.Throughput.Loop.{IsRound, InLoop}
use gyreplane.Throughput.Ends.{IsPast, timed-InLoop}
use gyreplane.Throughput.Command.{
  ToolConfig, Surroundings, tool_defaults, zone, seconds, parse_tool, tool_main,
}
use gyreplane.Throughput.Outcome.{Runs, tool_main-ToolOutcome}
use gyreplane.Tests.Fits.{whole}
use gyreplane.Tests.Ticks.{idle, idle-IsSound, stored, stored-IsSafe}
use gyreplane.Tests.Tools.{unwritten}

-- A clock that shows how often it was read, and rounds in which a tick completes.
abbrev clock : ℕ → ℕ
clock i = now_sec (i, 0)

abbrev busy : ℕ → Round
busy i = record {
  calloc = true;
  create = 0;
  ans = taken_answer;
  events = (read_ok (stored ∷ []), taken_answer) ∷ (error_only 0, taken_answer) ∷ [];
}

busy-IsRound : (Refused : Type 0) (i : ℕ) → IsRound Refused (busy i)
busy-IsRound Refused i = record {
  started = λ e. absurd (ground (arith, e));
  events = (
    ((stored-IsSafe 1 (omega arith), tt), λ e. absurd (ground (arith, e))),
    ((tt, λ e. absurd (ground (arith, e))), tt),
  );
}

clock-IsPast : IsPast clock 5 7
clock-IsPast j after = (ground arith, ground arith)

timed-InLoop_example :
    (j : ℕ) × (t' : Running ℕ) × (timed 9 clock busy 9 5 3 idle ≡ some (j, t'))
    × (j ≤ 7 + 2)
    × InLoop Unit 3 (clock 0 ⊕ 5) 0 t'
timed-InLoop_example =
    timed-InLoop 9 clock busy 5 3 idle 7 9 Unit (busy-IsRound Unit) refl idle-IsSound refl
      clock-IsPast (omega arith) (omega arith)

abbrev surroundings : Surroundings
surroundings = record {
  library = record { select = 0; setup = 0; stop = 0; create = λ i. 0 };
  create = 0;
  committed = 0;
  rest = unwritten;
  read_error = 0;
  stored = λ key. none;
  self = 9;
  clock = λ i. (i, 0);
  rounds = busy;
  left = 9;
}

abbrev chosen : ToolConfig ℕ
chosen = record tool_defaults { z_id = pos 3; duration = 5 }

tool_main-ToolOutcome_example :
    Runs chosen surroundings 3 (tool_main surroundings (zone (pos 3) ∷ seconds 5 ∷ []))
unfolding parse_tool
tool_main-ToolOutcome_example =
    tool_main-ToolOutcome chosen surroundings (zone (pos 3) ∷ seconds 5 ∷ []) 3 7 refl refl refl tt
      (record {
        rounds = busy-IsRound Unit;
        past = clock-IsPast;
        first = omega arith;
        enough = omega arith;
      })
