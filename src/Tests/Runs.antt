-- ===== src/Tests/Runs.antt =====
-- A run of the process with two threads, the second without a database.
use gyreplane.Prelude.{refl, true, List, [], ◌∷◌, ◌==◌, ltb, if◌then◌else◌, arith}
use gyreplane.Prelude.Int.{pos}
use gyreplane.Process.{Opt, threads, zone, defaults, parse, Answers, Machine, main}
use gyreplane.Process.Balance.{IsMachine, Runs, main-Outcome}

abbrev answers : Answers
answers = record { select = 0; setup = 0; stop = 0; create = λ i. if i == 1 then 1031 else 0 }

-- Its threads sleep twice before they see that they are to stop.
abbrev machine : Machine
machine = record {
  library = answers;
  calloc = true;
  spawn = λ i. true;
  network_ends = true;
  seen = λ i k. ltb k 2;
  left = 5;
}

machine-IsMachine : IsMachine machine
machine-IsMachine = record {
  memory = refl;
  spawned = λ i. refl;
  stops = λ _ i. (2, omega arith, refl);
}

abbrev options : List Opt
options = threads (pos 2) ∷ zone (pos 7) ∷ []

main-Outcome_example : Runs machine (parse options defaults) (main machine options)
main-Outcome_example = main-Outcome machine machine-IsMachine options
