-- ===== src/Tests/Queues.antt =====
-- The intrusive queue in a short run.
use gyreplane.Prelude.{◌≡◌, refl, List, [], ◌∷◌}
use gyreplane.Queue.{Queue, head_slot, queue_init}
use gyreplane.Queue.Refines.{QueueOp, push, pop, is_empty, run, run_list, run-run_list}

-- Two nodes, one of them pushed again after it was popped.
abbrev ops : List QueueOp
ops = push 5 ∷ push 9 ∷ pop ∷ push 5 ∷ pop ∷ pop ∷ pop ∷ is_empty ∷ []

abbrev raw : Queue
raw = record { head = 1; tail = head_slot; links = λ a. a }

run-run_list_example : run ops (queue_init raw) ≡ run_list ops []
run-run_list_example = run-run_list ops raw (refl, tt, (refl, (refl, tt), (refl, (refl, tt), tt)))
