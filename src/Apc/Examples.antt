-- ===== src/Apc/Examples.antt =====
-- The theorems on asynchronous procedure calls at concrete inputs.
use win32_experiments.Common.{◌≡◌, refl, false, none, some, [], ◌∷◌}
use win32_experiments.Apc.{
  State, ended, sleeping, over, thread_step, caller_step, queue_member_function, thread_runs,
  caller_runs, Reaches, here, then_step, started, thread_steps,
}
use win32_experiments.Apc.Exiting.{Reaches-Ends}
use win32_experiments.Apc.Executed.{begun, queued_by, Fifo, Reaches-Fifo, Reaches-lost}

-- Run of the namespace: the thread sleeps, and the other one has queued the value 1 and NoOp.
abbrev asleep : State
asleep = record {
  run = false;
  queue = some 1 ∷ none ∷ [];
  executed = [];
  thread = sleeping;
  caller = over;
}

asleep-Reaches_from : Reaches (begun (1 ∷ [])) asleep
unfolding thread_step caller_step queue_member_function
asleep-Reaches_from =
    then_step (then_step (then_step (then_step here thread_runs) caller_runs) caller_runs)
      caller_runs

asleep-Reaches : Reaches (started (1 ∷ [])) asleep
unfolding thread_step caller_step queue_member_function
asleep-Reaches =
    then_step
      (then_step (then_step (then_step (then_step here thread_runs) thread_runs) caller_runs)
        caller_runs)
      caller_runs

Reaches-Ends_example : (thread_steps 2 asleep).thread ≡ ended
Reaches-Ends_example = Reaches-Ends (1 ∷ []) asleep asleep-Reaches refl

Reaches-Fifo_example : Fifo (queued_by (1 ∷ [])) asleep
Reaches-Fifo_example = Reaches-Fifo (1 ∷ []) asleep asleep-Reaches_from

Reaches-lost_example :
    (s : State) × Reaches (started (7 ∷ [])) s
    × (s.caller ≡ over)
    × (s.thread ≡ ended)
    × (s.executed ≡ [])
    × (s.queue ≡ queued_by (7 ∷ []))
Reaches-lost_example = Reaches-lost (7 ∷ [])
