-- ===== src/MessageQueue/Examples.antt =====
-- The theorems on threads driven by messages at concrete inputs.
use win32_experiments.Common.{◌≡◌, refl, true, false, [], ◌∷◌, ◌++◌, ◌+◌, length}
use win32_experiments.MessageQueue.{
  message_base, close, other, system_posts, posting, State, looping, thread_step, caller_step,
  thread_runs, caller_runs, Reaches, here, then_step, started,
}
use win32_experiments.MessageQueue.Invariant.{to_post, CallerOk, all_calls, messages, ours}
use win32_experiments.MessageQueue.Safety.{Reaches-Conserved}
use win32_experiments.MessageQueue.Ending.{Finished, Reaches-Finished}

-- Run: one message and the end, for a thread with a window, which has not yet looked into its queue, and
-- WM_DWMNCRENDERINGCHANGED in front of them.
abbrev posted : State
posted = record {
  created = true;
  ready = true;
  queue = other 799 ∷ message_base ∷ close ∷ [];
  quits = false;
  taken = [];
  thread = looping;
  caller = posting [];
}

posted-Reaches : Reaches true (started (all_calls 1)) posted
unfolding thread_step caller_step
posted-Reaches =
    then_step
      (then_step
        (then_step
          (then_step (then_step (then_step here thread_runs) thread_runs)
            (system_posts 799 refl refl))
          caller_runs)
        caller_runs)
      caller_runs

Reaches-Conserved_example :
    CallerOk posted.caller posted.ready (length posted.taken + length posted.queue)
    × (ours posted.taken ++ (ours posted.queue ++ messages true (to_post posted.caller))
        ≡ messages true (all_calls 1))
Reaches-Conserved_example = Reaches-Conserved true 1 posted posted-Reaches

Reaches-Finished_example : Finished true 1 posted
Reaches-Finished_example = Reaches-Finished true 1 posted posted-Reaches refl
