-- ===== src/MessageQueue/Safety.antt =====
-- What holds of the two threads in every order of their steps.
use win32_experiments.Common.{ℕ, ◌≡◌, Bool, ◌++◌, length, ◌+◌}
use win32_experiments.MessageQueue.{State, Reaches, here, then_step, started}
use win32_experiments.MessageQueue.Invariant.{
  to_post, CallerOk, all_calls, messages, Inv, started-Inv, ours,
}
use win32_experiments.MessageQueue.Steps.{step-Inv}

pub Reaches-Inv : (w : Bool) (n : ℕ) {s t : State} → Reaches w s t → Inv w n s → Inv w n t
Reaches-Inv w n here v = v
Reaches-Inv w n (then_step r e) v = step-Inv w n e (Reaches-Inv w n r v)

-- WaitOnReady, n calls of PostMessage and one of PostQuit, for a thread with a window or without one: in whatever order the
-- two threads take their steps and other messages come to the window, a post fails only after as many messages have come
-- as a queue holds, and what GetMessage has taken, what is in the queue and what is still to be posted are together,
-- without the other messages, the messages of these calls, in order.
pub Reaches-Conserved :
    (w : Bool) (n : ℕ) (s : State)
    → Reaches w (started (all_calls n)) s
    → CallerOk s.caller s.ready (length s.taken + length s.queue)
      × (ours s.taken ++ (ours s.queue ++ messages w (to_post s.caller)) ≡ messages w (all_calls n))
Reaches-Conserved w n s r =
    let v = Reaches-Inv w n r (started-Inv w n) in (v.caller_ok, v.conserved)
