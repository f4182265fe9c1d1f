-- ===== src/Apc.antt =====
-- Namespace APC2 of src/Win32Threads/threads-apc.ixx: a thread that sleeps until member functions are queued to it, and the
-- thread that queues them and asks it to end. The steps of the two come in any order.
pub mod Exiting
pub mod Executed
mod Examples
use win32_experiments.Common.{
  ℕ, zero, suc, ◌≡◌, Bool, true, false, Option, none, some, List, [], ◌∷◌, ◌++◌, if◌then◌else◌,
}

-- Where Task::Begin is: not yet called, before the test of Run, in SleepEx, or at its end.
pub data Point : Type 0 where
  starting testing sleeping ended : Point

-- Where the other thread is: before its calls of Enqueue2, with these values, and Exit; between the two lines of Exit; or
-- behind Exit. QueueUserAPC may have failed, and the pointer to the thread may have been null.
pub data Caller : Type 0 where
  enqueuing : List ℕ → Caller
  exiting : Caller
  over : Caller
  threw : Caller
  crashed : Caller

-- Run, the thread's queue, and what has been executed; `none` is NoOp, `some i` SomeFunc2 on i.
pub record State : Type 0 where
  pub run : Bool
  pub queue : List (Option ℕ)
  pub executed : List (Option ℕ)
  pub thread : Point
  pub caller : Caller

-- A step of Task::Begin. SleepEx waits for the queue and returns when it has executed all of it.
unfoldable pub thread_step : State → State
thread_step s = elim s.thread [
  | starting ↦ record s { thread = testing }
  | testing ↦ record s { thread = if s.run then sleeping else ended }
  | sleeping ↦ elim s.queue [
    | [] ↦ s
    | f ∷ rest ↦ record s { queue = []; executed = s.executed ++ s.queue; thread = testing }
  ]
  | ended ↦ s
]

-- Thread::QueueMemberFunction2, which continues at `next`: QueueUserAPC fails for a thread that has ended.
unfoldable pub queue_member_function : Option ℕ → Caller → State → State
queue_member_function f next s = elim s.thread [
  | ended ↦ record s { caller = threw }
  | other ↦ record s { queue = s.queue ++ (f ∷ []); caller = next }
]

-- Task::Enqueue2 does nothing before Begin has been called; Exit uses the pointer all the same.
unfoldable pub caller_step : State → State
unfolding queue_member_function
caller_step s = elim s.caller [
  | enqueuing (i ∷ values) ↦ elim s.thread [
    | starting ↦ record s { caller = enqueuing values }
    | other ↦ queue_member_function (some i) (enqueuing values) s
  ]
  | enqueuing [] ↦ record s { run = false; caller = exiting }
  | exiting ↦ elim s.thread [
    | starting ↦ record s { caller = crashed }
    | other ↦ queue_member_function none over s
  ]
  | over ↦ s
  | threw ↦ s
  | crashed ↦ s
]

pub data Step : State → State → Type 0 where
  thread_runs : {s : State} → Step s (thread_step s)
  caller_runs : {s : State} → Step s (caller_step s)

pub data Reaches : State → State → Type 0 where
  here : {s : State} → Reaches s s
  then_step : {s t u : State} → Reaches s t → Step t u → Reaches s u

-- Run of the namespace after Start, with Enqueue2 on some values.
abbrev pub started : List ℕ → State
started values = record {
  run = true;
  queue = [];
  executed = [];
  thread = starting;
  caller = enqueuing values;
}

-- Steps of the thread alone.
unfoldable pub thread_steps : ℕ → State → State
thread_steps zero s = s
thread_steps (suc n) s = thread_steps n (thread_step s)
