-- ===== src/MessageQueue.antt =====
-- src/Win32Threads/thread-queue.ixx: threads that are driven by messages, with a hidden window (WindowThread) and without
-- one (NoWindowThread), and the thread that starts them, waits until they are ready and posts. Each step of either
-- thread is a function of the shared state, and the steps of the two come in any order.
pub mod Invariant
mod CallerSteps
mod Steps
pub mod Safety
pub mod Ending
mod Examples
use win32_experiments.Common.{
  ℕ, ◌≡◌, Bool, true, false, List, [], ◌∷◌, ◌++◌, map, ◌&&◌, if◌then◌else◌, ltb, length,
}

-- MessageBase, WM_CLOSE and WM_QUIT, as posted, and any other message, by its number, which only the system sends.
pub data Message : Type 0 where
  message_base close quit : Message
  other : ℕ → Message

pub data Call : Type 0 where
  post_message post_quit : Call

-- Where Run of the thread is: before the queue or the window is made, before the event is signalled, in the loop, or at its
-- end.
pub data Point : Type 0 where
  creating signalling looping ended : Point

-- Where the other thread is, with the calls that it has still to make: in WaitOnReady, or behind it; an exception
-- of WaitOnReady or of a post ends it, with calls that are never made.
pub data Caller : Type 0 where
  waiting : List Call → Caller
  posting : List Call → Caller
  timed_out : List Call → Caller
  post_failed : List Call → Caller

-- `created` is the thread's queue or m_wnd, `ready` the event m_ready, `quits` what PostQuitMessage has left in the
-- queue, and `taken` what GetMessage has taken from it, in order.
pub record State : Type 0 where
  pub created : Bool
  pub ready : Bool
  pub queue : List Message
  pub quits : Bool
  pub taken : List Message
  pub thread : Point
  pub caller : Caller

-- The messages that Windows lets wait in one queue.
abbrev pub queue_limit : ℕ
queue_limit = 10000

-- The window or the queue goes with the thread.
abbrev pub running : Point → Bool
running ended = false
running _ = true

module _ (windowed : Bool) where
  -- What PostMessage and PostQuit post.
  abbrev pub message : Call → Message
  message post_message = message_base
  message post_quit = if windowed then close else quit

  -- WindowThread::WndProc on a message that is dispatched to it; without a window nothing is dispatched. It says whether
  -- it has called PostQuitMessage, which DefWindowProcW does not do for any other message.
  abbrev pub wnd_proc : Message → Bool
  wnd_proc close = windowed
  wnd_proc _ = false

  -- The loop with the message that GetMessage has taken: WM_QUIT ends it, the others are dispatched.
  abbrev pub taken_message : Message → State → State
  taken_message quit s = record s { thread = ended }
  taken_message m s = if wnd_proc m then record s { quits = true } else s

  -- GetMessage and what the loop does with the message. Posted messages come before what PostQuitMessage has left; on an
  -- empty queue GetMessage waits.
  unfoldable pub get_message : State → State
  get_message s = elim s.queue [
    | [] ↦ if s.quits then record s { thread = ended } else s
    | m ∷ rest ↦ taken_message m (record s { queue = rest; taken = s.taken ++ (m ∷ []) })
  ]

  -- A step of Run of WindowThread or NoWindowThread.
  unfoldable pub thread_step : State → State
  unfolding get_message
  thread_step s = elim s.thread [
    | creating ↦ record s { created = true; thread = signalling }
    | signalling ↦ record s { ready = true; thread = looping }
    | looping ↦ get_message s
    | ended ↦ s
  ]

  -- A step of the thread that calls. PostMessageW and PostThreadMessageW succeed where there is a window or a queue, and it
  -- is not full.
  unfoldable pub caller_step : State → State
  caller_step s = elim s.caller [
    | waiting calls ↦ if s.ready then record s { caller = posting calls } else s
    | posting [] ↦ s
    | posting (c ∷ calls) ↦
        if s.created && running s.thread && ltb (length s.queue) queue_limit
        then record s { queue = s.queue ++ (message c ∷ []); caller = posting calls }
        else record s { caller = post_failed (c ∷ calls) }
    | timed_out calls ↦ s
    | post_failed calls ↦ s
  ]

  -- The two threads in any order. The wait of two seconds may end before the event is signalled, and the window may not
  -- be made. Other messages, such as WM_DWMNCRENDERINGCHANGED, come to a window at any time while its loop runs.
  pub data Step : State → State → Type 0 where
    thread_runs : {s : State} → Step s (thread_step s)
    caller_runs : {s : State} → Step s (caller_step s)
    waits_too_long :
        {s : State} {calls : List Call}
        → s.caller ≡ waiting calls
        → Step s (record s { caller = timed_out calls })
    system_posts :
        {s : State} (n : ℕ)
        → windowed ≡ true
        → s.thread ≡ looping
        → Step s (record s { queue = s.queue ++ (other n ∷ []) })
    creates_nothing : {s : State} → s.thread ≡ creating → Step s (record s { thread = ended })

  pub data Reaches : State → State → Type 0 where
    here : {s : State} → Reaches s s
    then_step : {s t u : State} → Reaches s t → Step t u → Reaches s u

-- Start, where the thread that calls will make these calls after WaitOnReady.
abbrev pub started : List Call → State
started calls = record {
  created = false;
  ready = false;
  queue = [];
  quits = false;
  taken = [];
  thread = creating;
  caller = waiting calls;
}
