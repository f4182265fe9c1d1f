-- ===== src/MessageQueue/Invariant.antt =====
-- What holds of the two threads after every step.
use win32_experiments.Common.{
  ℕ, zero, suc, ◌≡◌, refl, Bool, true, false, List, [], ◌∷◌, ◌++◌, ◌+◌, ◌≤◌, ap, ◌∙◌, append-nil,
  length, arith,
}
use win32_experiments.MessageQueue.{
  Message, message_base, close, quit, other, queue_limit, Call, post_message, post_quit, Point,
  creating, signalling, ended, Caller, waiting, posting, timed_out, post_failed, State, message,
  started,
}

-- The calls that are still to be made, or never will be.
abbrev pub to_post : Caller → List Call
to_post (waiting calls) = calls
to_post (posting calls) = calls
to_post (timed_out calls) = calls
to_post (post_failed calls) = calls

-- The thread that calls is behind WaitOnReady only when the event is signalled, and a post has failed only if a full
-- queue of messages has come, of `total` that were taken or are queued.
abbrev pub CallerOk : Caller → Bool → ℕ → Type 0
CallerOk (waiting calls) ready total = Unit {0}
CallerOk (posting calls) ready total = ready ≡ true
CallerOk (timed_out calls) ready total = Unit {0}
CallerOk (post_failed calls) ready total = queue_limit ≤ total

pub still_ok :
    (caller : Caller) (ready : Bool) {m n : ℕ}
    → m ≤ n
    → CallerOk caller ready m
    → CallerOk caller ready n
still_ok (waiting calls) ready l k = k
still_ok (posting calls) ready l k = k
still_ok (timed_out calls) ready l k = k
still_ok (post_failed calls) ready l k = omega arith

-- The messages that the calls post, without those of the system.
abbrev pub ours : List Message → List Message
ours [] = []
ours (other n ∷ rest) = ours rest
ours (message_base ∷ rest) = message_base ∷ ours rest
ours (close ∷ rest) = close ∷ ours rest
ours (quit ∷ rest) = quit ∷ ours rest

pub ours-append : (a b : List Message) → ours (a ++ b) ≡ ours a ++ ours b
ours-append [] b = refl
ours-append (other n ∷ a) b = ours-append a b
ours-append (message_base ∷ a) b = ap (λ r. message_base ∷ r) (ours-append a b)
ours-append (close ∷ a) b = ap (λ r. close ∷ r) (ours-append a b)
ours-append (quit ∷ a) b = ap (λ r. quit ∷ r) (ours-append a b)

-- A message of the system behind the others.
pub ours-append_other : (a : List Message) (n : ℕ) → ours (a ++ (other n ∷ [])) ≡ ours a
ours-append_other a n = ours-append a (other n ∷ []) ∙ append-nil (ours a)

pub ours-message :
    (windowed : Bool) (c : Call) → ours (message windowed c ∷ []) ≡ message windowed c ∷ []
ours-message windowed post_message = refl
ours-message true post_quit = refl
ours-message false post_quit = refl

-- The queue is made before the event is signalled.
abbrev pub ReadyOk : Bool → Bool → Type 0
ReadyOk created true = created ≡ true
ReadyOk created false = Unit {0}

abbrev pub ThreadOk : Point → Bool → Bool → Type 0
ThreadOk creating created ready = (created ≡ false) × (ready ≡ false)
ThreadOk signalling created ready = (created ≡ true) × (ready ≡ false)
ThreadOk _ created ready = Unit {0}

-- n messages and the one that asks the thread to end.
abbrev pub all_calls : ℕ → List Call
all_calls zero = post_quit ∷ []
all_calls (suc n) = post_message ∷ all_calls n

module _ (windowed : Bool) where
  abbrev pub messages : List Call → List Message
  messages [] = []
  messages (c ∷ calls) = message windowed c ∷ messages calls

  -- What is in the queue or still to be posted ends with the message that ends the loop; when that one has been taken,
  -- nothing comes any more.
  abbrev pub Coming : Point → Bool → Bool → List Message → Type 0
  Coming ended true quits coming = coming ≡ []
  Coming ended false quits coming = Unit {0}
  Coming _ created true coming = coming ≡ []
  Coming _ created false coming = (k : ℕ) × (coming ≡ messages (all_calls k))

  pub record Inv (n : ℕ) (s : State) : Type 0 where
    pub caller_ok : CallerOk s.caller s.ready (length s.taken + length s.queue)
    pub ready_ok : ReadyOk s.created s.ready
    pub thread_ok : ThreadOk s.thread s.created s.ready
    pub conserved :
        ours s.taken ++ (ours s.queue ++ messages (to_post s.caller)) ≡ messages (all_calls n)
    pub coming : Coming s.thread s.created s.quits (ours s.queue ++ messages (to_post s.caller))

  pub started-Inv : (n : ℕ) → Inv n (started (all_calls n))
  started-Inv n = record {
    caller_ok = tt;
    ready_ok = tt;
    thread_ok = (refl, refl);
    conserved = refl;
    coming = (n, refl);
  }
