-- ===== src/MessageQueue/Ending.antt =====
-- The loop of the thread ends once everything has been posted, and has taken every message then.
use win32_experiments.Common.{
  ℕ, zero, suc, ◌≡◌, refl, sym, ◌∙◌, ap, Bool, true, false, List, [], ◌∷◌, ◌++◌, append-nil,
  append_assoc, length,
}
use mathlib.Core.Path.{subst}
use win32_experiments.MessageQueue.{
  Point, Caller, creating, signalling, Message, message_base, close, quit, other, looping, ended,
  posting, State, thread_step, get_message, Reaches, started,
}
use win32_experiments.MessageQueue.Invariant.{
  all_calls, messages, Inv, started-Inv, ours, ours-append, ours-append_other,
}
use win32_experiments.MessageQueue.Safety.{Reaches-Inv}

-- Steps of the thread alone.
pub thread_steps : Bool → ℕ → State → State
thread_steps w zero s = s
thread_steps w (suc n) s = thread_steps w n (thread_step w s)

abbrev at_loop : Bool → Bool → List Message → Bool → List Message → State
at_loop created ready queue quits taken = record {
  created = created;
  ready = ready;
  queue = queue;
  quits = quits;
  taken = taken;
  thread = looping;
  caller = posting [];
}

steps_ended : (w : Bool) (n : ℕ) (s : State) → s.thread ≡ ended → thread_steps w n s ≡ s
unfolding thread_steps thread_step
steps_ended w zero s e = refl
steps_ended w (suc n) s e =
    let still =
      subst (λ p. thread_step w (record s { thread = p }) ≡ record s { thread = p }) (sym e) refl in
    ap (thread_steps w n) still ∙ steps_ended w n s e

-- What has been posted is taken, and the loop ends with what PostQuitMessage has left.
drained :
    (w : Bool) (created ready : Bool) (queue taken : List Message)
    → ours queue ≡ []
    → (let t = thread_steps w (suc (length queue)) (at_loop created ready queue true taken) in
        (t.thread ≡ ended) × (ours t.taken ≡ ours taken))
unfolding thread_steps thread_step get_message
drained w created ready [] taken e = (refl, refl)
drained w created ready (other k ∷ queue) taken e =
    let (f, g) = drained w created ready queue (taken ++ (other k ∷ [])) e in
    (f, g ∙ ours-append_other taken k)
drained w created ready (message_base ∷ queue) taken e = absurd (cc)
drained w created ready (close ∷ queue) taken e = absurd (cc)
drained w created ready (quit ∷ queue) taken e = absurd (cc)

-- One more that the calls have posted.
taken_ours :
    (taken : List Message) (m : Message)
    → ours (m ∷ []) ≡ m ∷ []
    → ours (taken ++ (m ∷ [])) ≡ ours taken ++ (m ∷ [])
taken_ours taken m o = ours-append taken (m ∷ []) ∙ ap (λ r. ours taken ++ r) o

-- A step for each message of the queue, and one more for what PostQuitMessage has left.
all_taken :
    (w : Bool) (k : ℕ) (created ready : Bool) (queue taken : List Message)
    → ours queue ≡ messages w (all_calls k)
    → (let t = thread_steps w (suc (length queue)) (at_loop created ready queue false taken) in
        (t.thread ≡ ended) × (ours t.taken ≡ ours taken ++ messages w (all_calls k)))
unfolding thread_steps thread_step get_message
all_taken true zero created ready [] taken e = absurd (cc)
all_taken false zero created ready [] taken e = absurd (cc)
all_taken w (suc k) created ready [] taken e = absurd (cc)
all_taken w k created ready (other n ∷ queue) taken e =
    let (f, g) = all_taken w k created ready queue (taken ++ (other n ∷ [])) e in
    (f, g ∙ ap (λ r. r ++ messages w (all_calls k)) (ours-append_other taken n))
all_taken true zero created ready (message_base ∷ queue) taken e = absurd (cc)
all_taken false zero created ready (message_base ∷ queue) taken e = absurd (cc)
all_taken w (suc k) created ready (message_base ∷ queue) taken e =
    let (f, g) = all_taken w k created ready queue (taken ++ (message_base ∷ [])) (cc) in
    (
      f,
      g
          ∙ ap (λ r. r ++ messages w (all_calls k)) (taken_ours taken message_base refl)
          ∙ append_assoc (ours taken) (message_base ∷ []) (messages w (all_calls k)),
    )
all_taken true zero created ready (close ∷ queue) taken e =
    let (f, g) = drained true created ready queue (taken ++ (close ∷ [])) (cc) in
    (f, g ∙ taken_ours taken close refl)
all_taken false zero created ready (close ∷ queue) taken e = absurd (cc)
all_taken w (suc k) created ready (close ∷ queue) taken e = absurd (cc)
all_taken true zero created ready (quit ∷ queue) taken e = absurd (cc)
all_taken false zero created ready (quit ∷ queue) taken e =
    let s : State = record (at_loop created ready queue false (taken ++ (quit ∷ []))) {
      thread = ended;
    } in
    let same = steps_ended false (suc (length queue)) s refl in
    (
      ap (λ (x : State). x.thread) same,
      ap (λ (x : State). ours x.taken) same ∙ taken_ours taken quit refl,
    )
all_taken w (suc k) created ready (quit ∷ queue) taken e = absurd (cc)

abbrev pub Finished : Bool → ℕ → State → Type 0
Finished w n s =
    (let t = thread_steps w (suc (length s.queue)) s in
      (t.thread ≡ ended) × (ours t.taken ≡ messages w (all_calls n)))

loop-Finished :
    (w : Bool) (n : ℕ) (created ready : Bool) (queue : List Message) (quits : Bool)
    (taken : List Message)
    → Inv w n (at_loop created ready queue quits taken)
    → Finished w n (at_loop created ready queue quits taken)
loop-Finished w n created ready queue true taken v =
    let none_left : ours queue ≡ [] = sym (append-nil (ours queue)) ∙ v.coming in
    let (f, g) = drained w created ready queue taken none_left in
    let whole : ours taken ++ [] ≡ messages w (all_calls n) =
      ap (λ r. ours taken ++ r) (sym v.coming) ∙ v.conserved in
    (f, g ∙ sym (append-nil (ours taken)) ∙ whole)
loop-Finished w n created ready queue false taken v =
    let (k, e) = v.coming in
    let left : ours queue ≡ messages w (all_calls k) = sym (append-nil (ours queue)) ∙ e in
    let (f, g) = all_taken w k created ready queue taken left in
    (f, g ∙ ap (λ x. ours taken ++ x) (sym e) ∙ v.conserved)

any-Finished :
    (w : Bool) (n : ℕ) (created ready : Bool) (queue : List Message) (quits : Bool)
    (taken : List Message) (thread : Point)
    → (let s : State = record (at_loop created ready queue quits taken) { thread = thread } in
        Inv w n s → Finished w n s)
any-Finished w n created true queue quits taken creating v = absurd (let e = v.thread_ok.1 in cc)
any-Finished w n created false queue quits taken creating v = absurd (let e = v.caller_ok in cc)
any-Finished w n created true queue quits taken signalling v = absurd (let e = v.thread_ok.1 in cc)
any-Finished w n created false queue quits taken signalling v = absurd (let e = v.caller_ok in cc)
any-Finished w n created ready queue quits taken looping v =
    loop-Finished w n created ready queue quits taken v
any-Finished w n true ready queue quits taken ended v =
    let s : State = record (at_loop true ready queue quits taken) { thread = ended } in
    let same = steps_ended w (suc (length queue)) s refl in
    let left = v.coming in
    (
      ap (λ (x : State). x.thread) same,
      ap (λ (x : State). ours x.taken) same
          ∙ sym (append-nil (ours taken))
          ∙ ap (λ x. ours taken ++ x) (sym left)
          ∙ v.conserved,
    )
any-Finished w n false true queue quits taken ended v = absurd (let e = v.ready_ok in cc)
any-Finished w n false false queue quits taken ended v = absurd (let e = v.caller_ok in cc)

-- WaitOnReady, n calls of PostMessage and one of PostQuit, for a thread with a window or without one: once all calls have
-- been made, as many steps of the thread as there are messages in its queue, and one more, bring its Run to its
-- end, and GetMessage has taken the messages of all calls, in order, whatever other messages it took between them.
pub Reaches-Finished :
    (w : Bool) (n : ℕ) (s : State)
    → Reaches w (started (all_calls n)) s
    → s.caller ≡ posting []
    → Finished w n s
Reaches-Finished w n s r e =
    subst
      (λ (c : Caller). Inv w n (record s { caller = c }) → Finished w n (record s { caller = c }))
      (sym e) (any-Finished w n s.created s.ready s.queue s.quits s.taken s.thread)
      (Reaches-Inv w n r (started-Inv w n))
