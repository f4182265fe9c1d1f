-- ===== src/MessageQueue/CallerSteps.antt =====
-- Every step of the thread that calls keeps the invariant.
use win32_experiments.Common.{
  ℕ, ◌≡◌, refl, sym, ◌∙◌, ap, Bool, true, false, List, [], ◌∷◌, ◌++◌, append_assoc, ◌≤◌, length,
  ltb, if◌then◌else◌, Bool-cases, inl, inr, arith,
}
use mathlib.Core.Path.{subst}
use win32_experiments.MessageQueue.{
  Message, Call, Point, creating, signalling, looping, ended, Caller, waiting, posting, timed_out,
  post_failed, State, message, caller_step, queue_limit,
}
use win32_experiments.MessageQueue.Invariant.{
  messages, Coming, Inv, ours, ours-append, ours-message,
}

module _ (windowed : Bool) where
  messages_append :
      (q : List Message) (c : Call) (calls : List Call)
      → ours (q ++ (message windowed c ∷ [])) ++ messages windowed calls
        ≡ ours q ++ messages windowed (c ∷ calls)
  messages_append q c calls =
      let posted : ours (q ++ (message windowed c ∷ [])) ≡ ours q ++ (message windowed c ∷ []) =
        (ours-append q (message windowed c ∷ [])
          ∙ ap (λ r. ours q ++ r) (ours-message windowed c)) in
      ap (λ r. r ++ messages windowed calls) posted
      ∙ append_assoc (ours q) (message windowed c ∷ []) (messages windowed calls)

  more_coming :
      (queue : List Message) (c : Call) (calls : List Call)
      → queue ++ messages windowed (c ∷ calls) ≡ []
      → ⊥
  more_coming [] c calls e = absurd (cc)
  more_coming (m ∷ queue) c calls e = absurd (cc)

  posted-Inv :
      (n : ℕ) (created ready : Bool) (queue : List Message) (quits : Bool) (taken : List Message)
      (thread : Point) (c : Call) (calls : List Call)
      → (let s : State = record {
        created = created;
        ready = ready;
        queue = queue;
        quits = quits;
        taken = taken;
        thread = thread;
        caller = posting (c ∷ calls);
      } in
          Inv windowed n s
          → Inv windowed n
              (record s { queue = queue ++ (message windowed c ∷ []); caller = posting calls }))
  posted-Inv n created ready queue quits taken thread c calls v = record {
    caller_ok = v.caller_ok;
    ready_ok = v.ready_ok;
    thread_ok = v.thread_ok;
    conserved = ap (λ x. ours taken ++ x) (messages_append queue c calls) ∙ v.conserved;
    coming =
        subst (Coming windowed thread created quits) (sym (messages_append queue c calls)) v.coming;
  }

  full-Inv :
      (n : ℕ) (created ready : Bool) (queue : List Message) (quits : Bool) (taken : List Message)
      (thread : Point) (c : Call) (calls : List Call)
      → queue_limit ≤ length queue
      → (let s : State = record {
        created = created;
        ready = ready;
        queue = queue;
        quits = quits;
        taken = taken;
        thread = thread;
        caller = posting (c ∷ calls);
      } in
          Inv windowed n s → Inv windowed n (record s { caller = post_failed (c ∷ calls) }))
  full-Inv n created ready queue quits taken thread c calls l v = record {
    caller_ok = omega arith;
    ready_ok = v.ready_ok;
    thread_ok = v.thread_ok;
    conserved = v.conserved;
    coming = v.coming;
  }

  -- A post to a thread that has its window or its queue.
  post-Inv :
      (n : ℕ) (created ready : Bool) (queue : List Message) (quits : Bool) (taken : List Message)
      (thread : Point) (c : Call) (calls : List Call)
      → (let s : State = record {
        created = created;
        ready = ready;
        queue = queue;
        quits = quits;
        taken = taken;
        thread = thread;
        caller = posting (c ∷ calls);
      } in
          Inv windowed n s
          → Inv windowed n (
              if ltb (length queue) queue_limit
              then record s { queue = queue ++ (message windowed c ∷ []); caller = posting calls }
              else record s { caller = post_failed (c ∷ calls) }))
  post-Inv n created ready queue quits taken thread c calls v =
      elim (Bool-cases (ltb (length queue) queue_limit)) [
        | inl e ↦ rw e (posted-Inv n created ready queue quits taken thread c calls v)
        | inr e ↦ rw e (full-Inv n created ready queue quits taken thread c calls (ground arith) v)
      ]

  pub caller-Inv :
      (n : ℕ) (created ready : Bool) (queue : List Message) (quits : Bool) (taken : List Message)
      (thread : Point) (caller : Caller)
      → (let s : State = record {
        created = created;
        ready = ready;
        queue = queue;
        quits = quits;
        taken = taken;
        thread = thread;
        caller = caller;
      } in
          Inv windowed n s → Inv windowed n (caller_step windowed s))
  unfolding caller_step
  caller-Inv n created true queue quits taken thread (waiting calls) v = record {
    caller_ok = refl;
    ready_ok = v.ready_ok;
    thread_ok = v.thread_ok;
    conserved = v.conserved;
    coming = v.coming;
  }
  caller-Inv n created false queue quits taken thread (waiting calls) v = v
  caller-Inv n created ready queue quits taken thread (posting []) v = v
  caller-Inv n true ready queue quits taken ended (posting (c ∷ calls)) v =
      absurd (more_coming (ours queue) c calls v.coming)
  caller-Inv n true ready queue quits taken creating (posting (c ∷ calls)) v =
      post-Inv n true ready queue quits taken creating c calls v
  caller-Inv n true ready queue quits taken signalling (posting (c ∷ calls)) v =
      post-Inv n true ready queue quits taken signalling c calls v
  caller-Inv n true ready queue quits taken looping (posting (c ∷ calls)) v =
      post-Inv n true ready queue quits taken looping c calls v
  caller-Inv n false true queue quits taken thread (posting (c ∷ calls)) v =
      absurd (let e = v.ready_ok in cc)
  caller-Inv n false false queue quits taken thread (posting (c ∷ calls)) v =
      absurd (let e = v.caller_ok in cc)
  caller-Inv n created ready queue quits taken thread (timed_out calls) v = v
  caller-Inv n created ready queue quits taken thread (post_failed calls) v = v
