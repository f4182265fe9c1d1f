-- ===== src/MessageQueue/Steps.antt =====
-- Every step keeps the invariant.
use win32_experiments.Common.{
  ℕ, zero, suc, ◌≡◌, refl, sym, ◌∙◌, ap, Bool, true, false, List, [], ◌∷◌, ◌++◌, append_assoc,
  length, length-append, arith, ◌+◌,
}
use mathlib.Core.Path.{subst}
use win32_experiments.MessageQueue.{
  Message, message_base, close, quit, Point, creating, signalling, looping, ended, Caller, waiting,
  posting, timed_out, post_failed, State, thread_step, get_message, Step, thread_runs, caller_runs,
  waits_too_long, creates_nothing, system_posts, other,
}
use win32_experiments.MessageQueue.Invariant.{
  to_post, CallerOk, ReadyOk, ThreadOk, all_calls, messages, Coming, Inv, still_ok, ours,
  ours-append, ours-append_other,
}
use win32_experiments.MessageQueue.CallerSteps.{caller-Inv}

module _ (windowed : Bool) where
  take_one :
      (n : ℕ) (taken : List Message) (m : Message) (rest posts : List Message)
      → ours (m ∷ []) ≡ m ∷ []
      → ours taken ++ (m ∷ (ours rest ++ posts)) ≡ messages windowed (all_calls n)
      → ours (taken ++ (m ∷ [])) ++ (ours rest ++ posts) ≡ messages windowed (all_calls n)
  take_one n taken m rest posts o e =
      let split : ours (taken ++ (m ∷ [])) ≡ ours taken ++ (m ∷ []) =
        ours-append taken (m ∷ []) ∙ ap (λ r. ours taken ++ r) o in
      ap (λ r. r ++ (ours rest ++ posts)) split
      ∙ append_assoc (ours taken) (m ∷ []) (ours rest ++ posts)
      ∙ e

  take_other :
      (n k : ℕ) (taken rest posts : List Message)
      → ours taken ++ (ours rest ++ posts) ≡ messages windowed (all_calls n)
      → ours (taken ++ (other k ∷ [])) ++ (ours rest ++ posts) ≡ messages windowed (all_calls n)
  take_other n k taken rest posts e =
      ap (λ r. r ++ (ours rest ++ posts)) (ours-append_other taken k) ∙ e

-- One taken out of the queue is still one that has come.
moved_ok :
    (caller : Caller) (ready : Bool) (taken : List Message) (m : Message) (rest : List Message)
    → CallerOk caller ready (length taken + length (m ∷ rest))
    → CallerOk caller ready (length (taken ++ (m ∷ [])) + length rest)
moved_ok caller ready taken m rest k =
    let a = length-append taken (m ∷ []) in still_ok caller ready (omega arith) k

other_ok :
    (caller : Caller) (ready : Bool) (taken queue : List Message) (k : ℕ)
    → CallerOk caller ready (length taken + length queue)
    → CallerOk caller ready (length taken + length (queue ++ (other k ∷ [])))
other_ok caller ready taken queue k c =
    let a = length-append queue (other k ∷ []) in still_ok caller ready (omega arith) c

base_coming :
    (w : Bool) (c : List Message) (k : ℕ)
    → message_base ∷ c ≡ messages w (all_calls k)
    → (j : ℕ) × (c ≡ messages w (all_calls j))
base_coming true c zero e = absurd (cc)
base_coming false c zero e = absurd (cc)
base_coming w c (suc k) e = (k, (cc))

close_coming : (c : List Message) (k : ℕ) → close ∷ c ≡ messages true (all_calls k) → c ≡ []
close_coming c zero e = cc
close_coming c (suc k) e = absurd (cc)

close_never : (c : List Message) (k : ℕ) → close ∷ c ≡ messages false (all_calls k) → ⊥
close_never c zero e = absurd (cc)
close_never c (suc k) e = absurd (cc)

quit_coming : (w : Bool) (c : List Message) (k : ℕ) → quit ∷ c ≡ messages w (all_calls k) → c ≡ []
quit_coming true c zero e = absurd (cc)
quit_coming false c zero e = cc
quit_coming w c (suc k) e = absurd (cc)

over : (w created quits : Bool) (c : List Message) → c ≡ [] → Coming w ended created quits c
over w true quits c e = e
over w false quits c e = tt

loop-Inv :
    (w : Bool) (n : ℕ) (created ready : Bool) (queue : List Message) (quits : Bool)
    (taken : List Message) (caller : Caller)
    → (let s : State = record {
      created = created;
      ready = ready;
      queue = queue;
      quits = quits;
      taken = taken;
      thread = looping;
      caller = caller;
    } in
        Inv w n s → Inv w n (get_message w s))
unfolding get_message
loop-Inv w n created ready [] true taken caller v = record {
  caller_ok = v.caller_ok;
  ready_ok = v.ready_ok;
  thread_ok = tt;
  conserved = v.conserved;
  coming = over w created true (messages w (to_post caller)) v.coming;
}
loop-Inv w n created ready [] false taken caller v = v
loop-Inv w n created ready (other k ∷ rest) quits taken caller v = record {
  caller_ok = moved_ok caller ready taken (other k) rest v.caller_ok;
  ready_ok = v.ready_ok;
  thread_ok = tt;
  conserved = take_other w n k taken rest (messages w (to_post caller)) v.conserved;
  coming = v.coming;
}
loop-Inv w n created ready (message_base ∷ rest) true taken caller v =
    absurd (let e = v.coming in cc)
loop-Inv w n created ready (close ∷ rest) true taken caller v = absurd (let e = v.coming in cc)
loop-Inv w n created ready (quit ∷ rest) true taken caller v = absurd (let e = v.coming in cc)
loop-Inv true n created ready (message_base ∷ rest) false taken caller v = record {
  caller_ok = moved_ok caller ready taken message_base rest v.caller_ok;
  ready_ok = v.ready_ok;
  thread_ok = tt;
  conserved =
      take_one true n taken message_base rest (messages true (to_post caller)) refl v.conserved;
  coming =
      let (k, e) = v.coming in base_coming true (ours rest ++ messages true (to_post caller)) k e;
}
loop-Inv false n created ready (message_base ∷ rest) false taken caller v = record {
  caller_ok = moved_ok caller ready taken message_base rest v.caller_ok;
  ready_ok = v.ready_ok;
  thread_ok = tt;
  conserved =
      take_one false n taken message_base rest (messages false (to_post caller)) refl v.conserved;
  coming =
      let (k, e) = v.coming in base_coming false (ours rest ++ messages false (to_post caller)) k e;
}
loop-Inv true n created ready (close ∷ rest) false taken caller v = record {
  caller_ok = moved_ok caller ready taken close rest v.caller_ok;
  ready_ok = v.ready_ok;
  thread_ok = tt;
  conserved = take_one true n taken close rest (messages true (to_post caller)) refl v.conserved;
  coming = let (k, e) = v.coming in close_coming (ours rest ++ messages true (to_post caller)) k e;
}
loop-Inv false n created ready (close ∷ rest) false taken caller v =
    absurd (let (k, e) = v.coming in close_never (ours rest ++ messages false (to_post caller)) k e)
loop-Inv w n created ready (quit ∷ rest) false taken caller v = record {
  caller_ok = moved_ok caller ready taken quit rest v.caller_ok;
  ready_ok = v.ready_ok;
  thread_ok = tt;
  conserved = take_one w n taken quit rest (messages w (to_post caller)) refl v.conserved;
  coming =
      let (k, e) = v.coming in
      over w created false (ours rest ++ messages w (to_post caller))
        (quit_coming w (ours rest ++ messages w (to_post caller)) k e);
}

thread-Inv :
    (w : Bool) (n : ℕ) (created ready : Bool) (queue : List Message) (quits : Bool)
    (taken : List Message) (thread : Point) (caller : Caller)
    → (let s : State = record {
      created = created;
      ready = ready;
      queue = queue;
      quits = quits;
      taken = taken;
      thread = thread;
      caller = caller;
    } in
        Inv w n s → Inv w n (thread_step w s))
unfolding thread_step
thread-Inv w n created ready queue quits taken creating caller v = record {
  caller_ok = v.caller_ok;
  ready_ok = ready_of_created ready;
  thread_ok = (refl, v.thread_ok.1);
  conserved = v.conserved;
  coming = made w quits (ours queue ++ messages w (to_post caller)) v.coming;
}
  where
    made :
        (w quits : Bool) (c : List Message)
        → Coming w creating created quits c
        → Coming w signalling true quits c
    made w true c h = h
    made w false c h = h

    ready_of_created : (ready : Bool) → ReadyOk true ready
    ready_of_created true = refl
    ready_of_created false = tt
thread-Inv w n created ready queue quits taken signalling caller v = record {
  caller_ok = signalled caller (length taken + length queue) v.caller_ok;
  ready_ok = v.thread_ok.0;
  thread_ok = tt;
  conserved = v.conserved;
  coming = ready_now w quits (ours queue ++ messages w (to_post caller)) v.coming;
}
  where
    ready_now :
        (w quits : Bool) (c : List Message)
        → Coming w signalling created quits c
        → Coming w looping created quits c
    ready_now w true c h = h
    ready_now w false c h = h

    signalled :
        (caller : Caller) (total : ℕ) → CallerOk caller ready total → CallerOk caller true total
    signalled (waiting calls) total k = tt
    signalled (posting calls) total k = refl
    signalled (timed_out calls) total k = tt
    signalled (post_failed calls) total k = k
thread-Inv w n created ready queue quits taken looping caller v =
    loop-Inv w n created ready queue quits taken caller v
thread-Inv w n created ready queue quits taken ended caller v = v

pub step-Inv : (w : Bool) (n : ℕ) {s t : State} → Step w s t → Inv w n s → Inv w n t
step-Inv w n (thread_runs {s}) v =
    thread-Inv w n s.created s.ready s.queue s.quits s.taken s.thread s.caller v
step-Inv w n (caller_runs {s}) v =
    caller-Inv w n s.created s.ready s.queue s.quits s.taken s.thread s.caller v
step-Inv w n (waits_too_long {s} {calls} e) v =
    let same = ap (λ c. ours s.queue ++ messages w (to_post c)) e in
    record {
      caller_ok = tt;
      ready_ok = v.ready_ok;
      thread_ok = v.thread_ok;
      conserved = ap (λ x. ours s.taken ++ x) (sym same) ∙ v.conserved;
      coming = subst (Coming w s.thread s.created s.quits) same v.coming;
    }
step-Inv w n (creates_nothing {s} e) v =
    let (none_made, _) = subst (λ p. ThreadOk p s.created s.ready) e v.thread_ok in
    record {
      caller_ok = v.caller_ok;
      ready_ok = v.ready_ok;
      thread_ok = tt;
      conserved = v.conserved;
      coming =
          subst (λ b. Coming w ended b s.quits (ours s.queue ++ messages w (to_post s.caller)))
            (sym none_made) tt;
    }
step-Inv w n (system_posts {s} k windowed looped) v =
    let same = ap (λ q. q ++ messages w (to_post s.caller)) (sym (ours-append_other s.queue k)) in
    record {
      caller_ok = other_ok s.caller s.ready s.taken s.queue k v.caller_ok;
      ready_ok = v.ready_ok;
      thread_ok = v.thread_ok;
      conserved = ap (λ x. ours s.taken ++ x) (sym same) ∙ v.conserved;
      coming = subst (Coming w s.thread s.created s.quits) same v.coming;
    }
