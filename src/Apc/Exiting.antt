-- ===== src/Apc/Exiting.antt =====
-- Exit ends the thread, whatever the order of the steps.
use win32_experiments.Common.{
  ℕ, ◌≡◌, ◌≢◌, refl, sym, Bool, false, Option, none, List, [], ◌∷◌, ◌++◌, arith,
}
use mathlib.Core.Path.{subst}
use win32_experiments.Apc.{
  Point, starting, testing, sleeping, ended, Caller, exiting, over, State, thread_step, caller_step,
  Step, thread_runs, caller_runs, Reaches, here, then_step, started, thread_steps,
}

abbrev Waking : Point → List (Option ℕ) → Type 0
Waking sleeping [] = ⊥
Waking _ queue = Unit {0}

-- Run is false once Exit has begun. Behind Exit, the thread does not sleep on an empty queue, and Begin has been called.
abbrev Exits : Caller → Bool → Point → List (Option ℕ) → Type 0
Exits exiting run thread queue = run ≡ false
Exits over run starting queue = ⊥
Exits over run thread queue = (run ≡ false) × Waking thread queue
Exits _ run thread queue = Unit {0}

abbrev ExitsOk : State → Type 0
ExitsOk s = Exits s.caller s.run s.thread s.queue

snoc_ne : (queue : List (Option ℕ)) (f : Option ℕ) → queue ++ (f ∷ []) ≢ []
snoc_ne [] f e = absurd (cc)
snoc_ne (x ∷ queue) f e = absurd (cc)

thread-ExitsOk :
    (run : Bool) (queue executed : List (Option ℕ)) (thread : Point) (caller : Caller)
    → (let s : State = record {
      run = run;
      queue = queue;
      executed = executed;
      thread = thread;
      caller = caller;
    } in
        ExitsOk s → ExitsOk (thread_step s))
unfolding thread_step
thread-ExitsOk run queue executed thread caller h = ground arith

caller-ExitsOk :
    (run : Bool) (queue executed : List (Option ℕ)) (thread : Point) (caller : Caller)
    → (let s : State = record {
      run = run;
      queue = queue;
      executed = executed;
      thread = thread;
      caller = caller;
    } in
        ExitsOk s → ExitsOk (caller_step s))
unfolding caller_step
caller-ExitsOk run queue executed thread caller h = ground (arith, snoc_ne queue none)

step-ExitsOk : {s t : State} → Step s t → ExitsOk s → ExitsOk t
step-ExitsOk (thread_runs {s}) h = thread-ExitsOk s.run s.queue s.executed s.thread s.caller h
step-ExitsOk (caller_runs {s}) h = caller-ExitsOk s.run s.queue s.executed s.thread s.caller h

Reaches-ExitsOk : {s t : State} → Reaches s t → ExitsOk s → ExitsOk t
Reaches-ExitsOk here h = h
Reaches-ExitsOk (then_step r e) h = step-ExitsOk e (Reaches-ExitsOk r h)

over-Ends :
    (run : Bool) (queue executed : List (Option ℕ)) (thread : Point)
    → (let s : State = record {
      run = run;
      queue = queue;
      executed = executed;
      thread = thread;
      caller = over;
    } in
        ExitsOk s → (thread_steps 2 s).thread ≡ ended)
unfolding thread_steps thread_step
over-Ends run queue executed starting h = absurd h
over-Ends run queue executed testing h = rw (h.0) refl
over-Ends run [] executed sleeping h = absurd h.1
over-Ends run (f ∷ rest) executed sleeping h = rw (h.0) refl
over-Ends run queue executed ended h = refl

-- Whatever values are passed to Enqueue2, and in whatever order the two threads take their steps: once Exit has returned,
-- two steps of the thread bring it to its end, so that no wakeup is lost.
pub Reaches-Ends :
    (values : List ℕ) (s : State)
    → Reaches (started values) s
    → s.caller ≡ over
    → (thread_steps 2 s).thread ≡ ended
Reaches-Ends values s r e =
    subst
      (λ (c : Caller).
        ExitsOk (record s { caller = c })
        → (thread_steps 2 (record s { caller = c })).thread ≡ ended)
      (sym e) (over-Ends s.run s.queue s.executed s.thread) (Reaches-ExitsOk r tt)
