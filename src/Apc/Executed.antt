-- ===== src/Apc/Executed.antt =====
-- What the thread executes of what is queued to it.
use win32_experiments.Common.{
  ℕ, ◌≡◌, refl, Bool, true, false, Option, none, some, List, [], ◌∷◌, ◌++◌, append_assoc,
  append-nil, arith,
}
use mathlib.Core.Path.{subst}
use win32_experiments.Apc.{
  Point, starting, testing, ended, Caller, enqueuing, exiting, over, threw, crashed, State,
  thread_step, caller_step, queue_member_function, thread_runs, caller_runs, Reaches, here,
  then_step, started,
}

-- What Enqueue2 on the values and Exit queue.
abbrev pub queued_by : List ℕ → List (Option ℕ)
queued_by [] = none ∷ []
queued_by (i ∷ values) = some i ∷ queued_by values

abbrev ahead : Caller → List (Option ℕ)
ahead (enqueuing values) = queued_by values
ahead exiting = none ∷ []
ahead _ = []

-- After Begin has been called, and before QueueUserAPC has failed.
abbrev pub Kept : List (Option ℕ) → Point → Caller → List (Option ℕ) → Type 0
Kept all starting caller now = ⊥
Kept all thread threw now = Unit {0}
Kept all thread crashed now = ⊥
Kept all thread caller now = now ≡ all

abbrev pub Fifo : List (Option ℕ) → State → Type 0
Fifo all s = Kept all s.thread s.caller (s.executed ++ (s.queue ++ ahead s.caller))

thread-Fifo :
    (all : List (Option ℕ)) (run : Bool) (queue executed : List (Option ℕ)) (thread : Point)
    (caller : Caller)
    → (let s : State = record {
      run = run;
      queue = queue;
      executed = executed;
      thread = thread;
      caller = caller;
    } in
        Fifo all s → Fifo all (thread_step s))
unfolding thread_step
thread-Fifo all run queue executed thread caller h =
    ground (arith, append_assoc executed queue (ahead caller))

caller-Fifo :
    (all : List (Option ℕ)) (run : Bool) (queue executed : List (Option ℕ)) (thread : Point)
    (caller : Caller)
    → (let s : State = record {
      run = run;
      queue = queue;
      executed = executed;
      thread = thread;
      caller = caller;
    } in
        Fifo all s → Fifo all (caller_step s))
unfolding caller_step
caller-Fifo all run queue executed thread (enqueuing []) h = ground arith
caller-Fifo all run queue executed thread (enqueuing (i ∷ values)) h =
    ground (arith, append_assoc queue (some i ∷ []) (queued_by values))
caller-Fifo all run queue executed thread exiting h =
    ground (arith, append-nil (queue ++ (none ∷ [])))
caller-Fifo all run queue executed thread over h = h
caller-Fifo all run queue executed thread threw h = h
caller-Fifo all run queue executed thread crashed h = h

-- Begin has been called, and the other thread has not yet queued anything.
abbrev pub begun : List ℕ → State
begun values = record (started values) { thread = testing }

Reaches-Fifo_from : (all : List (Option ℕ)) {s t : State} → Reaches s t → Fifo all s → Fifo all t
Reaches-Fifo_from all here h = h
Reaches-Fifo_from all (then_step r (thread_runs {s})) h =
    thread-Fifo all s.run s.queue s.executed s.thread s.caller (Reaches-Fifo_from all r h)
Reaches-Fifo_from all (then_step r (caller_runs {s})) h =
    caller-Fifo all s.run s.queue s.executed s.thread s.caller (Reaches-Fifo_from all r h)

-- Once Begin has been called, in whatever order the steps come, and as long as QueueUserAPC has not failed: what the thread
-- has executed, what is in its queue and what is still to be queued are together, in order, SomeFunc2 on the values and
-- then NoOp, each once. The null pointer is never used.
pub Reaches-Fifo :
    (values : List ℕ) (s : State) → Reaches (begun values) s → Fifo (queued_by values) s
Reaches-Fifo values s r = Reaches-Fifo_from (queued_by values) r refl

-- The other thread takes all its steps while the thread waits to test Run.
enqueue_all :
    (values : List ℕ) (queue : List (Option ℕ)) (from : State)
    → Reaches from (record {
      run = true;
      queue = queue;
      executed = [];
      thread = testing;
      caller = enqueuing values;
    })
    → Reaches from (record {
      run = false;
      queue = queue ++ queued_by values;
      executed = [];
      thread = testing;
      caller = over;
    })
unfolding caller_step queue_member_function
enqueue_all [] queue from r = then_step (then_step r caller_runs) caller_runs
enqueue_all (i ∷ values) queue from r =
    subst
      (λ q.
        Reaches from
          (record { run = false; queue = q; executed = []; thread = testing; caller = over }))
      (append_assoc queue (some i ∷ []) (queued_by values))
      (enqueue_all values (queue ++ (some i ∷ [])) from (then_step r caller_runs))

-- For all values that are passed to Enqueue2 there is an order of the steps in which Exit returns, the thread has
-- ended, and nothing that was queued has been executed.
pub Reaches-lost :
    (values : List ℕ)
    → (s : State) × Reaches (started values) s
      × (s.caller ≡ over)
      × (s.thread ≡ ended)
      × (s.executed ≡ [])
      × (s.queue ≡ queued_by values)
unfolding thread_step
Reaches-lost values =
    let called = then_step here thread_runs in
    let queued = enqueue_all values [] (started values) called in
    (
      record {
        run = false;
        queue = queued_by values;
        executed = [];
        thread = ended;
        caller = over;
      },
      then_step queued thread_runs,
      refl,
      refl,
      refl,
      refl,
    )
