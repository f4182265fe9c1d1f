-- ===== src/BoundedBuffer/Runs.antt =====
-- Every interleaving of the threads.
use win32_experiments.Common.{
  ℕ, ◌≡◌, refl, sym, ap, ◌∙◌, inl, inr, true, List, [], ◌∷◌, ◌++◌, append_assoc, append-nil, arith,
}
use win32_experiments.BoundedBuffer.{
  Shared, Turn, init, Producer, making, holding, producer_gone, Consumer, working, consumer_gone,
  System, start, Moved, make_item, after_producer, run_producer, after_consumer, run_consumer,
  Action, producer_runs, consumer_runs, main_stops, step, run,
}
use win32_experiments.BoundedBuffer.Contents.{contents, slots, IsValid}
use win32_experiments.BoundedBuffer.Turns.{
  ProducerTurn, producer_turn-ProducerTurn, ConsumerTurn, consumer_turn-ConsumerTurn,
}

pub record IsSound (s : System) : Type 0 where
  pub valid : IsValid s.shared
  pub drained :
      (i : ℕ)
      → s.consumers i ≡ consumer_gone
      → (s.shared.queue_size ≡ 0) × (s.shared.stop_requested ≡ true)

append_step :
    (o c i o' c' i' d : List ℕ)
    → o ++ c ≡ d ++ i
    → o' ++ c' ≡ c ++ i'
    → (o ++ o') ++ c' ≡ d ++ (i ++ i')
append_step o c i o' c' i' d e f =
    append_assoc o o' c'
    ∙ ap (◌++◌ o) f
    ∙ sym (append_assoc o c i')
    ∙ ap (λ l. l ++ i') e
    ∙ append_assoc d i i'

contents-empty : (s : Shared) → s.queue_size ≡ 0 → contents s ≡ []
unfolding contents slots
contents-empty s e = rw e

-- What one action keeps: the invariant, and the items, in their order.
abbrev pub Keeps : System → Moved → Type 0
Keeps s m = IsSound m.system × (m.taken ++ contents m.system.shared ≡ contents s.shared ++ m.put)

after_producer-Keeps :
    (s : System) (i item : ℕ) (r : Turn)
    → IsSound s
    → ProducerTurn s.shared item r
    → Keeps s (after_producer s i r)
unfolding after_producer
after_producer-Keeps s i item r v (inl (e, _, _)) = rw e (v, sym (append-nil _))
after_producer-Keeps s i item r v (inr (inl (e, _))) =
    rw e (record { valid = v.valid; drained = v.drained }, sym (append-nil _))
after_producer-Keeps s i item r v (inr (inr (t, e, w, c, g, g'))) =
    rw e (record { valid = w; drained = λ j h. absurd (let k = (v.drained j h).1 in cc) }, c)

make_item-Keeps : (s : System) (i : ℕ) → IsSound s → Keeps s (make_item s i)
unfolding make_item contents
make_item-Keeps s i v = (
  record {
    valid = record {
      length_ok = v.valid.length_ok;
      size_ok = v.valid.size_ok;
      offset_ok = v.valid.offset_ok;
      consumed_ok = v.valid.consumed_ok;
      totals_ok = v.valid.totals_ok;
    };
    drained = v.drained;
  },
  sym (append-nil _),
)

run_producer-Keeps :
    (s : System) (i : ℕ) (pc : Producer) → IsSound s → Keeps s (run_producer s i pc)
unfolding run_producer
run_producer-Keeps s i making v = make_item-Keeps s i v
run_producer-Keeps s i (holding item) v =
    after_producer-Keeps s i item _ v (producer_turn-ProducerTurn s.shared item v.valid)
run_producer-Keeps s i producer_gone v = (v, sym (append-nil _))

after_consumer-Keeps :
    (s : System) (i : ℕ) (r : Turn)
    → IsSound s
    → ConsumerTurn s.shared r
    → Keeps s (after_consumer s i r)
unfolding after_consumer
after_consumer-Keeps s i r v (inl (e, _, _)) = rw e (v, sym (append-nil _))
after_consumer-Keeps s i r v (inr (inl (e, empty, stopped))) =
    rw e (record { valid = v.valid; drained = λ j h. (empty, stopped) }, sym (append-nil _))
after_consumer-Keeps s i r v (inr (inr (t, item, e, w, c, filled, g))) = rw e (
  record { valid = w; drained = λ j h. absurd (let k = (v.drained j h).0 in omega arith) },
  sym c ∙ sym (append-nil _),
)

run_consumer-Keeps :
    (s : System) (i : ℕ) (pc : Consumer) → IsSound s → Keeps s (run_consumer s i pc)
unfolding run_consumer
run_consumer-Keeps s i working v =
    after_consumer-Keeps s i _ v (consumer_turn-ConsumerTurn s.shared v.valid)
run_consumer-Keeps s i consumer_gone v = (v, sym (append-nil _))

step-Keeps : (s : System) (a : Action) → IsSound s → Keeps s (step s a)
unfolding step
step-Keeps s (producer_runs i) v = run_producer-Keeps s i (s.producers i) v
step-Keeps s (consumer_runs i) v = run_consumer-Keeps s i (s.consumers i) v
step-Keeps s main_stops v = (
  record {
    valid = record {
      length_ok = v.valid.length_ok;
      size_ok = v.valid.size_ok;
      offset_ok = v.valid.offset_ok;
      consumed_ok = v.valid.consumed_ok;
      totals_ok = v.valid.totals_ok;
    };
    drained = λ i h. ((v.drained i h).0, refl);
  },
  unfold contents in sym (append-nil _),
)

pub start-IsSound : IsSound start
unfolding start init
start-IsSound = record {
  valid = record {
    length_ok = refl;
    size_ok = omega arith;
    offset_ok = omega arith;
    consumed_ok = omega arith;
    totals_ok = refl;
  };
  drained = λ i h. absurd (cc);
}

-- From any sound state, under every schedule of any number of producers and consumers and of the
-- stop request: the items taken, and then those still queued, are those that were queued, and then
-- those put in, in that order. So nothing is lost, repeated or overtaken; and the state stays sound.
pub run-Keeps : (s : System) (schedule : List Action) → IsSound s → Keeps s (run s schedule)
unfolding run
run-Keeps s [] v = (v, sym (append-nil _))
run-Keeps s (a ∷ rest) v =
    let (w, e) = step-Keeps s a v in
    let (z, f) = run-Keeps (step s a).system rest w in
    (
      z,
      append_step (step s a).taken (contents (step s a).system.shared) (step s a).put
          (run (step s a).system rest).taken (contents (run (step s a).system rest).system.shared)
          (run (step s a).system rest).put (contents s.shared) e f,
    )

-- After any schedule from the start, the items taken and then those still queued are all that were
-- put in, in the order in which they were put in, and the state is sound.
pub run-start-fifo :
    (schedule : List Action)
    → let m = run start schedule in IsSound m.system × (m.taken ++ contents m.system.shared ≡ m.put)
unfolding start init contents slots
run-start-fifo schedule = run-Keeps start schedule start-IsSound

-- Once a consumer has left its loop, the queue is empty: all items that went in were consumed, in
-- order, a stop was requested, and the two totals that main prints agree.
pub run-start-drained :
    (schedule : List Action) (i : ℕ)
    → let m = run start schedule in
      m.system.consumers i ≡ consumer_gone
      → (m.taken ≡ m.put)
        × (m.system.shared.total_items_produced ≡ m.system.shared.total_items_consumed)
        × (m.system.shared.stop_requested ≡ true)
run-start-drained schedule i gone =
    let (v, e) = run-start-fifo schedule in
    let (empty, stopped) = v.drained i gone in
    let none_left = contents-empty (run start schedule).system.shared empty in
    (
      sym (append-nil _) ∙ (rw none_left at e),
      omega (arith, v.valid.totals_ok, v.valid.consumed_ok),
      stopped,
    )
