-- ===== src/BoundedBuffer.antt =====
-- src/ConditionVariables/ConditionVariables.cpp: a ring buffer of ten items between producer and
-- consumer threads. What a thread does between EnterCriticalSection and LeaveCriticalSection, or
-- between two sleeps on a condition variable, is one turn; a schedule is any list of turns. A
-- sleeping thread may be scheduled at any time (Windows allows spurious wake-ups), so the wake calls
-- leave no trace in the model. The waits for random times and the output are left out.
pub mod Contents
pub mod Turns
pub mod Runs
mod Examples
use win32_experiments.Common.{
  ℕ, zero, suc, ◌+◌, ◌-◌, ◌%◌, ◌^◌, Bool, true, false, not, ◌&&◌, List, [], ◌∷◌, ◌++◌, ◌==◌,
  if◌then◌else◌, get_or, set, replicate,
}

abbrev pub buffer_size : ℕ
buffer_size = 10

-- The globals that the lock guards, and LastItemProduced.
pub record Shared : Type 0 where
  pub buffer : List ℕ
  pub last_item_produced : ℕ
  pub queue_size : ℕ
  pub queue_start_offset : ℕ
  pub total_items_produced : ℕ
  pub total_items_consumed : ℕ
  pub stop_requested : Bool

pub init : Shared
init = record {
  buffer = replicate 10 0;
  last_item_produced = 0;
  queue_size = 0;
  queue_start_offset = 0;
  total_items_produced = 0;
  total_items_consumed = 0;
  stop_requested = false;
}

-- A thread sleeps on its condition variable, leaves its loop, or goes on with an item.
pub data Turn : Type 0 where
  sleeps : Turn
  exits : Turn
  continues : Shared → ℕ → Turn

pub insert_item : Shared → ℕ → Shared
insert_item s item = record s {
  buffer = set s.buffer ((s.queue_start_offset + s.queue_size) % buffer_size) item;
  queue_size = s.queue_size + 1;
  total_items_produced = (s.total_items_produced + 1) % 2 ^ 32;
}

pub producer_turn : Shared → ℕ → Turn
producer_turn s item =
    if s.queue_size == buffer_size && not s.stop_requested
    then sleeps
    else if s.stop_requested
    then exits
    else continues (insert_item s item) item

pub consume_item : Shared → Shared
consume_item s = record s {
  queue_size = s.queue_size - 1;
  queue_start_offset =
      if s.queue_start_offset + 1 == buffer_size then 0 else s.queue_start_offset + 1;
  total_items_consumed = (s.total_items_consumed + 1) % 2 ^ 32;
}

pub consumer_turn : Shared → Turn
consumer_turn s =
    if s.queue_size == 0 && not s.stop_requested
    then sleeps
    else if s.stop_requested && s.queue_size == 0
    then exits
    else continues (consume_item s) (get_or s.buffer s.queue_start_offset 0)

-- A producer makes an item before it asks for the lock.
pub data Producer : Type 0 where
  making : Producer
  holding : ℕ → Producer
  producer_gone : Producer

pub data Consumer : Type 0 where
  working : Consumer
  consumer_gone : Consumer

pub record System : Type 0 where
  pub shared : Shared
  pub producers : ℕ → Producer
  pub consumers : ℕ → Consumer

-- The threads start at the top of their loops.
pub start : System
start = record { shared = init; producers = λ i. making; consumers = λ i. working }

abbrev pub update {ℓ} : {A : Type ℓ} → (ℕ → A) → ℕ → A → ℕ → A
update f i a j = if i == j then a else f j

-- The next state, the items that went into the queue and those that came out.
pub record Moved : Type 0 where
  pub system : System
  pub put : List ℕ
  pub taken : List ℕ

-- InterlockedIncrement, and the item in the producer's hand.
pub make_item : System → ℕ → Moved
make_item s i =
    let item = (s.shared.last_item_produced + 1) % 2 ^ 32 in
    record {
      system = record {
        shared = record (s.shared) { last_item_produced = item };
        producers = update s.producers i (holding item);
        consumers = s.consumers;
      };
      put = [];
      taken = [];
    }

pub after_producer : System → ℕ → Turn → Moved
after_producer s i sleeps = record { system = s; put = []; taken = [] }
after_producer s i exits = record {
  system = record s { producers = update s.producers i producer_gone };
  put = [];
  taken = [];
}
after_producer s i (continues t item) = record {
  system = record s { shared = t; producers = update s.producers i making };
  put = item ∷ [];
  taken = [];
}

pub run_producer : System → ℕ → Producer → Moved
unfolding make_item after_producer
run_producer s i making = make_item s i
run_producer s i (holding item) = after_producer s i (producer_turn s.shared item)
run_producer s i producer_gone = record { system = s; put = []; taken = [] }

pub after_consumer : System → ℕ → Turn → Moved
after_consumer s i sleeps = record { system = s; put = []; taken = [] }
after_consumer s i exits = record {
  system = record s { consumers = update s.consumers i consumer_gone };
  put = [];
  taken = [];
}
after_consumer s i (continues t item) = record {
  system = record s { shared = t };
  put = [];
  taken = item ∷ [];
}

pub run_consumer : System → ℕ → Consumer → Moved
unfolding after_consumer
run_consumer s i working = after_consumer s i (consumer_turn s.shared)
run_consumer s i consumer_gone = record { system = s; put = []; taken = [] }

pub data Action : Type 0 where
  producer_runs : ℕ → Action
  consumer_runs : ℕ → Action
  main_stops : Action

pub step : System → Action → Moved
unfolding run_producer run_consumer
step s (producer_runs i) = run_producer s i (s.producers i)
step s (consumer_runs i) = run_consumer s i (s.consumers i)
step s main_stops = record {
  system = record s { shared = record (s.shared) { stop_requested = true } };
  put = [];
  taken = [];
}

pub run : System → List Action → Moved
run s [] = record { system = s; put = []; taken = [] }
run s (a ∷ rest_actions) =
    let first = step s a in
    let rest = run first.system rest_actions in
    record { system = rest.system; put = first.put ++ rest.put; taken = first.taken ++ rest.taken }
