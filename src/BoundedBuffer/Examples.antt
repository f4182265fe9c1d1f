-- ===== src/BoundedBuffer/Examples.antt =====
-- A schedule of one producer and two consumers, with its stop, and the theorems on it.
use win32_experiments.Common.{◌≡◌, refl, List, [], ◌∷◌, ◌++◌}
use win32_experiments.BoundedBuffer.{
  init, start, run, step, make_item, producer_turn, consumer_turn, insert_item, consume_item,
  consumer_gone, producer_runs, consumer_runs, main_stops, Action,
}
use win32_experiments.BoundedBuffer.Contents.{contents}
use win32_experiments.BoundedBuffer.Runs.{IsSound, run-start-fifo}

-- The first consumer sleeps on the empty queue; two items go in, one is taken; then the stop.
abbrev schedule : List Action
schedule =
    consumer_runs 1
    ∷ producer_runs 1
    ∷ producer_runs 1
    ∷ producer_runs 1
    ∷ producer_runs 1
    ∷ consumer_runs 2
    ∷ main_stops
    ∷ consumer_runs 1
    ∷ consumer_runs 2
    ∷ []

schedule_takes : (run start schedule).taken ≡ 1 ∷ 2 ∷ []
unfolding run step start init make_item producer_turn consumer_turn insert_item consume_item
schedule_takes = refl

schedule_ends : (run start schedule).system.consumers 2 ≡ consumer_gone
unfolding run step start init make_item producer_turn consumer_turn insert_item consume_item
schedule_ends = refl

run-start-fifo_example :
    IsSound (run start schedule).system
    × ((run start schedule).taken ++ contents (run start schedule).system.shared
        ≡ (run start schedule).put)
run-start-fifo_example = run-start-fifo schedule
