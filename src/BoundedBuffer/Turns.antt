-- ===== src/BoundedBuffer/Turns.antt =====
-- What one turn of a thread does to the queue.
use win32_experiments.Common.{
  ℕ, ◌<◌, ◌≡◌, refl, ◌⊎◌, inl, inr, true, false, [], ◌∷◌, ◌++◌, arith, Bool-cases, ◌==◌,
}
use win32_experiments.BoundedBuffer.{
  Shared, Turn, sleeps, exits, continues, insert_item, consume_item, producer_turn, consumer_turn,
}
use win32_experiments.BoundedBuffer.Contents.{
  contents, IsValid, insert_item-IsValid, consume_item-IsValid, contents-insert_item,
  contents-consume_item,
}

abbrev pub ProducerTurn : Shared → ℕ → Turn → Type 0
ProducerTurn s item r =
    ((r ≡ sleeps) × (s.queue_size ≡ 10) × (s.stop_requested ≡ false))
    ⊎ (((r ≡ exits) × (s.stop_requested ≡ true))
        ⊎ ((t : Shared) × (r ≡ continues t item)
            × IsValid t
            × (contents t ≡ contents s ++ item ∷ [])
            × (t.stop_requested ≡ false)
            × (s.stop_requested ≡ false)))

-- In a valid state, a producer's turn sleeps on a full queue that is not stopped, leaves when a stop
-- is requested, and otherwise appends its item at the end of the queue and leaves a valid state.
pub producer_turn-ProducerTurn :
    (s : Shared) (item : ℕ) → IsValid s → ProducerTurn s item (producer_turn s item)
unfolding producer_turn
producer_turn-ProducerTurn s item v = elim (Bool-cases s.stop_requested) [
  | inl e ↦ inr (inl (ground arith, e))
  | inr e ↦ elim (Bool-cases (s.queue_size == 10)) [
    | inl full ↦ inl (ground arith, ground arith, e)
    | inr room ↦
        let free : s.queue_size < 10 = let w = v.size_ok in ground arith in
        inr (
          inr (
            insert_item s item,
            ground arith,
            insert_item-IsValid s item v free,
            contents-insert_item s item v free,
            unfold insert_item in e,
            e,
          ))
  ]
]

abbrev pub ConsumerTurn : Shared → Turn → Type 0
ConsumerTurn s r =
    ((r ≡ sleeps) × (s.queue_size ≡ 0) × (s.stop_requested ≡ false))
    ⊎ (((r ≡ exits) × (s.queue_size ≡ 0) × (s.stop_requested ≡ true))
        ⊎ ((t : Shared) × (item : ℕ) × (r ≡ continues t item)
            × IsValid t
            × (contents s ≡ item ∷ contents t)
            × (0 < s.queue_size)
            × (t.stop_requested ≡ s.stop_requested)))

-- In a valid state, a consumer's turn sleeps on an empty queue that is not stopped, leaves on an empty
-- queue that is, and otherwise takes the first item, leaves the others and leaves a valid state.
pub consumer_turn-ConsumerTurn : (s : Shared) → IsValid s → ConsumerTurn s (consumer_turn s)
unfolding consumer_turn
consumer_turn-ConsumerTurn s v = elim (Bool-cases (s.queue_size == 0)) [
  | inl empty ↦ elim (Bool-cases s.stop_requested) [
    | inl e ↦ inr (inl (ground arith, ground arith, e))
    | inr e ↦ inl (ground arith, ground arith, e)
  ]
  | inr some_left ↦
      let filled : 0 < s.queue_size = ground arith in
      inr (
        inr (
          consume_item s,
          _,
          ground arith,
          consume_item-IsValid s v filled,
          contents-consume_item s v filled,
          filled,
          unfold consume_item in refl,
        ))
]
