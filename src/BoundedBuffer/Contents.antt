-- ===== src/BoundedBuffer/Contents.antt =====
-- The queue that the ring holds, oldest item first.
use win32_experiments.Common.{
  ℕ, zero, suc, ◌+◌, ◌-◌, ◌%◌, ◌^◌, ◌<◌, ◌≤◌, ◌≡◌, ◌≢◌, refl, ap, ◌∙◌, List, [], ◌∷◌, ◌++◌, arith,
  length, get_or, set, get_or-set_self, get_or-set_ne, length-set,
}
use win32_experiments.BoundedBuffer.{Shared, insert_item, consume_item}

-- The items at `n` places from `o` on, modulo the size.
unfoldable pub slots : List ℕ → ℕ → ℕ → List ℕ
slots b o zero = []
slots b o (suc n) = get_or b (o % 10) 0 ∷ slots b (o + 1) n

unfoldable pub contents : Shared → List ℕ
contents s = slots s.buffer s.queue_start_offset s.queue_size

slots_mod : (b : List ℕ) (o p n : ℕ) → o % 10 ≡ p % 10 → slots b o n ≡ slots b p n
unfolding slots
slots_mod b o p zero h = refl
slots_mod b o p (suc n) h = rw (h, slots_mod b (o + 1) (p + 1) n (omega arith))

-- A write behind the `n` places, and not all round the ring, leaves them.
slots-set :
    (b : List ℕ) (o n k j v : ℕ)
    → n + k < 10
    → j ≡ (o + n + k) % 10
    → slots (set b j v) o n ≡ slots b o n
unfolding slots
slots-set b o zero k j v h e = refl
slots-set b o (suc n) k j v h e =
    let apart : j ≢ o % 10 = omega arith in
    let shifted : j ≡ (o + 1 + n + k) % 10 = omega arith in
    rw (get_or-set_ne b j (o % 10) v 0 apart, slots-set b (o + 1) n k j v (omega arith) shifted)

slots-snoc :
    (b : List ℕ) (o n : ℕ) → slots b o (suc n) ≡ slots b o n ++ get_or b ((o + n) % 10) 0 ∷ []
unfolding slots
slots-snoc b o zero = let e : o + 0 ≡ o = omega arith in rw e
slots-snoc b o (suc n) =
    let e : o + suc n ≡ o + 1 + n = omega arith in
    rw e (ap (λ l. get_or b (o % 10) 0 ∷ l) (slots-snoc b (o + 1) n))

slots_insert :
    (b : List ℕ) (o n v : ℕ)
    → n < 10
    → length b ≡ 10
    → slots (set b ((o + n) % 10) v) o (n + 1) ≡ slots b o n ++ v ∷ []
slots_insert b o n v h l =
    let next : n + 1 ≡ suc n = omega arith in
    let last : get_or (set b ((o + n) % 10) v) ((o + n) % 10) 0 ≡ v =
      get_or-set_self b ((o + n) % 10) v 0 (omega arith) in
    rw (next, slots-snoc, last, slots-set b o n 0 ((o + n) % 10) v (omega arith) (omega arith))

slots_remove :
    (b : List ℕ) (o p n : ℕ)
    → o < 10
    → 0 < n
    → p % 10 ≡ (o + 1) % 10
    → slots b o n ≡ get_or b o 0 ∷ slots b p (n - 1)
unfolding slots
slots_remove b o p zero h k e = elim k [ ]
slots_remove b o p (suc n) h k e =
    let same : o % 10 ≡ o = omega arith in
    let less : suc n - 1 ≡ n = omega arith in rw (same, less, slots_mod b p (o + 1) n e)

pub record IsValid (s : Shared) : Type 0 where
  pub length_ok : length s.buffer ≡ 10
  pub size_ok : s.queue_size ≤ 10
  pub offset_ok : s.queue_start_offset < 10
  pub consumed_ok : s.total_items_consumed < 2 ^ 32
  pub totals_ok : (s.total_items_consumed + s.queue_size) % 2 ^ 32 ≡ s.total_items_produced

pub insert_item-IsValid :
    (s : Shared) (item : ℕ) → IsValid s → s.queue_size < 10 → IsValid (insert_item s item)
unfolding insert_item
insert_item-IsValid s item v h = record {
  length_ok = length-set s.buffer ((s.queue_start_offset + s.queue_size) % 10) item ∙ v.length_ok;
  size_ok = omega arith;
  offset_ok = v.offset_ok;
  consumed_ok = v.consumed_ok;
  totals_ok = omega arith;
}

pub consume_item-IsValid : (s : Shared) → IsValid s → 0 < s.queue_size → IsValid (consume_item s)
unfolding consume_item
consume_item-IsValid s v h = record {
  length_ok = v.length_ok;
  size_ok = omega arith;
  offset_ok = ground arith;
  consumed_ok = omega arith;
  totals_ok = omega arith;
}

-- A produced item is the new last one of the queue.
pub contents-insert_item :
    (s : Shared) (item : ℕ)
    → IsValid s
    → s.queue_size < 10
    → contents (insert_item s item) ≡ contents s ++ item ∷ []
unfolding contents insert_item
contents-insert_item s item v h =
    slots_insert s.buffer s.queue_start_offset s.queue_size item h v.length_ok

-- The item at the start offset is the first of the queue, and the rest stays.
pub contents-consume_item :
    (s : Shared)
    → IsValid s
    → 0 < s.queue_size
    → contents s ≡ get_or s.buffer s.queue_start_offset 0 ∷ contents (consume_item s)
unfolding contents consume_item
contents-consume_item s v h =
    slots_remove s.buffer s.queue_start_offset _ s.queue_size v.offset_ok h (ground arith)
