-- ===== src/SharedMemory/Locking.antt =====
-- What the operations leave of the mutex.
use win32_experiments.Common.{
  ℕ, ◌<◌, ◌≡◌, ◌≢◌, refl, true, false, none, some, ◌==◌, length, leb, set, get_or, length-set,
  get_or-set_self, sym, ◌∙◌, arith,
}
use win32_experiments.SharedMemory.{
  Shared, returned, waits, lock, unlock, max_elements, set_at, get_at,
}

-- A free mutex and ten elements.
abbrev pub Free : Shared → Type 0
Free s = (s.depth ≡ 0) × (length s.elements ≡ max_elements)

pub lock-free :
    (thread : ℕ) (s : Shared)
    → s.depth ≡ 0
    → lock thread s ≡ some (record s { owner = thread; depth = 1 })
unfolding lock
lock-free thread s f = rw (lock, f)

lock-other : (other : ℕ) (s : Shared) → s.depth ≡ 1 → s.owner ≢ other → lock other s ≡ none
unfolding lock
lock-other other s f n = let t : (s.owner == other) ≡ false = ground arith in rw (lock, f, t)

-- operator[] of a free array, with an index below ten, leaves the mutex to its thread, and from then on every SetAt
-- and operator[] of another thread, with an index below ten, waits.
pub get_at-waits :
    (thread other index i v : ℕ) (s : Shared)
    → Free s
    → index < max_elements
    → i < max_elements
    → other ≢ thread
    → (t : Shared) × (get_at thread index s ≡ returned (get_or s.elements index 0) t)
      × ((set_at other i v t ≡ waits) × (get_at other i t ≡ waits))
unfolding get_at set_at
get_at-waits thread other index i v s (f, l) k m n =
    let t : Shared = record s { owner = thread; depth = 1 } in
    let small : leb max_elements index ≡ false = ground arith in
    let small' : leb max_elements i ≡ false = ground arith in
    let inside : leb (length s.elements) index ≡ false = ground arith in
    let held = lock-other other t refl (λ e. n (sym e)) in
    (
      t,
      rw (get_at, small, lock-free thread s f, inside),
      (rw (set_at, small', held), rw (get_at, small', held)),
    )

-- SetAt of a free array, with an index below ten, sets the element and leaves the mutex free.
pub set_at-Free :
    (thread index v : ℕ) (s : Shared)
    → Free s
    → index < max_elements
    → (t : Shared) × (set_at thread index v s ≡ returned tt t)
      × (Free t × (get_or t.elements index 0 ≡ v))
unfolding set_at unlock
set_at-Free thread index v s (f, l) k =
    let t : Shared = record s { owner = thread; depth = 1; elements = set s.elements index v } in
    let small : leb max_elements index ≡ false = ground arith in
    let inside : leb (length s.elements) index ≡ false = ground arith in
    let own : (thread == thread) ≡ true = ground arith in
    (
      record t { depth = 0 },
      rw (set_at, small, lock-free thread s f, inside, unlock, own),
      (
        (refl, length-set s.elements index v ∙ l),
        get_or-set_self s.elements index v 0 (omega arith),
      ),
    )
