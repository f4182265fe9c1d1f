-- ===== src/SharedMemory.antt =====
-- src/ClientServerLib: an array in a file mapping that processes share, under a mutex. The calls of Windows on the
-- mapping are a parameter; the mutex is its owner and how often it is owned, as Windows keeps it.
pub mod Array
pub mod Locking
pub mod Mapping
mod Examples
use win32_experiments.Common.{
  ℕ, zero, suc, ◌+◌, ◌*◌, ◌≤◌, ◌≡◌, Bool, true, false, List, Option, none, some, ◌==◌,
  if◌then◌else◌, length, leb, set, get_or, replicate,
}

-- The mutex and the elements of the mapped view; `thread` of a call is the thread that makes it.
pub record Shared : Type 0 where
  pub owner : ℕ
  pub depth : ℕ
  pub count : ℕ
  pub elements : List ℕ

-- What a call does: it returns or throws, or it waits for another thread, or it writes outside the elements.
pub data Result (A : Type 0) : Type 0 where
  returned : A → Shared → Result A
  threw : Shared → Result A
  waits : Result A
  outside : Result A

-- Lock: WaitForSingleObject on the mutex, which its owner may own again.
pub lock : ℕ → Shared → Option Shared
lock thread s =
    if s.depth == 0
    then some (record s { owner = thread; depth = 1 })
    else if s.owner == thread
    then some (record s { depth = s.depth + 1 })
    else none

-- Unlock: ReleaseMutex, which fails for a thread that does not own the mutex.
pub unlock : ℕ → Shared → Shared
unlock thread s = elim s.depth [
  | zero ↦ s
  | suc n ↦ if s.owner == thread then record s { depth = n } else s
]

abbrev pub max_elements : ℕ
max_elements = 10

-- IntArray::SetAt, for an index that is not negative.
pub set_at : ℕ → ℕ → ℕ → Shared → Result Unit
set_at thread index value s = if leb max_elements index then threw s else elim (lock thread s) [
  | none ↦ waits
  | some t ↦
      if leb (length t.elements) index
      then outside
      else returned tt (unlock thread (record t { elements = set t.elements index value }))
]

-- IntArray::operator[] for an index that is not negative; its Unlock stands behind its `return`.
pub get_at : ℕ → ℕ → Shared → Result ℕ
get_at thread index s = if leb max_elements index then threw s else elim (lock thread s) [
  | none ↦ waits
  | some t ↦
      if leb (length t.elements) index then outside else returned (get_or t.elements index 0) t
]
