-- ===== src/XSocket/LinkedList.antt =====
-- src/XSocket/List.cpp and List.h: a doubly linked list of buffers with a sentinel. The heap has one map
-- for each field of a ListEntry; a pointer is a number, and an entry that is deleted has no buffer.
pub mod Bytes
pub mod Links
pub mod Ring
use win32_experiments.Common.{
  ℕ, ◌+◌, ◌-◌, ◌%◌, ◌^◌, ◌≡◌, Bool, ◌&&◌, List, Option, none, some, ◌==◌, if◌then◌else◌, length,
  take, drop, min, ltb,
}

-- The data of a ListEntry, with its size and index.
pub record Buffer : Type 0 where
  pub bytes : List ℕ
  pub size : ℕ
  pub index : ℕ

pub record Heap : Type 0 where
  pub forward : ℕ → ℕ
  pub backward : ℕ → ℕ
  pub buffer : ℕ → Option Buffer

abbrev pub update {ℓ} : {A : Type ℓ} → (ℕ → A) → ℕ → A → ℕ → A
update f p a q = if p == q then a else f q

-- Attach.
abbrev pub attach : ℕ → List ℕ → Buffer
attach size bytes = record { bytes = bytes; size = size; index = 0 }

-- CopyTo: the bytes that are copied, and the buffer; `none` where it reads behind the end of the data.
pub copy_to : ℕ → Buffer → Option (List ℕ × Buffer)
copy_to room b =
    let size = min room b.size in
    if ltb (length b.bytes) (b.index + size)
    then none
    else some (take size (drop b.index b.bytes), record b { index = (b.index + size) % 2 ^ 32 })

-- DataLeft, in 32 bits.
pub data_left : Buffer → ℕ
data_left b = (b.size + (2 ^ 32 - b.index)) % 2 ^ 32

-- The constructor of List, and IsEmpty, for the list whose sentinel stands at `head`.
pub make_list : ℕ → Heap → Heap
make_list head h = record h {
  forward = update h.forward head head;
  backward = update h.backward head head;
}

pub is_empty : ℕ → Heap → Bool
is_empty head h = (h.forward head == head) && (h.backward head == head)

pub peek : ℕ → Heap → ℕ
peek head h = h.forward head

-- RemoveHead, with `delete first`.
pub remove_head : ℕ → Heap → Heap
remove_head head h =
    let first = h.forward head in
    let previous = h.backward first in
    record {
      forward = update h.forward previous (h.forward first);
      backward = update h.backward (h.forward first) previous;
      buffer = update h.buffer first none;
    }

-- AppendTail, the four writes in their order.
pub append_tail : ℕ → ℕ → Heap → Heap
append_tail head entry h =
    let last = h.backward head in
    let next = h.forward last in
    record h {
      forward = update (update h.forward last entry) entry next;
      backward = update (update h.backward next entry) entry last;
    }
