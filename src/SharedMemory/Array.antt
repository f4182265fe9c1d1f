-- ===== src/SharedMemory/Array.antt =====
-- TypedArray of src/ClientServerLib/include/ClientServerLib.hpp, with elements of one size: its count stands in front
-- of its elements, in a view of ten elements.
use win32_experiments.Common.{
  not, ◌⊎◌, ℕ, ◌+◌, ◌*◌, ◌≤◌, ◌<◌, ◌≡◌, Option, none, some, if◌then◌else◌, length, leb, ltb, set,
  replicate, ◌||◌,
}
use win32_experiments.Common.Int.{ℤ, pos, negsuc, ltb_ℤ, ◌≤ℤ◌}
use win32_experiments.SharedMemory.{
  Shared, Result, returned, threw, waits, outside, lock, unlock, max_elements,
}

-- TypedArray::operator[] of an `int`: the index of the address it returns, which may stand in front of the elements.
pub element : ℕ → ℤ → Shared → Result ℤ
element thread index s = elim (lock thread s) [
  | none ↦ waits
  | some t ↦
      if not (ltb_ℤ index (pos max_elements)) || not (ltb_ℤ index (pos t.count))
      then threw (unlock thread t)
      else returned index (unlock thread t)
]

-- TypedArray::Add; the count is read before the mutex is owned, and again behind it.
pub add : ℕ → ℕ → Shared → Result Unit
add thread value s = if leb max_elements s.count then threw s else elim (lock thread s) [
  | none ↦ waits
  | some t ↦
      if leb (length t.elements) t.count
      then outside
      else returned tt (
          unlock thread (record t { elements = set t.elements t.count value; count = t.count + 1 }))
]

-- TypedArray::Clear.
pub clear : ℕ → Shared → Result Unit
clear thread s =
    if ltb 0 s.count
    then elim (lock thread s) [
      | none ↦ waits
      | some t ↦
          returned tt (unlock thread (record t { elements = replicate max_elements 0; count = 0 }))
    ]
    else returned tt s

-- The bytes of the view, and the place behind the element of an index: the constructor asks for ten elements and puts
-- four bytes in front of them.
pub view_size : ℕ → ℕ
view_size element_size = 10 * element_size

pub element_end : ℕ → ℕ → ℕ
element_end element_size index = 4 + (index + 1) * element_size

-- An element ends with the view plus four bytes if it is the last one, and at least an element earlier if it is another.
abbrev pub Room : ℕ → ℕ → Type 0
Room element_size c =
    ((c < 9) × (element_end element_size c + element_size ≤ view_size element_size + 4))
    ⊎ ((c ≡ 9) × (element_end element_size c ≡ view_size element_size + 4))

-- Ten elements, of which `count` are in use.
abbrev pub Valid : Shared → Type 0
Valid s = (length s.elements ≡ max_elements) × (s.count ≤ max_elements)

abbrev pub Keeps : Result Unit → Type 0
Keeps (returned u s) = Valid s
Keeps (threw s) = Valid s
Keeps waits = Unit {0}
Keeps outside = ⊥

-- Add returns a valid array with one more in use, and has written that element.
abbrev pub Adds : ℕ → Shared → Result Unit → Type 0
Adds element_size s (returned u t) = Valid t × ((t.count ≡ s.count + 1) × Room element_size s.count)
Adds element_size s (threw t) = Valid t × (s.count ≡ max_elements)
Adds element_size s waits = Unit {0}
Adds element_size s outside = ⊥

-- What Lock and Unlock leave.
abbrev Same : Shared → Option Shared → Type 0
Same s none = Unit {0}
Same s (some t) = (t.count ≡ s.count) × (t.elements ≡ s.elements)

-- operator[] returns the element of the index, which is in use or in front of all elements, and throws for every other
-- index.
abbrev pub InUse : ℤ → Shared → Result ℤ → Type 0
InUse index s (returned given t) =
    (given ≡ index)
    × (((index ≤ℤ negsuc 0) ⊎ ((i : ℕ) × (index ≡ pos i) × (i < s.count))) × Valid t)
InUse index s (threw t) = ((i : ℕ) × (index ≡ pos i) × (s.count ≤ i)) × Valid t
InUse index s waits = Unit {0}
InUse index s outside = ⊥
