-- ===== src/XSocket/Transport.antt =====
-- src/XSocket/Transport.cpp and Transport.h: a queue of buffers between the two ends. The critical section
-- is held around each change of the list, so a call is one step. What the allocator gives is an argument.
pub mod Stream
pub mod Reads
pub mod Refines
pub mod Writes
use win32_experiments.Common.{
  ℕ, zero, suc, ◌-◌, ◌≡◌, Bool, true, false, not, ◌&&◌, List, [], ◌++◌, Option, none, some, ◌==◌,
  if◌then◌else◌, length, ltb,
}
use win32_experiments.XSocket.LinkedList.{
  Buffer, Heap, update, attach, copy_to, data_left, is_empty, peek, remove_head, append_tail,
}

abbrev pub Hresult : Type 0
Hresult = ℕ

abbrev pub s_ok : Hresult
s_ok = 0

abbrev pub e_fail : Hresult
e_fail = 2147500037

abbrev pub e_outofmemory : Hresult
e_outofmemory = 2147942414

-- WriteData, where `entry` is what the first `new` gives and `room` whether the second one succeeds.
pub write_data : ℕ → Option ℕ → Bool → Option (List ℕ) → Heap → Hresult × Heap
write_data head entry room none h = (s_ok, h)
write_data head none room (some bytes) h = (e_outofmemory, h)
write_data head (some entry) false (some bytes) h = (e_outofmemory, h)
write_data head (some entry) true (some bytes) h =
    let buffer = attach (length bytes) bytes in
    (s_ok, append_tail head entry (record h { buffer = update h.buffer entry (some buffer) }))

-- How ReadData ends; `faulted` where it reads what is no data of the list.
pub data Reading : Type 0 where
  finished : Hresult → List ℕ → Heap → Reading
  faulted : Reading
  unfinished : Reading

-- RemoveHead, `if (first->DataLeft() == 0)`.
pub drop_read : ℕ → Buffer → Heap → Heap
drop_read head b h = if data_left b == 0 then remove_head head h else h

-- The loop of ReadData, on fuel; what is copied so far has `index` bytes.
pub read_loop : ℕ → ℕ → ℕ → List ℕ → Heap → Reading
read_loop zero head data_length got h = unfinished
read_loop (suc fuel) head data_length got h =
    elim (ltb (length got) data_length && not (is_empty head h)) [
      | false ↦ finished s_ok got h
      | true ↦ elim (h.buffer (peek head h)) [
        | none ↦ faulted
        | some b ↦ elim (copy_to (data_length - length got) b) [
          | none ↦ faulted
          | some (bytes, b') ↦
              read_loop fuel head data_length (got ++ bytes)
                (drop_read head b' (record h { buffer = update h.buffer (peek head h) (some b') }))
        ]
      ]
    ]

-- ReadData, where `given` tells whether the caller gives a buffer.
pub read_data : ℕ → ℕ → ℕ → Bool → Heap → Reading
read_data fuel head data_length given h =
    if given then read_loop fuel head data_length [] h else finished e_fail [] h
