-- ===== src/XSocket/LinkedList/Bytes.antt =====
-- What a buffer gives to its reader.
use win32_experiments.Common.{
  ℕ, ◌+◌, ◌-◌, ◌%◌, ◌^◌, ◌≤◌, ◌<◌, ◌≡◌, ◌⊎◌, inl, inr, sym, true, false, List, none, some, length,
  ltb, take, drop, min, arith, take_of_length-le, Bool-cases,
}
use win32_experiments.XSocket.LinkedList.{Buffer, copy_to, data_left}

-- A buffer whose size is that of its data, read up to its index.
abbrev pub Wf : Buffer → Type 0
Wf b = (length b.bytes ≡ b.size) × ((b.size < 2 ^ 32) × (b.index ≤ b.size))

take-min : (n : ℕ) (xs : List ℕ) → take (min n (length xs)) xs ≡ take n xs
take-min n xs = elim (Bool-cases (ltb n (length xs))) [
  | inl e ↦ let k : min n (length xs) ≡ n = ground arith in rw k
  | inr e ↦
      let k : min n (length xs) ≡ length xs = ground arith in
      rw (k, take_of_length-le (length xs) xs (omega arith), take_of_length-le n xs (ground arith))
]

-- The bytes that a read of `room` bytes copies from the buffer, and the buffer after it.
abbrev pub copied : ℕ → Buffer → List ℕ
copied room b = take room (drop b.index b.bytes)

abbrev pub advanced : ℕ → Buffer → Buffer
advanced room b = record b { index = b.index + min room (b.size - b.index) }

copy_to_new :
    (room : ℕ) (b : Buffer)
    → Wf b
    → b.index ≡ 0
    → copy_to room b ≡ some (copied room b, advanced room b)
unfolding copy_to
copy_to_new room b (l, (s, i)) z =
    let m : ltb (length b.bytes) (b.index + min room b.size) ≡ false = ground arith in
    let n : (b.index + min room b.size) % 2 ^ 32 ≡ b.index + min room (b.size - b.index) =
      omega arith in
    rw (m, n, z, sym l, take-min room b.bytes)

copy_to_old :
    (room : ℕ) (b : Buffer)
    → Wf b
    → b.index + room ≤ b.size
    → copy_to room b ≡ some (copied room b, advanced room b)
unfolding copy_to
copy_to_old room b (l, (s, i)) z =
    let k : min room b.size ≡ room = omega arith in
    let k' : min room (b.size - b.index) ≡ room = omega arith in
    let m : ltb (length b.bytes) (b.index + room) ≡ false = ground arith in
    let n : (b.index + room) % 2 ^ 32 ≡ b.index + room = omega arith in rw (k, k', m, n)

pub copy_to_lem :
    (room : ℕ) (b : Buffer)
    → Wf b
    → (b.index ≡ 0) ⊎ (b.index + room ≤ b.size)
    → copy_to room b ≡ some (copied room b, advanced room b)
copy_to_lem room b f (inl z) = copy_to_new room b f z
copy_to_lem room b f (inr z) = copy_to_old room b f z

pub data_left_lem : (b : Buffer) → Wf b → data_left b ≡ b.size - b.index
unfolding data_left
data_left_lem b (l, (s, i)) = omega arith

pub copy_to-none :
    (room : ℕ) (b : Buffer) → Wf b → b.size < b.index + min room b.size → copy_to room b ≡ none
unfolding copy_to
copy_to-none room b (l, (s, i)) k =
    let m : ltb (length b.bytes) (b.index + min room b.size) ≡ true = ground arith in rw m
