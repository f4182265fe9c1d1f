-- ===== src/HexDump.antt =====
-- src/OldSspiSample/main.cpp (and its copy in src/OldSspiSampleServer/main.cpp): PrintHexDump. The text
-- that sprintf_s makes of "%4.4x  " is a parameter; the program's line overwrites it from place six on.
pub mod Lines
mod Examples
use win32_experiments.Common.{
  ℕ, zero, suc, ◌+◌, ◌-◌, ◌*◌, ◌/◌, ◌%◌, Bool, true, false, ◌||◌, List, [], ◌∷◌, ◌++◌, Option, none,
  some, ◌==◌, ltb, if◌then◌else◌, length, take, drop, replicate, min,
}

abbrev pub Text : Type 0
Text = List ℕ

-- `rgbDigits[i]`, for i below 16.
pub digit : ℕ → ℕ
digit i = if ltb i 10 then 48 + i else 87 + i

-- What follows the two digits of byte number `i` of a line.
pub separator : ℕ → ℕ
separator i = if i == 7 then 58 else 32

-- `for (i = 0; i < count; i++)`: two digits and a separator for each byte, from number `i` on.
pub hex_cells : ℕ → List ℕ → Text
unfolding digit separator
hex_cells i [] = []
hex_cells i (b ∷ bytes) = digit (b / 16) ∷ digit (b % 16) ∷ separator i ∷ hex_cells (suc i) bytes

-- `for (; i < 16; i++)`.
pub padding : ℕ → Text
padding zero = []
padding (suc n) = 32 ∷ 32 ∷ 32 ∷ padding n

-- The byte itself if it is printable, and a full stop if not.
pub printable : ℕ → ℕ
printable b = if ltb b 32 || ltb 126 b then 46 else b

pub ascii_cells : List ℕ → Text
unfolding printable
ascii_cells [] = []
ascii_cells (b ∷ bytes) = printable b ∷ ascii_cells bytes

-- `count = (length > 16) ? 16 : length`.
pub line_count : ℕ → ℕ
line_count n = if ltb 16 n then 16 else n

module _ (index_text : ℕ → Text) where
  -- One line, for at most 16 bytes, as printf shows it.
  pub hex_line : ℕ → List ℕ → Text
  unfolding hex_cells padding ascii_cells
  hex_line index bytes =
      take 6 (index_text index)
      ++ (hex_cells 0 bytes ++ (padding (16 - length bytes) ++ 32 ∷ ascii_cells bytes))

  -- The outer loop; `length` is the length of the buffer that is left.
  pub dump_loop : ℕ → ℕ → List ℕ → Option (List Text)
  unfolding hex_line line_count
  dump_loop zero index [] = some []
  dump_loop zero index (b ∷ buffer) = none
  dump_loop (suc fuel) index [] = some []
  dump_loop (suc fuel) index (b ∷ buffer) =
      let all = b ∷ buffer in
      let count = line_count (length all) in
      elim (dump_loop fuel (index + count) (drop count all)) [
        | none ↦ none
        | some lines ↦ some (hex_line index (take count all) ∷ lines)
      ]

  pub print_hex_dump : ℕ → List ℕ → Option (List Text)
  unfolding dump_loop
  print_hex_dump fuel buffer = dump_loop fuel 0 buffer
