-- ===== src/HexDump/Lines.antt =====
-- What a reader gets back from the lines, and how long they are.
use win32_experiments.Common.{
  ℕ, zero, suc, ◌+◌, ◌-◌, ◌*◌, ◌/◌, ◌%◌, ◌≤◌, ◌<◌, ◌≡◌, ◌≢◌, refl, sym, ap, false, List, [], ◌∷◌,
  ◌++◌, some, ◌==◌, ltb, if◌then◌else◌, length, take, drop, arith, length-append, length-take,
  length-drop, drop-length-append, take-append-drop,
}
use win32_experiments.HexDump.{
  Text, digit, hex_cells, padding, ascii_cells, hex_line, line_count, dump_loop, print_hex_dump,
}

-- The value of a hexadecimal digit.
abbrev pub value : ℕ → ℕ
value c = if ltb c 58 then c - 48 else c - 87

-- A reader of the hexadecimal columns of a line: up to so many bytes, and none where a blank stands.
abbrev pub read_cells : ℕ → Text → List ℕ
read_cells zero text = []
read_cells (suc n) (a ∷ b ∷ c ∷ text) =
    if a == 32 then [] else (16 * value a + value b) ∷ read_cells n text
read_cells (suc n) text = []

abbrev pub read_line : Text → List ℕ
read_line line = read_cells 16 (drop 6 line)

abbrev pub read_lines : List Text → List ℕ
read_lines [] = []
read_lines (line ∷ lines) = read_line line ++ read_lines lines

abbrev pub AllBytes : List ℕ → Type 0
AllBytes [] = Unit {0}
AllBytes (b ∷ bytes) = (b < 256) × AllBytes bytes

digit_lem : (i : ℕ) → i < 16 → (value (digit i) ≡ i) × (digit i ≢ 32)
unfolding digit
digit_lem i h = ground arith

byte_lem : (b : ℕ) → b < 256 → 16 * value (digit (b / 16)) + value (digit (b % 16)) ≡ b
byte_lem b h =
    let (p, q) = digit_lem (b / 16) (omega arith) in
    let (r, s) = digit_lem (b % 16) (omega arith) in omega arith

read-padding : (n k : ℕ) (rest : Text) → 0 < k → read_cells n (padding k ++ rest) ≡ []
unfolding padding
read-padding zero k rest h = refl
read-padding (suc n) zero rest h = absurd (omega arith)
read-padding (suc n) (suc k) rest h = refl

-- The columns of a line read back, when there are no more than there is room for.
read-hex_cells :
    (n i : ℕ) (bytes : List ℕ) (rest : Text)
    → AllBytes bytes
    → length bytes ≤ n
    → read_cells n (hex_cells i bytes ++ (padding (n - length bytes) ++ rest)) ≡ bytes
unfolding hex_cells
read-hex_cells zero i [] rest a h = refl
read-hex_cells zero i (b ∷ bytes) rest a h = absurd (omega arith)
read-hex_cells (suc n) i [] rest a h = read-padding (suc n) (suc n - 0) rest (omega arith)
read-hex_cells (suc n) i (b ∷ bytes) rest (small, a) h =
    let e : suc n - suc (length bytes) ≡ n - length bytes = omega arith in
    let (p, q) = digit_lem (b / 16) (omega arith) in
    let t : (digit (b / 16) == 32) ≡ false = ground arith in
    rw (e, t, byte_lem b small, read-hex_cells n (suc i) bytes rest a (omega arith))

length-hex_cells : (i : ℕ) (bytes : List ℕ) → length (hex_cells i bytes) ≡ 3 * length bytes
unfolding hex_cells
length-hex_cells i [] = omega arith
length-hex_cells i (b ∷ bytes) = omega (arith, length-hex_cells (suc i) bytes)

length-padding : (n : ℕ) → length (padding n) ≡ 3 * n
unfolding padding
length-padding zero = omega arith
length-padding (suc n) = omega (arith, length-padding n)

length-ascii_cells : (bytes : List ℕ) → length (ascii_cells bytes) ≡ length bytes
unfolding ascii_cells
length-ascii_cells [] = refl
length-ascii_cells (b ∷ bytes) = ap suc (length-ascii_cells bytes)

AllBytes-take : (n : ℕ) (bytes : List ℕ) → AllBytes bytes → AllBytes (take n bytes)
AllBytes-take zero bytes a = tt
AllBytes-take (suc n) [] a = tt
AllBytes-take (suc n) (b ∷ bytes) (h, a) = (h, AllBytes-take n bytes a)

AllBytes-drop : (n : ℕ) (bytes : List ℕ) → AllBytes bytes → AllBytes (drop n bytes)
AllBytes-drop zero bytes a = a
AllBytes-drop (suc n) [] a = tt
AllBytes-drop (suc n) (b ∷ bytes) (h, a) = AllBytes-drop n bytes a

drop_six : (xs ys : Text) → length xs ≡ 6 → drop 6 (xs ++ ys) ≡ ys
drop_six xs ys h = rw (sym h) (drop-length-append xs ys)

-- Every line fits into rgbLine, with its closing zero, and its last place into a `char`.
abbrev pub AllFit : List Text → Type 0
AllFit [] = Unit {0}
AllFit (line ∷ lines) = (length line + 1 ≤ 72) × AllFit lines

line_count_lem : (n : ℕ) → 0 < n → (0 < line_count n) × (line_count n ≤ 16)
unfolding line_count
line_count_lem n h = ground arith

module _ (index_text : ℕ → Text) where
  -- The text of an index has at least four digits and two blanks.
  abbrev pub IsWide : Type 0
  IsWide = (index : ℕ) → 6 ≤ length (index_text index)

  read-hex_line :
      (index : ℕ) (bytes : List ℕ)
      → IsWide
      → AllBytes bytes
      → length bytes ≤ 16
      → read_line (hex_line index_text index bytes) ≡ bytes
  unfolding hex_line
  read-hex_line index bytes wide a h =
      let w = wide index in
      let six : length (take 6 (index_text index)) ≡ 6 =
        omega (arith, length-take 6 (index_text index)) in
      let rest = hex_cells 0 bytes ++ (padding (16 - length bytes) ++ 32 ∷ ascii_cells bytes) in
      rw (drop_six (take 6 (index_text index)) rest six)
        (read-hex_cells 16 0 bytes (32 ∷ ascii_cells bytes) a h)

  length-hex_line :
      (index : ℕ) (bytes : List ℕ)
      → length bytes ≤ 16
      → length (hex_line index_text index bytes) + 1 ≤ 72
  unfolding hex_line
  length-hex_line index bytes h =
      let cells = hex_cells 0 bytes in
      let pad = padding (16 - length bytes) in
      let tail = 32 ∷ ascii_cells bytes in
      omega (
        arith,
        length-append (take 6 (index_text index)) (cells ++ (pad ++ tail)),
        length-append cells (pad ++ tail),
        length-append pad tail,
        length-take 6 (index_text index),
        length-hex_cells 0 bytes,
        length-padding (16 - length bytes),
        length-ascii_cells bytes,
      )

  -- The lines are printed, they read back as the bytes, and each of them fits.
  abbrev pub Dumps : ℕ → ℕ → List ℕ → Type 0
  Dumps fuel index buffer =
      (lines : List Text) × (dump_loop index_text fuel index buffer ≡ some lines)
      × (read_lines lines ≡ buffer)
      × AllFit lines

  dump_loop_nil : (fuel index : ℕ) → dump_loop index_text fuel index [] ≡ some []
  unfolding dump_loop
  dump_loop_nil zero index = refl
  dump_loop_nil (suc fuel) index = refl

  dump_loop_step :
      (fuel index b : ℕ) (buffer : List ℕ) (lines : List Text)
      → let all = b ∷ buffer in
        let count = line_count (length all) in
        dump_loop index_text fuel (index + count) (drop count all) ≡ some lines
        → dump_loop index_text (suc fuel) index all
          ≡ some (hex_line index_text index (take count all) ∷ lines)
  unfolding dump_loop
  dump_loop_step fuel index b buffer lines e = rw (e, dump_loop)

  dump_loop-Dumps :
      (fuel index : ℕ) (buffer : List ℕ)
      → IsWide
      → AllBytes buffer
      → length buffer ≤ fuel
      → Dumps fuel index buffer
  dump_loop-Dumps fuel index [] wide a h = ([], dump_loop_nil fuel index, refl, tt)
  dump_loop-Dumps zero index (b ∷ buffer) wide a h = absurd (omega arith)
  dump_loop-Dumps (suc fuel) index (b ∷ buffer) wide a h =
      let all = b ∷ buffer in
      let count = line_count (length all) in
      let (some_bytes, few) = line_count_lem (length all) (omega arith) in
      let left = length-drop count all in
      let first = length-take count all in
      let (lines, e, r, f) =
        dump_loop-Dumps fuel (index + count) (drop count all) wide (AllBytes-drop count all a)
          (omega arith) in
      let line = hex_line index_text index (take count all) in
      let read =
        read-hex_line index (take count all) wide (AllBytes-take count all a) (omega arith) in
      (
        line ∷ lines,
        dump_loop_step fuel index b buffer lines e,
        rw (read, r) (take-append-drop count all),
        (length-hex_line index (take count all) (omega arith), f),
      )

  -- PrintHexDump ends within one round for each byte, and its lines show the whole buffer: the
  -- hexadecimal columns of the lines, one after the other, read back as the bytes. With its closing zero
  -- each line takes at most 72 of the 100 places of rgbLine. The text of an index is at least six long.
  pub print_hex_dump-Dumps :
      (fuel : ℕ) (buffer : List ℕ)
      → IsWide
      → AllBytes buffer
      → length buffer ≤ fuel
      → (lines : List Text) × (print_hex_dump index_text fuel buffer ≡ some lines)
        × (read_lines lines ≡ buffer)
        × AllFit lines
  unfolding print_hex_dump
  print_hex_dump-Dumps fuel buffer wide a h = dump_loop-Dumps fuel 0 buffer wide a h
