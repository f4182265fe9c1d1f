-- ===== src/HexDump/Examples.antt =====
-- A dump, and the witness.
use win32_experiments.Common.{ℕ, ◌≡◌, refl, List, [], ◌∷◌, some, arith, codes}
use win32_experiments.HexDump.{
  Text, print_hex_dump, dump_loop, hex_line, hex_cells, padding, ascii_cells, printable, digit,
  separator, line_count,
}
use win32_experiments.HexDump.Lines.{read_lines, AllFit, print_hex_dump-Dumps}

abbrev four_zeros : ℕ → Text
four_zeros index = codes "0000  "

abbrev line_of_two : Text
line_of_two = codes "0000  48 0a                                            H."

dump_run : print_hex_dump four_zeros 1 (72 ∷ 10 ∷ []) ≡ some (line_of_two ∷ [])
unfolding print_hex_dump dump_loop hex_line hex_cells padding ascii_cells printable digit separator
    line_count
dump_run = refl

print_hex_dump-Dumps_example :
    (lines : List Text) × (print_hex_dump four_zeros 2 (72 ∷ 10 ∷ []) ≡ some lines)
    × (read_lines lines ≡ 72 ∷ 10 ∷ [])
    × AllFit lines
print_hex_dump-Dumps_example =
    print_hex_dump-Dumps four_zeros 2 (72 ∷ 10 ∷ []) (λ index. omega arith)
      (omega arith, (omega arith, tt)) (omega arith)
