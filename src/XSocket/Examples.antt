-- ===== src/XSocket/Examples.antt =====
-- The theorems on the transport at concrete inputs.
use win32_experiments.Common.{ℕ, refl, true, [], ◌∷◌, ◌++◌, none, some, arith}
use win32_experiments.XSocket.LinkedList.{Heap}
use win32_experiments.XSocket.Transport.{write_data}
use win32_experiments.XSocket.Transport.Stream.{Holds}
use win32_experiments.XSocket.Transport.Writes.{write_data-Holds}

abbrev fresh : Heap
fresh = record { forward = λ p. 0; backward = λ p. 0; buffer = λ p. none }

fresh-Holds : (room : ℕ) → Holds 0 room fresh []
fresh-Holds room =
    ([], [], record { links = (refl, refl); apart = tt; distinct = tt }, tt, tt, refl)

abbrev one_entry : Heap
one_entry = (write_data 0 (some 1) true (some (7 ∷ 8 ∷ 9 ∷ [])) fresh).1

write_data-Holds_example :
    Holds 0 5 (write_data 0 (some 1) true (some (7 ∷ 8 ∷ 9 ∷ [])) fresh).1 ([] ++ 7 ∷ 8 ∷ 9 ∷ [])
write_data-Holds_example =
    write_data-Holds 0 5 1 fresh [] (7 ∷ 8 ∷ 9 ∷ []) (fresh-Holds 5) refl (omega arith)
      (omega arith)
