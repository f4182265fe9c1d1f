-- ===== src/SmallPipes/Examples.antt =====
-- The theorems on the small pipes at concrete inputs.
use win32_experiments.Common.{ℕ, zero, suc, ◌≡◌, refl, true, false, none, some, inr, [], ◌∷◌, arith}
use win32_experiments.Pipe.{Bytes, returned, threw}
use win32_experiments.Pipe.Read.{Brings, at_end, more}
use win32_experiments.Pipe.Examples.{read_some, one_message, one_message-Bounded}
use win32_experiments.SmallPipes.{Started, completed, more_data, pending, Calls, wait, read_pipe}
use win32_experiments.SmallPipes.Blocking.{read_pipe-Whole}
use win32_experiments.SmallPipes.Overlapped.{
  read_overlapped, start_and_wait, read_overlapped-Comes, read_overlapped-pending,
}
use win32_experiments.SmallPipes.Later.{
  AsyncRead, start_reading, finish_reading, finish_reading-Whole,
}

abbrev abc : Bytes
abc = 65 ∷ 66 ∷ 67 ∷ []

abc-Brings : Brings one_message 2 2 abc abc []
unfolding read_some
abc-Brings = more refl (at_end refl)

read_pipe-Whole_example : read_pipe one_message 2 2 abc ≡ some (returned abc, [])
read_pipe-Whole_example =
    read_pipe-Whole one_message 2 2 abc one_message-Bounded abc-Brings (omega arith)

-- A pipe on which "ABC" is read in two reads, of which the state counts those that have been started.
abbrev spoken : ℕ → Started × ℕ
spoken zero = (more_data, 1)
spoken (suc n) = (completed, 2)

abbrev heard : ℕ → Bytes
heard zero = []
heard (suc zero) = 65 ∷ 66 ∷ []
heard (suc (suc n)) = 67 ∷ []

abbrev prompt : Calls ℕ
prompt = record {
  create_event = λ s. (true, s);
  read_file = λ room s. spoken s;
  write_file = λ bytes s. (completed, s);
  wait_second = λ s. (true, s);
  wait_forever = λ s. s;
  result = λ s. record { partial = false; bytes = heard s };
  close_event = λ s. s;
}

read_overlapped-Comes_example : read_overlapped prompt 2 1 5 0 ≡ some (returned abc, 2)
read_overlapped-Comes_example =
    read_overlapped-Comes prompt 2 1 5 1 abc 0 2
      (
        1,
        67 ∷ [],
        (refl, (refl, ((0, omega arith, (refl, refl)), omega arith))),
        refl,
        (2, (refl, (refl, ((0, omega arith, (refl, refl)), omega arith))), refl, refl),
      )
      (omega arith)

-- The same pipe where every read is pending at first.
abbrev patient : Calls ℕ
patient = record prompt { read_file = λ room s. (pending, suc s) }

read_overlapped-pending_example : read_overlapped patient 2 1 5 1 ≡ some (threw, 2)
unfolding start_and_wait wait
read_overlapped-pending_example = read_overlapped-pending patient 2 1 4 1 2 refl refl (omega arith)

finish_reading-Whole_example :
    (object : AsyncRead) × (start_reading patient 2 1 1 ≡ (returned object, 2))
    × ((false ≡ false) → finish_reading patient 2 1 7 object 2 ≡ some (returned (67 ∷ []), 2))
    × ((false ≡ true) → (true ≡ true) → finish_reading patient 2 1 7 object 2 ≡ none)
finish_reading-Whole_example = finish_reading-Whole patient 2 1 7 1 2 refl (inr refl) (omega arith)
