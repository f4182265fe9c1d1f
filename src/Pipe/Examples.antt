-- ===== src/Pipe/Examples.antt =====
-- A pipe that holds one message, runs on it, and the witnesses.
use win32_experiments.Common.{
  ℕ, ◌≡◌, refl, ap, true, [], ◌∷◌, some, arith, length, replicate, take, drop, ltb, if◌then◌else◌,
  length-take,
}
use win32_experiments.Pipe.{
  Bytes, Chunk, whole, part, Pipe, returned, read_pipe, sent_header, read_with_header,
  write_with_header, write_pipe, framed, header_bytes, enum_bytes,
}
use win32_experiments.Pipe.Read.{Brings, Bounded, at_end, more, read_pipe-Brings}
use win32_experiments.Pipe.Headers.{read_with_header-write_with_header}

-- What is left of a message is the state; a read gives its start.
unfoldable pub read_some : Bytes → ℕ → Chunk × Bytes
read_some message room =
    if ltb room (length message)
    then (part (take room message), drop room message)
    else (whole message, [])

abbrev pub one_message : Pipe Bytes
one_message = record { read_file = read_some; write_file = λ e message. (true, message) }

pub one_message-Bounded : Bounded one_message
unfolding read_some
one_message-Bounded e f room bytes = (λ h. ground arith, λ h. ground (arith, length-take room e))

abbrev long_message : Bytes
long_message = replicate 1500 7

long_message-Brings : Brings one_message 1024 2 long_message long_message []
unfolding read_some
long_message-Brings = more refl (at_end refl)

read_pipe-Brings_example : read_pipe one_message 2 long_message ≡ some (returned long_message, [])
read_pipe-Brings_example =
    read_pipe-Brings one_message 2 long_message one_message-Bounded long_message-Brings
      (omega arith) (omega arith)

-- What the one message of the pipe is, the next read brings, if it is short.
delivers_short :
    (message : Bytes)
    → one_message.write_file [] message ≡ (true, framed (1 ∷ 2 ∷ []))
    → Brings one_message 1024 1 (framed (1 ∷ 2 ∷ [])) message []
unfolding read_some framed header_bytes enum_bytes
delivers_short message h =
    let e : message ≡ framed (1 ∷ 2 ∷ []) = ap (λ p. p.1) h in rw e (at_end refl)

read_with_header-write_with_header_example :
    read_with_header one_message 1 (framed (1 ∷ 2 ∷ []))
    ≡ some (returned (sent_header, 1 ∷ 2 ∷ 0 ∷ 0 ∷ []), [])
unfolding write_with_header write_pipe
read_with_header-write_with_header_example =
    read_with_header-write_with_header one_message 1 1 (1 ∷ 2 ∷ []) [] (framed (1 ∷ 2 ∷ [])) []
      one_message-Bounded delivers_short refl (omega arith) (omega arith)

framed_run : framed (1 ∷ 2 ∷ []) ≡ 2 ∷ 0 ∷ 0 ∷ 0 ∷ 1 ∷ 0 ∷ 0 ∷ 0 ∷ 1 ∷ 2 ∷ 0 ∷ 0 ∷ []
unfolding framed header_bytes enum_bytes
framed_run = refl
