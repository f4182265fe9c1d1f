-- ===== src/Pipe/Read.antt =====
-- ReadPipe brings a whole message and stays within its vector.
use win32_experiments.Common.{
  ℕ, zero, suc, ◌+◌, ◌-◌, ◌%◌, ◌^◌, ◌≤◌, ◌<◌, ◌≡◌, sym, ◌∙◌, true, [], ◌++◌, append_assoc, some,
  arith, length, leb, length-append,
}
use win32_experiments.Common.Buffers.{
  write_at, filled, resize, write_at-filled, length-filled, resize-filled, grow-filled,
}
use win32_experiments.Pipe.{
  Bytes, whole, part, read_failed, Pipe, returned, read_loop, read_pipe, buffer_size,
}

module _ {E : Type 0} (pipe : Pipe E) where
  -- ReadFile brings no more bytes than it was asked for.
  abbrev pub Bounded : Type 0
  Bounded =
      (e f : E) (room : ℕ) (bytes : Bytes)
      → ((pipe.read_file e room ≡ (whole bytes, f)) → length bytes ≤ room)
        × ((pipe.read_file e room ≡ (part bytes, f)) → length bytes ≤ room)

  -- From the state `e`, so many reads of `room` bytes bring one message.
  pub data Brings (room : ℕ) : ℕ → E → Bytes → E → Type 0 where
    at_end :
        {e f : E} {bytes : Bytes}
        → pipe.read_file e room ≡ (whole bytes, f)
        → Brings room 1 e bytes f
    more :
        {n : ℕ} {e f g : E} {bytes rest : Bytes}
        → pipe.read_file e room ≡ (part bytes, f)
        → Brings room n f rest g
        → Brings room (suc n) e (bytes ++ rest) g

  -- The same reads, the last of them failing.
  pub data Breaks (room : ℕ) : ℕ → E → E → Type 0 where
    at_once : {e f : E} → pipe.read_file e room ≡ (read_failed, f) → Breaks room 1 e f
    later :
        {n : ℕ} {e f g : E} {bytes : Bytes}
        → pipe.read_file e room ≡ (part bytes, f)
        → Breaks room n f g
        → Breaks room (suc n) e g

  loop_whole :
      (fuel total : ℕ) (buffer bytes : Bytes) (e f : E)
      → pipe.read_file e buffer_size ≡ (whole bytes, f)
      → total + length bytes ≤ length buffer
      → total + length bytes < 2 ^ 32
      → read_loop pipe (suc fuel) buffer total e
        ≡ some (returned (resize (total + length bytes) (write_at total bytes buffer)), f)
  unfolding read_loop
  loop_whole fuel total buffer bytes e f r h w =
      let m : (total + length bytes) % 2 ^ 32 ≡ total + length bytes = omega arith in
      let t : leb (total + length bytes) (length buffer) ≡ true = ground arith in ground arith

  loop_part :
      (fuel total : ℕ) (buffer bytes : Bytes) (e f : E)
      → pipe.read_file e buffer_size ≡ (part bytes, f)
      → total + length bytes ≤ length buffer
      → total + length bytes < 2 ^ 32
      → let after = write_at total bytes buffer in
        read_loop pipe (suc fuel) buffer total e
        ≡ read_loop pipe fuel (resize (length after + buffer_size) after) (total + length bytes) f
  unfolding read_loop
  loop_part fuel total buffer bytes e f r h w =
      let m : (total + length bytes) % 2 ^ 32 ≡ total + length bytes = omega arith in
      let t : leb (total + length bytes) (length buffer) ≡ true = ground arith in ground arith

  -- Behind what was read there is always room for one more read.
  loop-Brings :
      (fuel left : ℕ) (got message : Bytes) {n : ℕ} {e f : E}
      → Bounded
      → Brings buffer_size n e message f
      → n ≤ fuel
      → buffer_size ≤ left
      → length got + length message < 2 ^ 32
      → read_loop pipe fuel (filled got left) (length got) e ≡ some (returned (got ++ message), f)
  loop-Brings zero left got message b (at_end r) h l w = absurd (omega arith)
  loop-Brings zero left got message b (more r m) h l w = absurd (omega arith)
  loop-Brings (suc fuel) left got message b (at_end r) h l w =
      let len = (b _ _ _ _).0 r in
      let step =
        loop_whole fuel (length got) (filled got left) message _ _ r
          (omega (arith, length-filled got left)) w in
      let end = resize-filled (got ++ message) (left - length message) in
      let now =
        rw (write_at-filled got message left, sym (length-append got message), end) at step in
      now
  loop-Brings (suc fuel) left got message b (more {f = f} {bytes = bytes} {rest = rest} r m) h l w =
      let len = (b _ _ _ _).1 r in
      let both = length-append bytes rest in
      let step =
        loop_part fuel (length got) (filled got left) bytes _ _ r
          (omega (arith, length-filled got left)) (omega arith) in
      let now =
        rw
          (
            write_at-filled got bytes left,
            grow-filled (got ++ bytes) (left - length bytes) buffer_size,
            sym (length-append got bytes),
          )
          at step in
      let ih =
        loop-Brings fuel (left - length bytes + buffer_size) (got ++ bytes) rest b m (omega arith)
          (omega arith) (omega (arith, length-append got bytes)) in
      now ∙ (ih ∙ rw (append_assoc got bytes rest))

  -- ReadPipe, when ReadFile brings no more bytes than it was asked for and the reads bring a message
  -- below 2^32 bytes: with fuel for the reads it returns exactly the message, in one vector, and never
  -- had a byte written behind the end of the vector.
  pub read_pipe-Brings :
      (fuel : ℕ) (message : Bytes) {n : ℕ} {e f : E}
      → Bounded
      → Brings buffer_size n e message f
      → n ≤ fuel
      → length message < 2 ^ 32
      → read_pipe pipe fuel e ≡ some (returned message, f)
  unfolding read_pipe
  read_pipe-Brings fuel message b m h w =
      loop-Brings fuel buffer_size [] message b m h (omega arith) (omega arith)
