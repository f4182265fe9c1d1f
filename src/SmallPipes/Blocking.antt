-- ===== src/SmallPipes/Blocking.antt =====
-- PipeOperations::Blocking::ReadPipe brings a whole message and stays within its vector.
use win32_experiments.Common.{
  ℕ, zero, suc, ◌+◌, ◌-◌, ◌≤◌, ◌≡◌, refl, ◌∙◌, sym, true, [], ◌++◌, append_assoc, some, arith,
  length, leb, length-append,
}
use win32_experiments.Common.Buffers.{
  write_at, filled, resize, write_at-filled, length-filled, resize-filled, grow-filled,
}
use win32_experiments.Pipe.{Bytes, whole, part, Pipe, returned}
use win32_experiments.Pipe.Read.{Bounded, Brings, at_end, more}
use win32_experiments.SmallPipes.{read_loop, read_pipe}

module _ {E : Type 0} (pipe : Pipe E) (room : ℕ) where
  loop_whole :
      (fuel total : ℕ) (buffer bytes : Bytes) (e f : E)
      → pipe.read_file e room ≡ (whole bytes, f)
      → total + length bytes ≤ length buffer
      → read_loop pipe room (suc fuel) buffer total e
        ≡ some (returned (resize (total + length bytes) (write_at total bytes buffer)), f)
  unfolding read_loop
  loop_whole fuel total buffer bytes e f r h =
      let t : leb (total + length bytes) (length buffer) ≡ true = ground arith in ground arith

  loop_part :
      (fuel total : ℕ) (buffer bytes : Bytes) (e f : E)
      → pipe.read_file e room ≡ (part bytes, f)
      → total + length bytes ≤ length buffer
      → let after = write_at total bytes buffer in
        read_loop pipe room (suc fuel) buffer total e
        ≡ read_loop pipe room fuel (resize (length after + room) after) (total + length bytes) f
  unfolding read_loop
  loop_part fuel total buffer bytes e f r h =
      let t : leb (total + length bytes) (length buffer) ≡ true = ground arith in ground arith

  -- Behind what was read there is always room for one more read.
  loop-Brings :
      (fuel left : ℕ) (got message : Bytes) {n : ℕ} {e f : E}
      → Bounded pipe
      → Brings pipe room n e message f
      → n ≤ fuel
      → room ≤ left
      → read_loop pipe room fuel (filled got left) (length got) e
        ≡ some (returned (got ++ message), f)
  loop-Brings zero left got message b (at_end r) h l = absurd (omega arith)
  loop-Brings zero left got message b (more r m) h l = absurd (omega arith)
  loop-Brings (suc fuel) left got message b (at_end r) h l =
      let len = (b _ _ _ _).0 r in
      loop_whole fuel (length got) (filled got left) message _ _ r
        (omega (arith, length-filled got left))
      ∙ rw
          (
            write_at-filled got message left,
            sym (length-append got message),
            resize-filled (got ++ message) (left - length message),
          )
          refl
  loop-Brings (suc fuel) left got message b (more {f = f} {bytes = bytes} {rest = rest} r m) h l =
      let len = (b _ _ _ _).1 r in
      let step =
        loop_part fuel (length got) (filled got left) bytes _ _ r
          (omega (arith, length-filled got left)) in
      let now =
        rw
          (
            write_at-filled got bytes left,
            grow-filled (got ++ bytes) (left - length bytes) room,
            sym (length-append got bytes),
          )
          at step in
      let ih =
        loop-Brings fuel (left - length bytes + room) (got ++ bytes) rest b m (omega arith)
          (omega (arith, len)) in
      now ∙ (ih ∙ rw (append_assoc got bytes rest))

  -- ReadPipe, when ReadFile brings no more bytes than it was asked for and the reads bring a message: with fuel for the
  -- reads it returns exactly the message, and never had a byte written behind the end of its vector, whatever the
  -- number of bytes that it asks for.
  pub read_pipe-Whole :
      (fuel : ℕ) (message : Bytes) {n : ℕ} {e f : E}
      → Bounded pipe
      → Brings pipe room n e message f
      → n ≤ fuel
      → read_pipe pipe room fuel e ≡ some (returned message, f)
  unfolding read_pipe
  read_pipe-Whole fuel message b m h = loop-Brings fuel room [] message b m h (omega arith)
