-- ===== src/SmallPipes.antt =====
-- src/SmallPipes/main.cpp: reads and writes on a pipe of messages, blocking, overlapped, and as an object that is asked
-- later. The calls of the system are a parameter; ReadFile without OVERLAPPED and its answers are those of the module
-- Pipe. `overran` stands for what C++ leaves undefined, here a read behind the end of the vector.
pub mod Blocking
pub mod Overlapped
pub mod Later
mod Examples
use win32_experiments.Common.{
  ℕ, zero, suc, ◌+◌, Bool, true, false, Option, none, some, length, replicate, leb, not,
  if◌then◌else◌,
}
use win32_experiments.Common.Buffers.{write_at, resize}
use win32_experiments.Pipe.{
  Bytes, whole, part, read_failed, Pipe, Outcome, returned, threw, overran,
}

-- BOOL of an overlapped call and the last error: TRUE, FALSE with ERROR_MORE_DATA, FALSE with ERROR_IO_PENDING, or FALSE
-- with another error.
pub data Started : Type 0 where
  completed more_data pending failed : Started

-- What OVERLAPPED says when its event is set: STATUS_BUFFER_OVERFLOW or not in Internal, and the bytes, whose number is
-- InternalHigh.
pub record Result : Type 0 where
  pub partial : Bool
  pub bytes : Bytes

-- The overlapped calls over a state of the system: CreateEventW, ReadFile, WriteFile, WaitForSingleObject for a second
-- and with no limit, what OVERLAPPED says, and CloseHandle of the event.
pub record Calls (S : Type 0) : Type 0 where
  pub create_event : S → Bool × S
  pub read_file : ℕ → S → Started × S
  pub write_file : Bytes → S → Started × S
  pub wait_second : S → Bool × S
  pub wait_forever : S → S
  pub result : S → Result
  pub close_event : S → S

module _ {E : Type 0} (pipe : Pipe E) (room : ℕ) where
  -- PipeOperations::Blocking::ReadPipe, `while (true)`.
  unfoldable pub read_loop : ℕ → Bytes → ℕ → E → Option (Outcome Bytes × E)
  read_loop zero buffer total e = none
  read_loop (suc fuel) buffer total e =
      let (chunk, f) = pipe.read_file e room in
      elim chunk [
        | read_failed ↦ some (threw, f)
        | whole bytes ↦
            if leb (total + length bytes) (length buffer)
            then some (returned (resize (total + length bytes) (write_at total bytes buffer)), f)
            else some (overran, f)
        | part bytes ↦
            (let after = write_at total bytes buffer in
              let next =
                read_loop fuel (resize (length after + room) after) (total + length bytes) f in
              if leb (total + length bytes) (length buffer) then next else some (overran, f))
      ]

  -- PipeOperations::Blocking::ReadPipe. The braces of returnBuffer hold a number that is no byte, so they make a vector
  -- of that many bytes.
  unfoldable pub read_pipe : ℕ → E → Option (Outcome Bytes × E)
  read_pipe fuel e = read_loop fuel (replicate room 0) 0 e

  -- PipeOperations::Blocking::WritePipe
  pub write_pipe : Bytes → E → Outcome (Unit {0}) × E
  write_pipe bytes e =
      let (success, f) = pipe.write_file e bytes in if success then (returned tt, f) else (threw, f)

module _ {S : Type 0} (calls : Calls S) where
  -- Overlapped::Wait with a message: it waits for seconds, as many as there is fuel, until the event is set.
  unfoldable pub wait : ℕ → S → Option S
  wait zero s = none
  wait (suc fuel) s =
      let (set, t) = calls.wait_second s in let again = wait fuel t in if set then some t else again
