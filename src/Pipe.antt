-- ===== src/Pipe.antt =====
-- src/PipeLib/Export/pipelib.ixx: ReadPipe, WritePipe, ReadWithHeader and WriteWithHeader on a pipe of
-- messages. ReadFile and WriteFile are a parameter. A read behind the end of the vector is told
-- apart: `overran` stands for what C++ leaves undefined.
pub mod Read
pub mod Headers
pub mod Examples
use win32_experiments.Common.{
  ℕ, zero, suc, ◌+◌, ◌*◌, ◌%◌, ◌^◌, Bool, true, false, List, [], ◌∷◌, ◌++◌, Option, none, some,
  length, take, drop, replicate, leb, ltb, if◌then◌else◌,
}
use win32_experiments.Common.Buffers.{write_at, resize}

abbrev pub Bytes : Type 0
Bytes = List ℕ

abbrev pub buffer_size : ℕ
buffer_size = 1024

-- ReadFile on a message pipe: the end of a message, a part of one with ERROR_MORE_DATA, or another
-- error.
pub data Chunk : Type 0 where
  whole : Bytes → Chunk
  part : Bytes → Chunk
  read_failed : Chunk

-- The calls on the pipe, over a state `E` of the system.
pub record Pipe (E : Type 0) : Type 0 where
  pub read_file : E → ℕ → Chunk × E
  pub write_file : E → Bytes → Bool × E

pub data Outcome (A : Type 0) : Type 0 where
  returned : A → Outcome A
  threw : Outcome A
  overran : Outcome A

-- Header, with its two enumerations as numbers of four bytes.
pub record Header : Type 0 where
  pub kind : ℕ
  pub subtype : ℕ

abbrev pub header_size : ℕ
header_size = 8

-- The bytes of an enumerator, which is below 256, and its value, for a little-endian machine.
pub enum_bytes : ℕ → Bytes
enum_bytes k = k ∷ 0 ∷ 0 ∷ 0 ∷ []

pub header_bytes : Header → Bytes
unfolding enum_bytes
header_bytes h = enum_bytes h.kind ++ enum_bytes h.subtype

pub word : Bytes → ℕ
word (a ∷ b ∷ c ∷ d ∷ rest) = ((a + 256 * b) + 65536 * c) + 16777216 * d
word bytes = 0

-- `*reinterpret_cast<Header*>(data.data())`.
pub parse_header : Bytes → Header
unfolding word
parse_header bytes = record { kind = word (take 4 bytes); subtype = word (take 4 (drop 4 bytes)) }

-- A short message gives the default header and no data.
pub split_header : Bytes → Header × Bytes
unfolding parse_header
split_header bytes =
    if ltb (length bytes) header_size
    then (record { kind = 0; subtype = 0 }, [])
    else (parse_header bytes, drop header_size bytes)

pub with_header : Outcome Bytes → Outcome (Header × Bytes)
unfolding split_header
with_header (returned bytes) = returned (split_header bytes)
with_header threw = threw
with_header overran = overran

-- MessageType::TypeB is 2 and Subtype::TypeA is 1.
abbrev pub sent_header : Header
sent_header = record { kind = 2; subtype = 1 }

-- A vector with room for the header and the data; the header at its start; the data inserted behind
-- the header.
pub framed : Bytes → Bytes
unfolding header_bytes
framed bytes =
    let placed = write_at 0 (header_bytes sent_header) (replicate (header_size + length bytes) 0) in
    take header_size placed ++ (bytes ++ drop header_size placed)

module _ {E : Type 0} (pipe : Pipe E) where
  open pipe use {read_file, write_file}

  -- `while (true)` of ReadPipe: `total` is totalBytesRead.
  pub read_loop : ℕ → Bytes → ℕ → E → Option (Outcome Bytes × E)
  read_loop zero buffer total e = none
  read_loop (suc fuel) buffer total e =
      let (chunk, f) = read_file e buffer_size in
      elim chunk [
        | read_failed ↦ some (threw, f)
        | whole bytes ↦
            let sum = (total + length bytes) % 2 ^ 32 in
            if leb (total + length bytes) (length buffer)
            then some (returned (resize sum (write_at total bytes buffer)), f)
            else some (overran, f)
        | part bytes ↦
            let sum = (total + length bytes) % 2 ^ 32 in
            let after = write_at total bytes buffer in
            let next = read_loop fuel (resize (length after + buffer_size) after) sum f in
            if leb (total + length bytes) (length buffer) then next else some (overran, f)
      ]

  pub read_pipe : ℕ → E → Option (Outcome Bytes × E)
  read_pipe fuel e = read_loop fuel (replicate buffer_size 0) 0 e

  pub read_with_header : ℕ → E → Option (Outcome (Header × Bytes) × E)
  read_with_header fuel e = elim (read_pipe fuel e) [
    | none ↦ none
    | some (r, f) ↦ some (with_header r, f)
  ]

  pub write_pipe : Bytes → E → Outcome (Unit {0}) × E
  write_pipe bytes e =
      let (success, f) = write_file e (take (length bytes % 2 ^ 32) bytes) in
      if success then (returned tt, f) else (threw, f)

  pub write_with_header : Bytes → E → Outcome (Unit {0}) × E
  unfolding framed
  write_with_header bytes e = write_pipe (framed bytes) e
