-- ===== src/Pipe/Headers.antt =====
-- What ReadWithHeader reads of what WriteWithHeader wrote.
use win32_experiments.Common.{
  ℕ, ◌+◌, ◌*◌, ◌-◌, ◌^◌, ◌≤◌, ◌<◌, ◌≡◌, ◌∙◌, true, false, ◌++◌, some, arith, length, replicate, ltb,
  length-append, length-replicate, take, ◌%◌, ap, [], ◌∷◌, refl, if◌then◌else◌,
}
use mathlib.Core.Path.{subst}
use win32_experiments.Common.Buffers.{drop-replicate}
use win32_experiments.Pipe.{
  threw, Outcome, Bytes, Pipe, returned, read_pipe, buffer_size, framed, header_bytes, sent_header,
  header_size, split_header, parse_header, with_header, read_with_header, write_with_header,
  write_pipe, word, enum_bytes,
}
use win32_experiments.Pipe.Read.{Brings, Bounded, read_pipe-Brings}

framed_lem :
    (bytes : Bytes)
    → framed bytes ≡ header_bytes sent_header ++ (bytes ++ replicate (length bytes) 0)
unfolding framed header_bytes enum_bytes
framed_lem bytes =
    let e : header_size + length bytes - 8 ≡ length bytes = omega arith in
    let d = drop-replicate 8 (header_size + length bytes) in rw (d, e)

split-framed :
    (rest : Bytes) → split_header (header_bytes sent_header ++ rest) ≡ (sent_header, rest)
unfolding split_header parse_header header_bytes enum_bytes word
split-framed rest =
    let e : ltb (length (header_bytes sent_header ++ rest)) header_size ≡ false = ground arith in
    rw e

length-framed : (bytes : Bytes) → length (framed bytes) ≡ 8 + 2 * length bytes
unfolding header_bytes enum_bytes
length-framed bytes =
    let zeros = length-replicate {A = ℕ} (length bytes) 0 in
    rw (framed_lem bytes) (omega (arith, length-append bytes (replicate (length bytes) 0), zeros))

take_all : (bytes : Bytes) → take (length bytes) bytes ≡ bytes
take_all [] = refl
take_all (b ∷ bytes) = ap (λ r. b ∷ r) (take_all bytes)

module _ {E : Type 0} (pipe : Pipe E) where
  abbrev answer : E → Bytes → Outcome (Unit {0}) × E
  answer e message =
      let (success, f) = pipe.write_file e message in
      if success then (returned tt, f) else (threw, f)

  write_pipe-true :
      (bytes : Bytes) (e f : E)
      → length bytes < 2 ^ 32
      → write_pipe pipe bytes e ≡ (returned tt, f)
      → pipe.write_file e bytes ≡ (true, f)
  unfolding write_pipe
  write_pipe-true bytes e f l h =
      let whole : take (length bytes % 2 ^ 32) bytes ≡ bytes =
        (ap (λ n. take n bytes) (omega arith) ∙ take_all bytes) in
      let g : answer e bytes ≡ (returned tt, f) =
        subst (λ m. answer e m ≡ (returned tt, f)) whole h in
      ground arith

  read_with_header_returned :
      (fuel : ℕ) (e f : E) (bytes : Bytes)
      → read_pipe pipe fuel e ≡ some (returned bytes, f)
      → read_with_header pipe fuel e ≡ some (returned (split_header bytes), f)
  unfolding read_with_header with_header
  read_with_header_returned fuel e f bytes h = ground arith

  -- If WriteWithHeader returns, from a state in which what WriteFile accepts is what the next reads
  -- bring, and ReadFile brings no more bytes than it was asked for, then ReadWithHeader with enough
  -- fuel returns the header TypeB, TypeA, and behind it not the data alone: the data and as many zeros
  -- again. The data are below 2^31 - 4 bytes.
  pub read_with_header-write_with_header :
      (fuel n : ℕ) (bytes : Bytes) (e f g : E)
      → Bounded pipe
      → ((message : Bytes)
          → pipe.write_file e message ≡ (true, f)
          → Brings pipe buffer_size n f message g)
      → write_with_header pipe bytes e ≡ (returned tt, f)
      → n ≤ fuel
      → 8 + 2 * length bytes < 2 ^ 32
      → read_with_header pipe fuel f
        ≡ some (returned (sent_header, bytes ++ replicate (length bytes) 0), g)
  unfolding write_with_header
  read_with_header-write_with_header fuel n bytes e f g b delivers w h small =
      let len = length-framed bytes in
      let brought = delivers (framed bytes) (write_pipe-true (framed bytes) e f (omega arith) w) in
      let got = read_pipe-Brings pipe fuel (framed bytes) b brought h (omega arith) in
      let split = split-framed (bytes ++ replicate (length bytes) 0) in
      read_with_header_returned fuel f g (framed bytes) got ∙ rw (framed_lem bytes, split)
