-- ===== src/SmallPipes/Overlapped.antt =====
-- PipeOperations::Nonblocking of src/SmallPipes/main.cpp: overlapped calls that are waited for at once.
use win32_experiments.Common.{
  ℕ, zero, suc, ◌+◌, ◌-◌, ◌≤◌, ◌<◌, ◌≡◌, ◌∙◌, refl, ap, sym, true, false, Option, none, some, [],
  ◌++◌, length, length-replicate, length-append, append_assoc, not, replicate, leb, if◌then◌else◌,
  arith,
}
use win32_experiments.Common.Buffers.{
  write_at, filled, resize, write_at-filled, length-filled, resize-filled, grow-filled,
}
use win32_experiments.Pipe.{Bytes, Outcome, returned, threw, overran}
use win32_experiments.SmallPipes.{Started, completed, more_data, pending, failed, Calls, wait}

module _ {S : Type 0} (calls : Calls S) (room seconds : ℕ) where
  -- An Overlapped is made, the read is started and waited for; none where the event is not set in so many seconds.
  unfoldable pub start_and_wait : S → Option (Started × S)
  start_and_wait s =
      let (made, s2) = calls.create_event s in
      let (started, s3) = calls.read_file room s2 in
      elim (wait calls seconds s3) [ none ↦ none | some s4 ↦ some (started, s4) ]

  -- PipeOperations::Nonblocking::ReadPipe, `while (true)`. The event is closed at the end of every round.
  unfoldable pub read_loop_overlapped : ℕ → Bytes → ℕ → S → Option (Outcome Bytes × S)
  unfolding start_and_wait
  read_loop_overlapped zero buffer total s = none
  read_loop_overlapped (suc fuel) buffer total s = elim (calls.create_event s).0 [
    | false ↦ some (threw, (calls.create_event s).1)
    | true ↦ elim (start_and_wait s) [
      | none ↦ none
      | some (started, t) ↦
          (let bytes = (calls.result t).bytes in
            let u = calls.close_event t in
            if leb (total + length bytes) (length buffer)
            then (elim started [
              | completed ↦
                  some (returned (resize (total + length bytes) (write_at total bytes buffer)), u)
              | more_data ↦
                  (let after = write_at total bytes buffer in
                    read_loop_overlapped fuel (resize (length after + room) after)
                      (total + length bytes) u)
              | pending ↦ some (threw, u)
              | failed ↦ some (threw, u)
            ])
            else some (overran, u))
    ]
  ]

  unfoldable pub read_overlapped : ℕ → S → Option (Outcome Bytes × S)
  unfolding read_loop_overlapped
  read_overlapped fuel s = read_loop_overlapped fuel (replicate room 0) 0 s

  -- The event is not set within so many seconds, and is within the next one.
  abbrev pub Sets : ℕ → S → S → Type 0
  Sets zero s t = ((calls.wait_second s).0 ≡ true) × ((calls.wait_second s).1 ≡ t)
  Sets (suc n) s t = ((calls.wait_second s).0 ≡ false) × Sets n (calls.wait_second s).1 t

  -- An event can be made, ReadFile answers so at once, and in `t` the event has been set, in time, and the bytes have come.
  abbrev pub Reads : Started → S → S → Type 0
  Reads started s t =
      ((calls.create_event s).0 ≡ true)
      × (((calls.read_file room (calls.create_event s).1).0 ≡ started)
          × (((n : ℕ) × (n < seconds) × Sets n (calls.read_file room (calls.create_event s).1).1 t)
              × (length (calls.result t).bytes ≤ room)))

  -- So many reads with more data to come, and a last one, bring a message.
  abbrev pub Comes : ℕ → S → Bytes → S → Type 0
  Comes zero s message u =
      (t : S) × Reads completed s t × (message ≡ (calls.result t).bytes) × (u ≡ calls.close_event t)
  Comes (suc n) s message u =
      (t : S) × (rest : Bytes) × Reads more_data s t
      × (message ≡ (calls.result t).bytes ++ rest)
      × Comes n (calls.close_event t) rest u

  wait-Sets : (fuel n : ℕ) (s t : S) → n < fuel → Sets n s t → wait calls fuel s ≡ some t
  unfolding wait
  wait-Sets zero n s t l h = absurd (omega arith)
  wait-Sets (suc fuel) zero s t l (e, f) = rw (wait, e) (ap some f)
  wait-Sets (suc fuel) (suc n) s t l (e, h) =
      rw (wait, e) (wait-Sets fuel n (calls.wait_second s).1 t (omega arith) h)

  start_and_wait-Reads :
      (started : Started) (s t : S) → Reads started s t → start_and_wait s ≡ some (started, t)
  unfolding start_and_wait
  start_and_wait-Reads started s t (made, (e, ((n, l, h), fits))) =
      let set = wait-Sets seconds n (calls.read_file room (calls.create_event s).1).1 t l h in
      rw (start_and_wait, set, e) refl

  loop_completed :
      (fuel total : ℕ) (buffer : Bytes) (s t : S)
      → Reads completed s t
      → total + length (calls.result t).bytes ≤ length buffer
      → (let bytes = (calls.result t).bytes in
          read_loop_overlapped (suc fuel) buffer total s
          ≡ some (
            returned (resize (total + length bytes) (write_at total bytes buffer)),
            calls.close_event t,
          ))
  unfolding read_loop_overlapped
  loop_completed fuel total buffer s t r h =
      let (made, _) = r in
      let fits : leb (total + length (calls.result t).bytes) (length buffer) ≡ true =
        ground arith in
      rw (read_loop_overlapped, made, start_and_wait-Reads completed s t r, fits) refl

  loop_more :
      (fuel total : ℕ) (buffer : Bytes) (s t : S)
      → Reads more_data s t
      → total + length (calls.result t).bytes ≤ length buffer
      → (let bytes = (calls.result t).bytes in
          let after = write_at total bytes buffer in
          read_loop_overlapped (suc fuel) buffer total s
          ≡ read_loop_overlapped fuel
              (resize (length after + room) after)
              (total + length bytes)
              (calls.close_event t))
  unfolding read_loop_overlapped
  loop_more fuel total buffer s t r h =
      let (made, _) = r in
      let fits : leb (total + length (calls.result t).bytes) (length buffer) ≡ true =
        ground arith in
      rw (read_loop_overlapped, made, start_and_wait-Reads more_data s t r, fits) refl

  -- Behind what was read there is always room for one more read.
  loop-Comes :
      (fuel n left : ℕ) (got message : Bytes) (s u : S)
      → Comes n s message u
      → n < fuel
      → room ≤ left
      → read_loop_overlapped fuel (filled got left) (length got) s
        ≡ some (returned (got ++ message), u)
  loop-Comes zero n left got message s u h l k = absurd (omega arith)
  loop-Comes (suc fuel) zero left got message s u (t, r, e, f) l k =
      let (_, (_, (_, fits))) = r in
      let bytes = (calls.result t).bytes in
      let step =
        loop_completed fuel (length got) (filled got left) s t r
          (omega (arith, length-filled got left)) in
      step
      ∙ rw
          (
            write_at-filled got bytes left,
            sym (length-append got bytes),
            resize-filled (got ++ bytes) (left - length bytes),
            e,
            f,
          )
          refl
  loop-Comes (suc fuel) (suc n) left got message s u (t, rest, r, e, h) l k =
      let (_, (_, (_, fits))) = r in
      let bytes = (calls.result t).bytes in
      let step =
        loop_more fuel (length got) (filled got left) s t r
          (omega (arith, length-filled got left)) in
      let now =
        rw
          (
            write_at-filled got bytes left,
            grow-filled (got ++ bytes) (left - length bytes) room,
            sym (length-append got bytes),
          )
          at step in
      let ih =
        loop-Comes fuel n (left - length bytes + room) (got ++ bytes) rest (calls.close_event t) u h
          (omega arith) (omega arith) in
      now ∙ (ih ∙ rw (append_assoc got bytes rest, e) refl)

  -- The overlapped ReadPipe, where its events can be made, every read starts at once with no more bytes than it was asked
  -- for, and each event is set within the seconds that are waited for: with fuel for the reads it returns exactly the
  -- message that they bring, and the state is the one behind the waits, with every event closed.
  pub read_overlapped-Comes :
      (fuel n : ℕ) (message : Bytes) (s u : S)
      → Comes n s message u
      → n < fuel
      → read_overlapped fuel s ≡ some (returned message, u)
  unfolding read_overlapped
  read_overlapped-Comes fuel n message s u h l =
      loop-Comes fuel n room [] message s u h l (omega arith)

  -- Where a read is pending, and finishes while ReadPipe waits, the last error is not ERROR_MORE_DATA: ReadPipe throws,
  -- and the message that has come is lost.
  pub read_overlapped-pending :
      (fuel : ℕ) (s t : S)
      → (calls.create_event s).0 ≡ true
      → start_and_wait s ≡ some (pending, t)
      → length (calls.result t).bytes ≤ room
      → read_overlapped (suc fuel) s ≡ some (threw, calls.close_event t)
  unfolding read_overlapped
  read_overlapped-pending fuel s t made e l =
      let n = length-replicate {A = ℕ} room 0 in
      let fits : leb (0 + length (calls.result t).bytes) (length (replicate {A = ℕ} room 0))
          ≡ true =
        ground arith in
      rw (read_overlapped, read_loop_overlapped, made, e, fits) refl

  -- PipeOperations::Nonblocking::WritePipe
  pub write_overlapped : Bytes → S → Option (Outcome (Unit {0}) × S)
  write_overlapped bytes s =
      let (made, s2) = calls.create_event s in
      if not made
      then some (threw, s2)
      else (let (started, s3) = calls.write_file bytes s2 in
          let waited : Option (Outcome (Unit {0}) × S) = elim (wait calls seconds s3) [
            | none ↦ none
            | some t ↦ some (returned tt, calls.close_event t)
          ] in
          elim started [
            | completed ↦ waited
            | pending ↦ waited
            | more_data ↦ some (threw, calls.close_event s3)
            | failed ↦ some (threw, calls.close_event s3)
          ])
