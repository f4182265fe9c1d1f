-- ===== src/SmallPipes/Later.antt =====
-- Async::Overlapped, as an object that is moved, and Async::AsyncRead of src/SmallPipes/main.cpp.
use win32_experiments.Common.{
  ℕ, zero, suc, ◌+◌, ◌-◌, ◌≤◌, ◌⊎◌, ◌≡◌, refl, ap, true, false, not, Option, none, some, inl, inr,
  [], length, replicate, leb, if◌then◌else◌,
}
use win32_experiments.Common.Buffers.{write_at, resize, write_at-filled, resize-filled}
use win32_experiments.Pipe.{Bytes, Outcome, returned, threw, overran}
use win32_experiments.SmallPipes.{Started, completed, more_data, pending, failed, Calls, wait}

-- std::swap of two objects of Overlapped, here the handles of their events: it constructs an object from the first and
-- assigns twice. The move constructor and the move assignment of Overlapped are calls of std::swap; an object under
-- construction has no event. As many calls are nested as there is fuel.
pub std_swap : ℕ → ℕ → ℕ → Option (ℕ × ℕ)
std_swap zero a b = none
std_swap (suc fuel) a b = elim (std_swap fuel 0 a) [
  | none ↦ none
  | some (temporary, a2) ↦ elim (std_swap fuel a2 b) [
    | none ↦ none
    | some (a3, b2) ↦ elim (std_swap fuel b2 temporary) [
      | none ↦ none
      | some (b3, t2) ↦ some (a3, b3)
    ]
  ]
]

-- No number of nested calls is enough.
std_swap-none : (fuel a b : ℕ) → std_swap fuel a b ≡ none
unfolding std_swap
std_swap-none zero a b = refl
std_swap-none (suc fuel) a b = rw (std_swap, std_swap-none fuel 0 a) refl

-- Data and the event of Operation.
pub record AsyncRead : Type 0 where
  pub buffer : Bytes
  pub event : ℕ

module _ {S : Type 0} (calls : Calls S) (room seconds : ℕ) where
  -- The constructor of AsyncRead and Start, for a pipe that is no null pointer.
  unfoldable pub start_reading : S → Outcome AsyncRead × S
  start_reading s =
      let (made, s2) = calls.create_event s in
      if not made
      then (threw, s2)
      else (let (started, s3) = calls.read_file room s2 in
          let object : AsyncRead = record { buffer = replicate room 0; event = 1 } in
          elim started [
            | completed ↦ (returned object, s3)
            | pending ↦ (returned object, s3)
            | more_data ↦ (threw, calls.close_event s3)
            | failed ↦ (threw, calls.close_event s3)
          ])

  -- `while (true)` of FinishReading.
  unfoldable pub finish_loop : ℕ → ℕ → Bytes → ℕ → S → Option (Outcome Bytes × S)
  finish_loop zero event buffer total s = none
  finish_loop (suc fuel) event buffer total s =
      let (made, s2) = calls.create_event s in
      elim made [
        | false ↦ some (threw, s2)
        | true ↦ elim (std_swap fuel event 1) [
          | none ↦ none
          | some (event2, old) ↦
              (let (started, s3) = calls.read_file room (calls.close_event s2) in
                elim (wait calls seconds s3) [
                  | none ↦ none
                  | some t ↦
                      (let bytes = (calls.result t).bytes in
                        let after = write_at total bytes buffer in
                        if leb (total + length bytes) (length buffer)
                        then (elim started [
                          | completed ↦ some (returned (resize (total + length bytes) after), t)
                          | more_data ↦
                              finish_loop fuel event2 (resize (length after + room) after)
                                (total + length bytes) t
                          | pending ↦ some (threw, t)
                          | failed ↦ some (threw, t)
                        ])
                        else some (overran, t))
                ])
        ]
      ]

  -- FinishReading, and Data as GetData returns it then.
  unfoldable pub finish_reading : ℕ → AsyncRead → S → Option (Outcome Bytes × S)
  unfolding finish_loop
  finish_reading fuel object s =
      let t = calls.wait_forever s in
      let bytes = (calls.result t).bytes in
      let after = write_at 0 bytes object.buffer in
      if not (calls.result t).partial
      then some (returned (resize (length bytes) after), t)
      else finish_loop fuel object.event after (length bytes) t

  finish_loop-none :
      (fuel event : ℕ) (buffer : Bytes) (total : ℕ) (s : S)
      → (calls.create_event s).0 ≡ true
      → finish_loop fuel event buffer total s ≡ none
  unfolding finish_loop
  finish_loop-none zero event buffer total s made = refl
  finish_loop-none (suc fuel) event buffer total s made =
      rw (finish_loop, made, std_swap-none fuel event 1) refl

  -- AsyncRead, for a read that starts and finishes: FinishReading leaves in Data what the pipe has brought where that is
  -- the whole message. Where it is a part of the message and an event can be made, FinishReading never returns,
  -- whatever fuel there is, since the move assignment of Overlapped calls itself without end.
  pub finish_reading-Whole :
      (fuel : ℕ) (s t : S)
      → (calls.create_event s).0 ≡ true
      → (calls.read_file room (calls.create_event s).1 ≡ (completed, t))
        ⊎ (calls.read_file room (calls.create_event s).1 ≡ (pending, t))
      → let u = calls.wait_forever t in
        length (calls.result u).bytes ≤ room
        → (object : AsyncRead) × (start_reading s ≡ (returned object, t))
          × ((calls.result u).partial ≡ false
              → finish_reading fuel object t ≡ some (returned (calls.result u).bytes, u))
          × ((calls.result u).partial ≡ true
              → (calls.create_event u).0 ≡ true
              → finish_reading fuel object t ≡ none)
  unfolding start_reading finish_reading finish_loop
  finish_reading-Whole fuel s t made ways l =
      let object : AsyncRead = record { buffer = replicate room 0; event = 1 } in
      let u = calls.wait_forever t in
      let bytes = (calls.result u).bytes in
      (
        object,
        (elim ways [
          | inl w ↦ rw (start_reading, made, w) (ap (λ (x : Started × S). (returned object, x.1)) w)
          | inr w ↦ rw (start_reading, made, w) (ap (λ (x : Started × S). (returned object, x.1)) w)
        ]),
        (λ p.
            rw
              (
                finish_reading,
                p,
                write_at-filled [] bytes room,
                resize-filled bytes (room - length bytes),
              )
              refl),
        (λ p m.
            rw (finish_reading, p)
              (finish_loop-none fuel 1 (write_at 0 bytes object.buffer) (length bytes) u m)),
      )
