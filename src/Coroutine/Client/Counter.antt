-- ===== src/Coroutine/Client/Counter.antt =====
-- The loop's counter and the coroutine of the client.
use win32_experiments.Common.{
  ℕ, ◌≡◌, ◌⊎◌, ◌∙◌, sym, refl, Option, none, some, inl, inr, List, [], ◌∷◌, ◌==◌, Bool-cases, take,
  replicate, arith,
}
use win32_experiments.Common.Buffers.{write_at}
use win32_experiments.Coroutine.{
  Bytes, Failure, recv_failed, send_failed, connect_failed, Winsock, Dequeued, nothing, dequeued,
  Operation, Loop, remove_op, round, run, finish_operation, recv_suspend, send_suspend,
  connect_suspend, buffer_size,
}
use win32_experiments.Coroutine.Rounds.{run-Keeps, started_counts}
use win32_experiments.Coroutine.Client.{
  Point, connecting, receiving, sending, finished, thrown, messages, create_connect_socket, Made,
  made, threw, connect_and_chat, resume, connected, next_message,
}

-- The operations of a coroutine that the system has not finished.
abbrev pub pending : Point → ℕ
pending (connecting socket) = 1
pending (sending socket rest buffer echoes) = 1
pending (receiving socket rest buffer echoes) = 1
pending (finished e echoes) = 0

abbrev pub Counted : Loop Point → Type 0
Counted t = t.outstanding_ops ≡ pending t.point

module _ {S : Type 0} (w : Winsock S) where
  next_message-Counted :
      (socket : ℕ) (left : List Bytes) (buffer : Bytes) (echoes : List Bytes) (t : Loop Point)
      (s : S)
      → t.outstanding_ops ≡ 0
      → Counted (next_message w socket left buffer echoes t s).0
  unfolding next_message send_suspend
  next_message-Counted socket [] buffer echoes t s z = z
  next_message-Counted socket (m ∷ rest) buffer echoes t s z =
      started_counts pending (sending socket rest buffer echoes) (thrown echoes send_failed) t
        (w.wsa_send socket m s) z refl refl

  connected-Counted :
      (socket error : ℕ) (t : Loop Point) (s : S)
      → t.outstanding_ops ≡ 0
      → Counted (connected w socket error t s).0
  unfolding connected
  connected-Counted socket error t s z = elim (Bool-cases (error == 0)) [
    | inl e ↦
        rw (connected, e)
          (next_message-Counted socket messages (replicate buffer_size 0) [] t
            (w.freeaddrinfo (w.update_context socket s)) z)
    | inr e ↦ rw (connected, e) z
  ]

  resume-Counted :
      (o : Operation) (p : Point) (n : ℕ) (s : S)
      → n ≡ pending p
      → Counted (resume w o (record { outstanding_ops = n; point = p }) s).0
  unfolding resume recv_suspend
  resume-Counted o (connecting socket) n s c =
      connected-Counted socket o.error
        (remove_op (record { outstanding_ops = n; point = connecting socket })) s (omega arith)
  resume-Counted o (receiving socket rest buffer echoes) n s c =
      let buffer2 = write_at 0 o.content buffer in
      next_message-Counted socket rest buffer2 (take o.bytes_transferred buffer2 ∷ echoes)
        (remove_op (record { outstanding_ops = n; point = receiving socket rest buffer echoes })) s
        (omega arith)
  resume-Counted o (sending socket rest buffer echoes) n s c =
      started_counts pending (receiving socket rest buffer echoes) (thrown echoes recv_failed)
        (remove_op (record { outstanding_ops = n; point = sending socket rest buffer echoes }))
        (w.wsa_recv socket buffer_size s) (omega arith) refl refl
  resume-Counted o (finished e echoes) n s c = c

  round-Counted :
      (t : Loop Point) (d : Dequeued × S) → Counted t → Counted (round w (resume w) t d).0
  round-Counted t (nothing, s) c = c
  round-Counted t (dequeued p, s) c =
      resume-Counted (finish_operation p) t.point t.outstanding_ops s c

  finished_of :
      (p : Point)
      → pending p ≡ 0
      → (e : Option Failure) × (echoes : List Bytes) × (p ≡ finished e echoes)
  finished_of (connecting socket) z = absurd (omega arith)
  finished_of (receiving socket rest buffer echoes) z = absurd (omega arith)
  finished_of (sending socket rest buffer echoes) z = absurd (omega arith)
  finished_of (finished e echoes) z = (e, echoes, refl)

  abbrev new : Loop Point
  new = record { outstanding_ops = 0; point = finished none [] }

  connect_suspend-Counted :
      (socket : ℕ) (s : S)
      → Counted (connect_suspend w socket (connecting socket) (thrown []) new s).0
  unfolding connect_suspend
  connect_suspend-Counted socket s = elim (Bool-cases (w.load_connect_ex socket s).0) [
    | inl e ↦
        rw (connect_suspend, e)
          (started_counts pending (connecting socket) (thrown [] connect_failed) new
            (w.connect_ex socket (w.load_connect_ex socket s).1) refl refl refl)
    | inr e ↦ rw (connect_suspend, e) refl
  ]

  Made-cases : (m : Made) → ((f : Failure) × (m ≡ threw f)) ⊎ ((x : ℕ) × (m ≡ made x))
  Made-cases (made x) = inr (x, refl)
  Made-cases (threw f) = inl (f, refl)

  connect_and_chat-Counted : (s : S) → Counted (connect_and_chat w s).0
  unfolding connect_and_chat
  connect_and_chat-Counted s = elim (Made-cases (create_connect_socket w s).0) [
    | inl (f, e) ↦ rw (connect_and_chat, e) refl
    | inr (socket, e) ↦
        (let s2 = (create_connect_socket w s).1 in
          elim (Bool-cases (w.getaddrinfo s2).0) [
            | inl b ↦
                rw (connect_and_chat, e, b) (connect_suspend-Counted socket (w.getaddrinfo s2).1)
            | inr b ↦ rw (connect_and_chat, e, b) refl
          ])
  ]

  -- Whatever Winsock does, the loop of the client runs until its coroutine has ended, and no operation is outstanding
  -- then.
  pub run_client-Ends :
      (fuel : ℕ) (s : S) (r : Loop Point × S)
      → (let start = connect_and_chat w s in run w (resume w) fuel start.0 start.1) ≡ some r
      → (r.0.outstanding_ops ≡ 0)
        × ((e : Option Failure) × (echoes : List Bytes) × (r.0.point ≡ finished e echoes))
  run_client-Ends fuel s r e =
      let start = connect_and_chat w s in
      let (c, z) =
        run-Keeps w (resume w) (λ (x : Loop Point × S). Counted x.0)
          (λ t u k. round-Counted t (w.dequeue u) k) fuel start.0 start.1 r
          (connect_and_chat-Counted s) e in
      (z, finished_of r.0.point (sym c ∙ z))
