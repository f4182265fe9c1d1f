-- ===== src/Coroutine/Server/Counter.antt =====
-- The loop's counter and the coroutine.
use win32_experiments.Common.{
  ℕ, ◌≡◌, ◌∙◌, sym, refl, Option, some, inl, inr, ◌==◌, Bool-cases, Option-cases, take, replicate,
  arith,
}
use win32_experiments.Common.Buffers.{write_at}
use win32_experiments.Coroutine.{
  Bytes, Failure, recv_failed, send_failed, Winsock, Dequeued, nothing, dequeued, Operation, Loop,
  remove_op, round, run, finish_operation, accept_suspend, recv_suspend, send_suspend, buffer_size,
}
use win32_experiments.Coroutine.Rounds.{run-Keeps, started_counts}
use win32_experiments.Coroutine.Server.{
  Point, accepting, receiving, sending, finished, thrown, accept_and_serve, resume, handle_client,
  received, accepted, next_message,
}

-- The operations of a coroutine that the system has not finished.
abbrev pub pending : Point → ℕ
pending (accepting socket) = 1
pending (receiving client buffer) = 1
pending (sending client buffer) = 1
pending (finished e) = 0

abbrev pub Counted : Loop Point → Type 0
Counted t = t.outstanding_ops ≡ pending t.point

module _ {S : Type 0} (w : Winsock S) where
  next_message-Counted :
      (client : ℕ) (buffer : Bytes) (t : Loop Point) (s : S)
      → t.outstanding_ops ≡ 0
      → Counted (next_message w client buffer t s).0
  unfolding next_message recv_suspend
  next_message-Counted client buffer t s z =
      started_counts pending (receiving client buffer) (thrown recv_failed) t
        (w.wsa_recv client buffer_size s) z refl refl

  handle_client-Counted :
      (client : ℕ) (t : Loop Point) (s : S)
      → t.outstanding_ops ≡ 0
      → Counted (handle_client w client t s).0
  unfolding handle_client
  handle_client-Counted client t s z =
      let (ok, s2) = w.associate client s in
      elim (Bool-cases ok) [
        | inl e ↦
            rw (handle_client, e) (next_message-Counted client (replicate buffer_size 0) t s2 z)
        | inr e ↦ rw (handle_client, e) z
      ]

  received-Counted :
      (client : ℕ) (buffer : Bytes) (n : ℕ) (t : Loop Point) (s : S)
      → t.outstanding_ops ≡ 0
      → Counted (received w client buffer n t s).0
  unfolding received send_suspend
  received-Counted client buffer n t s z = elim (Bool-cases (n == 0)) [
    | inl e ↦ rw (received, e) z
    | inr e ↦
        rw (received, e)
          (started_counts pending (sending client buffer) (thrown send_failed) t
            (w.wsa_send client (take n buffer) s) z refl refl)
  ]

  accepted-Counted :
      (socket error : ℕ) (t : Loop Point) (s : S)
      → t.outstanding_ops ≡ 0
      → Counted (accepted w socket error t s).0
  unfolding accepted
  accepted-Counted socket error t s z = elim (Bool-cases (error == 0)) [
    | inl e ↦ rw (accepted, e) (handle_client-Counted socket t (w.update_context socket s) z)
    | inr e ↦ rw (accepted, e) z
  ]

  resume-Counted :
      (o : Operation) (p : Point) (n : ℕ) (s : S)
      → n ≡ pending p
      → Counted (resume w o (record { outstanding_ops = n; point = p }) s).0
  unfolding resume
  resume-Counted o (accepting socket) n s c =
      accepted-Counted socket o.error
        (remove_op (record { outstanding_ops = n; point = accepting socket })) s (omega arith)
  resume-Counted o (receiving client buffer) n s c =
      received-Counted client (write_at 0 o.content buffer) o.bytes_transferred
        (remove_op (record { outstanding_ops = n; point = receiving client buffer })) s
        (omega arith)
  resume-Counted o (sending client buffer) n s c =
      next_message-Counted client buffer
        (remove_op (record { outstanding_ops = n; point = sending client buffer })) s (omega arith)
  resume-Counted o (finished e) n s c = c

  round-Counted :
      (t : Loop Point) (d : Dequeued × S) → Counted t → Counted (round w (resume w) t d).0
  round-Counted t (nothing, s) c = c
  round-Counted t (dequeued p, s) c =
      resume-Counted (finish_operation p) t.point t.outstanding_ops s c

  finished_of : (p : Point) → pending p ≡ 0 → (e : Option Failure) × (p ≡ finished e)
  finished_of (accepting socket) z = absurd (omega arith)
  finished_of (receiving client buffer) z = absurd (omega arith)
  finished_of (sending client buffer) z = absurd (omega arith)
  finished_of (finished e) z = (e, refl)

  pub accept_and_serve-Counted :
      (listen_socket : ℕ) (s : S) → Counted (accept_and_serve w listen_socket s).0
  unfolding accept_and_serve accept_suspend
  accept_and_serve-Counted listen_socket s = elim (Option-cases (w.wsa_socket s).0) [
    | inl e ↦ rw (accept_and_serve, accept_suspend, e) refl
    | inr (socket, e) ↦ elim (Bool-cases (w.accept_ex listen_socket socket (w.wsa_socket s).1).0) [
      | inl b ↦ rw (accept_and_serve, accept_suspend, e, b) refl
      | inr b ↦ rw (accept_and_serve, accept_suspend, e, b) refl
    ]
  ]

  -- Whatever Winsock does, the loop of the server runs until its coroutine has ended, and no operation is outstanding
  -- then.
  pub run-Ends :
      (fuel listen_socket : ℕ) (s : S) (r : Loop Point × S)
      → (let start = accept_and_serve w listen_socket s in run w (resume w) fuel start.0 start.1)
        ≡ some r
      → (r.0.outstanding_ops ≡ 0) × ((e : Option Failure) × (r.0.point ≡ finished e))
  run-Ends fuel listen_socket s r e =
      let start = accept_and_serve w listen_socket s in
      let (c, z) =
        run-Keeps w (resume w) (λ (x : Loop Point × S). Counted x.0)
          (λ t u k. round-Counted t (w.dequeue u) k) fuel start.0 start.1 r
          (accept_and_serve-Counted listen_socket s) e in
      (z, finished_of r.0.point (sym c ∙ z))
