-- ===== src/Coroutine/Server/Closing.antt =====
-- The client's socket, which no owner holds.
use win32_experiments.Common.{
  ℕ, ◌≡◌, ◌∙◌, sym, ap, Bool, true, false, Option, none, some, refl, inl, inr, List, ◌∷◌, ◌==◌,
  Bool-cases, Option-cases, take, replicate, erase, erase_first,
}
use win32_experiments.Common.Buffers.{write_at}
use win32_experiments.Coroutine.{
  Bytes, Failure, associate_failed, recv_failed, send_failed, Winsock, Dequeued, nothing, dequeued,
  Operation, Loop, started, add_op, remove_op, round, run, finish_operation, accept_suspend,
  recv_suspend, send_suspend, buffer_size,
}
use mathlib.Core.Path.{subst}
use win32_experiments.Coroutine.Rounds.{run-Keeps}
use win32_experiments.Coroutine.Server.{
  Point, accepting, receiving, sending, finished, thrown, accept_and_serve, resume, handle_client,
  received, accepted, next_message,
}

-- What is documented of the calls about the sockets that the program has got and not closed.
pub record IsSockets {S : Type 0} (w : Winsock S) (opened : S → List ℕ) : Type 0 where
  pub makes :
      (s : S) (x : ℕ) → (w.wsa_socket s).0 ≡ some x → opened (w.wsa_socket s).1 ≡ x ∷ opened s
  pub makes_none : (s : S) → (w.wsa_socket s).0 ≡ none → opened (w.wsa_socket s).1 ≡ opened s
  pub starts : (s : S) → opened (w.wsa_startup s).1 ≡ opened s
  pub creates : (s : S) → opened (w.create_port s).1 ≡ opened s
  pub finds : (s : S) → opened (w.getaddrinfo s).1 ≡ opened s
  pub frees : (s : S) → opened (w.freeaddrinfo s) ≡ opened s
  pub binds : (x : ℕ) (s : S) → opened (w.bind x s).1 ≡ opened s
  pub listens : (x : ℕ) (s : S) → opened (w.listen x s).1 ≡ opened s
  pub closes_port : (s : S) → opened (w.close_port s) ≡ opened s
  pub cleans : (s : S) → opened (w.wsa_cleanup s) ≡ opened s
  pub associates : (x : ℕ) (s : S) → opened (w.associate x s).1 ≡ opened s
  pub accepts : (l x : ℕ) (s : S) → opened (w.accept_ex l x s).1 ≡ opened s
  pub receives : (x n : ℕ) (s : S) → opened (w.wsa_recv x n s).1 ≡ opened s
  pub sends : (x : ℕ) (bytes : Bytes) (s : S) → opened (w.wsa_send x bytes s).1 ≡ opened s
  pub updates : (x : ℕ) (s : S) → opened (w.update_context x s) ≡ opened s
  pub dequeues : (s : S) → opened (w.dequeue s).1 ≡ opened s
  pub closes : (x : ℕ) (s : S) → opened (w.closesocket x s) ≡ erase x (opened s)

-- The exceptions that leave HandleClient, which closes its socket on its last line only.
abbrev pub leaks : Failure → Bool
leaks associate_failed = true
leaks recv_failed = true
leaks send_failed = true
leaks _ = false

-- `given` is the socket that WSASocketW made for the client, or none.
abbrev pub Leaking : Bool → Option ℕ → List ℕ → List ℕ → Type 0
Leaking true given before now = (x : ℕ) × (given ≡ some x) × (now ≡ x ∷ before)
Leaking false given before now = now ≡ before

-- The open sockets at a point, where those of `before` were open before.
abbrev pub Holding : Option ℕ → List ℕ → Point → List ℕ → Type 0
Holding given before (accepting x) now = (given ≡ some x) × (now ≡ x ∷ before)
Holding given before (receiving x buffer) now = (given ≡ some x) × (now ≡ x ∷ before)
Holding given before (sending x buffer) now = (given ≡ some x) × (now ≡ x ∷ before)
Holding given before (finished none) now = now ≡ before
Holding given before (finished (some f)) now = Leaking (leaks f) given before now

module _ {S : Type 0} (w : Winsock S) (opened : S → List ℕ) (d : IsSockets w opened) where
  abbrev pub Holds : Option ℕ → List ℕ → Loop Point × S → Type 0
  Holds given before r = Holding given before r.0.point (opened r.1)

  started-Holds :
      (given : Option ℕ) (before : List ℕ) (p : Point) (f : Failure) (t : Loop Point) (r : Bool × S)
      → Holding given before p (opened r.1)
      → Holding given before (thrown f) (opened r.1)
      → Holds given before (started p (thrown f) t r)
  started-Holds given before p f t (true, s) h k = h
  started-Holds given before p f t (false, s) h k = k

  pub closed :
      (before : List ℕ) (x : ℕ) (s : S)
      → opened s ≡ x ∷ before
      → opened (w.closesocket x s) ≡ before
  closed before x s h = d.closes x s ∙ ap (erase x) h ∙ erase_first x before

  next_message-Holds :
      (given : Option ℕ) (before : List ℕ) (client : ℕ) (buffer : Bytes) (t : Loop Point) (s : S)
      → given ≡ some client
      → opened s ≡ client ∷ before
      → Holds given before (next_message w client buffer t s)
  unfolding next_message recv_suspend
  next_message-Holds given before client buffer t s g h =
      let e = d.receives client buffer_size s ∙ h in
      started-Holds given before (receiving client buffer) recv_failed (add_op t)
        (w.wsa_recv client buffer_size s) (g, e) (client, g, e)

  handle_client-Holds :
      (given : Option ℕ) (before : List ℕ) (client : ℕ) (t : Loop Point) (s : S)
      → given ≡ some client
      → opened s ≡ client ∷ before
      → Holds given before (handle_client w client t s)
  unfolding handle_client
  handle_client-Holds given before client t s g h =
      let (ok, s2) = w.associate client s in
      let h2 = d.associates client s ∙ h in
      elim (Bool-cases ok) [
        | inl e ↦
            rw (handle_client, e)
              (next_message-Holds given before client (replicate buffer_size 0) t s2 g h2)
        | inr e ↦ rw (handle_client, e) (client, g, h2)
      ]

  received-Holds :
      (given : Option ℕ) (before : List ℕ) (client : ℕ) (buffer : Bytes) (n : ℕ) (t : Loop Point)
      (s : S)
      → given ≡ some client
      → opened s ≡ client ∷ before
      → Holds given before (received w client buffer n t s)
  unfolding received send_suspend
  received-Holds given before client buffer n t s g h =
      let e2 = d.sends client (take n buffer) s ∙ h in
      elim (Bool-cases (n == 0)) [
        | inl e ↦ rw (received, e) (closed before client s h)
        | inr e ↦
            rw (received, e)
              (started-Holds given before (sending client buffer) send_failed (add_op t)
                (w.wsa_send client (take n buffer) s) (g, e2) (client, g, e2))
      ]

  accepted-Holds :
      (given : Option ℕ) (before : List ℕ) (socket error : ℕ) (t : Loop Point) (s : S)
      → given ≡ some socket
      → opened s ≡ socket ∷ before
      → Holds given before (accepted w socket error t s)
  unfolding accepted
  accepted-Holds given before socket error t s g h = elim (Bool-cases (error == 0)) [
    | inl e ↦
        rw (accepted, e)
          (handle_client-Holds given before socket t (w.update_context socket s) g
            (d.updates socket s ∙ h))
    | inr e ↦ rw (accepted, e) (closed before socket s h)
  ]

  resume-Holds :
      (given : Option ℕ) (before : List ℕ) (o : Operation) (p : Point) (n : ℕ) (s : S)
      → Holding given before p (opened s)
      → Holds given before (resume w o (record { outstanding_ops = n; point = p }) s)
  unfolding resume
  resume-Holds given before o (accepting socket) n s (g, h) =
      accepted-Holds given before socket o.error
        (remove_op (record { outstanding_ops = n; point = accepting socket })) s g h
  resume-Holds given before o (receiving client buffer) n s (g, h) =
      received-Holds given before client (write_at 0 o.content buffer) o.bytes_transferred
        (remove_op (record { outstanding_ops = n; point = receiving client buffer })) s g h
  resume-Holds given before o (sending client buffer) n s (g, h) =
      next_message-Holds given before client buffer
        (remove_op (record { outstanding_ops = n; point = sending client buffer })) s g h
  resume-Holds given before o (finished e) n s h = h

  Holding-dequeue :
      (given : Option ℕ) (before : List ℕ) (p : Point) (s s2 : S)
      → opened s2 ≡ opened s
      → Holding given before p (opened s)
      → Holding given before p (opened s2)
  Holding-dequeue given before p s s2 e h = subst (Holding given before p) (sym e) h

  round-Holds :
      (given : Option ℕ) (before : List ℕ) (t : Loop Point) (r : Dequeued × S)
      → Holding given before t.point (opened r.1)
      → Holds given before (round w (resume w) t r)
  round-Holds given before t (nothing, s) h = h
  round-Holds given before t (dequeued p, s) h =
      resume-Holds given before (finish_operation p) t.point t.outstanding_ops s h

  accept_and_serve-Holds :
      (listen_socket : ℕ) (s : S)
      → Holds (w.wsa_socket s).0 (opened s) (accept_and_serve w listen_socket s)
  unfolding accept_and_serve accept_suspend
  accept_and_serve-Holds listen_socket s = elim (Option-cases (w.wsa_socket s).0) [
    | inl e ↦ rw (accept_and_serve, accept_suspend, e) (d.makes_none s e)
    | inr (socket, e) ↦
        (let s2 = (w.wsa_socket s).1 in
          let h = d.accepts listen_socket socket s2 ∙ d.makes s socket e in
          elim (Bool-cases (w.accept_ex listen_socket socket s2).0) [
            | inl b ↦ rw (accept_and_serve, accept_suspend, e, b) (refl, h)
            | inr b ↦
                rw (accept_and_serve, accept_suspend, e, b)
                  (closed (opened s) socket (w.accept_ex listen_socket socket s2).1 h)
          ])
  ]

  -- When the loop of the server has ended, the program holds the sockets that it held before, and where HandleClient has
  -- thrown, because the association, a WSARecv or a WSASend failed, the client's socket as well. That one has been
  -- closed where AcceptEx has failed, at once or later, and where a receive has brought no byte.
  pub run-Holding :
      (fuel listen_socket : ℕ) (s : S) (r : Loop Point × S)
      → (let start = accept_and_serve w listen_socket s in run w (resume w) fuel start.0 start.1)
        ≡ some r
      → Holding (w.wsa_socket s).0 (opened s) r.0.point (opened r.1)
  run-Holding fuel listen_socket s r e =
      let start = accept_and_serve w listen_socket s in
      (run-Keeps w (resume w) (Holds (w.wsa_socket s).0 (opened s))
        (λ t u k. round-Holds (w.wsa_socket s).0 (opened s) t (w.dequeue u) (
          Holding-dequeue (w.wsa_socket s).0 (opened s) t.point u (w.dequeue u).1 (d.dequeues u) k))
        fuel start.0 start.1 r (accept_and_serve-Holds listen_socket s) e).0
