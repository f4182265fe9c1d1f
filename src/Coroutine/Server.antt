-- ===== src/Coroutine/Server.antt =====
-- The coroutines of the echo server: namespace Server of src/WinsockCoroutine/main.cpp.
pub mod Counter
pub mod Closing
pub mod Echo
pub mod Program
pub mod Serving
use win32_experiments.Common.{
  ℕ, zero, ◌≡◌, Bool, true, false, not, Option, none, some, ◌==◌, if◌then◌else◌, take, replicate,
}
use win32_experiments.Common.Buffers.{write_at}
use win32_experiments.Coroutine.{
  Bytes, Failure, accept_completion_failed, associate_failed, Winsock, Operation, Loop, remove_op,
  at, accept_suspend, run, recv_suspend, send_suspend, buffer_size,
}

-- Where AcceptAndServe and the HandleClient that it awaits are suspended, or how they have ended. HandleClient keeps its
-- buffer.
pub data Point : Type 0 where
  accepting : ℕ → Point
  receiving : ℕ → Bytes → Point
  sending : ℕ → Bytes → Point
  finished : Option Failure → Point

abbrev pub thrown : Failure → Point
thrown f = finished (some f)

module _ {S : Type 0} (w : Winsock S) where
  -- The head of the loop of HandleClient.
  unfoldable pub next_message : ℕ → Bytes → Loop Point → S → Loop Point × S
  next_message client buffer t s = recv_suspend w client (receiving client buffer) thrown t s

  -- HandleClient, to its first co_await.
  unfoldable pub handle_client : ℕ → Loop Point → S → Loop Point × S
  unfolding next_message
  handle_client client t s =
      let (ok, s2) = w.associate client s in
      if ok
      then next_message client (replicate buffer_size 0) t s2
      else (at (thrown associate_failed) t, s2)

  -- HandleClient from RecvAwaitable's await_resume to the next co_await, or to its end.
  unfoldable pub received : ℕ → Bytes → ℕ → Loop Point → S → Loop Point × S
  received client buffer n t s =
      if n == 0
      then (at (finished none) t, w.closesocket client s)
      else send_suspend w client (take n buffer) (sending client buffer) thrown t s

  -- AcceptAwaitable's await_resume, and HandleClient
  unfoldable pub accepted : ℕ → ℕ → Loop Point → S → Loop Point × S
  unfolding handle_client
  accepted socket error t s =
      if error == 0
      then handle_client socket t (w.update_context socket s)
      else (at (thrown accept_completion_failed) t, w.closesocket socket s)

  -- continuation.resume(), with the await_resume that it runs first.
  unfoldable pub resume : Operation → Loop Point → S → Loop Point × S
  unfolding accepted received next_message
  resume o t s = elim t.point [
    | accepting socket ↦ accepted socket o.error (remove_op t) s
    | receiving client buffer ↦
        received client (write_at 0 o.content buffer) o.bytes_transferred (remove_op t) s
    | sending client buffer ↦ next_message client buffer (remove_op t) s
    | finished e ↦ (t, s)
  ]

  -- AcceptAndServe, to its first co_await.
  unfoldable pub accept_and_serve : ℕ → S → Loop Point × S
  accept_and_serve listen_socket s =
      accept_suspend w listen_socket accepting thrown
        (record { outstanding_ops = 0; point = finished none }) s

  -- CreateListenSocket from bind on: the socket is closed by its owner where an exception leaves it.
  unfoldable pub bind_and_listen : ℕ → S → Option ℕ × S
  bind_and_listen socket s =
      let (bound, s2) = w.bind socket s in
      if not bound
      then (none, w.closesocket socket s2)
      else (let (listens, s3) = w.listen socket s2 in
          if not listens
          then (none, w.closesocket socket s3)
          else (let (associated, s4) = w.associate socket s3 in
              if associated then (some socket, s4) else (none, w.closesocket socket s4)))

  -- CreateListenSocket: the address information is freed by its owner.
  unfoldable pub create_listen_socket : S → Option ℕ × S
  unfolding bind_and_listen
  create_listen_socket s =
      let (found, s2) = w.getaddrinfo s in
      if not found
      then (none, s2)
      else (let (made, s3) = w.wsa_socket s2 in
          elim made [
            | none ↦ (none, w.freeaddrinfo s3)
            | some socket ↦
                (let (listening, s4) = bind_and_listen socket s3 in (listening, w.freeaddrinfo s4))
          ])

  -- What Run returns once task.await_resume() has thrown what the coroutine has, or nothing.
  abbrev pub exit_code : Point → ℕ
  exit_code (finished none) = 0
  exit_code _ = 1

  -- Run: the sockets, the port and Winsock are released in the reverse order, whatever was thrown.
  unfoldable pub server_run : ℕ → S → Option (ℕ × S)
  server_run fuel s =
      let (up, s2) = w.wsa_startup s in
      if not up
      then some (1, s2)
      else (let (port, s3) = w.create_port s2 in
          if not port
          then some (1, w.wsa_cleanup s3)
          else (let (made, s4) = create_listen_socket s3 in
              elim made [
                | none ↦ some (1, w.wsa_cleanup (w.close_port s4))
                | some socket ↦
                    (let start = accept_and_serve socket s4 in
                      elim (run w resume fuel start.0 start.1) [
                        | none ↦ none
                        | some (t, s5) ↦ some (
                          exit_code t.point,
                          w.wsa_cleanup (w.close_port (w.closesocket socket s5)),
                        )
                      ])
              ]))
