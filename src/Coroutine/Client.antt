-- ===== src/Coroutine/Client.antt =====
-- The coroutine of the client: namespace Client of src/WinsockCoroutine/main.cpp.
pub mod Counter
pub mod Chat
use win32_experiments.Common.{
  ℕ, zero, Bool, true, false, not, Option, none, some, List, [], ◌∷◌, ◌++◌, ◌==◌, if◌then◌else◌,
  take, replicate, codes,
}
use win32_experiments.Common.Buffers.{write_at}
use win32_experiments.Coroutine.{
  Bytes, Failure, wsa_socket_failed, bind_failed, associate_failed, getaddrinfo_failed,
  connect_completion_failed, Winsock, Operation, Loop, remove_op, at, connect_suspend, run,
  recv_suspend, send_suspend, buffer_size,
}

-- Where ConnectAndChat is suspended, or how it has ended; `rest` are the messages that follow, `echoes` what it has
-- printed as echoes, the last one first.
pub data Point : Type 0 where
  connecting : ℕ → Point
  sending : ℕ → (rest : List Bytes) → Bytes → (echoes : List Bytes) → Point
  receiving : ℕ → (rest : List Bytes) → Bytes → (echoes : List Bytes) → Point
  finished : Option Failure → (echoes : List Bytes) → Point

-- CreateConnectSocket returns a socket or throws.
pub data Made : Type 0 where
  made : ℕ → Made
  threw : Failure → Made

abbrev pub messages : List Bytes
messages = codes "Hello" ∷ codes "from" ∷ codes "coroutines!" ∷ []

abbrev pub thrown : List Bytes → Failure → Point
thrown echoes f = finished (some f) echoes

module _ {S : Type 0} (w : Winsock S) where
  -- CreateConnectSocket
  unfoldable pub create_connect_socket : S → Made × S
  create_connect_socket s =
      let (socket, s2) = w.wsa_socket s in
      elim socket [
        | none ↦ (threw wsa_socket_failed, s2)
        | some x ↦
            (let (bound, s3) = w.bind x s2 in
              if not bound
              then (threw bind_failed, w.closesocket x s3)
              else (let (associated, s4) = w.associate x s3 in
                  (if associated then made x else threw associate_failed, s4)))
      ]

  -- The loop over the messages, from its head to the next co_await or to the end of the coroutine.
  unfoldable pub next_message :
      ℕ → List Bytes → Bytes → List Bytes → Loop Point → S → Loop Point × S
  next_message socket [] buffer echoes t s =
      (at (finished none echoes) t, w.closesocket socket (w.shutdown socket s))
  next_message socket (m ∷ rest) buffer echoes t s =
      send_suspend w socket m (sending socket rest buffer echoes) (thrown echoes) t s

  -- ConnectAwaitable's await_resume, and the coroutine to its next co_await.
  unfoldable pub connected : ℕ → ℕ → Loop Point → S → Loop Point × S
  unfolding next_message
  connected socket error t s =
      if error == 0
      then next_message socket messages (replicate buffer_size 0) [] t
          (w.freeaddrinfo (w.update_context socket s))
      else (at (thrown [] connect_completion_failed) t, s)

  -- continuation.resume(), with the await_resume that it runs first.
  unfoldable pub resume : Operation → Loop Point → S → Loop Point × S
  unfolding connected next_message
  resume o t s = elim t.point [
    | connecting socket ↦ connected socket o.error (remove_op t) s
    | sending socket rest buffer echoes ↦
        recv_suspend w socket (receiving socket rest buffer echoes) (thrown echoes) (remove_op t) s
    | receiving socket rest buffer echoes ↦
        (let buffer2 = write_at 0 o.content buffer in
          next_message socket rest buffer2 (take o.bytes_transferred buffer2 ∷ echoes) (remove_op t)
            s)
    | finished e echoes ↦ (t, s)
  ]

  -- ConnectAndChat, to its first co_await.
  unfoldable pub connect_and_chat : S → Loop Point × S
  unfolding create_connect_socket
  connect_and_chat s =
      let new : Loop Point = record { outstanding_ops = 0; point = finished none [] } in
      let (socket, s2) = create_connect_socket s in
      elim socket [
        | threw f ↦ (at (thrown [] f) new, s2)
        | made x ↦
            (let (found, s3) = w.getaddrinfo s2 in
              if found
              then connect_suspend w x (connecting x) (thrown []) new s3
              else (at (thrown [] getaddrinfo_failed) new, s3))
      ]

  -- What Run returns once task.await_resume() has thrown what the coroutine has, or nothing.
  abbrev exit_code : Point → ℕ
  exit_code (finished none echoes) = 0
  exit_code _ = 1

  -- Run: the port and Winsock are released, whatever was thrown.
  unfoldable pub client_run : ℕ → S → Option (ℕ × S)
  unfolding connect_and_chat
  client_run fuel s =
      let (up, s2) = w.wsa_startup s in
      if not up
      then some (1, s2)
      else (let (port, s3) = w.create_port s2 in
          if not port
          then some (1, w.wsa_cleanup s3)
          else (let start = connect_and_chat s3 in
              elim (run w resume fuel start.0 start.1) [
                | none ↦ none
                | some (t, s4) ↦ some (exit_code t.point, w.wsa_cleanup (w.close_port s4))
              ]))
