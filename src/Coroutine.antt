-- ===== src/Coroutine.antt =====
-- The event loop and the awaitables of the echo programs: namespace Shared of src/WinsockCoroutine/main.cpp. A
-- coroutine is the point at which it is suspended; the calls of Winsock and of the completion port are parameters.
mod Rounds
mod Connection
mod Server
mod Client
mod Examples
use win32_experiments.Common.{
  ℕ, suc, ◌+◌, ◌-◌, zero, Bool, true, false, Option, none, some, List, ◌==◌, if◌then◌else◌,
}

abbrev pub Bytes : Type 0
Bytes = List ℕ

-- What the exceptions say.
pub data Failure : Type 0 where
  wsa_socket_failed accept_failed accept_completion_failed associate_failed : Failure
  recv_failed send_failed connect_unavailable connect_failed connect_completion_failed : Failure
  getaddrinfo_failed bind_failed : Failure

-- What a dequeued packet says of its operation: the answer of GetQueuedCompletionStatus, the transferred bytes, the last
-- error, and what the system has written to the buffer of the operation.
pub record Packet : Type 0 where
  pub ok : Bool
  pub bytes : ℕ
  pub last_error : ℕ
  pub written : Bytes

-- GetQueuedCompletionStatus gives no packet, or one.
pub data Dequeued : Type 0 where
  nothing : Dequeued
  dequeued : Packet → Dequeued

-- The calls, over a state of the system. A call that starts an operation says whether it has started, which it has
-- also where it answers that the operation is pending.
pub record Winsock (S : Type 0) : Type 0 where
  pub wsa_startup : S → Bool × S
  pub create_port : S → Bool × S
  pub wsa_socket : S → Option ℕ × S
  pub bind : ℕ → S → Bool × S
  pub listen : ℕ → S → Bool × S
  pub associate : ℕ → S → Bool × S
  pub getaddrinfo : S → Bool × S
  pub accept_ex : ℕ → ℕ → S → Bool × S
  pub load_connect_ex : ℕ → S → Bool × S
  pub connect_ex : ℕ → S → Bool × S
  pub wsa_recv : ℕ → ℕ → S → Bool × S
  pub wsa_send : ℕ → Bytes → S → Bool × S
  pub update_context : ℕ → S → S
  pub freeaddrinfo : S → S
  pub shutdown : ℕ → S → S
  pub closesocket : ℕ → S → S
  pub close_port : S → S
  pub wsa_cleanup : S → S
  pub dequeue : S → Dequeued × S

-- bytesTransferred and error of IoOperation, with what the buffer has got.
pub record Operation : Type 0 where
  pub bytes_transferred : ℕ
  pub error : ℕ
  pub content : Bytes

-- The fields that Run sets.
unfoldable pub finish_operation : Packet → Operation
finish_operation p = record {
  bytes_transferred = p.bytes;
  error = if p.ok then 0 else p.last_error;
  content = p.written;
}

abbrev pub buffer_size : ℕ
buffer_size = 512

-- The loop's counter, and the point of the coroutine it drives.
pub record Loop (P : Type 0) : Type 0 where
  pub outstanding_ops : ℕ
  pub point : P

module _ {P : Type 0} where
  abbrev pub add_op : Loop P → Loop P
  add_op t = record t { outstanding_ops = suc t.outstanding_ops }

  -- An operation that is removed has been added, so the counter is not 0.
  abbrev pub remove_op : Loop P → Loop P
  remove_op t = record t { outstanding_ops = t.outstanding_ops - 1 }

  abbrev pub at : P → Loop P → Loop P
  at p t = record t { point = p }

  module _ {S : Type 0} where
    -- How an await_suspend ends: the coroutine is suspended, or it goes on with the exception.
    abbrev pub started : P → P → Loop P → Bool × S → Loop P × S
    started suspended thrown t (true, s) = (at suspended t, s)
    started suspended thrown t (false, s) = (at thrown (remove_op t), s)

    module _ (w : Winsock S) where
      -- AcceptAwaitable::await_suspend
      unfoldable pub accept_suspend : ℕ → (ℕ → P) → (Failure → P) → Loop P → S → Loop P × S
      accept_suspend listen_socket suspended thrown t s =
          let (made, s2) = w.wsa_socket s in
          elim made [
            | none ↦ (at (thrown wsa_socket_failed) t, s2)
            | some socket ↦
                (let (begun, s3) = w.accept_ex listen_socket socket s2 in
                  if begun
                  then (at (suspended socket) (add_op t), s3)
                  else (at (thrown accept_failed) (remove_op (add_op t)), w.closesocket socket s3))
          ]

      -- RecvAwaitable::await_suspend
      unfoldable pub recv_suspend : ℕ → P → (Failure → P) → Loop P → S → Loop P × S
      recv_suspend socket suspended thrown t s =
          started suspended (thrown recv_failed) (add_op t) (w.wsa_recv socket buffer_size s)

      -- SendAwaitable::await_suspend
      unfoldable pub send_suspend : ℕ → Bytes → P → (Failure → P) → Loop P → S → Loop P × S
      send_suspend socket bytes suspended thrown t s =
          started suspended (thrown send_failed) (add_op t) (w.wsa_send socket bytes s)

      -- ConnectAwaitable::await_suspend
      unfoldable pub connect_suspend : ℕ → P → (Failure → P) → Loop P → S → Loop P × S
      connect_suspend socket suspended thrown t s =
          let (loaded, s2) = w.load_connect_ex socket s in
          if loaded
          then started suspended (thrown connect_failed) (add_op t) (w.connect_ex socket s2)
          else (at (thrown connect_unavailable) t, s2)

      module _ (resume : Operation → Loop P → S → Loop P × S) where
        -- A round of IoEventLoop::Run. The coroutine waits for one operation at a time, so a packet is about that one.
        abbrev pub round : Loop P → Dequeued × S → Loop P × S
        round t (nothing, s) = (t, s)
        round t (dequeued p, s) = resume (finish_operation p) t s

        -- IoEventLoop::Run, for as many rounds as there is fuel; none where they are not enough.
        unfoldable pub run : ℕ → Loop P → S → Option (Loop P × S)
        run zero t s = none
        run (suc fuel) t s = elim (t.outstanding_ops == 0) [
          | true ↦ some (t, s)
          | false ↦ (let next = round t (w.dequeue s) in run fuel next.0 next.1)
        ]
