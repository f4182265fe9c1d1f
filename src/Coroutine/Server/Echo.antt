-- ===== src/Coroutine/Server/Echo.antt =====
-- The conversation of the server with a client that sends and goes.
use win32_experiments.Common.{
  ℕ, zero, suc, ◌+◌, ◌*◌, ◌≤◌, ◌≡◌, ◌∙◌, sym, refl, ap, false, none, some, List, [], ◌∷◌, ◌++◌,
  append-nil, append_assoc, ◌==◌, take, replicate, length, take-length-append, arith,
}
use win32_experiments.Common.Buffers.{write_at}
use win32_experiments.Coroutine.{
  Bytes, send_failed, recv_failed, Winsock, Loop, add_op, round, run, finish_operation,
  recv_suspend, send_suspend, buffer_size,
}
use win32_experiments.Coroutine.Connection.{
  transferred, Asked, a_receive, a_send, IsConnection, Parts, concat,
}
use win32_experiments.Coroutine.Rounds.{run_done, run_next, round_dequeued, started-true}
use win32_experiments.Coroutine.Server.{
  Point, receiving, sending, finished, resume, handle_client, received, next_message,
}

-- A coroutine that has ended, or that has not begun.
abbrev pub ended : Loop Point
ended = record { outstanding_ops = 0; point = finished none }

module _ {S : Type 0} (w : Winsock S) (client : ℕ) (asked : S → Asked) (left : S → List Bytes)
    (wire : S → Bytes) (d : IsConnection w client asked left wire) where
  abbrev waiting : Bytes → Loop Point
  waiting buffer = record { outstanding_ops = 1; point = receiving client buffer }

  abbrev answering : Bytes → Loop Point
  answering buffer = record { outstanding_ops = 1; point = sending client buffer }

  -- The packet of a receive makes the coroutine send what came.
  receive_round :
      (b : ℕ) (bs : Bytes) (rest : List Bytes) (buffer : Bytes) (s : S)
      → asked s ≡ a_receive
      → left s ≡ (b ∷ bs) ∷ rest
      → (buffer2 : Bytes) × (u : S) × (round w (resume w) (waiting buffer) (w.dequeue s)
          ≡ (answering buffer2, u))
        × (asked u ≡ a_send)
        × (left u ≡ rest)
        × (wire u ≡ wire s ++ (b ∷ bs))
  unfolding resume received finish_operation send_suspend
  receive_round b bs rest buffer s a l =
      let (e, l2, k2) = d.brings b bs rest s a l in
      let s2 = (w.dequeue s).1 in
      let buffer2 = write_at 0 (b ∷ bs) buffer in
      let (go, a3, l3, k3) = d.send_starts (b ∷ bs) s2 in
      let some_bytes : (suc (length bs) == 0) ≡ false = ground arith in
      let whole : take (length (b ∷ bs)) buffer2 ≡ b ∷ bs = take-length-append (b ∷ bs) _ in
      (
        buffer2,
        (w.wsa_send client (b ∷ bs) s2).1,
        round_dequeued w (resume w) (waiting buffer) (w.dequeue s) (transferred (b ∷ bs)) e
            ∙ rw (resume, received, whole, some_bytes)
                (started-true (sending client buffer2) (finished (some send_failed)) (add_op ended)
                  (w.wsa_send client (b ∷ bs) s2) go),
        a3,
        l3 ∙ l2,
        k3 ∙ ap (λ x. x ++ (b ∷ bs)) k2,
      )

  -- The packet of a send makes the coroutine receive again.
  send_round :
      (buffer : Bytes) (s : S)
      → asked s ≡ a_send
      → (u : S) × (round w (resume w) (answering buffer) (w.dequeue s) ≡ (waiting buffer, u))
        × (asked u ≡ a_receive)
        × (left u ≡ left s)
        × (wire u ≡ wire s)
  unfolding resume next_message finish_operation recv_suspend
  send_round buffer s a =
      let (p, e, l2, k2) = d.sent s a in
      let s2 = (w.dequeue s).1 in
      let (go, a3, l3, k3) = d.receive_starts s2 in
      (
        (w.wsa_recv client buffer_size s2).1,
        round_dequeued w (resume w) (answering buffer) (w.dequeue s) p e
            ∙ started-true (receiving client buffer) (finished (some recv_failed)) (add_op ended)
                (w.wsa_recv client buffer_size s2) go,
        a3,
        l3 ∙ l2,
        k3 ∙ k2,
      )

  -- The packet of no byte ends the coroutine.
  end_round :
      (buffer : Bytes) (s : S)
      → asked s ≡ a_receive
      → left s ≡ []
      → (u : S) × (round w (resume w) (waiting buffer) (w.dequeue s)
          ≡ (ended, w.closesocket client u))
        × (wire (w.closesocket client u) ≡ wire s)
  unfolding resume received finish_operation
  end_round buffer s a l =
      let (e, k) = d.ends s a l in
      let s2 = (w.dequeue s).1 in
      (
        s2,
        round_dequeued w (resume w) (waiting buffer) (w.dequeue s) (transferred []) e,
        d.closing_keeps s2 ∙ k,
      )

  -- From a receive that has started.
  run-concat :
      (fuel : ℕ) (parts : List Bytes) (buffer : Bytes) (s : S)
      → Parts parts
      → left s ≡ parts
      → asked s ≡ a_receive
      → 2 * length parts + 2 ≤ fuel
      → (u : S) × (run w (resume w) fuel (waiting buffer) s ≡ some (ended, w.closesocket client u))
        × (wire (w.closesocket client u) ≡ wire s ++ concat parts)
  run-concat zero parts buffer s p l a f = absurd (omega arith)
  run-concat (suc zero) parts buffer s p l a f = absurd (omega arith)
  run-concat (suc (suc fuel)) [] buffer s p l a f =
      let (u, e, k) = end_round buffer s a l in
      (
        u,
        run_next w (resume w) (suc fuel) 0 (waiting buffer) s refl
            ∙ ap (λ (x : Loop Point × S). run w (resume w) (suc fuel) x.0 x.1) e
            ∙ run_done w (resume w) fuel ended (w.closesocket client u) refl,
        k ∙ sym (append-nil (wire s)),
      )
  run-concat (suc (suc fuel)) ([] ∷ rest) buffer s p l a f = absurd p
  run-concat (suc (suc fuel)) ((b ∷ bs) ∷ rest) buffer s p l a f =
      let (buffer2, s2, e, a2, l2, k2) = receive_round b bs rest buffer s a l in
      let (s3, e3, a3, l3, k3) = send_round buffer2 s2 a2 in
      let (u, h, k) = run-concat fuel rest buffer2 s3 p (l3 ∙ l2) a3 (omega arith) in
      (
        u,
        run_next w (resume w) (suc fuel) 0 (waiting buffer) s refl
            ∙ ap (λ (x : Loop Point × S). run w (resume w) (suc fuel) x.0 x.1) e
            ∙ run_next w (resume w) fuel 0 (answering buffer2) s2 refl
            ∙ ap (λ (x : Loop Point × S). run w (resume w) fuel x.0 x.1) e3
            ∙ h,
        k ∙ ap (λ x. x ++ concat rest) (k3 ∙ k2) ∙ append_assoc (wire s) (b ∷ bs) (concat rest),
      )

  -- HandleClient, on a connection whose calls succeed and whose peer sends some parts, none of them empty, and goes: the
  -- loop ends after two rounds for every part and one for the end, all parts have been sent back in their order, and
  -- closesocket of the client's socket is the last call. The coroutine ends without an exception.
  pub handle_client-Echoes :
      (fuel : ℕ) (p : Point) (s : S)
      → Parts (left s)
      → 2 * length (left s) + 2 ≤ fuel
      → (let start = handle_client w client (record { outstanding_ops = 0; point = p }) s in
          (u : S) × (run w (resume w) fuel start.0 start.1 ≡ some (ended, w.closesocket client u))
          × (wire (w.closesocket client u) ≡ wire s ++ concat (left s)))
  unfolding handle_client next_message recv_suspend
  handle_client-Echoes fuel p s h f =
      let (ok, l2, k2) = d.associates s in
      let s2 = (w.associate client s).1 in
      let (go, a3, l3, k3) = d.receive_starts s2 in
      let begins =
        started-true (receiving client (replicate buffer_size 0)) (finished (some recv_failed))
          (add_op (record { outstanding_ops = 0; point = p })) (w.wsa_recv client buffer_size s2)
          go in
      let (u, e, k) =
        run-concat fuel (left s) (replicate buffer_size 0) (w.wsa_recv client buffer_size s2).1 h
          (l3 ∙ l2) a3 f in
      (
        u,
        ap (λ (x : Loop Point × S). run w (resume w) fuel x.0 x.1) (rw (handle_client, ok) begins)
            ∙ e,
        k ∙ ap (λ x. x ++ concat (left s)) (k3 ∙ k2),
      )
