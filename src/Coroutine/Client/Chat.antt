-- ===== src/Coroutine/Client/Chat.antt =====
-- The conversation of the client, once it is connected.
use win32_experiments.Common.{
  ℕ, zero, suc, ◌+◌, ◌*◌, ◌≤◌, ◌≡◌, ◌∙◌, refl, ap, none, some, List, [], ◌∷◌, ◌++◌, append-nil,
  append_assoc, length, take, take-length-append, arith, sym,
}
use win32_experiments.Common.Buffers.{write_at}
use win32_experiments.Coroutine.{
  Bytes, send_failed, recv_failed, Winsock, Loop, add_op, round, run, finish_operation,
  recv_suspend, send_suspend, buffer_size,
}
use win32_experiments.Coroutine.Connection.{
  transferred, Asked, a_receive, a_send, IsConnection, Parts, concat,
}
use win32_experiments.Coroutine.Rounds.{run_done, run_next, round_dequeued, started-true}
use win32_experiments.Coroutine.Client.{
  Point, receiving, sending, finished, thrown, resume, next_message,
}

-- The parts that the client takes for the echoes of `left` messages, the last one first, before `echoes`.
abbrev pub printed : (left : List Bytes) (parts echoes : List Bytes) → List Bytes
printed [] parts echoes = echoes
printed (m ∷ rest) [] echoes = echoes
printed (m ∷ rest) (p ∷ parts) echoes = printed rest parts (p ∷ echoes)

module _ {S : Type 0} (w : Winsock S) (socket : ℕ) (asked : S → Asked) (left : S → List Bytes)
    (wire : S → Bytes) (d : IsConnection w socket asked left wire) where
  abbrev new : Loop Point
  new = record { outstanding_ops = 0; point = finished none [] }

  send_round :
      (rest : List Bytes) (buffer : Bytes) (echoes : List Bytes) (s : S)
      → asked s ≡ a_send
      → (u : S) × (round w
            (resume w)
            (record { outstanding_ops = 1; point = sending socket rest buffer echoes })
            (w.dequeue s)
          ≡ (record { outstanding_ops = 1; point = receiving socket rest buffer echoes }, u))
        × (asked u ≡ a_receive)
        × (left u ≡ left s)
        × (wire u ≡ wire s)
  unfolding resume finish_operation recv_suspend
  send_round rest buffer echoes s a =
      let (p, e, l2, k2) = d.sent s a in
      let s2 = (w.dequeue s).1 in
      let (go, a3, l3, k3) = d.receive_starts s2 in
      (
        (w.wsa_recv socket buffer_size s2).1,
        round_dequeued w (resume w)
              (record { outstanding_ops = 1; point = sending socket rest buffer echoes })
              (w.dequeue s) p e
            ∙ started-true (receiving socket rest buffer echoes) (thrown echoes recv_failed)
                (add_op new) (w.wsa_recv socket buffer_size s2) go,
        a3,
        l3 ∙ l2,
        k3 ∙ k2,
      )

  receive_round :
      (b : ℕ) (bs : Bytes) (parts rest : List Bytes) (buffer : Bytes) (echoes : List Bytes) (s : S)
      → asked s ≡ a_receive
      → left s ≡ (b ∷ bs) ∷ parts
      → (buffer2 : Bytes) × (u : S) × (round w
            (resume w)
            (record { outstanding_ops = 1; point = receiving socket rest buffer echoes })
            (w.dequeue s)
          ≡ next_message w socket rest buffer2
              ((b ∷ bs) ∷ echoes)
              (record { outstanding_ops = 0; point = receiving socket rest buffer echoes })
              u)
        × (left u ≡ parts)
        × (wire u ≡ wire s)
  unfolding resume finish_operation
  receive_round b bs parts rest buffer echoes s a l =
      let (e, l2, k2) = d.brings b bs parts s a l in
      let s2 = (w.dequeue s).1 in
      let buffer2 = write_at 0 (b ∷ bs) buffer in
      let whole : take (length (b ∷ bs)) buffer2 ≡ b ∷ bs = take-length-append (b ∷ bs) _ in
      (
        buffer2,
        s2,
        round_dequeued w (resume w)
              (record { outstanding_ops = 1; point = receiving socket rest buffer echoes })
              (w.dequeue s) (transferred (b ∷ bs)) e
            ∙ ap
                (λ x.
                  next_message w socket rest buffer2 (x ∷ echoes)
                    (record { outstanding_ops = 0; point = receiving socket rest buffer echoes })
                    s2)
                whole,
        l2,
        k2,
      )

  abbrev over : Point → Loop Point
  over p = record { outstanding_ops = 0; point = p }

  -- The loop over the messages, on a connection whose calls succeed and whose peer sends as many parts as there are
  -- messages, or more, none of them empty: the loop ends after two rounds for every message, all messages have been
  -- sent in their order, and what the client has printed as the echo of a message is the next part that came, whole
  -- echo or not. It shuts the socket down and closes it.
  pub next_message-printed :
      (fuel : ℕ) (ms parts : List Bytes) (buffer : Bytes) (echoes : List Bytes) (p : Point) (s : S)
      → Parts parts
      → left s ≡ parts
      → length ms ≤ length parts
      → 2 * length ms + 1 ≤ fuel
      → (let start =
            next_message w socket ms buffer echoes (record { outstanding_ops = 0; point = p }) s in
          (u : S) × (run w (resume w) fuel start.0 start.1
            ≡ some (
              record { outstanding_ops = 0; point = finished none (printed ms parts echoes) },
              w.closesocket socket (w.shutdown socket u),
            ))
          × (wire u ≡ wire s ++ concat ms))
  unfolding next_message send_suspend
  next_message-printed zero ms parts buffer echoes p s q l n f = absurd (omega arith)
  next_message-printed (suc fuel) [] parts buffer echoes p s q l n f = (
    s,
    run_done w (resume w) fuel (over (finished none echoes))
        (w.closesocket socket (w.shutdown socket s)) refl,
    sym (append-nil (wire s)),
  )
  next_message-printed (suc zero) (m ∷ rest) parts buffer echoes p s q l n f = absurd (omega arith)
  next_message-printed (suc (suc fuel)) (m ∷ rest) [] buffer echoes p s q l n f =
      absurd (omega arith)
  next_message-printed (suc (suc fuel)) (m ∷ rest) ([] ∷ parts) buffer echoes p s q l n f = absurd q
  next_message-printed (suc (suc fuel)) (m ∷ rest) ((b ∷ bs) ∷ parts) buffer echoes p s q l n f =
      let (go, a1, l1, k1) = d.send_starts m s in
      let s1 = (w.wsa_send socket m s).1 in
      let begins =
        started-true (sending socket rest buffer echoes) (thrown echoes send_failed)
          (add_op (over p)) (w.wsa_send socket m s) go in
      let (s2, e2, a2, l2, k2) = send_round rest buffer echoes s1 a1 in
      let (buffer2, s3, e3, l3, k3) =
        receive_round b bs parts rest buffer echoes s2 a2 (l2 ∙ l1 ∙ l) in
      let (u, h, k) =
        next_message-printed fuel rest parts buffer2 ((b ∷ bs) ∷ echoes)
          (receiving socket rest buffer echoes) s3 q l3 (omega arith) (omega arith) in
      (
        u,
        ap (λ (x : Loop Point × S). run w (resume w) (suc (suc fuel)) x.0 x.1) begins
            ∙ run_next w (resume w) (suc fuel) 0
                (record { outstanding_ops = 1; point = sending socket rest buffer echoes }) s1 refl
            ∙ ap (λ (x : Loop Point × S). run w (resume w) (suc fuel) x.0 x.1) e2
            ∙ run_next w (resume w) fuel 0
                (record { outstanding_ops = 1; point = receiving socket rest buffer echoes }) s2
                refl
            ∙ ap (λ (x : Loop Point × S). run w (resume w) fuel x.0 x.1) e3
            ∙ h,
        k ∙ ap (λ x. x ++ concat rest) (k3 ∙ k2 ∙ k1) ∙ append_assoc (wire s) m (concat rest),
      )
