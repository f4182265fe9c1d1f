-- ===== src/Framing/Message.antt =====
-- ReceiveMsg: the message that is read, and SendMsg before it.
use win32_experiments.Common.{
  ℕ, suc, ◌+◌, ◌^◌, ◌<◌, ◌≤◌, ◌≡◌, ◌≢◌, refl, sym, ap, ◌∙◌, inl, inr, true, [], ◌++◌, append_assoc,
  Option, none, some, arith, length, take, length-append, length-take, append_inj,
}
use win32_experiments.Common.Int.{pos}
use win32_experiments.Framing.{
  Bytes, Socket, IsStream, Received, msg_failed, msg_ok, received, recv_failed, le32, from_le32,
  send_msg, receive_bytes, check_body, receive_body, receive_msg,
}
use win32_experiments.Framing.Send.{Sends}
use win32_experiments.Framing.Receive.{Receives, receive_bytes-Receives}
use win32_experiments.Framing.Written.{from_le32-le32, send_msg-Sends}

module _ {S : Type 0} {sock : Socket S} {wire inbox : S → Bytes}
    (law : IsStream sock wire inbox) where
  -- The first four bytes decide how ReceiveMsg goes on.
  receive_msg_after :
      (fuel capacity : ℕ) (s t : S) (header : Bytes)
      → receive_bytes sock fuel s 4 ≡ some (received header 4 t)
      → receive_msg sock fuel s capacity
        ≡ check_body (from_le32 header) (receive_bytes sock fuel t (from_le32 header))
  unfolding receive_msg receive_body
  receive_msg_after fuel capacity s t header e = ground arith

  check_body_ok :
      (n : ℕ) (body : Bytes) (t : S)
      → check_body n (some (received body n t)) ≡ some (msg_ok body n t)
  unfolding check_body
  check_body_ok n body t = ground arith

  -- The stream holds a header of four bytes and behind it the body that the header announces.
  -- If no call fails, ReceiveMsg ends, whatever the size `capacity` of the buffer: TRUE, the body written,
  -- and what stands behind the message is left in the stream.
  pub receive_msg_complete :
      (fuel capacity : ℕ) (s : S) (header body rest : Bytes)
      → ((u : S) (k : ℕ) → (sock.recv u (pos k)).0 ≢ none)
      → length header ≡ 4
      → from_le32 header ≡ length body
      → length body < 2 ^ 31
      → length body < fuel
      → 4 < fuel
      → inbox s ≡ header ++ body ++ rest
      → (t : S) × (receive_msg sock fuel s capacity ≡ some (msg_ok body (length body) t))
        × (inbox t ≡ rest)
  receive_msg_complete fuel capacity s header body rest healthy h4 announced small h hf e =
      first (receive_bytes-Receives law fuel 4 s (omega arith) hf)
    where
      second :
          (t : S)
          → receive_bytes sock fuel s 4 ≡ some (received header 4 t)
          → inbox t ≡ body ++ rest
          → Receives sock inbox t
              (length body)
              []
              (length body)
              (receive_bytes sock fuel t (length body))
          → (u : S) × (receive_msg sock fuel s capacity ≡ some (msg_ok body (length body) u))
            × (inbox u ≡ rest)
      second t d w (inl (u, bs, r, l, q)) =
          let (same, left) = append_inj bs body (inbox u) rest l (sym q ∙ w) in
          (
            u,
            rw (receive_msg_after fuel capacity s t header d, announced, r, same)
                (check_body_ok (length body) body u),
            left,
          )
      second t d w (inr (inl (u, bs, k, r, lt, l, q))) =
          absurd (omega (arith, ap length (sym q ∙ w), length-append body rest))
      second t d w (inr (inr (u, bs, v, k, r, l, f))) = absurd (healthy v k f)

      first :
          Receives sock inbox s 4 [] 4 (receive_bytes sock fuel s 4)
          → (u : S) × (receive_msg sock fuel s capacity ≡ some (msg_ok body (length body) u))
            × (inbox u ≡ rest)
      first (inl (t, bs, r, l, q)) =
          let (same, left) =
            append_inj bs header (inbox t) (body ++ rest) (l ∙ sym h4)
              (sym q ∙ e ∙ append_assoc header body rest) in
          second t (rw same at r) left (receive_bytes-Receives law fuel (length body) t small h)
      first (inr (inl (t, bs, k, r, lt, l, q))) = absurd (
          omega (
            arith,
            ap length (sym q ∙ e ∙ append_assoc header body rest),
            length-append header (body ++ rest),
          ))
      first (inr (inr (t, bs, v, k, r, l, f))) = absurd (healthy v k f)

  check_body_inv :
      (m n : ℕ) (r : Option (Received S)) (body : Bytes) (t : S)
      → check_body m r ≡ some (msg_ok body n t)
      → (r ≡ some (received body n t)) × (n ≡ m)
  unfolding check_body
  check_body_inv m n none body t h = cc
  check_body_inv m n (some (recv_failed got u)) body t h = cc
  check_body_inv m n (some (received got k u)) body t h = ground arith

  receive_msg_short :
      (fuel capacity k : ℕ) (s t : S) (got : Bytes)
      → receive_bytes sock fuel s 4 ≡ some (received got k t)
      → k < 4
      → receive_msg sock fuel s capacity ≡ some (msg_failed [] t)
  unfolding receive_msg receive_body
  receive_msg_short fuel capacity k s t got e h = ground arith

  receive_msg_error :
      (fuel capacity : ℕ) (s t : S) (got : Bytes)
      → receive_bytes sock fuel s 4 ≡ some (recv_failed got t)
      → receive_msg sock fuel s capacity ≡ some (msg_failed [] t)
  unfolding receive_msg receive_body
  receive_msg_error fuel capacity s t got e = ground arith

  body_sound :
      (n : ℕ) (s t : S) (body : Bytes) (r : Option (Received S))
      → Receives sock inbox s n [] n r
      → r ≡ some (received body n t)
      → (length body ≡ n) × (inbox s ≡ body ++ inbox t)
  body_sound n s t body r (inl (u, bs, e, l, q)) h =
      let same : (bs ≡ body) × (u ≡ t) = ground arith in (rw same.0 at l, rw (same.0, same.1) at q)
  body_sound n s t body r (inr (inl (u, bs, k, e, lt, l, q))) h =
      let same : k ≡ n = ground arith in absurd (omega arith)
  body_sound n s t body r (inr (inr (u, bs, v, k, e, l, f))) h = cc

  -- If ReceiveMsg answers TRUE with `*pcbRead` equal to `n`, below 2^31, then the stream began with a
  -- four-byte header that announces `n` and with the `n` bytes that were written behind `pBuf`; the
  -- rest is left. So a message that the peer cut short is never taken for a whole one.
  pub receive_msg_sound :
      (fuel capacity n : ℕ) (s t : S) (body : Bytes)
      → n < 2 ^ 31
      → n < fuel
      → 4 < fuel
      → receive_msg sock fuel s capacity ≡ some (msg_ok body n t)
      → (header : Bytes) × (length header ≡ 4)
        × (from_le32 header ≡ n)
        × (length body ≡ n)
        × (inbox s ≡ header ++ body ++ inbox t)
  receive_msg_sound fuel capacity n s t body small h hf ok =
      first (receive_bytes-Receives law fuel 4 s (omega arith) hf)
    where
      first :
          Receives sock inbox s 4 [] 4 (receive_bytes sock fuel s 4)
          → (header : Bytes) × (length header ≡ 4)
            × (from_le32 header ≡ n)
            × (length body ≡ n)
            × (inbox s ≡ header ++ body ++ inbox t)
      first (inl (u, bs, r, l, q)) =
          let (e, same) =
            check_body_inv (from_le32 bs) n _ body t
              (sym (receive_msg_after fuel capacity s u bs r) ∙ ok) in
          let (k, w) =
            body_sound n u t body _ (receive_bytes-Receives law fuel n u small h)
              (rw (← same) at e) in
          (bs, l, sym same, k, rw (q, w, append_assoc))
      first (inr (inl (u, bs, k, r, lt, l, q))) =
          let e = receive_msg_short fuel capacity k s u bs r lt in cc
      first (inr (inr (u, bs, v, k, r, l, f))) =
          let e = receive_msg_error fuel capacity s u bs r in cc

-- What SendMsg has put on one connection, ReceiveMsg reads from another whose stream begins with
-- it, however both transports split the bytes: if SendMsg answers TRUE for a message that is not
-- empty and below 2^31 bytes, and no call of `recv` fails, ReceiveMsg answers TRUE with the message.
pub receive_msg-send_msg :
    {S : Type 0} {T : Type 0} {out : Socket S} {into : Socket T} {wire inbox : S → Bytes}
    {wire' inbox' : T → Bytes} (law : IsStream out wire inbox) (law' : IsStream into wire' inbox')
    (fuel capacity n : ℕ) (s s' : S) (t : T) (p rest : Bytes)
    → ((u : T) (k : ℕ) → (into.recv u (pos k)).0 ≢ none)
    → 0 < n
    → n < 2 ^ 31
    → n < fuel
    → 4 < fuel
    → n ≤ length p
    → send_msg out fuel s p n ≡ some (true, s')
    → wire s ≡ []
    → inbox' t ≡ wire s' ++ rest
    → (t' : T) × (receive_msg into fuel t capacity ≡ some (msg_ok (take n p) n t'))
      × (inbox' t' ≡ rest)
unfolding le32
receive_msg-send_msg {T = T} {out = out} {into = into} {wire = wire} {inbox' = inbox'} law law' fuel
      capacity n s s' t p rest healthy nonempty small h hf fits sent fresh stream =
    finish (send_msg-Sends law fuel n s p nonempty small h hf fits)
  where
    size : length (take n p) ≡ n
    size = omega (arith, length-take n p)

    finish :
        Sends wire s (le32 n ++ p) (4 + n) (send_msg out fuel s p n)
        → (t' : T) × (receive_msg into fuel t capacity ≡ some (msg_ok (take n p) n t'))
          × (inbox' t' ≡ rest)
    finish (inl (u, d, w)) =
        let same : u ≡ s' = ground arith in
        let whole : 4 + n ≡ suc (suc (suc (suc n))) = omega arith in
        let written : wire s' ≡ le32 n ++ take n p = rw (← same, w, fresh, whole) in
        let (t', r, left) =
          receive_msg_complete law' fuel capacity t (le32 n) (take n p) rest healthy refl
            (from_le32-le32 n (omega arith) ∙ sym size) (omega (arith, size)) (omega (arith, size))
            hf (stream ∙ ap (λ z. z ++ rest) written) in
        (t', rw size at r, left)
    finish (inr (u, k, lt, d, w)) = cc

-- The size that ReceiveMsg is given for its buffer does not bound what it writes there: whenever a
-- header announces a body longer than `capacity`, and the body follows and no call fails,
-- ReceiveMsg answers TRUE having written more than `capacity` bytes behind `pBuf`.
pub receive_msg_overruns :
    {S : Type 0} {sock : Socket S} {wire inbox : S → Bytes} (law : IsStream sock wire inbox)
    (fuel capacity : ℕ) (s : S) (header body rest : Bytes)
    → ((u : S) (k : ℕ) → (sock.recv u (pos k)).0 ≢ none)
    → length header ≡ 4
    → from_le32 header ≡ length body
    → length body < 2 ^ 31
    → length body < fuel
    → 4 < fuel
    → inbox s ≡ header ++ body ++ rest
    → capacity < length body
    → (written : Bytes) × (t : S) × (receive_msg sock fuel s capacity
        ≡ some (msg_ok written (length body) t))
      × (capacity < length written)
receive_msg_overruns law fuel capacity s header body rest healthy h4 announced small h hf e over =
    let (t, r, left) =
      receive_msg_complete law fuel capacity s header body rest healthy h4 announced small h hf e in
    (body, t, r, over)
