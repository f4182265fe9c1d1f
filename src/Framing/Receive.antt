-- ===== src/Framing/Receive.antt =====
-- What ReceiveBytes takes from the stream.
use win32_experiments.Common.{
  ℕ, zero, suc, ◌-◌, ◌%◌, ◌^◌, ◌<◌, ◌≤◌, ◌≡◌, refl, ◌⊎◌, inl, inr, [], ◌∷◌, ◌++◌, append_assoc,
  append-nil, Option, none, some, arith, Option-cases, length, length-append,
}
use win32_experiments.Common.Int.{pos, ◌-ℤ◌, pos_part, pos-sub-pos, signed32_of_lt}
use win32_experiments.Framing.{
  Bytes, Socket, IsStream, Received, recv_failed, received, recv_loop, receive_bytes,
}

-- `n` bytes were asked for and `got` is written. Either all of them came, or the stream ended
-- before that, or a call failed.
abbrev pub Receives :
    {S : Type 0} → Socket S → (S → Bytes) → S → ℕ → Bytes → ℕ → Option (Received S) → Type 0
Receives {S} sock inbox s n got m r =
    ((t : S) × (bs : Bytes) × (r ≡ some (received (got ++ bs) n t))
      × (length bs ≡ m)
      × (inbox s ≡ bs ++ inbox t))
    ⊎ (((t : S) × (bs : Bytes) × (k : ℕ) × (r ≡ some (received (got ++ bs) k t))
          × (k < n)
          × (length bs < m)
          × (inbox s ≡ bs))
        ⊎ ((t : S) × (bs : Bytes) × (u : S) × (k : ℕ) × (r ≡ some (recv_failed (got ++ bs) t))
            × (length bs < m)
            × ((sock.recv u (pos k)).0 ≡ none)))

module _ {S : Type 0} {sock : Socket S} {wire inbox : S → Bytes}
    (law : IsStream sock wire inbox) where
  Receives-extend :
      (s t : S) (n m : ℕ) (got bs : Bytes) (r : Option (Received S))
      → length bs ≤ m
      → inbox s ≡ bs ++ inbox t
      → Receives sock inbox t n (got ++ bs) (m - length bs) r
      → Receives sock inbox s n got m r
  Receives-extend s t n m got bs r h e (inl (u, cs, d, l, w)) = inl (
    u,
    bs ++ cs,
    rw (d, append_assoc),
    omega (arith, length-append bs cs),
    rw (e, w, append_assoc),
  )
  Receives-extend s t n m got bs r h e (inr (inl (u, cs, k, d, lt, l, w))) = inr (
      inl (u, bs ++ cs, k, rw (d, append_assoc), lt, omega (arith, length-append bs cs), rw (e, w)))
  Receives-extend s t n m got bs r h e (inr (inr (u, cs, v, k, d, l, f))) =
      inr (inr (u, bs ++ cs, v, k, rw (d, append_assoc), omega (arith, length-append bs cs), f))

  -- The equations of one round, by the answer of `recv`.
  finished : (n m : ℕ) → m ≤ n → n < 2 ^ 31 → pos_part (pos n -ℤ pos m) % 2 ^ 32 ≡ n - m
  finished n m h small = rw (pos-sub-pos n m h) (omega arith)

  recv_loop_step :
      (fuel n m : ℕ) (s : S) (got : Bytes) (b : ℕ) (bs : Bytes)
      → (sock.recv s (pos (suc m))).0 ≡ some (b ∷ bs)
      → length (b ∷ bs) ≤ suc m
      → recv_loop sock (suc fuel) s n got (pos (suc m))
        ≡ recv_loop sock fuel
            (sock.recv s (pos (suc m))).1
            n
            (got ++ b ∷ bs)
            (pos (suc m - length (b ∷ bs)))
  unfolding recv_loop
  recv_loop_step fuel n m s got b bs e h = rw (← pos-sub-pos (suc m) _ h) (ground arith)

  recv_loop_closed :
      (fuel n m : ℕ) (s : S) (got : Bytes)
      → (sock.recv s (pos (suc m))).0 ≡ some []
      → recv_loop sock (suc fuel) s n got (pos (suc m))
        ≡ some
            (received got (pos_part (pos n -ℤ pos (suc m)) % 2 ^ 32) (sock.recv s (pos (suc m))).1)
  unfolding recv_loop
  recv_loop_closed fuel n m s got e = ground arith

  recv_loop-Receives :
      (fuel n m : ℕ) (s : S) (got : Bytes)
      → m < fuel
      → m ≤ n
      → n < 2 ^ 31
      → Receives sock inbox s n got m (recv_loop sock fuel s n got (pos m))
  unfolding recv_loop
  recv_loop-Receives zero n m s got h fits small = elim h [ ]
  recv_loop-Receives (suc fuel) n zero s got h fits small =
      let all : n - 0 ≡ n = omega arith in
      inl (s, [], rw (append-nil, finished n 0 (omega arith) small, all), refl, refl)
  recv_loop-Receives (suc fuel) n (suc m) s got h fits small =
      elim (Option-cases (sock.recv s (pos (suc m))).0) [
        | inl e ↦ inr (
            inr (
              (sock.recv s (pos (suc m))).1,
              [],
              s,
              suc m,
              rw append-nil (ground arith),
              omega arith,
              e,
            ))
        | inr ([], e) ↦ inr (
            inl (
              (sock.recv s (pos (suc m))).1,
              [],
              n - suc m,
              rw (append-nil, recv_loop_closed fuel n m s got e, finished n (suc m) fits small),
              omega arith,
              omega arith,
              law.recv_closed s (suc m) (omega arith) e,
            ))
        | inr (b ∷ bs, e) ↦
            let (bounded, w) = law.recv_gives s (suc m) (b ∷ bs) (omega arith) e in
            rw (recv_loop_step fuel n m s got b bs e bounded) (
              Receives-extend s _ n (suc m) got (b ∷ bs) _ bounded w (
                recv_loop-Receives fuel n (suc m - length (b ∷ bs)) _ _ (omega arith) (omega arith)
                  small))
      ]

  -- With fuel above the count, ReceiveBytes ends: with all `n` bytes, with `*pcbRead` below `n`
  -- and all that the peer sent before it closed, or with FALSE after a failed call.
  pub receive_bytes-Receives :
      (fuel n : ℕ) (s : S)
      → n < 2 ^ 31
      → n < fuel
      → Receives sock inbox s n [] n (receive_bytes sock fuel s n)
  unfolding receive_bytes
  receive_bytes-Receives fuel n s small h =
      rw (signed32_of_lt n small) (recv_loop-Receives fuel n n s [] h (omega arith) small)
