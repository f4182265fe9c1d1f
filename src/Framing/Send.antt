-- ===== src/Framing/Send.antt =====
-- What SendBytes puts on the wire.
use win32_experiments.Common.{
  ℕ, zero, suc, ◌+◌, ◌-◌, ◌^◌, ◌<◌, ◌≤◌, ◌≡◌, refl, sym, ◌∙◌, ◌⊎◌, inl, inr, Bool, true, false,
  ◌++◌, append_assoc, append-nil, Option, some, arith, Option-cases, length, take, drop,
  take-drop-add, length-drop,
}
use win32_experiments.Common.Int.{pos, pos-sub-pos, signed32_of_lt}
use win32_experiments.Framing.{Bytes, Socket, IsStream, send_loop, send_bytes}

-- TRUE after the first `n` bytes of the memory, FALSE after fewer.
abbrev pub Sends : {S : Type 0} → (S → Bytes) → S → Bytes → ℕ → Option (Bool × S) → Type 0
Sends {S} wire s p n r =
    ((t : S) × (r ≡ some (true, t)) × (wire t ≡ wire s ++ take n p))
    ⊎ ((t : S) × (k : ℕ) × (k < n) × (r ≡ some (false, t)) × (wire t ≡ wire s ++ take k p))

module _ {S : Type 0} {sock : Socket S} {wire inbox : S → Bytes}
    (law : IsStream sock wire inbox) where
  -- What follows a call that took `k` bytes.
  pub Sends-extend :
      (s t : S) (p : Bytes) (n k : ℕ) (r : Option (Bool × S))
      → k ≤ n
      → wire t ≡ wire s ++ take k p
      → Sends wire t (drop k p) (n - k) r
      → Sends wire s p n r
  Sends-extend s t p n k r h e (inl (u, d, w)) =
      let sum : k + (n - k) ≡ n = omega arith in
      inl (u, d, rw (w, e, append_assoc, take-drop-add k (n - k) p, sum))
  Sends-extend s t p n k r h e (inr (u, j, lt, d, w)) =
      inr (u, k + j, omega arith, d, rw (w, e, append_assoc, take-drop-add k j p))

  send_loop_step :
      (fuel m k : ℕ) (s : S) (p : Bytes)
      → (sock.send s p (pos (suc m))).0 ≡ some k
      → k ≤ suc m
      → send_loop sock (suc fuel) s p (pos (suc m))
        ≡ send_loop sock fuel (sock.send s p (pos (suc m))).1 (drop k p) (pos (suc m - k))
  unfolding send_loop
  send_loop_step fuel m k s p e h = rw (← pos-sub-pos (suc m) k h) (ground arith)

  send_loop-Sends :
      (fuel n : ℕ) (s : S) (p : Bytes)
      → n < fuel
      → n ≤ length p
      → Sends wire s p n (send_loop sock fuel s p (pos n))
  unfolding send_loop
  send_loop-Sends zero n s p h fits = elim h [ ]
  send_loop-Sends (suc fuel) zero s p h fits = inl (s, refl, sym (append-nil _))
  send_loop-Sends (suc fuel) (suc m) s p h fits =
      let n = suc m in
      elim (Option-cases (sock.send s p (pos n)).0) [
        | inl e ↦ inr (
          (sock.send s p (pos n)).1,
          0,
          omega arith,
          ground arith,
          law.send_error s p n e ∙ sym (append-nil _),
        )
        | inr (k, e) ↦
            let (positive, bounded, w) = law.send_takes s p n k (omega arith) fits e in
            rw (send_loop_step fuel m k s p e bounded) (
              Sends-extend s _ p n k _ bounded w (
                send_loop-Sends fuel (n - k) _ (drop k p) (omega arith)
                  (omega (arith, length-drop k p))))
      ]

  pub send_bytes-suc :
      (fuel m : ℕ) (s : S) (p : Bytes)
      → suc m < 2 ^ 31
      → send_bytes sock fuel s p (suc m) ≡ send_loop sock fuel s p (pos (suc m))
  unfolding send_bytes
  send_bytes-suc fuel m s p small = ground (arith, signed32_of_lt (suc m) small)

  -- With fuel above the count, SendBytes ends: it answers TRUE with exactly the first `n` bytes of
  -- the memory behind what the wire had, or FALSE with fewer of them. (`n` is below 2^31.)
  pub send_bytes-Sends :
      (fuel n : ℕ) (s : S) (p : Bytes)
      → n < 2 ^ 31
      → n < fuel
      → n ≤ length p
      → Sends wire s p n (send_bytes sock fuel s p n)
  unfolding send_bytes
  send_bytes-Sends fuel zero s p small h fits = inl (s, refl, sym (append-nil _))
  send_bytes-Sends fuel (suc m) s p small h fits =
      rw (send_bytes-suc fuel m s p small) (send_loop-Sends fuel (suc m) s p h fits)
