-- ===== src/Framing/Written.antt =====
-- The length in front of a message, and SendMsg: the message on the wire.
use win32_experiments.Common.{
  ℕ, zero, suc, ◌+◌, ◌-◌, ◌^◌, ◌<◌, ◌≤◌, ◌≡◌, refl, sym, ap, ◌∙◌, inl, inr, ◌++◌, arith, length,
  take-append_of_le,
}
use win32_experiments.Framing.{
  Bytes, Socket, IsStream, le32, from_le32, send_bytes, send_body, send_msg,
}
use win32_experiments.Framing.Send.{Sends, Sends-extend, send_bytes-Sends}

pub from_le32-le32 : (n : ℕ) → n < 2 ^ 32 → from_le32 (le32 n) ≡ n
unfolding from_le32 le32
from_le32-le32 n h = omega arith

pub length-le32 : (n : ℕ) → length (le32 n) ≡ 4
unfolding le32
length-le32 n = refl

module _ {S : Type 0} {sock : Socket S} {wire inbox : S → Bytes}
    (law : IsStream sock wire inbox) where
  send_msg-suc :
      (fuel m : ℕ) (s : S) (p : Bytes)
      → send_msg sock fuel s p (suc m)
        ≡ send_body sock fuel p (suc m) (send_bytes sock fuel s (le32 (suc m)) 4)
  unfolding send_msg
  send_msg-suc fuel m s p = ground arith

  -- SendMsg of a message of `n` bytes, not empty, ends, with fuel above `n` and above 4: TRUE with
  -- the four bytes of the size and then the message on the wire, or FALSE with a strict prefix of
  -- that. (`n` is below 2^31.)
  pub send_msg-Sends :
      (fuel n : ℕ) (s : S) (p : Bytes)
      → 0 < n
      → n < 2 ^ 31
      → n < fuel
      → 4 < fuel
      → n ≤ length p
      → Sends wire s (le32 n ++ p) (4 + n) (send_msg sock fuel s p n)
  unfolding send_body le32
  send_msg-Sends fuel zero s p nonempty small h h4 fits = elim nonempty [ ]
  send_msg-Sends fuel (suc m) s p nonempty small h h4 fits =
      rw (send_msg-suc fuel m s p)
        (after (send_bytes-Sends law fuel 4 s (le32 (suc m)) (omega arith) h4 (omega arith)))
    where
      n : ℕ
      n = suc m

      after :
          Sends wire s (le32 n) 4 (send_bytes sock fuel s (le32 n) 4)
          → Sends wire s
              (le32 n ++ p)
              (4 + n)
              (send_body sock fuel p n (send_bytes sock fuel s (le32 n) 4))
      after (inl (t, d, w)) =
          let rest : 4 + n - 4 ≡ n = omega arith in
          rw d (
            Sends-extend law s t (le32 n ++ p) (4 + n) 4 _ (omega arith) w
              (rw rest (send_bytes-Sends law fuel n t p small h fits)))
      after (inr (t, k, lt, d, w)) = inr (
        t,
        k,
        omega arith,
        rw d,
        w ∙ ap (◌++◌ (wire s)) (sym (take-append_of_le k (le32 n) p (omega arith))),
      )
