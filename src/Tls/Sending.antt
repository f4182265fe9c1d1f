-- ===== src/Tls/Sending.antt =====
-- SendAll.
use win32_experiments.Common.{
  ℕ, zero, suc, ◌+◌, ◌≤◌, ◌<◌, ◌≡◌, ◌⊎◌, inl, inr, sym, ap, ◌∙◌, true, false, [], ◌∷◌, ◌++◌, Option,
  some, length, take, drop, arith, append_assoc, append-nil, length-drop, take-append-drop,
  take-drop-add, Bool-cases,
}
use win32_experiments.Common.Int.{ℤ, pos}
use win32_experiments.Tls.{Bytes, Socket, is_positive, sent_bytes, send_loop, send_all}

-- What is documented of `send` on a connected socket; `wire` is what it has taken.
pub record IsStream {S : Type 0} (socket : Socket S) (wire : S → Bytes) : Type 0 where
  pub takes :
      (b : ℕ) (bs : Bytes) (s : S)
      → (sent_bytes (socket.send (b ∷ bs) s).0 ≤ length (b ∷ bs))
        × (wire (socket.send (b ∷ bs) s).1
            ≡ wire s ++ take (sent_bytes (socket.send (b ∷ bs) s).0) (b ∷ bs))

module _ {S : Type 0} (socket : Socket S) (wire : S → Bytes) (d : IsStream socket wire) where
  -- All is sent and the answer is the total, or a send failed after a first part was.
  abbrev pub Sends : ℕ → Bytes → S → Option (ℤ × S) → Type 0
  Sends total left s answer =
      ((u : S) × (answer ≡ some (pos (total + length left), u)) × (wire u ≡ wire s ++ left))
      ⊎ ((n : ℤ) × (u : S) × (k : ℕ) × (answer ≡ some (n, u))
          × (is_positive n ≡ false)
          × (wire u ≡ wire s ++ take k left))

  Sends-after :
      (total n : ℕ) (left : Bytes) (s s2 : S) (answer : Option (ℤ × S))
      → n ≤ length left
      → wire s2 ≡ wire s ++ take n left
      → Sends (total + n) (drop n left) s2 answer
      → Sends total left s answer
  Sends-after total n left s s2 answer l w (inl (u, e, f)) =
      let k = length-drop n left in
      let t : total + n + length (drop n left) ≡ total + length left = omega arith in
      inl (
        u,
        e ∙ ap (λ i. some (pos i, u)) t,
        f
            ∙ ap (λ r. r ++ drop n left) w
            ∙ append_assoc (wire s) (take n left) (drop n left)
            ∙ ap (λ r. wire s ++ r) (take-append-drop n left),
      )
  Sends-after total n left s s2 answer l w (inr (m, u, k, e, p, f)) = inr (
    m,
    u,
    n + k,
    e,
    p,
    f
        ∙ ap (λ r. r ++ take k (drop n left)) w
        ∙ append_assoc (wire s) (take n left) (take k (drop n left))
        ∙ ap (λ r. wire s ++ r) (take-drop-add n k left),
  )

  send_loop-Sends :
      (fuel total : ℕ) (left : Bytes) (s : S)
      → length left < fuel
      → Sends total left s (send_loop socket fuel total left s)
  unfolding send_loop
  send_loop-Sends zero total left s l = absurd (omega arith)
  send_loop-Sends (suc fuel) total [] s l =
      let z : total + 0 ≡ total = omega arith in
      inl (s, ap (λ i. some (pos i, s)) (sym z), sym (append-nil (wire s)))
  send_loop-Sends (suc fuel) total (b ∷ bs) s l =
      let (n, s2) = socket.send (b ∷ bs) s in
      let (fits, taken) = d.takes b bs s in
      let k = length-drop (sent_bytes n) (b ∷ bs) in
      elim (Bool-cases (is_positive n)) [
        | inr e ↦ inr (n, s2, sent_bytes n, rw (send_loop, e), e, taken)
        | inl e ↦
            (let some_sent : 0 < sent_bytes n = positive n e in
              rw (send_loop, e)
                (Sends-after total (sent_bytes n) (b ∷ bs) s s2
                  (send_loop socket fuel (total + sent_bytes n) (drop (sent_bytes n) (b ∷ bs)) s2)
                  fits taken
                  (send_loop-Sends fuel (total + sent_bytes n) (drop (sent_bytes n) (b ∷ bs)) s2
                    (omega (arith, k)))))
      ]
    where
      positive : (n : ℤ) → is_positive n ≡ true → 0 < sent_bytes n
      positive n e = ground arith

  -- SendAll returns the length of the buffer and has sent all of it, or what a failed send returned and has sent a
  -- first part of the buffer.
  pub send_all-Sends :
      (fuel : ℕ) (buffer : Bytes) (s : S)
      → length buffer < fuel
      → Sends 0 buffer s (send_all socket fuel buffer s)
  unfolding send_all
  send_all-Sends fuel buffer s l = send_loop-Sends fuel 0 buffer s l
