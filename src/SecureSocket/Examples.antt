-- ===== src/SecureSocket/Examples.antt =====
-- The theorem on tls_read at a concrete input.
use win32_experiments.Common.{
  ℕ, suc, ◌+◌, ◌-◌, ◌≤◌, ◌<◌, ◌≡◌, ◌⊎◌, inr, refl, sym, ap, ◌∙◌, [], ◌∷◌, ◌++◌, some, length, take,
  drop, length-take, length-drop, take-append-drop, append_assoc, arith,
}
use win32_experiments.Common.Int.{ℤ, pos, negsuc}
use win32_experiments.SecureSocket.{
  Bytes, sec_e_ok, incomplete_message, context_expired, renegotiate, Calls, TlsSocket, finished,
  tls_read,
}
use win32_experiments.SecureSocket.Rounds.{IsTls, Wf, remaining}
use win32_experiments.SecureSocket.Reads.{tls_read-Ends}

-- A peer that sends plain text; the state is what has not arrived yet.
abbrev clear : Bytes → Bytes → ℕ × Bytes × ℕ × Bytes
clear [] s = (incomplete_message, [], 0, s)
clear (b ∷ bs) s = (sec_e_ok, b ∷ bs, 0, s)

abbrev clear_text : Calls Bytes
clear_text = record {
  decrypt = clear;
  ticket = λ rest s. (0, s);
  recv = λ n s. (some (take n s), drop n s);
}

abbrev after : Bytes → Bytes → Bytes
after input s = input ++ s

drop_all : (xs : Bytes) → drop (length xs) xs ≡ []
drop_all [] = refl
drop_all (x ∷ xs) = drop_all xs

clear_text-IsTls : IsTls clear_text (λ s. length s) after
clear_text-IsTls = record {
  decrypt_ok = decrypted;
  decrypt_expired = expired;
  decrypt_incomplete = incomplete;
  ticket_taken = ticket;
  recv_gives = received;
}
  where
    decrypted :
        (input s : Bytes)
        → (clear input s).0 ≡ sec_e_ok
        → ((clear input s).2 < length input)
          × ((after input s
                ≡ (clear input s).1
                  ++ after (drop (length input - (clear input s).2) input) (clear input s).3)
              × (length (clear input s).3 ≡ length s))
    decrypted [] s e = absurd (omega arith)
    decrypted (b ∷ bs) s e =
        let z : suc (length bs) - 0 ≡ suc (length bs) = omega arith in
        (
          omega arith,
          (sym (ap (λ r. (b ∷ bs) ++ (r ++ s)) (ap (λ k. drop k (b ∷ bs)) z ∙ drop_all bs)), refl),
        )

    expired :
        (input s : Bytes)
        → (clear input s).0 ≡ context_expired
        → after input s ≡ after [] (clear input s).3
    expired [] s e = refl
    expired (b ∷ bs) s e = absurd (omega arith)

    incomplete :
        (input s : Bytes)
        → (clear input s).0 ≡ incomplete_message
        → (after input s ≡ after input (clear input s).3) × (length (clear input s).3 ≡ length s)
    incomplete [] s e = (refl, refl)
    incomplete (b ∷ bs) s e = absurd (omega arith)

    ticket :
        (input rest s : Bytes)
        → (clear input s).0 ≡ renegotiate
        → (0 < length input)
          × ((after input s ≡ after (drop (length input - 0) input) (clear input s).3)
              × (length (clear input s).3 ≡ length s))
    ticket [] rest s e = absurd (omega arith)
    ticket (b ∷ bs) rest s e = absurd (omega arith)

    received :
        (input bytes : Bytes) (n : ℕ) (s : Bytes)
        → some (take n s) ≡ some bytes
        → (length bytes ≤ n)
          × ((after input s ≡ after (input ++ bytes) (drop n s))
              × (length s ≡ length bytes + length (drop n s)))
    received input bytes n s e =
        let k : take n s ≡ bytes = cc in
        let l = length-take n s in
        let m = length-drop n s in
        let size : length (take n s) ≡ length bytes = ap length k in
        (
          omega arith,
          (
            ap (λ r. input ++ r) (sym (take-append-drop n s) ∙ ap (λ r. r ++ drop n s) k)
                ∙ sym (append_assoc input bytes (drop n s)),
            omega arith,
          ),
        )

-- A record of which two bytes are left, and one more that has arrived.
abbrev half_read : TlsSocket
half_read = record { incoming = 1 ∷ 2 ∷ 3 ∷ 4 ∷ []; used = 3; decrypted = some (2 ∷ 3 ∷ []) }

tls_read-Ends_example :
    (r : ℤ) × (copied : Bytes) × (t2 : TlsSocket) × (s2 : Bytes) × (tls_read clear_text 20 4
        half_read
        (5 ∷ [])
      ≡ finished r copied t2 s2)
    × (length copied ≤ 4)
    × Wf t2
    × ((r ≡ negsuc 0)
        ⊎ ((r ≡ pos (length copied))
            × (copied ++ remaining after t2 s2 ≡ remaining after half_read (5 ∷ []))))
tls_read-Ends_example =
    tls_read-Ends clear_text (λ s. length s) after clear_text-IsTls 20 4 half_read (5 ∷ [])
      (omega arith, inr (omega arith)) (omega arith)
