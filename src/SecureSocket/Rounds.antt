-- ===== src/SecureSocket/Rounds.antt =====
-- What is documented of the calls, and what a round of tls_read does to the plain text that is still to come.
use win32_experiments.Common.{
  ℕ, ◌+◌, ◌-◌, ◌*◌, ◌≤◌, ◌<◌, ◌≡◌, ◌⊎◌, inl, inr, refl, sym, ap, ◌∙◌, true, false, [], ◌∷◌, ◌++◌,
  Option, none, some, ◌==◌, length, drop, arith, length-append, length-drop, append-nil, Bool-cases,
  Option-cases,
}
use win32_experiments.Common.Int.{pos, negsuc}
use win32_experiments.SecureSocket.{
  Bytes, sec_e_ok, incomplete_message, context_expired, renegotiate, capacity, Calls, TlsSocket,
  Next, ends, again, receive_more, decrypt_more,
}

-- What is documented of the calls, for the number of bytes that still arrive and for the plain text that some input
-- and what arrives behind it stand for.
pub record IsTls {S : Type 0} (calls : Calls S) (arriving : S → ℕ) (plain : Bytes → S → Bytes)
    : Type 0 where
  pub decrypt_ok :
      (input : Bytes) (s : S)
      → (calls.decrypt input s).0 ≡ sec_e_ok
      → ((calls.decrypt input s).2 < length input)
        × ((plain input s
              ≡ (calls.decrypt input s).1
                ++ plain
                    (drop (length input - (calls.decrypt input s).2) input)
                    (calls.decrypt input s).3)
            × (arriving (calls.decrypt input s).3 ≡ arriving s))
  pub decrypt_expired :
      (input : Bytes) (s : S)
      → (calls.decrypt input s).0 ≡ context_expired
      → plain input s ≡ plain [] (calls.decrypt input s).3
  pub decrypt_incomplete :
      (input : Bytes) (s : S)
      → (calls.decrypt input s).0 ≡ incomplete_message
      → (plain input s ≡ plain input (calls.decrypt input s).3)
        × (arriving (calls.decrypt input s).3 ≡ arriving s)
  pub ticket_taken :
      (input rest : Bytes) (s : S)
      → (calls.decrypt input s).0 ≡ renegotiate
      → ((calls.ticket rest (calls.decrypt input s).3).0 < length input)
        × ((plain input s
              ≡ plain
                  (drop (length input - (calls.ticket rest (calls.decrypt input s).3).0) input)
                  (calls.ticket rest (calls.decrypt input s).3).1)
            × (arriving (calls.ticket rest (calls.decrypt input s).3).1 ≡ arriving s))
  pub recv_gives :
      (input bytes : Bytes) (n : ℕ) (s : S)
      → (calls.recv n s).0 ≡ some bytes
      → (length bytes ≤ n)
        × ((plain input s ≡ plain (input ++ bytes) (calls.recv n s).1)
            × (arriving s ≡ length bytes + arriving (calls.recv n s).1))

-- The buffer is not longer than it is, and what is used of it is in it.
abbrev pub Wf : TlsSocket → Type 0
Wf t = (length t.incoming ≤ capacity) × ((t.decrypted ≡ none) ⊎ (t.used ≤ length t.incoming))

abbrev pub left_over : Option Bytes → Bytes
left_over none = []
left_over (some b) = b

abbrev pub sealed_part : Option Bytes → TlsSocket → Bytes
sealed_part none t = t.incoming
sealed_part (some b) t = drop t.used t.incoming

abbrev pub flag : Option Bytes → ℕ
flag none = 0
flag (some b) = 1

abbrev pub idle : Bytes → ℕ → TlsSocket
idle c u = record { incoming = c; used = u; decrypted = none }

-- The plain text that the socket has still to give.
abbrev pub remaining : {S : Type 0} → (Bytes → S → Bytes) → TlsSocket → S → Bytes
remaining plain t s = left_over t.decrypted ++ plain (sealed_part t.decrypted t) s

-- What a round makes less.
abbrev pub work : {S : Type 0} → (S → ℕ) → TlsSocket → S → ℕ
work arriving t s = 3 * arriving s + 2 * length (sealed_part t.decrypted t) + flag t.decrypted

-- A round without decrypted data, where `result` bytes were copied before.
abbrev pub Goes : {S : Type 0} → (S → ℕ) → (Bytes → S → Bytes) → ℕ → TlsSocket → S → Next S → Type 0
Goes arriving plain result t s (ends r t2 s2) =
    Wf t2 × ((r ≡ negsuc 0) ⊎ ((r ≡ pos result) × (remaining plain t2 s2 ≡ remaining plain t s)))
Goes arriving plain result t s (again t2 s2) =
    Wf t2
    × ((remaining plain t2 s2 ≡ remaining plain t s) × (work arriving t2 s2 < work arriving t s))

module _ {S : Type 0} (calls : Calls S) (arriving : S → ℕ) (plain : Bytes → S → Bytes)
    (d : IsTls calls arriving plain) where
  receive_more-Goes :
      (result u : ℕ) (c : Bytes) (s : S)
      → length c ≤ capacity
      → Goes arriving plain result (idle c u) s (receive_more calls result (idle c u) s)
  unfolding receive_more
  receive_more-Goes result u c s w = elim (Bool-cases (result == 0)) [
    | inr e ↦ rw (receive_more, e) ((w, inl refl), inr (refl, refl))
    | inl e ↦ elim (Bool-cases (length c == capacity)) [
      | inl f ↦ rw (receive_more, e, f) ((w, inl refl), inl refl)
      | inr f ↦ received (Option-cases (calls.recv (capacity - length c) s).0) e f
    ]
  ]
    where
      received :
          ((calls.recv (capacity - length c) s).0 ≡ none)
            ⊎ ((bs : Bytes) × ((calls.recv (capacity - length c) s).0 ≡ some bs))
          → (result == 0) ≡ true
          → (length c == capacity) ≡ false
          → Goes arriving plain result (idle c u) s (receive_more calls result (idle c u) s)
      received (inl g) e f = rw (receive_more, e, f, g) ((w, inl refl), inl refl)
      received (inr ([], g)) e f =
          let (n, (q, a)) = d.recv_gives c [] (capacity - length c) s g in
          let z : result ≡ 0 = ground arith in
          let s2 = (calls.recv (capacity - length c) s).1 in
          rw (receive_more, e, f, g)
            ((w, inl refl), inr (ap pos (sym z), sym (q ∙ ap (λ i. plain i s2) (append-nil c))))
      received (inr (b ∷ bs, g)) e f =
          let (n, (q, a)) = d.recv_gives c (b ∷ bs) (capacity - length c) s g in
          let k = length-append c (b ∷ bs) in
          rw (receive_more, e, f, g) ((omega arith, inl refl), (sym q, omega arith))

  Goes-from :
      (result u : ℕ) (c : Bytes) (s s2 : S) (x : Next S)
      → plain c s ≡ plain c s2
      → arriving s2 ≡ arriving s
      → Goes arriving plain result (idle c u) s2 x
      → Goes arriving plain result (idle c u) s x
  Goes-from result u c s s2 (ends r t v) q a (w, inl e) = (w, inl e)
  Goes-from result u c s s2 (ends r t v) q a (w, inr (e, p)) = (w, inr (e, p ∙ sym q))
  Goes-from result u c s s2 (again t v) q a (w, (p, l)) = (w, (p ∙ sym q, omega arith))

  -- The branches of DecryptMessage's status.
  pub decrypt_more-Goes :
      (result u : ℕ) (c : Bytes) (s : S)
      → length c ≤ capacity
      → Goes arriving plain result (idle c u) s (decrypt_more calls result (idle c u) s)
  unfolding decrypt_more
  decrypt_more-Goes result u c s w =
      let received = length c in
      let (ss, data_part, extra, s2) = calls.decrypt c s in
      let rest = drop (received - extra) c in
      let (kept, s3) = calls.ticket rest s2 in
      elim (Bool-cases (received == 0)) [
        | inl e ↦ rw (decrypt_more, e) (receive_more-Goes result u c s w)
        | inr e ↦ elim (Bool-cases (ss == sec_e_ok)) [
          | inl f ↦
              (let (n, (q, a)) = d.decrypt_ok c s (ground arith) in
                let k = length-drop (received - extra) c in
                rw (decrypt_more, e, f) ((w, inr (omega arith)), (sym q, omega arith)))
          | inr f ↦ elim (Bool-cases (ss == context_expired)) [
            | inl g ↦
                (let q = d.decrypt_expired c s (ground arith) in
                  rw (decrypt_more, e, f, g) ((omega arith, inl refl), inr (refl, sym q)))
            | inr g ↦ elim (Bool-cases (ss == renegotiate)) [
              | inl h ↦
                  (let (n, (q, a)) = d.ticket_taken c rest s (ground arith) in
                    let k = length-drop (received - kept) c in
                    rw (decrypt_more, e, f, g, h) ((omega arith, inl refl), (sym q, omega arith)))
              | inr h ↦ elim (Bool-cases (ss == incomplete_message)) [
                | inl i ↦
                    (let (q, a) = d.decrypt_incomplete c s (ground arith) in
                      rw (decrypt_more, e, f, g, h, i)
                        (Goes-from result u c s s2 (receive_more calls result (idle c u) s2) q a
                          (receive_more-Goes result u c s2 w)))
                | inr i ↦ rw (decrypt_more, e, f, g, h, i) ((w, inl refl), inl refl)
              ]
            ]
          ]
        ]
      ]
