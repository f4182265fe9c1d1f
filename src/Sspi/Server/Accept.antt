-- ===== src/Sspi/Server/Accept.antt =====
-- Which sockets AcceptAuthSocket leaves open.
use win32_experiments.Common.{
  erase, ℕ, ◌≡◌, ◌≢◌, inl, inr, ◌∙◌, true, false, List, ◌∷◌, Option, none, some, ◌==◌, arith,
  Bool-cases, Option-cases,
}
use win32_experiments.Sspi.Server.{Sockets, accept_client}

-- What is documented of the calls, for the sockets that are open.
pub record IsWinsock {S : Type 0} (sockets : Sockets S) (opened : S → List ℕ) : Type 0 where
  pub socket_opens :
      (s : S) (n : ℕ) → (sockets.socket s).0 ≡ some n → opened (sockets.socket s).1 ≡ n ∷ opened s
  pub socket_fails : (s : S) → (sockets.socket s).0 ≡ none → opened (sockets.socket s).1 ≡ opened s
  pub bind_keeps : (n : ℕ) (s : S) → opened (sockets.bind n s).1 ≡ opened s
  pub listen_keeps : (n : ℕ) (s : S) → opened (sockets.listen n s).1 ≡ opened s
  pub accept_opens :
      (n c : ℕ) (s : S)
      → (sockets.accept n s).0 ≡ some c
      → (c ≢ n) × (opened (sockets.accept n s).1 ≡ c ∷ opened s)
  pub accept_fails :
      (n : ℕ) (s : S) → (sockets.accept n s).0 ≡ none → opened (sockets.accept n s).1 ≡ opened s
  pub close_closes : (n : ℕ) (s : S) → opened (sockets.close n s) ≡ erase n (opened s)

module _ {S : Type 0} (sockets : Sockets S) (opened : S → List ℕ)
    (d : IsWinsock sockets opened) where
  -- Where a client is accepted, its socket is the one that is open in addition. Otherwise none is where there was no
  -- listening socket, and the listening socket is where there was one: it is not closed.
  abbrev pub Leaves : S → Option ℕ → Option ℕ × S → Type 0
  Leaves s listener? (some client, t) = opened t ≡ client ∷ opened s
  Leaves s none (none, t) = opened t ≡ opened s
  Leaves s (some listener) (none, t) = opened t ≡ listener ∷ opened s

  closed_again : (c n : ℕ) (o : List ℕ) → c ≢ n → erase n (c ∷ n ∷ o) ≡ c ∷ o
  closed_again c n o k =
      let a : (n == c) ≡ false = ground arith in let b : (n == n) ≡ true = ground arith in rw (a, b)

  accept_client-none :
      (s : S) → (sockets.socket s).0 ≡ none → accept_client sockets s ≡ (none, (sockets.socket s).1)
  unfolding accept_client
  accept_client-none s e = rw (accept_client, e)

  accept_client-some :
      (n : ℕ) (s : S) → (sockets.socket s).0 ≡ some n → Leaves s (some n) (accept_client sockets s)
  unfolding accept_client
  accept_client-some n s e =
      let s1 = (sockets.socket s).1 in
      let one = d.socket_opens s n e in
      let (bound, s2) = sockets.bind n s1 in
      let two = d.bind_keeps n s1 ∙ one in
      let (listening, s3) = sockets.listen n s2 in
      let three = d.listen_keeps n s2 ∙ two in
      let (client?, s4) = sockets.accept n s3 in
      elim (Bool-cases bound) [
        | inr f ↦ rw (accept_client, e, f) two
        | inl f ↦ elim (Bool-cases listening) [
          | inr g ↦ rw (accept_client, e, f, g) three
          | inl g ↦ elim (Option-cases client?) [
            | inl h ↦ rw (accept_client, e, f, g, h) (d.accept_fails n s3 h ∙ three)
            | inr (c, h) ↦
                (let (apart, four) = d.accept_opens n c s3 h in
                  rw (accept_client, e, f, g, h)
                    (rw (d.close_closes n s4, four, three) (closed_again c n (opened s) apart)))
          ]
        ]
      ]

  -- What AcceptAuthSocket leaves open before the handshake, on every path.
  pub accept_client-Leaves : (s : S) → Leaves s (sockets.socket s).0 (accept_client sockets s)
  accept_client-Leaves s = elim (Option-cases (sockets.socket s).0) [
    | inl e ↦ rw (e, accept_client-none s e) (d.socket_fails s e)
    | inr (n, e) ↦ rw e (accept_client-some n s e)
  ]
