-- ===== src/Tls/Handshake/Resources.antt =====
-- What ConnectTcp and VerifyServerCert leave open.
use win32_experiments.Common.{
  erase, erase_first, ℕ, ◌≡◌, ap, ◌∙◌, inl, inr, true, List, [], ◌∷◌, Option, none, some, ◌==◌,
  arith, Bool-cases, Option-cases,
}
use mathlib.Core.Path.{subst}
use win32_experiments.Tls.{Outcome, returned, failed, unfinished, sec_e_ok}
use win32_experiments.Tls.Handshake.{
  Certificates, Network, connect_any, connect_tcp, check_chain, verify_server_cert,
}

-- What is documented of the calls of Winsock for the sockets that are open.
pub record IsNetwork {S : Type 0} (network : Network S) (opened : S → List ℕ) : Type 0 where
  pub addresses_keep : (s : S) → opened (network.addresses s).1 ≡ opened s
  pub create_opens :
      (a n : ℕ) (s : S)
      → (network.create a s).0 ≡ some n
      → opened (network.create a s).1 ≡ n ∷ opened s
  pub create_fails :
      (a : ℕ) (s : S) → (network.create a s).0 ≡ none → opened (network.create a s).1 ≡ opened s
  pub connect_keeps : (n a : ℕ) (s : S) → opened (network.connect n a s).1 ≡ opened s
  pub close_closes : (n : ℕ) (s : S) → opened (network.close n s) ≡ erase n (opened s)
  pub free_keeps : (s : S) → opened (network.free_addresses s) ≡ opened s

module _ {S : Type 0} (network : Network S) (opened : S → List ℕ)
    (d : IsNetwork network opened) where
  abbrev One : List ℕ → S → Option ℕ → Type 0
  One before t none = opened t ≡ before
  One before t (some n) = opened t ≡ n ∷ before

  connect_any-One :
      (addresses before : List ℕ) (s : S)
      → opened s ≡ before
      → One before (connect_any network addresses s).1 (connect_any network addresses s).0
  unfolding connect_any
  connect_any-One [] before s e = e
  connect_any-One (a ∷ addresses) before s e =
      let (socket?, s2) = network.create a s in
      let ih = connect_any-One addresses before in
      elim (Option-cases socket?) [
        | inl f ↦ rw (connect_any, f) (ih s2 (d.create_fails a s f ∙ e))
        | inr (n, f) ↦
            (let (connected, s3) = network.connect n a s2 in
              let two = d.connect_keeps n a s2 ∙ d.create_opens a n s f ∙ ap (λ r. n ∷ r) e in
              elim (Bool-cases connected) [
                | inl g ↦ rw (connect_any, f, g) two
                | inr g ↦
                    rw (connect_any, f, g)
                      (ih (network.close n s3)
                        (d.close_closes n s3 ∙ ap (erase n) two ∙ erase_first n before))
              ])
      ]

  -- The sockets that are open when ConnectTcp returns, or exits.
  abbrev pub Opened : List ℕ → Outcome S ℕ → Type 0
  Opened before (returned n t) = opened t ≡ n ∷ before
  Opened before (failed t) = opened t ≡ before
  Opened before unfinished = ⊥

  connected_tcp :
      (list : List ℕ) (s : S)
      → (network.addresses s).0 ≡ some list
      → Opened (opened s) (connect_tcp network s)
  unfolding connect_tcp
  connected_tcp list s f =
      let s2 = (network.addresses s).1 in
      let one = connect_any-One list (opened s) s2 (d.addresses_keep s) in
      elim (Option-cases (connect_any network list s2).0) [
        | inl g ↦
            rw (connect_tcp, f, g)
              (d.free_keeps (connect_any network list s2).1
                ∙ subst (One (opened s) (connect_any network list s2).1) g one)
        | inr (n, g) ↦
            rw (connect_tcp, f, g)
              (d.free_keeps (connect_any network list s2).1
                ∙ subst (One (opened s) (connect_any network list s2).1) g one)
      ]

  -- ConnectTcp returns one more open socket, or exits with none more: each socket that did not connect is closed.
  pub connect_tcp-Opened : (s : S) → Opened (opened s) (connect_tcp network s)
  unfolding connect_tcp
  connect_tcp-Opened s = elim (Option-cases (network.addresses s).0) [
    | inl f ↦ rw (connect_tcp, f) (d.addresses_keep s)
    | inr (list, f) ↦ connected_tcp list s f
  ]

-- What is documented of the certificate functions for the certificates and chains that are held.
pub record IsCertificates {S : Type 0} (certificates : Certificates S) (held : S → List ℕ)
    : Type 0 where
  pub remote_gives :
      (s : S) (n : ℕ)
      → (certificates.remote_certificate s).1 ≡ some n
      → ((certificates.remote_certificate s).0 ≡ sec_e_ok)
        × (held (certificates.remote_certificate s).2 ≡ n ∷ held s)
  pub remote_fails :
      (s : S)
      → (certificates.remote_certificate s).1 ≡ none
      → held (certificates.remote_certificate s).2 ≡ held s
  pub chain_gives :
      (n c : ℕ) (s : S)
      → (certificates.chain n s).0 ≡ some c
      → held (certificates.chain n s).1 ≡ c ∷ held s
  pub chain_fails :
      (n : ℕ) (s : S) → (certificates.chain n s).0 ≡ none → held (certificates.chain n s).1 ≡ held s
  pub policy_keeps : (c : ℕ) (s : S) → held (certificates.policy c s).1 ≡ held s
  pub free_chain_frees : (c : ℕ) (s : S) → held (certificates.free_chain c s) ≡ erase c (held s)
  pub free_certificate_frees :
      (n : ℕ) (s : S) → held (certificates.free_certificate n s) ≡ erase n (held s)

module _ {S : Type 0} (certificates : Certificates S) (held : S → List ℕ)
    (d : IsCertificates certificates held) where
  abbrev pub Held : List ℕ → Outcome S Unit → Type 0
  Held before (returned u t) = held t ≡ before
  Held before (failed t) = held t ≡ before
  Held before unfinished = ⊥

  check_chain-Held :
      (n : ℕ) (before : List ℕ) (s : S)
      → held s ≡ n ∷ before
      → Held before (check_chain certificates n s)
  unfolding check_chain
  check_chain-Held n before s e =
      let (chain?, s2) = certificates.chain n s in
      elim (Option-cases chain?) [
        | inl f ↦
            rw (check_chain, f)
              (d.free_certificate_frees n s2
                ∙ ap (erase n) (d.chain_fails n s f ∙ e)
                ∙ erase_first n before)
        | inr (c, f) ↦
            (let (error?, s3) = certificates.policy c s2 in
              let three = d.policy_keeps c s2 ∙ d.chain_gives n c s f ∙ ap (λ r. c ∷ r) e in
              let freed =
                d.free_certificate_frees n (certificates.free_chain c s3)
                ∙ ap (erase n)
                    (d.free_chain_frees c s3 ∙ ap (erase c) three ∙ erase_first c (n ∷ before))
                ∙ erase_first n before in
              elim (Option-cases error?) [
                | inl g ↦ rw (check_chain, f, g) freed
                | inr (x, g) ↦ elim (Bool-cases (x == 0)) [
                  | inl z ↦ rw (check_chain, f, g, z) freed
                  | inr z ↦ rw (check_chain, f, g, z) freed
                ]
              ])
      ]

  -- On every path VerifyServerCert has freed the certificate and the chain that it got.
  pub verify_server_cert-Held : (s : S) → Held (held s) (verify_server_cert certificates s)
  unfolding verify_server_cert
  verify_server_cert-Held s =
      let (ss, certificate?, s1) = certificates.remote_certificate s in
      elim (Option-cases certificate?) [
        | inl f ↦ rw (verify_server_cert, f) (d.remote_fails s f)
        | inr (n, f) ↦
            (let (ok, e) = d.remote_gives s n f in
              let t : (ss == sec_e_ok) ≡ true = ground arith in
              rw (verify_server_cert, f, t) (check_chain-Held n (held s) s1 e))
      ]
