-- ===== src/Tls/Examples.antt =====
-- The theorems on the TLS client at concrete inputs.
use win32_experiments.Common.{
  erase, ℕ, ◌-◌, ◌≡◌, ◌⊎◌, refl, ap, List, [], ◌∷◌, some, length, take, drop, arith,
}
use win32_experiments.Tls.{Bytes, StreamSizes, Schannel, returned, failed, ssl_encrypt}
use win32_experiments.Tls.Records.Seals.{IsSealing, concat, Seals, ssl_encrypt-Seals}
use win32_experiments.Tls.Handshake.{Certificates, verify_server_cert}
use win32_experiments.Tls.Handshake.Resources.{IsCertificates, Held, verify_server_cert-Held}

-- Records with their length in front, and no encryption.
abbrev first : Bytes → ℕ
first [] = 0
first (b ∷ bs) = b

abbrev plain_records : Schannel (Unit {0})
plain_records = record {
  acquire = λ s. (0, s);
  initialize = λ started input s. (0, [], 0, s);
  encrypt = λ chunk s. (0, length chunk ∷ [], chunk, [], s);
  decrypt = λ buffer s.
      (let input = buffer.bytes in
        (0, take (first input) (drop 1 input), length input - 1 - first input, s));
}

abbrev small : StreamSizes
small = record { header = 1; trailer = 4; maximum_message = 2 }

plain_records-IsSealing : IsSealing plain_records small
plain_records-IsSealing = record {
  header_length = λ chunk s e. refl;
  same_length = λ chunk s e. refl;
}

ssl_encrypt-Seals_example :
    ((u : Unit {0}) × (ssl_encrypt plain_records small 9 (7 ∷ 8 ∷ 9 ∷ []) tt ≡ failed u))
    ⊎ ((cs : List Bytes) × (out : Bytes) × (u : Unit {0}) × (ssl_encrypt plain_records small 9
            (7 ∷ 8 ∷ 9 ∷ [])
            tt
          ≡ returned out u)
        × (concat cs ≡ 7 ∷ 8 ∷ 9 ∷ [])
        × Seals plain_records small cs tt out u)
ssl_encrypt-Seals_example =
    ssl_encrypt-Seals plain_records small plain_records-IsSealing 9 (7 ∷ 8 ∷ 9 ∷ []) tt
      (omega arith) (omega arith)

-- A certificate with a chain that the policy refuses.
abbrev refused : Certificates (List ℕ)
refused = record {
  remote_certificate = λ s. (0, some 3, 3 ∷ s);
  chain = λ n s. (some 4, 4 ∷ s);
  policy = λ c s. (some 1, s);
  free_chain = λ c s. erase c s;
  free_certificate = λ n s. erase n s;
}

refused-IsCertificates : IsCertificates refused (λ s. s)
refused-IsCertificates = record {
  remote_gives = λ s n e. (refl, let k : 3 ≡ n = ground arith in ap (λ i. i ∷ s) k);
  remote_fails = λ s e. absurd (cc);
  chain_gives = λ n c s e. (let k : 4 ≡ c = ground arith in ap (λ i. i ∷ s) k);
  chain_fails = λ n s e. absurd (cc);
  policy_keeps = λ c s. refl;
  free_chain_frees = λ c s. refl;
  free_certificate_frees = λ n s. refl;
}

verify_server_cert-Held_example :
    Held refused (λ s. s) refused-IsCertificates (5 ∷ []) (verify_server_cert refused (5 ∷ []))
verify_server_cert-Held_example =
    verify_server_cert-Held refused (λ s. s) refused-IsCertificates (5 ∷ [])
