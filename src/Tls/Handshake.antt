-- ===== src/Tls/Handshake.antt =====
-- ConnectTcp, VerifyServerCert, TlsHandshake and wmain of src/SspiClientServer/SspiExample-Client2.ixx.
pub mod Resources
use win32_experiments.Common.{
  ℕ, zero, suc, ◌+◌, ◌-◌, ◌≡◌, Bool, true, false, not, ◌||◌, ◌&&◌, List, [], ◌∷◌, ◌++◌, Option,
  none, some, codes, ◌==◌, if◌then◌else◌, length,
}
use win32_experiments.Common.Int.{ℤ}
use win32_experiments.Tls.{
  Bytes, StreamSizes, Socket, Schannel, Outcome, returned, failed, unfinished, and_then, sec_e_ok,
  incomplete_message, continue_needed, incomplete_credentials, consume_front, is_positive, send_all,
  recv_some, ssl_encrypt, receive_loop,
}

-- The certificate functions: the certificate of the peer, its chain, the policy's dwError where the call succeeds.
pub record Certificates (S : Type 0) : Type 0 where
  pub remote_certificate : S → ℕ × Option ℕ × S
  pub chain : ℕ → S → Option ℕ × S
  pub policy : ℕ → S → Option ℕ × S
  pub free_chain : ℕ → S → S
  pub free_certificate : ℕ → S → S

-- The calls that connect and end; `create` and `connect` are for one address of the list that getaddrinfo gives.
pub record Network (S : Type 0) : Type 0 where
  pub startup : S → Bool × S
  pub addresses : S → Option (List ℕ) × S
  pub create : ℕ → S → Option ℕ × S
  pub connect : ℕ → ℕ → S → Bool × S
  pub close : ℕ → S → S
  pub free_addresses : S → S
  pub finish : ℕ → S → S

-- What Schannel tells about a finished handshake: whether the protocol is TLS 1.3, and the sizes; the call of
-- ApplyControlToken without a token, and the one with SCHANNEL_SHUTDOWN.
pub record Attributes (S : Type 0) : Type 0 where
  pub connection_ex : S → ℕ × Bool × S
  pub connection : S → ℕ × Bool × S
  pub stream_sizes : S → ℕ × StreamSizes × S
  pub empty_token : S → S
  pub shutdown_token : S → ℕ × S
  pub close_notify : S → ℕ × Bytes × S

module _ {S : Type 0} (network : Network S) where
  -- The loop of ConnectTcp: the socket that is connected.
  pub connect_any : List ℕ → S → Option ℕ × S
  connect_any [] s = (none, s)
  connect_any (address ∷ addresses) s =
      let (socket?, s2) = network.create address s in
      let skip = connect_any addresses s2 in
      elim socket? [
        | none ↦ skip
        | some socket ↦
            let (connected, s3) = network.connect socket address s2 in
            let next = connect_any addresses (network.close socket s3) in
            if connected then (some socket, s3) else next
      ]

  -- ConnectTcp.
  pub connect_tcp : S → Outcome S ℕ
  connect_tcp s =
      let (list?, s2) = network.addresses s in
      elim list? [
        | none ↦ failed s2
        | some list ↦
            let (socket?, s3) = connect_any list s2 in
            elim socket? [
              | none ↦ failed (network.free_addresses s3)
              | some socket ↦ returned socket (network.free_addresses s3)
            ]
      ]

module _ {S : Type 0} (certificates : Certificates S) where
  -- VerifyServerCert from CertGetCertificateChain on.
  pub check_chain : ℕ → S → Outcome S Unit
  check_chain certificate s =
      let (chain?, s2) = certificates.chain certificate s in
      elim chain? [
        | none ↦ failed (certificates.free_certificate certificate s2)
        | some chain ↦
            let (error?, s3) = certificates.policy chain s2 in
            let freed =
              certificates.free_certificate certificate (certificates.free_chain chain s3) in
            elim error? [
              | none ↦ failed freed
              | some error ↦ if error == 0 then returned tt freed else failed freed
            ]
      ]

  -- VerifyServerCert.
  pub verify_server_cert : S → Outcome S Unit
  verify_server_cert s =
      let (ss, certificate?, s1) = certificates.remote_certificate s in
      elim certificate? [
        | none ↦ failed s1
        | some certificate ↦
            let checked = check_chain certificate s1 in
            if ss == sec_e_ok then checked else failed s1
      ]

module _ {S : Type 0} (schannel : Schannel S) (socket : Socket S) where
  -- RecvSome in a handshake, where no byte is an error.
  abbrev pub read_more : Bytes → S → Outcome S Bytes
  read_more buffer s =
      let (n?, buffer2, s2) = recv_some socket buffer s in
      elim n? [ none ↦ failed s2 | some n ↦ if n == 0 then failed s2 else returned buffer2 s2 ]

  -- The token to the server, where there is one; `fuel` is that of SendAll.
  abbrev pub send_token : ℕ → Bytes → S → Outcome S Unit
  send_token fuel [] s = returned tt s
  send_token fuel (b ∷ bs) s = elim (send_all socket fuel (b ∷ bs) s) [
    | none ↦ unfinished
    | some (n, s2) ↦ if is_positive n then returned tt s2 else failed s2
  ]

  -- `while (!handshakeDone)`, on fuel. `started` tells whether phCtx is set; what is returned is inBuffer, which
  -- TlsHandshake then drops.
  pub handshake_loop : ℕ → ℕ → Bool → Bytes → S → Outcome S Bytes
  handshake_loop zero send_fuel started buffer s = unfinished
  handshake_loop (suc fuel) send_fuel started buffer s =
      let (ss, token, extra, s2) = schannel.initialize started (if started then buffer else []) s in
      let retry =
        and_then (read_more buffer s2)
          (λ buffer2 s3. handshake_loop fuel send_fuel started buffer2 s3) in
      let kept = (if extra == 0 then [] else consume_front buffer (length buffer - extra)) in
      let next = λ (s3 : S).
        and_then (read_more kept s3)
          (λ buffer2 s4. handshake_loop fuel send_fuel true buffer2 s4) in
      if ss == incomplete_message
      then retry
      else and_then (send_token send_fuel token s2) (λ u s3.
        if ss == sec_e_ok
        then returned buffer s3
        else if (ss == continue_needed) || (ss == incomplete_credentials)
        then next s3
        else failed s3)

module _ {S : Type 0} (attributes : Attributes S) where
  -- The protocol, from the one attribute or the other.
  pub negotiated_protocol : S → Outcome S Bool
  negotiated_protocol s =
      let (ss, tls13, s2) = attributes.connection_ex s in
      let (ss2, tls13', s3) = attributes.connection s2 in
      if ss == sec_e_ok
      then returned tls13 s2
      else if ss2 == sec_e_ok
      then returned tls13' s3
      else failed s3

  pub query_sizes : S → Outcome S StreamSizes
  query_sizes s =
      let (ss, sizes, s2) = attributes.stream_sizes s in
      if ss == sec_e_ok then returned sizes s2 else failed s2

module _ {S : Type 0} (schannel : Schannel S) (socket : Socket S) (certificates : Certificates S)
    (attributes : Attributes S) where
  -- TlsHandshake: whether TLS 1.3 was negotiated, and the sizes.
  pub tls_handshake : ℕ → ℕ → S → Outcome S (Bool × StreamSizes)
  tls_handshake fuel send_fuel s =
      let (ss, s1) = schannel.acquire s in
      let rest = and_then (handshake_loop schannel socket fuel send_fuel false [] s1) (λ dropped s2.
        and_then (verify_server_cert certificates s2) (λ u s3.
          and_then (negotiated_protocol attributes s3) (λ tls13 s4.
            and_then (query_sizes attributes s4) (λ sizes s5. returned (tls13, sizes) s5)))) in
      if ss == sec_e_ok then rest else failed s1

  -- The end of wmain, from SCHANNEL_SHUTDOWN on.
  pub shut_down : ℕ → S → Outcome S Unit
  shut_down fuel s =
      let (ss, s2) = attributes.shutdown_token s in
      let (ss2, token, s3) = attributes.close_notify s2 in
      if ss == sec_e_ok
      then if (ss2 == sec_e_ok) && not (length token == 0)
        then elim (send_all socket fuel token s3) [
          | none ↦ unfinished
          | some (n, s4) ↦ returned tt s4
        ]
        else returned tt s3
      else returned tt s2

abbrev pub request : Bytes
request =
    codes
      "GET / HTTP/1.1\r\nHost: www.google.com\r\nConnection: close\r\nAccept: */*\r\nUser-Agent: sspi-sample/1.0\r\n\r\n"

module _ {S : Type 0} (network : Network S) (sockets : ℕ → Socket S) (schannel : Schannel S)
    (certificates : Certificates S) (attributes : Attributes S) where
  -- wmain behind ConnectTcp: what it prints. One fuel is enough for every loop that is long enough for all.
  pub exchange : ℕ → ℕ → S → Outcome S Bytes
  exchange fuel handle s =
      let socket = sockets handle in
      and_then (tls_handshake schannel socket certificates attributes fuel fuel s) (λ r s2.
        and_then (ssl_encrypt schannel r.1 fuel request s2) (λ sealed s3.
          elim (send_all socket fuel sealed s3) [
            | none ↦ unfinished
            | some (n, s4) ↦
                if is_positive n
                then and_then (receive_loop schannel socket fuel fuel [] [] s4) (λ plain s5.
                  and_then
                    (shut_down schannel socket certificates attributes fuel
                      (attributes.empty_token s5))
                    (λ u s6. returned plain (network.finish handle s6)))
                else failed s4
          ]))

  -- wmain.
  pub tls_main : ℕ → S → Outcome S Bytes
  tls_main fuel s =
      let (started, s1) = network.startup s in
      let rest = and_then (connect_tcp network s1) (λ handle s2. exchange fuel handle s2) in
      if started then rest else failed s1
