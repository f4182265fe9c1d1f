-- ===== src/SecureSocket/Session.antt =====
-- src/SecureSocket/main.cpp: tls_connect, tls_write, tls_disconnect and main. The stream of bytes that main writes to
-- its file is left out.
use win32_experiments.Common.{
  ℕ, zero, suc, ◌+◌, ◌-◌, Bool, true, false, [], ◌∷◌, ◌++◌, Option, none, some, codes, ◌==◌,
  if◌then◌else◌, length, take, drop, min,
}
use win32_experiments.Common.Int.{ℤ, pos, negsuc, ltb_ℤ}
use win32_experiments.Tls.{StreamSizes, record_area, is_positive, sent_bytes}
use win32_experiments.SecureSocket.{
  Bytes, sec_e_ok, incomplete_message, capacity, Calls, TlsSocket, finished, unfinished, tls_read,
}

abbrev pub continue_needed : ℕ
continue_needed = 590610

abbrev pub incomplete_credentials : ℕ
incomplete_credentials = 590624

abbrev is_zero : ℤ → Bool
is_zero (pos n) = n == 0
is_zero (negsuc n) = false

-- The calls that tls_connect, tls_write and tls_disconnect make beside those of tls_read. `initialize` is given
-- whether there is a context and the input, and answers with the status, the token and the size of the extra input
-- where the second buffer is one.
pub record Setup (S : Type 0) : Type 0 where
  pub startup : S → Bool × S
  pub socket : S → Bool × S
  pub connect : S → Bool × S
  pub acquire : S → ℕ × S
  pub initialize : Bool → Bytes → S → ℕ × Bytes × Option ℕ × S
  pub stream_sizes : S → StreamSizes × S
  pub encrypt : Bytes → S → ℕ × Bytes × Bytes × Bytes × S
  pub shutdown_token : S → ℕ × Bytes × S
  pub send : Bytes → S → ℤ × S
  pub shutdown : S → S
  pub delete_context : S → S
  pub free_credentials : S → S
  pub close : S → S
  pub cleanup : S → S

-- How the loop of tls_connect ends: by `break`, with its result and what is received, or by `return 0`.
pub data Handshake (S : Type 0) : Type 0 where
  broken : ℤ → Bytes → S → Handshake S
  disconnected : Bytes → S → Handshake S
  endless : Handshake S

module _ {S : Type 0} (setup : Setup S) where
  -- `while (size != 0)` around send, on fuel: what is not sent.
  pub send_rest : ℕ → Bytes → S → Option (Bytes × S)
  send_rest zero left s = none
  send_rest (suc fuel) [] s = some ([], s)
  send_rest (suc fuel) (b ∷ bs) s =
      let (n, s2) = setup.send (b ∷ bs) s in
      let rest = send_rest fuel (drop (sent_bytes n) (b ∷ bs)) s2 in
      if is_positive n then rest else some (b ∷ bs, s2)

  -- Where tls_connect gives up with a context.
  pub abandon : S → S
  abandon s = setup.cleanup (setup.close (setup.free_credentials (setup.delete_context s)))

  -- tls_disconnect; `fuel` is that of its sends.
  pub tls_disconnect : ℕ → S → Option S
  tls_disconnect fuel s =
      let (ss, token, s2) = setup.shutdown_token s in
      let end = λ (t : S). abandon (setup.shutdown t) in
      if ss == sec_e_ok
      then elim (send_rest fuel token s2) [ none ↦ none | some (left, s3) ↦ some (end s3) ]
      else some (end s2)

  -- The sends of one record of tls_write: whether all of it is sent.
  pub send_record : ℕ → Bytes → S → Option (Bool × S)
  send_record fuel bytes s = elim (send_rest fuel bytes s) [
    | none ↦ none
    | some ([], s2) ↦ some (true, s2)
    | some (b ∷ bs, s2) ↦ some (false, s2)
  ]

  -- `while (size != 0)` of tls_write, on fuel: its int.
  pub tls_write : ℕ → StreamSizes → Bytes → S → Option (ℤ × S)
  tls_write zero sizes buffer s = none
  tls_write (suc fuel) sizes [] s = some (pos 0, s)
  tls_write (suc fuel) sizes (b ∷ bs) s =
      let count = min (length (b ∷ bs)) sizes.maximum_message in
      let chunk = take count (b ∷ bs) in
      let (ss, header, sealed, trailer, s2) = setup.encrypt chunk s in
      let total = length header + length sealed + length trailer in
      let sent? =
        send_record (suc total) (take total (record_area sizes chunk header sealed trailer)) s2 in
      let rest = λ (t : S). tls_write fuel sizes (drop count (b ∷ bs)) t in
      if ss == sec_e_ok
      then elim sent? [
        | none ↦ none
        | some (sent, s3) ↦ if sent then rest s3 else some (negsuc 0, s3)
      ]
      else some (negsuc 0, s2)

-- The extra input, moved to the front of the buffer.
abbrev pub kept_input : Bytes → Option ℕ → Bytes
kept_input incoming none = []
kept_input incoming (some n) = drop (length incoming - n) incoming

abbrev new_socket : Bytes → TlsSocket
new_socket incoming = record { incoming = incoming; used = 0; decrypted = none }

abbrev pub request : Bytes
request = codes "GET / HTTP/1.1\r\nHost: www.google.com\r\nConnection: close\r\n\r\n"

-- How a round of the loop of tls_connect goes on.
pub data Step (S : Type 0) : Type 0 where
  stops : Handshake S → Step S
  goes : Bytes → S → Step S

module _ {S : Type 0} (setup : Setup S) (calls : Calls S) where
  -- The read at the end of a round, with what is received.
  pub read_handshake : Bytes → S → Step S
  read_handshake kept s =
      let (answer, s2) = calls.recv (capacity - length kept) s in
      if length kept == capacity then stops (broken (negsuc 0) kept s) else elim answer [
        | none ↦ stops (broken (negsuc 0) kept s2)
        | some [] ↦ stops (disconnected kept s2)
        | some (b ∷ bs) ↦ goes (kept ++ b ∷ bs) s2
      ]

  -- The token of a round that continues.
  pub send_and_read : Bytes → Option (Bytes × S) → Step S
  send_and_read kept none = stops endless
  send_and_read kept (some ([], s)) = read_handshake kept s
  send_and_read kept (some (b ∷ bs, s)) = stops (broken (negsuc 0) kept s)

  -- One round of `for (;;)` of tls_connect.
  pub handshake_step : Bool → Bytes → S → Step S
  handshake_step started incoming s =
      let (ss, token, extra?, s2) = setup.initialize started (if started then incoming else []) s in
      let kept = kept_input incoming extra? in
      let (n, s3) = setup.send token s2 in
      let last =
        (if length token == 0
          then broken (pos 0) kept s2
          else broken (if ltb_ℤ n (pos 0) then pos 1 else pos 0) kept s3) in
      if ss == sec_e_ok
      then stops last
      else if ss == incomplete_credentials
      then stops (broken (negsuc 0) kept s2)
      else if ss == continue_needed
      then send_and_read kept (send_rest setup (suc (length token)) token s2)
      else if ss == incomplete_message
      then read_handshake kept s2
      else stops (broken (negsuc 0) kept s2)

  -- `for (;;)` of tls_connect, on fuel.
  pub handshake_loop : ℕ → Bool → Bytes → S → Handshake S
  handshake_loop zero started incoming s = endless
  handshake_loop (suc fuel) started incoming s = elim (handshake_step started incoming s) [
    | stops end ↦ end
    | goes received s2 ↦ handshake_loop fuel true received s2
  ]

  -- The end of tls_connect: its int, the socket, the sizes where they are queried.
  pub finish_connect : Handshake S → Option (ℤ × TlsSocket × Option StreamSizes × S)
  finish_connect endless = none
  finish_connect (disconnected incoming s) = some (pos 0, new_socket incoming, none, s)
  finish_connect (broken result incoming s) =
      let (sizes, s2) = setup.stream_sizes s in
      if is_zero result
      then some (pos 0, new_socket incoming, some sizes, s2)
      else some (result, new_socket incoming, none, abandon setup s)

  -- `return -1` of tls_connect before there is a context.
  abbrev fail : S → Option (ℤ × TlsSocket × Option StreamSizes × S)
  fail s = some (negsuc 0, new_socket [], none, s)

  -- tls_connect.
  pub tls_connect : ℕ → S → Option (ℤ × TlsSocket × Option StreamSizes × S)
  tls_connect fuel s =
      let (started, s1) = setup.startup s in
      let (made, s2) = setup.socket s1 in
      let (connected, s3) = setup.connect s2 in
      let (ss, s4) = setup.acquire s3 in
      let rest = finish_connect (handshake_loop fuel false [] s4) in
      if started
      then if made
        then if connected
          then if ss == sec_e_ok then rest else fail (setup.cleanup (setup.close s4))
          else fail (setup.cleanup (setup.close s3))
        else fail (setup.cleanup s2)
      else fail s1

  -- `for (;;)` of main, on fuel: the number of bytes received.
  pub receive_response : ℕ → ℕ → ℕ → TlsSocket → S → Option (ℕ × S)
  receive_response zero inner received t s = none
  receive_response (suc fuel) inner received t s = elim (tls_read calls inner 65536 t s) [
    | unfinished ↦ none
    | finished r copied t2 s2 ↦
        let rest = receive_response fuel inner (received + sent_bytes r) t2 s2 in
        if is_positive r then rest else some (received, s2)
  ]

  -- main behind tls_connect, with the sizes that tls_write finds.
  pub run_session : ℕ → StreamSizes → TlsSocket → S → Option (ℤ × S)
  run_session fuel sizes t s = elim (tls_write setup fuel sizes request s) [
    | none ↦ none
    | some (written, s2) ↦
        let response = receive_response fuel fuel 0 t s2 in
        if is_zero written
        then elim response [
          | none ↦ none
          | some (received, s3) ↦ elim (tls_disconnect setup fuel s3) [
            | none ↦ none
            | some s4 ↦ some (pos 0, s4)
          ]
        ]
        else elim (tls_disconnect setup fuel s2) [ none ↦ none | some s3 ↦ some (negsuc 0, s3) ]
  ]

  -- main; `unset` is what the sizes are where tls_connect did not query them.
  pub secure_main : ℕ → StreamSizes → S → Option (ℤ × S)
  secure_main fuel unset s = elim (tls_connect fuel s) [
    | none ↦ none
    | some (result, t, sizes?, s2) ↦
        let sizes = (elim sizes? as (λ o. StreamSizes) [ none ↦ unset | some sizes ↦ sizes ]) in
        let session = run_session fuel sizes t s2 in
        if is_zero result then session else some (negsuc 0, s2)
  ]
