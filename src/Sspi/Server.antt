-- ===== src/Sspi/Server.antt =====
-- src/OldSspiSampleServer/main.cpp: AcceptAuthSocket and main. The calls of Winsock and of Windows are parameters.
pub mod Accept
use win32_experiments.Common.{
  ℕ, zero, suc, ◌≡◌, Bool, true, false, ◌&&◌, List, [], Option, none, some, codes, if◌then◌else◌,
  length,
}
use win32_experiments.Sspi.{
  Bytes, sec_success, Outcome, returned, exited, unfinished, and_then, Provider, Link,
  server_authentication,
}
use win32_experiments.Sspi.Sealed.{Cipher, block_size, encrypt_this}

-- A socket is a number; `none` is INVALID_SOCKET, and `bind` and `listen` answer whether they succeed.
pub record Sockets (S : Type 0) : Type 0 where
  pub socket : S → Option ℕ × S
  pub bind : ℕ → S → Bool × S
  pub listen : ℕ → S → Bool × S
  pub accept : ℕ → S → Option ℕ × S
  pub close : ℕ → S → S
  pub shutdown : ℕ → S → S
  pub send_bytes : ℕ → Bytes → ℕ → S → Bool × S
  pub startup : S → Bool × S
  pub cleanup : S → S

-- The other calls that main makes on the context, and for memory. `largest_token` gives cbMaxToken, `trailer_size`
-- cbSecurityTrailer, `block` what a block that malloc gives contains.
pub record Session (S : Type 0) : Type 0 where
  pub largest_token : S → ℕ × ℕ × S
  pub trailer_size : S → ℕ × ℕ × S
  pub negotiated : S → ℕ × S
  pub impersonate : S → ℕ × S
  pub revert : S → ℕ × S
  pub name_size : S → ℕ × S
  pub user_name : ℕ → S → Bool × S
  pub allocate : ℕ → S → Bool × S
  pub block : ℕ → S → Bytes
  pub delete_context : S → S
  pub free_credential : S → S

module _ {S : Type 0} (sockets : Sockets S) where
  -- AcceptAuthSocket up to `*ServerSocket = sockClient`; `none` where it returns FALSE before.
  pub accept_client : S → Option ℕ × S
  accept_client s =
      let (listener?, s1) = sockets.socket s in
      elim listener? [
        | none ↦ (none, s1)
        | some listener ↦
            let (bound, s2) = sockets.bind listener s1 in
            let (listening, s3) = sockets.listen listener s2 in
            let (client?, s4) = sockets.accept listener s3 in
            if bound
            then if listening
              then elim client? [
                | none ↦ (none, s4)
                | some client ↦ (some client, sockets.close listener s4)
              ]
              else (none, s3)
            else (none, s2)
      ]

  -- cleanup().
  pub cleanup_and_exit : {A : Type 0} → S → Outcome S A
  cleanup_and_exit s = exited 0 (sockets.cleanup s)

  -- SendBytes of what EncryptThis leaves.
  abbrev pub send_sealed : ℕ → Bytes → Option (Bytes × ℕ) → S → Bool × S
  send_sealed client block none s = sockets.send_bytes client block 0 s
  send_sealed client block (some (output, size)) s = sockets.send_bytes client output size s

  -- What the loop does behind the message, where Server_Socket is set.
  pub close_session : Session S → ℕ → S → S
  close_session session client s =
      sockets.close client
        (sockets.shutdown client (session.free_credential (session.delete_context s)))

abbrev pub greeting : Bytes
greeting = codes "This is your server speaking"

module _ {S : Type 0} (sockets : Sockets S) (provider : Provider S) (link : Link S) where
  -- AcceptAuthSocket: the socket that it gives, `none` for FALSE.
  pub accept_auth_socket : ℕ → ℕ → S → Outcome S (Option ℕ)
  accept_auth_socket fuel capacity s =
      let (client?, s2) = accept_client sockets s in
      elim client? [
        | none ↦ returned none s2
        | some client ↦
            and_then (server_authentication provider link fuel client capacity s2)
              (λ answer s3. returned (if answer then some client else none) s3)
      ]

module _ {S : Type 0} (sockets : Sockets S) (session : Session S) (cipher : Cipher S) where
  -- The message to the client; what EncryptThis answers is not looked at.
  pub send_greeting : ℕ → ℕ → S → Outcome S Unit
  send_greeting client trailer s =
      let block = session.block (block_size (length greeting) trailer) s in
      let (sealed, s2) = encrypt_this cipher greeting (length greeting) block trailer s in
      let (sent, s3) = send_sealed sockets client block sealed s2 in
      if sent
      then returned tt (close_session sockets session client s3)
      else cleanup_and_exit sockets s3

  -- From ImpersonateSecurityContext to RevertSecurityContext.
  pub show_client_name : S → Outcome S Unit
  show_client_name s =
      let (ss, s2) = session.impersonate s in
      let (size, s3) = session.name_size s2 in
      let (room, s4) = session.allocate size s3 in
      let (named, s5) = session.user_name size s4 in
      let (ss2, s6) = session.revert s5 in
      if sec_success ss
      then if room
        then if named
          then if sec_success ss2 then returned tt s6 else cleanup_and_exit sockets s6
          else cleanup_and_exit sockets s5
        else cleanup_and_exit sockets s4
      else cleanup_and_exit sockets s2

  -- What main does with an authenticated client.
  pub serve_client : ℕ → S → Outcome S Unit
  serve_client client s =
      let (ss, trailer, s2) = session.trailer_size s in
      let (ss2, s3) = session.negotiated s2 in
      if sec_success ss
      then if sec_success ss2
        then and_then (show_client_name s3) (λ u s4. send_greeting client trailer s4)
        else exited 1 s3
      else exited 1 s2

module _ {S : Type 0} (sockets : Sockets S) (session : Session S) (cipher : Cipher S)
    (provider : Provider S) (link : Link S) where
  -- `while (TRUE)` of main, for the given number of clients; `fuel` is that of each handshake.
  pub serve_clients : ℕ → ℕ → ℕ → S → Outcome S Unit
  serve_clients zero fuel capacity s = unfinished
  serve_clients (suc clients) fuel capacity s =
      and_then (accept_auth_socket sockets provider link fuel capacity s) (λ answer s2.
        elim answer [
          | none ↦ cleanup_and_exit sockets s2
          | some client ↦
              and_then (serve_client sockets session cipher client s2)
                (λ u s3. serve_clients clients fuel capacity s3)
        ])

  -- main of the server.
  pub server_main : ℕ → ℕ → S → Outcome S Unit
  server_main clients fuel s =
      let (started, s1) = sockets.startup s in
      let (ss, capacity, s2) = session.largest_token s1 in
      let (in_room, s3) = session.allocate capacity s2 in
      let (out_room, s4) = session.allocate capacity s3 in
      if started
      then if sec_success ss
        then if in_room && out_room
          then serve_clients clients fuel capacity s4
          else cleanup_and_exit sockets s4
        else cleanup_and_exit sockets s2
      else cleanup_and_exit sockets s1
