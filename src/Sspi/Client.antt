-- ===== src/Sspi/Client.antt =====
-- src/OldSspiSample/main.cpp: ConnectAuthSocket and main.
use win32_experiments.Common.{ℕ, Bool, Option, none, some, ◌==◌, if◌then◌else◌, take}
use win32_experiments.Sspi.{
  Bytes, sec_success, Outcome, returned, exited, and_then, Provider, Link, client_authentication,
}
use win32_experiments.Sspi.Sealed.{Cipher, decrypt_this}

-- The calls of Winsock, with the host name that the code has; `connect` answers whether it fails.
pub record Connector (S : Type 0) : Type 0 where
  pub startup : S → Bool × S
  pub resolve : S → Option ℕ × S
  pub socket : S → Option ℕ × S
  pub connect : ℕ → ℕ → S → Bool × S
  pub close : ℕ → S → S
  pub shutdown : ℕ → S → S
  pub receive_bytes : ℕ → ℕ → S → Option (Bytes × ℕ) × S
  pub cleanup : S → Bool × S

-- The other calls on the context; which CredHandle is freed is the call's argument.
pub record Context (S : Type 0) : Type 0 where
  pub negotiated : S → ℕ × S
  pub sizes : S → ℕ × S
  pub delete_context : S → S
  pub free_credential : ℕ → S → S

-- The local hCred of main, which hides the one that DoAuthentication sets.
abbrev pub local_credential : ℕ
local_credential = 1

abbrev pub big_buff : ℕ
big_buff = 2048

module _ {S : Type 0} (connector : Connector S) (provider : Provider S) (link : Link S) where
  -- ConnectAuthSocket: the socket.
  pub connect_auth_socket : ℕ → S → Outcome S ℕ
  connect_auth_socket fuel s =
      let (address?, s1) = connector.resolve s in
      elim address? [
        | none ↦ exited 1 s1
        | some address ↦
            let (socket?, s2) = connector.socket s1 in
            elim socket? [
              | none ↦ exited 1 s2
              | some socket ↦
                  let (failed, s3) = connector.connect socket address s2 in
                  let authenticated = client_authentication provider link fuel socket s3 in
                  if failed
                  then exited 1 (connector.close socket s3)
                  else and_then authenticated (λ answer s4.
                    if answer then returned socket s4 else exited 1 (connector.close socket s4))
            ]
      ]

module _ {S : Type 0} (connector : Connector S) (context : Context S) (cipher : Cipher S) where
  -- From the message of the server to the end of main; `none` where DecryptThis leaves the buffer.
  pub receive_greeting : ℕ → S → Option (Outcome S Bytes)
  receive_greeting socket s =
      let (read?, s1) = connector.receive_bytes socket big_buff s in
      elim read? [
        | none ↦ some (exited 1 s1)
        | some (buffer, read) ↦
            let message = decrypt_this cipher buffer read s1 in
            if read == 0 then some (exited 1 s1) else elim message [
              | none ↦ none
              | some (ss, plain, size, s2) ↦
                  let s3 = context.free_credential local_credential (context.delete_context s2) in
                  let (clean, s4) =
                    connector.cleanup (connector.close socket (connector.shutdown socket s3)) in
                  some (if clean then returned (take size plain) s4 else exited 1 s4)
            ]
      ]

  -- What main does with the socket.
  pub use_socket : ℕ → S → Option (Outcome S Bytes)
  use_socket socket s =
      let (ss, s1) = context.negotiated s in
      let (ss2, s2) = context.sizes s1 in
      if sec_success ss
      then if sec_success ss2 then receive_greeting socket s2 else some (exited 1 s2)
      else some (exited 1 s1)

module _ {S : Type 0} (connector : Connector S) (context : Context S) (cipher : Cipher S)
    (provider : Provider S) (link : Link S) where
  -- main of the client, with the message that it prints.
  pub client_main : ℕ → S → Option (Outcome S Bytes)
  client_main fuel s =
      let (started, s1) = connector.startup s in
      if started
      then elim (connect_auth_socket connector provider link fuel s1) [
        | returned socket s2 ↦ use_socket connector context cipher socket s2
        | exited code s2 ↦ some (exited code s2)
        | Outcome.unfinished ↦ some Outcome.unfinished
      ]
      else some (exited 1 s1)
