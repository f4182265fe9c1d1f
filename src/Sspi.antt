-- ===== src/Sspi.antt =====
-- src/OldSspiSample/main.cpp and src/OldSspiSampleServer/main.cpp: the two ends of a connection that is
-- authenticated by tokens of a security package. The calls of the package and of Winsock are parameters; the
-- messages between the ends are those of Framing, here an interface. The printing is left out.
pub mod Sealed
pub mod Handshake
pub mod Server
pub mod Client
mod Examples
use win32_experiments.Common.{
  ℕ, zero, suc, ◌^◌, ◌≡◌, Bool, true, false, not, ◌||◌, List, [], ◌∷◌, Option, none, some, ◌==◌,
  if◌then◌else◌, ltb,
}

abbrev pub Bytes : Type 0
Bytes = List ℕ

-- SECURITY_STATUS as its 32 bits; SEC_SUCCESS tests the sign.
abbrev pub sec_success : ℕ → Bool
sec_success ss = ltb ss (2 ^ 31)

abbrev pub continue_needed : ℕ
continue_needed = 590610

abbrev pub complete_needed : ℕ
complete_needed = 590611

abbrev pub complete_and_continue : ℕ
complete_and_continue = 590612

-- A call that may end the process.
pub data Outcome (S A : Type 0) : Type 0 where
  returned : A → S → Outcome S A
  exited : ℕ → S → Outcome S A
  unfinished : Outcome S A

abbrev pub and_then : {S A B : Type 0} → Outcome S A → (A → S → Outcome S B) → Outcome S B
and_then (returned a s) f = f a s
and_then (exited code s) f = exited code s
and_then unfinished f = unfinished

-- The calls of the security package for a handshake; the first call on a context is given no context. A call
-- answers with its status and the token that it leaves in the output buffer of the given size.
pub record Provider (S : Type 0) : Type 0 where
  pub acquire_outbound : S → ℕ × S
  pub acquire_inbound : S → ℕ × S
  pub initialize_context : Option Bytes → ℕ → S → ℕ × Bytes × S
  pub accept_context : Bool → Bytes → ℕ → S → ℕ × Bytes × S
  pub complete_token : Bytes → S → ℕ × Bytes × S

-- SendMsg and ReceiveMsg over a connected socket; `none` is FALSE.
pub record Link (S : Type 0) : Type 0 where
  pub send_msg : ℕ → Bytes → S → Bool × S
  pub receive_msg : ℕ → ℕ → S → Option Bytes × S

abbrev pub is_done : ℕ → Bool
is_done ss = not ((ss == continue_needed) || (ss == complete_and_continue))

abbrev pub max_message : ℕ
max_message = 12000

module _ {S : Type 0} (provider : Provider S) where
  -- The end of GenClientContext and of GenServerContext: CompleteAuthToken, and `*pfDone`.
  pub finish_token : ℕ → Bytes → S → Option (Bytes × Bool) × S
  finish_token ss token s =
      let (ss2, token2, s2) = provider.complete_token token s in
      if (ss == complete_needed) || (ss == complete_and_continue)
      then (if sec_success ss2 then some (token2, is_done ss2) else none, s2)
      else (some (token, is_done ss), s)

  -- GenClientContext from InitializeSecurityContext on.
  pub client_token : Option Bytes → ℕ → S → Outcome S (Option (Bytes × Bool))
  client_token input room s =
      let (ss, token, s2) = provider.initialize_context input room s in
      let (answer, s3) = finish_token ss token s2 in
      if sec_success ss then returned answer s3 else exited 1 s2

  -- GenClientContext; `none` is FALSE.
  pub gen_client_context : Option Bytes → ℕ → S → Outcome S (Option (Bytes × Bool))
  gen_client_context (some input) room s = client_token (some input) room s
  gen_client_context none room s =
      let (ss, s2) = provider.acquire_outbound s in
      if sec_success ss then client_token none room s2 else exited 1 s2

  -- GenServerContext.
  pub gen_server_context : Bytes → ℕ → Bool → S → Option (Bytes × Bool) × S
  gen_server_context input room new_conversation s =
      let (ss, token, s2) = provider.accept_context new_conversation input room s in
      if sec_success ss then finish_token ss token s2 else (none, s2)

module _ {S : Type 0} (provider : Provider S) (link : Link S) where
  -- SendMsg of the client, which exits where it fails.
  pub send_or_exit : ℕ → Bytes → S → Outcome S Unit
  send_or_exit socket token s =
      let (sent, s2) = link.send_msg socket token s in if sent then returned tt s2 else exited 1 s2

  -- `while (!fDone)` of the client's DoAuthentication, on fuel.
  pub client_loop : ℕ → ℕ → Bool → S → Outcome S Bool
  client_loop fuel socket true s = returned true s
  client_loop zero socket false s = unfinished
  client_loop (suc fuel) socket false s =
      let (input?, s2) = link.receive_msg socket max_message s in
      elim input? [
        | none ↦ exited 1 s2
        | some input ↦
            and_then (gen_client_context provider (some input) max_message s2) (λ answer s3.
              elim answer [
                | none ↦ exited 1 s3
                | some (token, done) ↦
                    and_then (send_or_exit socket token s3)
                      (λ u s4. client_loop fuel socket done s4)
              ])
      ]

  -- DoAuthentication of the client.
  pub client_authentication : ℕ → ℕ → S → Outcome S Bool
  client_authentication fuel socket s =
      and_then (gen_client_context provider none max_message s) (λ answer s2. elim answer [
        | none ↦ returned false s2
        | some (token, done) ↦
            and_then (send_or_exit socket token s2) (λ u s3. client_loop fuel socket done s3)
      ])

  -- `while (!done)` of the server's DoAuthentication, on fuel; `capacity` is g_cbMaxMessage.
  pub server_loop : ℕ → ℕ → ℕ → Bool → Bool → S → Outcome S Bool
  server_loop fuel socket capacity new_conversation true s = returned true s
  server_loop zero socket capacity new_conversation false s = unfinished
  server_loop (suc fuel) socket capacity new_conversation false s =
      let (input?, s2) = link.receive_msg socket capacity s in
      elim input? [
        | none ↦ returned false s2
        | some input ↦
            let (answer, s3) = gen_server_context provider input capacity new_conversation s2 in
            elim answer [
              | none ↦ returned false s3
              | some (token, done) ↦
                  let (sent, s4) = link.send_msg socket token s3 in
                  let rest = server_loop fuel socket capacity false done s4 in
                  if sent then rest else returned false s4
            ]
      ]

  -- DoAuthentication of the server.
  pub server_authentication : ℕ → ℕ → ℕ → S → Outcome S Bool
  server_authentication fuel socket capacity s =
      let (ss, s2) = provider.acquire_inbound s in
      let rest = server_loop fuel socket capacity true false s2 in
      if sec_success ss then rest else returned false s2
