-- ===== src/SecureSocket.antt =====
-- src/SecureSocket/main.cpp: a TLS socket that decrypts in its own buffer. This module has tls_read; the bytes of the
-- buffer that count are a list, and those at the pointer `decrypted` another one. The calls are a parameter.
pub mod Rounds
pub mod Reads
pub mod Session
mod Examples
use win32_experiments.Common.{
  ℕ, zero, suc, ◌+◌, ◌-◌, ◌*◌, ◌≤◌, ◌<◌, ◌≡◌, Bool, true, false, List, [], ◌∷◌, ◌++◌, Option, none,
  some, ◌==◌, if◌then◌else◌, length, take, drop, min,
}
use win32_experiments.Common.Int.{ℤ, pos, negsuc}

abbrev pub Bytes : Type 0
Bytes = List ℕ

abbrev pub sec_e_ok : ℕ
sec_e_ok = 0

abbrev pub incomplete_message : ℕ
incomplete_message = 2148074264

abbrev pub context_expired : ℕ
context_expired = 590615

abbrev pub renegotiate : ℕ
renegotiate = 590625

-- TLS_MAX_PACKET_SIZE.
abbrev pub capacity : ℕ
capacity = 16896

-- What DecryptMessage leaves: its status, the data, the size of the extra input. `ticket` is the call of
-- InitializeSecurityContext for a record that is no data, which gives the size of the extra input. `recv` answers with
-- what it wrote, `none` for a negative int.
pub record Calls (S : Type 0) : Type 0 where
  pub decrypt : Bytes → S → ℕ × Bytes × ℕ × S
  pub ticket : Bytes → S → ℕ × S
  pub recv : ℕ → S → Option Bytes × S

-- tls_socket: `received` is the length of `incoming`, `available` that of what is decrypted.
pub record TlsSocket : Type 0 where
  pub incoming : Bytes
  pub used : ℕ
  pub decrypted : Option Bytes

-- How a round goes on: tls_read ends with an int, or the loop does.
pub data Next (S : Type 0) : Type 0 where
  ends : ℤ → TlsSocket → S → Next S
  again : TlsSocket → S → Next S

-- How tls_read ends: its int, what it wrote to the buffer of the caller.
pub data Reading (S : Type 0) : Type 0 where
  finished : ℤ → Bytes → TlsSocket → S → Reading S
  unfinished : Reading S

-- The branch of tls_read with decrypted data, which copies the first `count` bytes of it.
pub consume : ℕ → Bytes → TlsSocket → TlsSocket
consume count plain t =
    if count == length plain
    then record { incoming = drop t.used t.incoming; used = 0; decrypted = none }
    else record t { decrypted = some (drop count plain) }

module _ {S : Type 0} (calls : Calls S) where
  -- From `if (result != 0)` on.
  pub receive_more : ℕ → TlsSocket → S → Next S
  receive_more result t s =
      let (answer, s2) = calls.recv (capacity - length t.incoming) s in
      if result == 0
      then if length t.incoming == capacity then ends (negsuc 0) t s else elim answer [
        | none ↦ ends (negsuc 0) t s2
        | some [] ↦ ends (pos 0) t s2
        | some (b ∷ bs) ↦ again (record t { incoming = t.incoming ++ b ∷ bs }) s2
      ]
      else ends (pos result) t s

  -- The branch of tls_read without decrypted data.
  pub decrypt_more : ℕ → TlsSocket → S → Next S
  decrypt_more result t s =
      let received = length t.incoming in
      let (ss, plain, extra, s2) = calls.decrypt t.incoming s in
      let (left, s3) = calls.ticket (drop (received - extra) t.incoming) s2 in
      if received == 0
      then receive_more result t s
      else if ss == sec_e_ok
      then again (record t { used = received - extra; decrypted = some plain }) s2
      else if ss == context_expired
      then ends (pos result) (record t { incoming = [] }) s2
      else if ss == renegotiate
      then again (record t { incoming = drop (received - left) t.incoming; used = received - left })
          s3
      else if ss == incomplete_message
      then receive_more result t s2
      else ends (negsuc 0) t s2

  -- `while (size != 0)` of tls_read, on fuel; `result` is the length of what is copied.
  pub read_loop : ℕ → ℕ → Bytes → TlsSocket → S → Reading S
  read_loop zero size copied t s = unfinished
  read_loop (suc fuel) size copied t s =
      let next = decrypt_more (length copied) t s in
      if size == 0 then finished (pos (length copied)) copied t s else elim t.decrypted [
        | some plain ↦
            let count = min size (length plain) in
            read_loop fuel (size - count) (copied ++ take count plain) (consume count plain t) s
        | none ↦ elim next [
          | ends r t2 s2 ↦ finished r copied t2 s2
          | again t2 s2 ↦ read_loop fuel size copied t2 s2
        ]
      ]

  -- tls_read.
  pub tls_read : ℕ → ℕ → TlsSocket → S → Reading S
  tls_read fuel size t s = read_loop fuel size [] t s
