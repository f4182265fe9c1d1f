-- ===== src/Tls.antt =====
-- src/SspiClientServer/SspiExample-Client2.ixx: a TLS client over Schannel. The calls of Schannel, of Winsock and of
-- the certificate functions are parameters; the printing is left out.
pub mod Records
pub mod Sending
pub mod Handshake
mod Examples
use win32_experiments.Common.{
  ℕ, zero, suc, ◌+◌, ◌-◌, ◌≤◌, ◌≡◌, Bool, true, false, not, ◌&&◌, ◌||◌, List, [], ◌∷◌, ◌++◌, Option,
  none, some, ◌==◌, if◌then◌else◌, length, take, drop, replicate, min, leb,
}
use win32_experiments.Common.Int.{ℤ, pos, negsuc, ltb_ℤ}
use win32_experiments.Common.Buffers.{write_at, resize}

abbrev pub Bytes : Type 0
Bytes = List ℕ

-- SECURITY_STATUS as its 32 bits.
abbrev pub sec_e_ok : ℕ
sec_e_ok = 0

abbrev pub incomplete_message : ℕ
incomplete_message = 2148074264

abbrev pub context_expired : ℕ
context_expired = 590615

abbrev pub continue_needed : ℕ
continue_needed = 590610

abbrev pub incomplete_credentials : ℕ
incomplete_credentials = 590624

abbrev pub renegotiate : ℕ
renegotiate = 590625

-- How a function ends: Fail and FailWSA exit with 1.
pub data Outcome (S A : Type 0) : Type 0 where
  returned : A → S → Outcome S A
  failed : S → Outcome S A
  unfinished : Outcome S A

abbrev pub and_then : {S A B : Type 0} → Outcome S A → (A → S → Outcome S B) → Outcome S B
and_then (returned a s) f = f a s
and_then (failed s) f = failed s
and_then unfinished f = unfinished

-- SecPkgContext_StreamSizes.
pub record StreamSizes : Type 0 where
  pub header : ℕ
  pub trailer : ℕ
  pub maximum_message : ℕ

-- A connected socket: `send` answers with its int, `recv` with what it wrote, `none` for a negative int.
pub record Socket (S : Type 0) : Type 0 where
  pub send : Bytes → S → ℤ × S
  pub recv : ℕ → S → Option Bytes × S

abbrev pub secbuffer_token : ℕ
secbuffer_token = 2

-- SecBuffer: its BufferType and its bytes.
pub record SecBuffer : Type 0 where
  pub buffer_type : ℕ
  pub bytes : Bytes

-- BufferFromVec without a limit. Its type is that of a token, for DecryptMessage too.
pub buffer_from_vec : Bytes → SecBuffer
buffer_from_vec src = record { buffer_type = secbuffer_token; bytes = src }

-- InitializeSecurityContextW is given whether `phCtx` is set and the input, and answers with the status, the token
-- (empty where there is none), the size of the SECBUFFER_EXTRA (0 where there is none). EncryptMessage answers with
-- the contents of its three buffers; DecryptMessage is given its first buffer and answers with the data and the size of the extra input.
pub record Schannel (S : Type 0) : Type 0 where
  pub acquire : S → ℕ × S
  pub initialize : Bool → Bytes → S → ℕ × Bytes × ℕ × S
  pub encrypt : Bytes → S → ℕ × Bytes × Bytes × Bytes × S
  pub decrypt : SecBuffer → S → ℕ × Bytes × ℕ × S

-- ConsumeFront.
pub consume_front : Bytes → ℕ → Bytes
consume_front v n = if n == 0 then v else if leb (length v) n then [] else drop n v

-- The int that SendAll returns where a send gave no byte.
abbrev pub is_positive : ℤ → Bool
is_positive n = ltb_ℤ (pos 0) n

abbrev pub sent_bytes : ℤ → ℕ
sent_bytes (pos n) = n
sent_bytes (negsuc n) = 0

module _ {S : Type 0} (socket : Socket S) where
  -- `while (total < len)` of SendAll; what is not sent yet is the argument.
  pub send_loop : ℕ → ℕ → Bytes → S → Option (ℤ × S)
  send_loop zero total left s = none
  send_loop (suc fuel) total [] s = some (pos total, s)
  send_loop (suc fuel) total (b ∷ bs) s =
      let (n, s2) = socket.send (b ∷ bs) s in
      let rest = send_loop fuel (total + sent_bytes n) (drop (sent_bytes n) (b ∷ bs)) s2 in
      if is_positive n then rest else some (n, s2)

  -- SendAll.
  pub send_all : ℕ → Bytes → S → Option (ℤ × S)
  send_all fuel buffer s = send_loop fuel 0 buffer s

  -- RecvSome: its int, and the buffer.
  pub recv_some : Bytes → S → Option ℕ × Bytes × S
  recv_some buffer s =
      let (answer, s2) = socket.recv 16384 s in
      elim answer [
        | none ↦ (none, buffer, s2)
        | some bytes ↦ (some (length bytes), buffer ++ bytes, s2)
      ]

-- The place of a record in `out`, with what EncryptMessage leaves in its three buffers.
pub record_area : StreamSizes → Bytes → Bytes → Bytes → Bytes → Bytes
record_area sizes chunk header sealed trailer =
    let n = length chunk in
    let empty = replicate (sizes.header + n + sizes.trailer) 0 in
    let plain = write_at sizes.header chunk empty in
    write_at 0 header (write_at sizes.header sealed (write_at (sizes.header + n) trailer plain))

module _ {S : Type 0} (schannel : Schannel S) (sizes : StreamSizes) where
  -- `while (len)` of SslEncrypt, on fuel.
  pub encrypt_loop : ℕ → Bytes → Bytes → S → Outcome S Bytes
  encrypt_loop zero plain out s = unfinished
  encrypt_loop (suc fuel) [] out s = returned out s
  encrypt_loop (suc fuel) (b ∷ bs) out s =
      let chunk = take (min (length (b ∷ bs)) sizes.maximum_message) (b ∷ bs) in
      let (ss, header, sealed, trailer, s2) = schannel.encrypt chunk s in
      let produced = length header + length sealed + length trailer in
      let out2 =
        resize (length out + produced) (out ++ record_area sizes chunk header sealed trailer) in
      let rest = encrypt_loop fuel (drop (length chunk) (b ∷ bs)) out2 s2 in
      if ss == sec_e_ok then rest else failed s2

  -- SslEncrypt.
  pub ssl_encrypt : ℕ → Bytes → S → Outcome S Bytes
  ssl_encrypt fuel plain s = encrypt_loop fuel plain [] s

module _ {S : Type 0} (schannel : Schannel S) where
  -- SslDecrypt: the status, `inBuf` and `dst`.
  pub ssl_decrypt : Bytes → Bytes → S → Outcome S (ℕ × Bytes × Bytes)
  unfolding buffer_from_vec
  ssl_decrypt in_buf dst s =
      let (ss, plain, extra, s2) = schannel.decrypt (buffer_from_vec in_buf) s in
      let kept = (if extra == 0 then [] else consume_front in_buf (length in_buf - extra)) in
      if (ss == incomplete_message) || (ss == context_expired)
      then returned (ss, in_buf, dst) s2
      else if (ss == sec_e_ok) || (ss == renegotiate)
      then returned (ss, kept, dst ++ plain) s2
      else failed s2

  -- The inner loop of wmain, on fuel: `netBuf` and `plain`.
  pub decrypt_loop : ℕ → Bytes → Bytes → S → Outcome S (Bytes × Bytes)
  decrypt_loop zero net plain s = unfinished
  decrypt_loop (suc fuel) net plain s = and_then (ssl_decrypt net plain s) (λ r s2.
      (let (ss, net2, plain2) = r in
        let rest = decrypt_loop fuel net2 plain2 s2 in
        if ss == incomplete_message
        then returned (net2, plain2) s2
        else if ss == context_expired
        then returned ([], plain2) s2
        else if length net2 == 0
        then returned (net2, plain2) s2
        else rest))

module _ {S : Type 0} (schannel : Schannel S) (socket : Socket S) where
  -- The outer loop of wmain, on fuel: `plain`.
  pub receive_loop : ℕ → ℕ → Bytes → Bytes → S → Outcome S Bytes
  receive_loop zero inner net plain s = unfinished
  receive_loop (suc fuel) inner net plain s =
      let (n?, net2, s2) = recv_some socket net s in
      elim n? [
        | none ↦ failed s2
        | some n ↦
            let more =
              and_then (decrypt_loop schannel inner net2 plain s2)
                (λ r s3. (let (net3, plain3) = r in receive_loop fuel inner net3 plain3 s3)) in
            if n == 0 then returned plain s2 else more
      ]
