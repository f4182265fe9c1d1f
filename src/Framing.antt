-- ===== src/Framing.antt =====
-- src/OldSspiSample/main.cpp and src/OldSspiSampleServer/main.cpp: SendBytes, ReceiveBytes, SendMsg
-- and ReceiveMsg, which send messages behind a four-byte length over a stream socket.
-- `send` and `recv` of Winsock are a parameter. A `none` from a loop means that its fuel ran out.
pub mod Send
pub mod Receive
pub mod Written
pub mod Message
mod Examples
use win32_experiments.Common.{
  ℕ, zero, suc, ◌+◌, ◌*◌, ◌/◌, ◌%◌, ◌^◌, ◌<◌, ◌≤◌, ◌≡◌, Bool, true, false, List, [], ◌∷◌, ◌++◌,
  Option, none, some, ◌==◌, if◌then◌else◌, length, take, drop, get_or,
}
use win32_experiments.Common.Int.{ℤ, pos, ◌-ℤ◌, pos_part, neg_part, signed32}

abbrev pub Bytes : Type 0
Bytes = List ℕ

-- The two calls of Winsock over a state of the connection. `none` is SOCKET_ERROR. `send` is given
-- the memory at the pointer and the number of bytes; `recv` answers with what it wrote, which is
-- nothing when the peer has closed.
pub record Socket (S : Type 0) : Type 0 where
  pub send : S → Bytes → ℤ → Option ℕ × S
  pub recv : S → ℤ → Option Bytes × S

-- The bytes of a DWORD in memory, and the DWORD that four bytes of memory are.
pub le32 : ℕ → Bytes
le32 n = (n % 256) ∷ (n / 256 % 256) ∷ (n / 65536 % 256) ∷ (n / 16777216 % 256) ∷ []

unfoldable pub from_le32 : Bytes → ℕ
from_le32 b = get_or b 0 0 + 256 * get_or b 1 0 + 65536 * get_or b 2 0 + 16777216 * get_or b 3 0

abbrev pub is_zero : ℤ → Bool
is_zero r = pos_part r + neg_part r == 0

-- What ReceiveBytes leaves: the bytes written behind `pBuf`, and `*pcbRead` where it is set.
pub data Received (S : Type 0) : Type 0 where
  recv_failed : Bytes → S → Received S
  received : Bytes → ℕ → S → Received S

-- What ReceiveMsg leaves: FALSE or TRUE, the bytes written behind `pBuf`, and `*pcbRead`.
pub data MsgResult (S : Type 0) : Type 0 where
  msg_failed : Bytes → S → MsgResult S
  msg_ok : Bytes → ℕ → S → MsgResult S

-- The tests behind the second call of ReceiveBytes.
pub check_body : {S : Type 0} → ℕ → Option (Received S) → Option (MsgResult S)
check_body n none = none
check_body n (some (recv_failed got s)) = some (msg_failed got s)
check_body n (some (received got cb s)) =
    if cb == n then some (msg_ok got cb s) else some (msg_failed got s)

module _ {S : Type 0} (sock : Socket S) where
  open sock use {send, recv}

  -- `while (cbRemaining)` of SendBytes; the memory is that at `pTemp`.
  pub send_loop : ℕ → S → Bytes → ℤ → Option (Bool × S)
  send_loop zero s p remaining = none
  send_loop (suc fuel) s p remaining =
      let (sent, s') = send s p remaining in
      elim (is_zero remaining) [
        | true ↦ some (true, s)
        | false ↦ elim sent [
          | none ↦ some (false, s')
          | some n ↦ send_loop fuel s' (drop n p) (remaining -ℤ pos n)
        ]
      ]

  pub send_bytes : ℕ → S → Bytes → ℕ → Option (Bool × S)
  send_bytes fuel s p n = if n == 0 then some (true, s) else send_loop fuel s p (signed32 n)

  -- The body follows only if the size was sent.
  pub send_body : ℕ → Bytes → ℕ → Option (Bool × S) → Option (Bool × S)
  send_body fuel p n none = none
  send_body fuel p n (some (false, s)) = some (false, s)
  send_body fuel p n (some (true, s)) = send_bytes fuel s p n

  pub send_msg : ℕ → S → Bytes → ℕ → Option (Bool × S)
  unfolding send_body
  send_msg fuel s p n =
      if n == 0 then some (true, s) else send_body fuel p n (send_bytes fuel s (le32 n) 4)

  -- `while (cbRemaining)` of ReceiveBytes; `got` is what stands behind `pBuf` so far.
  pub recv_loop : ℕ → S → ℕ → Bytes → ℤ → Option (Received S)
  recv_loop zero s n got remaining = none
  recv_loop (suc fuel) s n got remaining =
      let (answer, s') = recv s remaining in
      let finish = λ (t : S). received got (pos_part (pos n -ℤ remaining) % 2 ^ 32) t in
      elim (is_zero remaining) [
        | true ↦ some (finish s)
        | false ↦ elim answer [
          | none ↦ some (recv_failed got s')
          | some [] ↦ some (finish s')
          | some (b ∷ bs) ↦ recv_loop fuel s' n (got ++ b ∷ bs) (remaining -ℤ pos (length (b ∷ bs)))
        ]
      ]

  pub receive_bytes : ℕ → S → ℕ → Option (Received S)
  receive_bytes fuel s n = recv_loop fuel s n [] (signed32 n)

  -- The test behind the first call, and the second call.
  pub receive_body : ℕ → Option (Received S) → Option (MsgResult S)
  unfolding check_body
  receive_body fuel none = none
  receive_body fuel (some (recv_failed got s)) = some (msg_failed [] s)
  receive_body fuel (some (received got cb s)) =
      if cb == 4
      then check_body (from_le32 got) (receive_bytes fuel s (from_le32 got))
      else some (msg_failed [] s)

  -- `capacity` is the parameter `cbBuf`, the size of the buffer: the code does not read it.
  pub receive_msg : ℕ → S → ℕ → Option (MsgResult S)
  unfolding receive_body
  receive_msg fuel s capacity = receive_body fuel (receive_bytes fuel s 4)

-- What Winsock documents of a connected blocking stream socket, for a positive length within the
-- memory: `wire` is what the transport has taken, `inbox` what it will still deliver.
pub record IsStream {S : Type 0} (sock : Socket S) (wire inbox : S → Bytes) : Type 0 where
  pub send_takes :
      (s : S) (p : Bytes) (n k : ℕ)
      → 0 < n
      → n ≤ length p
      → (sock.send s p (pos n)).0 ≡ some k
      → (0 < k) × (k ≤ n) × (wire (sock.send s p (pos n)).1 ≡ wire s ++ take k p)
  pub send_error :
      (s : S) (p : Bytes) (n : ℕ)
      → (sock.send s p (pos n)).0 ≡ none
      → wire (sock.send s p (pos n)).1 ≡ wire s
  pub recv_gives :
      (s : S) (n : ℕ) (bs : Bytes)
      → 0 < n
      → (sock.recv s (pos n)).0 ≡ some bs
      → (length bs ≤ n) × (inbox s ≡ bs ++ inbox (sock.recv s (pos n)).1)
  pub recv_closed : (s : S) (n : ℕ) → 0 < n → (sock.recv s (pos n)).0 ≡ some [] → inbox s ≡ []
