-- ===== src/Sspi/Sealed.antt =====
-- EncryptThis of src/OldSspiSampleServer/main.cpp, DecryptThis and VerifyThis of src/OldSspiSample/main.cpp:
-- a sealed message is the size of its trailer, the trailer and the encrypted data.
pub mod Block
pub mod RoundTrip
use win32_experiments.Common.{
  ℕ, ◌+◌, ◌-◌, ◌%◌, ◌^◌, ◌≤◌, ◌≡◌, Bool, true, Option, none, some, if◌then◌else◌, length, take,
  drop, leb,
}
use win32_experiments.Common.Buffers.{write_at}
use win32_experiments.Framing.{le32, from_le32}
use win32_experiments.Sspi.{Bytes, sec_success}

-- EncryptMessage: the status, the trailer, the data in place. DecryptMessage: the status and the data in place.
pub record Cipher (S : Type 0) : Type 0 where
  pub encrypt : ℕ → Bytes → S → ℕ × Bytes × Bytes × S
  pub decrypt : Bytes → Bytes → S → ℕ × Bytes × S
  pub verify : Bytes → Bytes → S → ℕ × S

-- The size that EncryptThis asks of malloc, the first sum in 32 bits.
abbrev pub block_size : ℕ → ℕ → ℕ
block_size message_size trailer_size = (trailer_size + message_size) % 2 ^ 32 + 4

-- `size` bytes of a buffer from a place on; `none` where they are not all inside.
abbrev pub within : ℕ → ℕ → Bytes → Option Bytes
within at size buffer =
    if leb (at + size) (length buffer) then some (take size (drop at buffer)) else none

-- a - b - c of 32-bit numbers.
abbrev pub minus32 : ℕ → ℕ → ℕ → ℕ
minus32 a b c = (a + (2 ^ 33 - b - c)) % 2 ^ 32

module _ {S : Type 0} (cipher : Cipher S) where
  -- EncryptThis: what stands in the block that malloc gave and its size, or FALSE.
  pub encrypt_this : Bytes → ℕ → Bytes → ℕ → S → Option (Bytes × ℕ) × S
  encrypt_this message message_size block trailer_size s =
      let (ss, trailer, sealed, s2) = cipher.encrypt trailer_size (take message_size message) s in
      let with_trailer = write_at 4 trailer block in
      let with_size = write_at 0 (le32 (length trailer)) with_trailer in
      let output = write_at (length trailer + 4) (take message_size sealed) with_size in
      (
        if sec_success ss
            then some (output, (message_size + length trailer + 4) % 2 ^ 32)
            else none,
        s2,
      )

  -- DecryptThis of a message that fills the first bytes of `buffer`: the status, what stands at the pointer that it
  -- returns, and `*pcbMessage`. `none` where it passes memory behind the buffer to DecryptMessage.
  pub decrypt_this : Bytes → ℕ → S → Option (ℕ × Bytes × ℕ × S)
  decrypt_this buffer message_size s =
      let trailer_size = from_le32 (take 4 buffer) in
      let size = minus32 message_size trailer_size 4 in
      elim (within 4 trailer_size buffer) [
        | none ↦ none
        | some trailer ↦ elim (within (4 + trailer_size) size buffer) [
          | none ↦ none
          | some sealed ↦
              let (ss, plain, s2) = cipher.decrypt trailer sealed s in some (ss, plain, size, s2)
        ]
      ]

  -- VerifyThis, with the size of the signature: the status, the data and `*pcbMessage`.
  pub verify_this : Bytes → ℕ → ℕ → S → Option (ℕ × Bytes × ℕ × S)
  verify_this buffer message_size signature_size s =
      let size = minus32 message_size signature_size 0 in
      elim (within 0 signature_size buffer) [
        | none ↦ none
        | some signature ↦ elim (within signature_size size buffer) [
          | none ↦ none
          | some signed ↦
              let (ss, s2) = cipher.verify signature signed s in some (ss, signed, size, s2)
        ]
      ]

-- What is documented of the two calls for two contexts that a handshake has paired.
pub record IsCipher {S : Type 0} (cipher : Cipher S) (Paired : S → S → Type 0) : Type 0 where
  pub trailer_fits : (n : ℕ) (plain : Bytes) (s : S) → length (cipher.encrypt n plain s).1 ≤ n
  pub same_length :
      (n : ℕ) (plain : Bytes) (s : S) → length (cipher.encrypt n plain s).2 ≡ length plain
  pub opens :
      (n : ℕ) (plain : Bytes) (s t : S)
      → Paired s t
      → sec_success (cipher.encrypt n plain s).0 ≡ true
      → (sec_success (cipher.decrypt (cipher.encrypt n plain s).1 (cipher.encrypt n plain s).2 t).0
          ≡ true)
        × ((cipher.decrypt (cipher.encrypt n plain s).1 (cipher.encrypt n plain s).2 t).1 ≡ plain)
