-- ===== src/Sspi/Sealed/RoundTrip.antt =====
-- DecryptThis against EncryptThis, and the memory that both touch.
use win32_experiments.Common.{
  ℕ, ◌+◌, ◌%◌, ◌^◌, ◌≤◌, ◌<◌, ◌≡◌, sym, ap, ◌∙◌, ◌++◌, Option, none, some, true, false, leb, length,
  take, drop, arith, inl, inr, Bool-cases, append_assoc, length-append, take-length-append,
  take_of_length-le,
}
use win32_experiments.Common.Buffers.{write_at}
use win32_experiments.Framing.{le32, from_le32}
use win32_experiments.Framing.Written.{from_le32-le32, length-le32}
use win32_experiments.Sspi.{Bytes, sec_success}
use win32_experiments.Sspi.Sealed.{
  Cipher, IsCipher, block_size, within, minus32, encrypt_this, decrypt_this,
}
use win32_experiments.Sspi.Sealed.Block.{length-write_at, three_parts, within-append}

module _ {S : Type 0} (cipher : Cipher S) (Paired : S → S → Type 0)
    (d : IsCipher cipher Paired) where
  -- The output of EncryptThis where EncryptMessage succeeds.
  abbrev output_of : Bytes → Bytes → ℕ → S → Bytes
  output_of message block n s =
      let (ss, trailer, sealed, s2) = cipher.encrypt n message s in
      le32 (length trailer)
      ++ (trailer ++ (sealed ++ drop (4 + length trailer + length sealed) block))

  abbrev size_of : Bytes → ℕ → S → ℕ
  size_of message n s = length message + length (cipher.encrypt n message s).1 + 4

  encrypt_this_lem :
      (message block : Bytes) (n : ℕ) (s : S)
      → length message + n + 4 < 2 ^ 32
      → 4 ≤ length block
      → sec_success (cipher.encrypt n message s).0 ≡ true
      → (encrypt_this cipher message (length message) block n s).0
        ≡ some (output_of message block n s, size_of message n s)
  unfolding encrypt_this
  encrypt_this_lem message block n s l b e =
      let (ss, trailer, sealed, s2) = cipher.encrypt n message s in
      let fits = d.trailer_fits n message s in
      let same = d.same_length n message s in
      let m : (length message + length trailer + 4) % 2 ^ 32 ≡ length message + length trailer + 4 =
        omega arith in
      rw (
        take_of_length-le (length message) message (omega arith),
        take_of_length-le (length message) sealed (omega arith),
        three_parts (le32 (length trailer)) trailer sealed block (length-le32 (length trailer)) b,
        e,
        m,
      )

  -- EncryptThis writes within the block that it asks for, and what it returns is within that block.
  abbrev pub Fits : Bytes → Option (Bytes × ℕ) → Type 0
  Fits block none = Unit {0}
  Fits block (some (output, size)) = (length output ≡ length block) × (size ≤ length block)

  pub encrypt_this-Fits :
      (message block : Bytes) (n : ℕ) (s : S)
      → length message + n + 4 < 2 ^ 32
      → length block ≡ block_size (length message) n
      → Fits block (encrypt_this cipher message (length message) block n s).0
  unfolding encrypt_this
  encrypt_this-Fits message block n s l b =
      let (ss, trailer, sealed, s2) = cipher.encrypt n message s in
      let fits = d.trailer_fits n message s in
      let same = d.same_length n message s in
      let w = take_of_length-le (length message) message (omega arith) in
      let m : (length message + length trailer + 4) % 2 ^ 32 ≡ length message + length trailer + 4 =
        omega arith in
      let one = length-write_at 4 trailer block (omega arith) in
      let two =
        length-write_at 0 (le32 (length trailer)) (write_at 4 trailer block)
          (let k = length-le32 (length trailer) in omega (arith, one)) in
      let full = take_of_length-le (length message) sealed (omega arith) in
      let three =
        length-write_at (length trailer + 4) sealed
          (write_at 0 (le32 (length trailer)) (write_at 4 trailer block))
          (omega (arith, one, two)) in
      elim (Bool-cases (sec_success ss)) [
        | inr e ↦ rw (w, e) tt
        | inl e ↦ rw (w, full, e, m) (three ∙ two ∙ one, omega arith)
      ]

  sealed_size : (n t : ℕ) → n + t + 4 < 2 ^ 32 → minus32 (n + t + 4) t 4 ≡ n
  sealed_size n t l = omega arith

  -- DecryptThis of what stands behind the pointer, `sealed` being the data with what follows in the buffer.
  decrypt_this_lem :
      (trailer sealed rest : Bytes) (t : S)
      → length sealed + length trailer + 4 < 2 ^ 32
      → decrypt_this cipher
          (le32 (length trailer) ++ (trailer ++ (sealed ++ rest)))
          (length sealed + length trailer + 4)
          t
        ≡ (let (ss, plain, u) = cipher.decrypt trailer sealed t in
            some (ss, plain, length sealed, u))
  unfolding decrypt_this
  decrypt_this_lem trailer sealed rest t l =
      let size = le32 (length trailer) in
      let buffer = size ++ (trailer ++ (sealed ++ rest)) in
      let four = length-le32 (length trailer) in
      let read : from_le32 (take 4 buffer) ≡ length trailer =
        ap (λ k. from_le32 (take k buffer)) (sym four)
        ∙ ap from_le32 (take-length-append size (trailer ++ (sealed ++ rest)))
        ∙ from_le32-le32 (length trailer) (omega arith) in
      let first : within 4 (length trailer) buffer ≡ some trailer =
        ap (λ k. within k (length trailer) buffer) (sym four)
        ∙ within-append size trailer (sealed ++ rest) in
      let place : 4 + length trailer ≡ length (size ++ trailer) =
        (let k = length-append size trailer in omega arith) in
      let second : within (4 + length trailer) (length sealed) buffer ≡ some sealed =
        ap (λ k. within k (length sealed) buffer) place
        ∙ ap (within (length (size ++ trailer)) (length sealed))
            (sym (append_assoc size trailer (sealed ++ rest)))
        ∙ within-append (size ++ trailer) sealed rest in
      rw (
        decrypt_this,
        read,
        first,
        read,
        sealed_size (length sealed) (length trailer) l,
        second,
        read,
        sealed_size (length sealed) (length trailer) l,
      )

  -- A message that EncryptThis sealed and that has arrived in a buffer, whatever follows it there, is what
  -- DecryptThis returns, with its size.
  pub decrypt_this-encrypt_this :
      (message block rest : Bytes) (n : ℕ) (s t : S)
      → Paired s t
      → length message + n + 4 < 2 ^ 32
      → length block ≡ block_size (length message) n
      → sec_success (cipher.encrypt n message s).0 ≡ true
      → (output : Bytes) × (size ss : ℕ) × (u : S) × ((encrypt_this cipher message
            (length message)
            block
            n
            s).0
          ≡ some (output, size))
        × (decrypt_this cipher (take size output ++ rest) size t
            ≡ some (ss, message, length message, u))
        × (sec_success ss ≡ true)
  decrypt_this-encrypt_this message block rest n s t p l b e =
      let (ss, trailer, sealed, s2) = cipher.encrypt n message s in
      let fits = d.trailer_fits n message s in
      let same = d.same_length n message s in
      let (ok, opened) = d.opens n message s t p e in
      let (ss2, plain, u) = cipher.decrypt trailer sealed t in
      let unused = drop (4 + length trailer + length sealed) block in
      let front = le32 (length trailer) ++ (trailer ++ sealed) in
      let whole : output_of message block n s ≡ front ++ unused = rw (
        append_assoc (le32 (length trailer)) (trailer ++ sealed) unused,
        append_assoc trailer sealed unused,
      ) in
      let size : size_of message n s ≡ length front =
        (let k = length-append (le32 (length trailer)) (trailer ++ sealed) in
          let k' = length-append trailer sealed in
          let k2 = length-le32 (length trailer) in omega arith) in
      let sent : take (size_of message n s) (output_of message block n s) ++ rest
          ≡ le32 (length trailer) ++ (trailer ++ (sealed ++ rest)) =
        (ap (λ k. take k (output_of message block n s) ++ rest) size
          ∙ ap (λ o. take (length front) o ++ rest) whole
          ∙ ap (λ o. o ++ rest) (take-length-append front unused)
          ∙ append_assoc (le32 (length trailer)) (trailer ++ sealed) rest
          ∙ ap (λ o. le32 (length trailer) ++ o) (append_assoc trailer sealed rest)) in
      let again : size_of message n s ≡ length sealed + length trailer + 4 = omega arith in
      (
        output_of message block n s,
        size_of message n s,
        ss2,
        u,
        encrypt_this_lem message block n s l (omega arith) e,
        ap (λ o. decrypt_this cipher o (size_of message n s) t) sent
            ∙ ap
                (λ k.
                  decrypt_this cipher (le32 (length trailer) ++ (trailer ++ (sealed ++ rest))) k t)
                again
            ∙ decrypt_this_lem trailer sealed rest t (omega arith)
            ∙ rw (opened, same),
        ok,
      )

module _ {S : Type 0} (cipher : Cipher S) where
  -- A trailer size larger than what has arrived leaves DecryptThis with a data size near 2 ^ 32, so that it passes
  -- memory behind the buffer to DecryptMessage.
  pub decrypt_this-none :
      (buffer : Bytes) (size : ℕ) (s : S)
      → size ≤ length buffer
      → length buffer < 2 ^ 31
      → size < from_le32 (take 4 buffer) + 4
      → from_le32 (take 4 buffer) < 2 ^ 32
      → decrypt_this cipher buffer size s ≡ none
  unfolding decrypt_this
  decrypt_this-none buffer size s l b o w =
      let n = from_le32 (take 4 buffer) in
      let m : length buffer < 4 + n + minus32 size n 4 = omega arith in
      let t : leb (4 + n + minus32 size n 4) (length buffer) ≡ false = ground arith in
      elim (Bool-cases (leb (4 + n) (length buffer))) [
        | inl e ↦ rw (decrypt_this, e, t)
        | inr e ↦ rw (decrypt_this, e)
      ]
