-- ===== src/Sspi/Sealed/Block.antt =====
-- Writes into a block that stay within it.
use win32_experiments.Common.{
  ℕ, ◌+◌, ◌-◌, ◌≤◌, ◌≡◌, sym, ap, ◌∙◌, ◌++◌, some, true, leb, length, take, drop, arith,
  append_assoc, length-append, length-take, length-drop, take-length-append, drop-length-append,
  drop-drop, drop-append_of_ge,
}
use win32_experiments.Common.Buffers.{write_at, write_at-append}
use win32_experiments.Sspi.{Bytes}
use win32_experiments.Sspi.Sealed.{within}

pub length-write_at :
    (at : ℕ) (bytes block : Bytes)
    → at + length bytes ≤ length block
    → length (write_at at bytes block) ≡ length block
length-write_at at bytes block l =
    let a = length-append (take at block) (bytes ++ drop (at + length bytes) block) in
    let b = length-append bytes (drop (at + length bytes) block) in
    let c = length-take at block in
    let e = length-drop (at + length bytes) block in omega (arith, a, b, c, e)

size_written :
    (size trailer block : Bytes)
    → length size ≡ 4
    → 4 ≤ length block
    → write_at 0 size (write_at 4 trailer block)
      ≡ size ++ (trailer ++ drop (4 + length trailer) block)
size_written size trailer block e l =
    let rest = trailer ++ drop (4 + length trailer) block in
    let n : length (take 4 block) ≡ 4 = (let k = length-take 4 block in omega (arith, k)) in
    let z : 0 + length size ≡ 4 = omega arith in
    let z' : 4 - length (take 4 block) ≡ 0 = omega arith in
    ap (λ r. size ++ r)
      (ap (λ k. drop k (write_at 4 trailer block)) z
        ∙ drop-append_of_ge 4 (take 4 block) rest (omega arith)
        ∙ ap (λ k. drop k rest) z')

-- The three writes of EncryptThis leave the three parts side by side.
pub three_parts :
    (size trailer sealed block : Bytes)
    → length size ≡ 4
    → 4 ≤ length block
    → write_at (length trailer + 4) sealed (write_at 0 size (write_at 4 trailer block))
      ≡ size ++ (trailer ++ (sealed ++ drop (4 + length trailer + length sealed) block))
three_parts size trailer sealed block e l =
    let left = drop (4 + length trailer) block in
    let front : length trailer + 4 ≡ length (size ++ trailer) =
      (let k = length-append size trailer in omega arith) in
    ap (write_at (length trailer + 4) sealed)
      (size_written size trailer block e l ∙ sym (append_assoc size trailer left))
    ∙ ap (λ k. write_at k sealed ((size ++ trailer) ++ left)) front
    ∙ write_at-append (size ++ trailer) sealed left
    ∙ append_assoc size trailer (sealed ++ drop (length sealed) left)
    ∙ ap (λ r. size ++ (trailer ++ (sealed ++ r)))
        (drop-drop (length sealed) (4 + length trailer) block)

pub within-append : (xs ys zs : Bytes) → within (length xs) (length ys) (xs ++ (ys ++ zs)) ≡ some ys
within-append xs ys zs =
    let a = length-append xs (ys ++ zs) in
    let b = length-append ys zs in
    let t : leb (length xs + length ys) (length (xs ++ (ys ++ zs))) ≡ true = ground (arith, a, b) in
    rw (t, drop-length-append xs (ys ++ zs), take-length-append ys zs)
