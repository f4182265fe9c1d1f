-- ===== src/Common/Buffers.antt =====
-- Buffers of bytes that calls of the system fill from some place on.
use win32_experiments.Common.Lists.{
  length, take, drop, replicate, length-append, length-replicate, take-length-append,
  take_of_length-le,
}
use Prim.Native.Nat.{ℕ, zero, suc, ◌+◌, ◌-◌}
use mathlib.Core.Path.{◌≡◌}
use mathlib.Core.List.{List, [], ◌∷◌, ◌++◌, append_assoc, append-nil}
use native.Mathlib.Omega.{arith}

-- What a call writes from a place of the buffer on.
abbrev pub write_at : ℕ → List ℕ → List ℕ → List ℕ
write_at at bytes buffer = take at buffer ++ (bytes ++ drop (at + length bytes) buffer)

-- A buffer that is filled up to a place.
abbrev pub filled : List ℕ → ℕ → List ℕ
filled bytes left = bytes ++ replicate left 0

-- std::vector::resize, with zeros for what is new.
abbrev pub resize : ℕ → List ℕ → List ℕ
resize n buffer = take n buffer ++ replicate (n - length buffer) 0

pub drop-replicate : (n k : ℕ) → drop {A = ℕ} n (replicate k 0) ≡ replicate (k - n) 0
drop-replicate zero k = let e : k - 0 ≡ k = omega arith in rw e
drop-replicate (suc n) zero = let e : 0 - suc n ≡ 0 = omega arith in rw e
drop-replicate (suc n) (suc k) =
    let e : suc k - suc n ≡ k - n = omega arith in rw (e, drop-replicate n k)

pub replicate_add : (n k : ℕ) → replicate {A = ℕ} n 0 ++ replicate k 0 ≡ replicate (n + k) 0
replicate_add zero k = let e : 0 + k ≡ k = omega arith in rw e
replicate_add (suc n) k = let e : suc n + k ≡ suc (n + k) = omega arith in rw (e, replicate_add n k)

pub drop-add_append : (xs ys : List ℕ) (n : ℕ) → drop (length xs + n) (xs ++ ys) ≡ drop n ys
drop-add_append [] ys n = let e : 0 + n ≡ n = omega arith in rw e
drop-add_append (x ∷ xs) ys n =
    let e : suc (length xs) + n ≡ suc (length xs + n) = omega arith in
    rw (e, drop-add_append xs ys n)

-- A write behind what is filled fills more.
pub write_at-filled :
    (got bytes : List ℕ) (left : ℕ)
    → write_at (length got) bytes (filled got left) ≡ filled (got ++ bytes) (left - length bytes)
write_at-filled got bytes left = rw (
  take-length-append got (replicate left 0),
  drop-add_append got (replicate left 0) (length bytes),
  drop-replicate (length bytes) left,
  append_assoc got bytes (replicate (left - length bytes) 0),
)

pub length-filled : (got : List ℕ) (left : ℕ) → length (filled got left) ≡ length got + left
length-filled got left = rw (length-append got (replicate left 0), length-replicate {A = ℕ} left 0)

pub resize-filled : (got : List ℕ) (left : ℕ) → resize (length got) (filled got left) ≡ got
resize-filled got left =
    let e : length got - (length got + left) ≡ 0 = omega arith in
    rw (take-length-append got (replicate left 0), length-filled got left, e, append-nil got)

-- A buffer that grows has more zeros.
pub grow-filled :
    (got : List ℕ) (left more : ℕ)
    → resize (length (filled got left) + more) (filled got left) ≡ filled got (left + more)
grow-filled got left more =
    let n = length-filled got left in
    let e : length (filled got left) + more - length (filled got left) ≡ more = omega arith in
    rw (
      take_of_length-le (length (filled got left) + more) (filled got left) (omega arith),
      e,
      append_assoc got (replicate left 0) (replicate more 0),
      replicate_add left more,
    )

-- A write at the end of a first part.
pub write_at-append :
    (front bytes back : List ℕ)
    → write_at (length front) bytes (front ++ back) ≡ front ++ (bytes ++ drop (length bytes) back)
write_at-append front bytes back =
    rw (take-length-append front back, drop-add_append front back (length bytes))

pub resize-append : (xs ys : List ℕ) → resize (length xs) (xs ++ ys) ≡ xs
resize-append xs ys =
    let e : length xs - (length xs + length ys) ≡ 0 = omega arith in
    rw (take-length-append xs ys, length-append xs ys, e, append-nil xs)
