-- ===== src/XSocket/Transport/Stream.antt =====
-- The transport against a stream of bytes.
use win32_experiments.Common.{
  ℕ, suc, ◌+◌, ◌-◌, ◌≤◌, ◌<◌, ◌≡◌, ◌≢◌, ◌⊎◌, inl, inr, ◌∙◌, true, false, List, [], ◌∷◌, ◌++◌, none,
  some, length, ltb, drop, arith, Bool-cases,
}
use win32_experiments.XSocket.LinkedList.{Buffer, Heap, update, copy_to}
use win32_experiments.XSocket.LinkedList.Bytes.{Wf, copied, advanced, copy_to_lem}
use win32_experiments.XSocket.LinkedList.Links.{Apart}
use win32_experiments.XSocket.LinkedList.Ring.{IsRing, peek-IsRing, is_empty-IsRing}
use win32_experiments.XSocket.Transport.{s_ok, finished, faulted, drop_read, read_loop}

-- The entries' buffers; those behind the first are not read yet.
abbrev pub Stored : Heap → List ℕ → List Buffer → Type 0
Stored h [] [] = Unit {0}
Stored h [] (b ∷ bs) = ⊥
Stored h (x ∷ xs) [] = ⊥
Stored h (x ∷ xs) (b ∷ bs) = (h.buffer x ≡ some b) × (Wf b × Stored h xs bs)

abbrev pub Unread : List Buffer → Type 0
Unread [] = Unit {0}
Unread (b ∷ bs) = (b.index ≡ 0) × Unread bs

-- The bytes that the list still has.
abbrev pub stream : List Buffer → List ℕ
stream [] = []
stream (b ∷ bs) = drop b.index b.bytes ++ stream bs

-- The entries behind the first are unread, and of the first one everything is left, or `room` bytes.
abbrev pub Readable : ℕ → List Buffer → Type 0
Readable room [] = Unit {0}
Readable room (b ∷ bs) = ((b.index ≡ 0) ⊎ (b.index + room ≤ b.size)) × Unread bs

-- A list that stores the bytes `w`, of which `room` may be read.
abbrev pub Holds : ℕ → ℕ → Heap → List ℕ → Type 0
Holds head room h w =
    (xs : List ℕ) × (bs : List Buffer) × IsRing head h xs
    × Stored h xs bs
    × Readable room bs
    × (stream bs ≡ w)

pub Stored-buffer :
    (h g : Heap) (xs : List ℕ) (bs : List Buffer) (x : ℕ)
    → Stored h xs bs
    → Apart x xs
    → ((p : ℕ) → x ≢ p → g.buffer p ≡ h.buffer p)
    → Stored g xs bs
Stored-buffer h g [] [] x s a e = tt
Stored-buffer h g [] (b ∷ bs) x s a e = s
Stored-buffer h g (y ∷ ys) [] x s a e = s
Stored-buffer h g (y ∷ ys) (b ∷ bs) x (s, (w, t)) (n, a) e =
    (e y n ∙ s, (w, Stored-buffer h g ys bs x t a e))

pub Unread-Readable : (room : ℕ) (bs : List Buffer) → Unread bs → Readable room bs
Unread-Readable room [] u = tt
Unread-Readable room (b ∷ bs) (z, u) = (inl z, u)

-- One round of the loop.
pub read_loop_empty :
    (fuel head n : ℕ) (got : List ℕ) (h : Heap)
    → IsRing head h []
    → read_loop (suc fuel) head n got h ≡ finished s_ok got h
unfolding read_loop
read_loop_empty fuel head n got h r =
    let e = (is_empty-IsRing head 0 h []).0 r in
    elim (Bool-cases (ltb (length got) n)) [
      | inl t ↦ rw (read_loop, t, e)
      | inr t ↦ rw (read_loop, t)
    ]

pub read_loop_full :
    (fuel head n : ℕ) (got : List ℕ) (h : Heap)
    → n ≤ length got
    → read_loop (suc fuel) head n got h ≡ finished s_ok got h
unfolding read_loop
read_loop_full fuel head n got h l =
    let t : ltb (length got) n ≡ false = ground arith in rw (read_loop, t)

pub read_loop_round :
    (fuel head n : ℕ) (got : List ℕ) (h : Heap) (x : ℕ) (xs : List ℕ) (b : Buffer)
    → IsRing head h (x ∷ xs)
    → h.buffer x ≡ some b
    → Wf b
    → (b.index ≡ 0) ⊎ (b.index + (n - length got) ≤ b.size)
    → length got < n
    → read_loop (suc fuel) head n got h
      ≡ read_loop fuel head n (got ++ copied (n - length got) b) (
          drop_read head
            (advanced (n - length got) b)
            (record h { buffer = update h.buffer x (some (advanced (n - length got) b)) }))
unfolding read_loop
read_loop_round fuel head n got h x xs b r e w c l =
    let t : ltb (length got) n ≡ true = ground arith in
    rw (
      read_loop,
      t,
      (is_empty-IsRing head x h xs).1 r,
      peek-IsRing head x h xs r,
      e,
      copy_to_lem (n - length got) b w c,
      peek-IsRing head x h xs r,
    )

pub read_loop-faulted :
    (fuel head n : ℕ) (h : Heap) (x : ℕ) (xs : List ℕ) (b : Buffer)
    → IsRing head h (x ∷ xs)
    → h.buffer x ≡ some b
    → 0 < n
    → copy_to n b ≡ none
    → read_loop (suc fuel) head n [] h ≡ faulted
unfolding read_loop
read_loop-faulted fuel head n h x xs b r e l c =
    let t : ltb 0 n ≡ true = ground arith in
    let z : n - 0 ≡ n = omega arith in
    rw (read_loop, t, (is_empty-IsRing head x h xs).1 r, peek-IsRing head x h xs r, e, z, c)
