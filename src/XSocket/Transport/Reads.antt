-- ===== src/XSocket/Transport/Reads.antt =====
-- How the loop of ReadData ends, by what the first entry has.
use win32_experiments.Common.{
  ℕ, zero, suc, ◌-◌, ◌≤◌, ◌<◌, ◌≡◌, inr, sym, false, List, [], ◌∷◌, ◌++◌, some, ◌==◌, length, take,
  drop, min, arith, append_assoc, append-nil, length-append, length-take, length-drop,
  take_of_length-le, take-append_of_ge, take-append_of_le, drop-append_of_ge, drop-append_of_le,
  drop-nil, take-nil, drop-drop,
}
use win32_experiments.XSocket.LinkedList.{Buffer, Heap, update, data_left, remove_head}
use win32_experiments.XSocket.LinkedList.Bytes.{Wf, copied, advanced, data_left_lem}
use win32_experiments.XSocket.LinkedList.Links.{Apart}
use win32_experiments.XSocket.LinkedList.Ring.{IsRing, IsRing-buffer}
use win32_experiments.XSocket.Transport.{s_ok, finished, drop_read, read_loop}
use win32_experiments.XSocket.Transport.Stream.{
  Stored, stream, Readable, Holds, Stored-buffer, read_loop_empty, read_loop_full, read_loop_round,
}

-- What is left of the first buffer after a read of it.
advanced-Wf : (room : ℕ) (b : Buffer) → Wf b → Wf (advanced room b)
advanced-Wf room b (l, (s, i)) = (l, (s, omega arith))

drop_read_whole :
    (head room : ℕ) (b : Buffer) (h : Heap)
    → Wf b
    → b.size - b.index ≤ room
    → drop_read head (advanced room b) h ≡ remove_head head h
unfolding drop_read
drop_read_whole head room b h w l =
    let e = data_left_lem (advanced room b) (advanced-Wf room b w) in
    let i = w.1.1 in let z : data_left (advanced room b) ≡ 0 = omega (arith, e) in rw z

drop_read_part :
    (head room : ℕ) (b : Buffer) (h : Heap)
    → Wf b
    → room < b.size - b.index
    → drop_read head (advanced room b) h ≡ h
unfolding drop_read
drop_read_part head room b h w l =
    let e = data_left_lem (advanced room b) (advanced-Wf room b w) in
    let z : (data_left (advanced room b) == 0) ≡ false = ground (arith, e) in rw z

-- What ReadData of `n` bytes, with `got` so far, leaves of a stream.
abbrev pub Reads : ℕ → ℕ → List ℕ → Heap → List ℕ → Type 0
Reads head n got h w =
    (bound : ℕ) × (g : Heap) × ((fuel : ℕ)
      → bound < fuel
      → read_loop fuel head n got h ≡ finished s_ok (got ++ take (n - length got) w) g)
    × Holds head 0 g (drop (n - length got) w)

pub Reads-empty : (head n : ℕ) (got : List ℕ) (h : Heap) → IsRing head h [] → Reads head n got h []
Reads-empty head n got h r = (0, h, finishes, ([], [], r, tt, tt, sym (drop-nil (n - length got))))
  where
    finishes :
        (fuel : ℕ)
        → 0 < fuel
        → read_loop fuel head n got h ≡ finished s_ok (got ++ take (n - length got) []) h
    finishes zero l = absurd (omega arith)
    finishes (suc fuel) l =
        rw (take-nil {A = ℕ} (n - length got), append-nil got, read_loop_empty fuel head n got h r)

pub Reads-full :
    (head n : ℕ) (got : List ℕ) (h : Heap) (w : List ℕ)
    → Holds head 0 h w
    → n ≤ length got
    → Reads head n got h w
Reads-full head n got h w (xs, bs, r, s, c, e) l =
    let z : n - length got ≡ 0 = omega arith in (0, h, finishes z, (xs, bs, r, s, c, rw (z, e)))
  where
    finishes :
        n - length got ≡ 0
        → (fuel : ℕ) → 0 < fuel
        → read_loop fuel head n got h ≡ finished s_ok (got ++ take (n - length got) w) h
    finishes z zero k = absurd (omega arith)
    finishes z (suc fuel) k = rw (z, append-nil got, read_loop_full fuel head n got h l)

-- The heap after CopyTo from the entry `x`.
abbrev pub written : ℕ → ℕ → Buffer → Heap → Heap
written x room b h = record h { buffer = update h.buffer x (some (advanced room b)) }

pub written-Stored :
    (x room : ℕ) (b : Buffer) (h : Heap) (xs : List ℕ) (bs : List Buffer)
    → Stored h xs bs
    → Apart x xs
    → Stored (written x room b h) xs bs
written-Stored x room b h xs bs s a =
    Stored-buffer h (written x room b h) xs bs x s a (λ p n. ground arith)

-- A read that ends within the first entry.
pub Reads-part :
    (head n : ℕ) (got : List ℕ) (h : Heap) (x : ℕ) (xs : List ℕ) (b : Buffer) (bs : List Buffer)
    → IsRing head h (x ∷ xs)
    → Stored h (x ∷ xs) (b ∷ bs)
    → Readable (n - length got) (b ∷ bs)
    → length got < n
    → n - length got < b.size - b.index
    → Reads head n got h (stream (b ∷ bs))
Reads-part head n got h x xs b bs r (e, (w, s)) (c, u) l k =
    let room = n - length got in
    let left = length-drop b.index b.bytes in
    let m : room ≤ length (drop b.index b.bytes) = (let q = w.0 in omega (arith, left)) in
    let k' : min room (b.size - b.index) ≡ room = omega arith in
    let g = written x room b h in
    (
      1,
      g,
      finishes m,
      (
        x ∷ xs,
        advanced room b ∷ bs,
        IsRing-buffer head h (x ∷ xs) g.buffer r,
        (ground arith, (advanced-Wf room b w, written-Stored x room b h xs bs s r.distinct.0)),
        (inr (let q = w.1.1 in omega arith), u),
        rw (
          drop-append_of_le room (drop b.index b.bytes) (stream bs) m,
          drop-drop room b.index b.bytes,
          k',
        ),
      ),
    )
  where
    finishes :
        n - length got ≤ length (drop b.index b.bytes)
        → (fuel : ℕ) → 1 < fuel
        → read_loop fuel head n got h
          ≡ finished s_ok
              (got ++ take (n - length got) (stream (b ∷ bs)))
              (written x (n - length got) b h)
    finishes m zero q = absurd (omega arith)
    finishes m (suc zero) q = absurd (omega arith)
    finishes m (suc (suc fuel)) q =
        let room = n - length got in
        let full = length-append got (copied room b) in
        let some_read = length-take room (drop b.index b.bytes) in
        rw (
          read_loop_round (suc fuel) head n got h x xs b r e w c l,
          drop_read_part head room b (written x room b h) w k,
          read_loop_full fuel head n (got ++ copied room b) (written x room b h)
              (omega (arith, full, some_read)),
          take-append_of_le room (drop b.index b.bytes) (stream bs) m,
        )

-- A read that takes all that is left of the first entry, given what the rest of the loop does.
pub Reads-whole :
    (head n : ℕ) (got : List ℕ) (h : Heap) (x : ℕ) (xs : List ℕ) (b : Buffer) (bs : List Buffer)
    → IsRing head h (x ∷ xs)
    → Stored h (x ∷ xs) (b ∷ bs)
    → Readable (n - length got) (b ∷ bs)
    → length got < n
    → b.size - b.index ≤ n - length got
    → Reads head n
        (got ++ drop b.index b.bytes)
        (remove_head head (written x (n - length got) b h))
        (stream bs)
    → Reads head n got h (stream (b ∷ bs))
Reads-whole head n got h x xs b bs r (e, (w, s)) (c, u) l k (bound, g, f, holds) =
    let left = length-drop b.index b.bytes in
    let q = w.0 in
    let full = length-append got (drop b.index b.bytes) in
    let m : length (drop b.index b.bytes) ≤ n - length got = omega (arith, left) in
    let d : n - length got - length (drop b.index b.bytes)
        ≡ n - length (got ++ drop b.index b.bytes) =
      omega (arith, full) in
    (
      suc bound,
      g,
      finishes m d,
      rw (drop-append_of_ge (n - length got) (drop b.index b.bytes) (stream bs) m, d) holds,
    )
  where
    finishes :
        length (drop b.index b.bytes) ≤ n - length got
        → n - length got - length (drop b.index b.bytes) ≡ n - length (got ++ drop b.index b.bytes)
        → (fuel : ℕ) → suc bound < fuel
        → read_loop fuel head n got h
          ≡ finished s_ok (got ++ take (n - length got) (stream (b ∷ bs))) g
    finishes m d zero q = absurd (omega arith)
    finishes m d (suc fuel) q =
        let room = n - length got in
        rw (
          read_loop_round fuel head n got h x xs b r e w c l,
          drop_read_whole head room b (written x room b h) w k,
          take_of_length-le room (drop b.index b.bytes) m,
          f fuel (omega arith),
          take-append_of_ge room (drop b.index b.bytes) (stream bs) m,
          d,
          append_assoc got (drop b.index b.bytes)
              (take (n - length (got ++ drop b.index b.bytes)) (stream bs)),
        )
