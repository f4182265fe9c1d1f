-- ===== src/XSocket/Transport/Writes.antt =====
-- What the constructor and WriteData do to the stream that a list stores.
use win32_experiments.Common.{
  ℕ, ◌^◌, ◌<◌, ◌≡◌, ◌≢◌, inl, refl, ap, ◌∙◌, true, List, [], ◌∷◌, ◌++◌, none, some, length, drop,
  arith, append_assoc, append-nil,
}
use win32_experiments.XSocket.LinkedList.{Buffer, Heap, update, make_list, attach, append_tail}
use win32_experiments.XSocket.LinkedList.Bytes.{Wf}
use win32_experiments.XSocket.LinkedList.Links.{Apart}
use win32_experiments.XSocket.LinkedList.Ring.{
  IsRing-buffer, append_tail-IsRing, append_tail-buffer, make_list-IsRing,
}
use win32_experiments.XSocket.Transport.{write_data}
use win32_experiments.XSocket.Transport.Stream.{
  Stored, Unread, stream, Readable, Holds, Stored-buffer,
}

-- Which entry the list has, no new one is.
Apart-new :
    (h : Heap) (e : ℕ) (xs : List ℕ) (bs : List Buffer)
    → h.buffer e ≡ none
    → Stored h xs bs
    → Apart e xs
Apart-new h e [] bs n s = tt
Apart-new h e (x ∷ xs) [] n s = absurd s
Apart-new h e (x ∷ xs) (b ∷ bs) n (s, (w, t)) =
    (λ q. (let k : h.buffer e ≡ h.buffer x = ap h.buffer q in absurd (cc)), Apart-new h e xs bs n t)

Unread-append : (bs : List Buffer) (b : Buffer) → b.index ≡ 0 → Unread bs → Unread (bs ++ b ∷ [])
Unread-append [] b z u = (z, tt)
Unread-append (c ∷ bs) b z (y, u) = (y, Unread-append bs b z u)

Readable-append :
    (room : ℕ) (bs : List Buffer) (b : Buffer)
    → b.index ≡ 0
    → Readable room bs
    → Readable room (bs ++ b ∷ [])
Readable-append room [] b z c = (inl z, tt)
Readable-append room (d ∷ bs) b z (c, u) = (c, Unread-append bs b z u)

Stored-append :
    (h : Heap) (xs : List ℕ) (bs : List Buffer) (e : ℕ) (b : Buffer)
    → Stored h xs bs
    → h.buffer e ≡ some b
    → Wf b
    → Stored h (xs ++ e ∷ []) (bs ++ b ∷ [])
Stored-append h [] [] e b s k w = (k, (w, tt))
Stored-append h [] (c ∷ bs) e b s k w = absurd s
Stored-append h (x ∷ xs) [] e b s k w = absurd s
Stored-append h (x ∷ xs) (c ∷ bs) e b (s, (v, t)) k w = (s, (v, Stored-append h xs bs e b t k w))

stream-append :
    (bs : List Buffer) (b : Buffer) → stream (bs ++ b ∷ []) ≡ stream bs ++ drop b.index b.bytes
stream-append [] b = append-nil (drop b.index b.bytes)
stream-append (c ∷ bs) b =
    rw (stream-append bs b, append_assoc (drop c.index c.bytes) (stream bs) (drop b.index b.bytes))

Stored-same :
    (h g : Heap) (xs : List ℕ) (bs : List Buffer)
    → Stored h xs bs
    → ((p : ℕ) → g.buffer p ≡ h.buffer p)
    → Stored g xs bs
Stored-same h g [] [] s e = tt
Stored-same h g [] (b ∷ bs) s e = s
Stored-same h g (x ∷ xs) [] s e = s
Stored-same h g (x ∷ xs) (b ∷ bs) (s, (w, t)) e = (e x ∙ s, (w, Stored-same h g xs bs t e))

-- WriteData with memory for the entry and its data puts the bytes behind those that are stored.
pub write_data-Holds :
    (head room e : ℕ) (h : Heap) (w bytes : List ℕ)
    → Holds head room h w
    → h.buffer e ≡ none
    → e ≢ head
    → length bytes < 2 ^ 32
    → Holds head room (write_data head (some e) true (some bytes) h).1 (w ++ bytes)
unfolding write_data
write_data-Holds head room e h w bytes (xs, bs, r, s, c, q) n k l =
    let b = attach (length bytes) bytes in
    let g : Heap = record h { buffer = update h.buffer e (some b) } in
    let apart = Apart-new h e xs bs n s in
    let stored = Stored-buffer h g xs bs e s apart (λ p m. ground arith) in
    let full : Stored g (xs ++ e ∷ []) (bs ++ b ∷ []) =
      Stored-append g xs bs e b stored (ground arith) (refl, (l, omega arith)) in
    (
      xs ++ e ∷ [],
      bs ++ b ∷ [],
      append_tail-IsRing head e g xs (IsRing-buffer head h xs g.buffer r) k apart,
      Stored-same g (append_tail head e g) (xs ++ e ∷ []) (bs ++ b ∷ []) full
          (λ p. append_tail-buffer head e p g),
      Readable-append room bs b refl c,
      rw (stream-append bs b, q),
    )

pub make_list-Holds : (head room : ℕ) (h : Heap) → Holds head room (make_list head h) []
make_list-Holds head room h = ([], [], make_list-IsRing head h, tt, tt, refl)
