-- ===== src/SecureSocket/Reads.antt =====
-- tls_read against the plain text that the peer sends.
use win32_experiments.Common.{
  ℕ, zero, suc, ◌+◌, ◌-◌, ◌≤◌, ◌<◌, ◌≡◌, ◌⊎◌, inl, inr, refl, sym, ap, ◌∙◌, false, [], ◌++◌, Option,
  none, some, ◌==◌, length, take, drop, min, arith, length-append, length-drop, length-take,
  take-append-drop, take_of_length-le, append_assoc, append-nil, Bool-cases,
}
use win32_experiments.Common.Int.{ℤ, pos, negsuc}
use win32_experiments.SecureSocket.{
  Bytes, capacity, Calls, TlsSocket, Next, ends, again, finished, consume, decrypt_more, read_loop,
  tls_read,
}
use win32_experiments.SecureSocket.Rounds.{
  IsTls, Wf, idle, remaining, work, Goes, decrypt_more-Goes,
}

module _ {S : Type 0} (calls : Calls S) (arriving : S → ℕ) (plain : Bytes → S → Bytes)
    (d : IsTls calls arriving plain) where
  abbrev busy : Bytes → ℕ → Bytes → TlsSocket
  busy c u p = record { incoming = c; used = u; decrypted = some p }

  -- The branch with decrypted data: what is copied and what remains is what remained.
  consume_keeps :
      (size u : ℕ) (c p : Bytes) (s : S)
      → Wf (busy c u p)
      → Wf (consume (min size (length p)) p (busy c u p))
        × ((take (min size (length p)) p
                ++ remaining plain (consume (min size (length p)) p (busy c u p)) s
              ≡ remaining plain (busy c u p) s)
            × ((size - min size (length p) ≡ 0)
                ⊎ (work arriving (consume (min size (length p)) p (busy c u p)) s
                    < work arriving (busy c u p) s)))
  unfolding consume
  consume_keeps size u c p s (w, v) =
      let count = min size (length p) in
      elim (Bool-cases (count == length p)) [
        | inl e ↦
            (let k = length-drop u c in
              rw (consume, e)
                (
                  (omega arith, inl refl),
                  (
                    ap (λ z. z ++ plain (drop u c) s) (take_of_length-le count p (ground arith)),
                    inr (omega arith),
                  ),
                ))
        | inr e ↦
            rw (consume, e)
              (
                (w, inr (held v)),
                (
                  sym (append_assoc (take count p) (drop count p) (plain (drop u c) s))
                      ∙ ap (λ z. z ++ plain (drop u c) s) (take-append-drop count p),
                  inl (ground arith),
                ),
              )
      ]
    where
      held : ((some p ≡ none) ⊎ (u ≤ length c)) → u ≤ length c
      held (inl e) = absurd (cc)
      held (inr e) = e

  -- How a read of `size` bytes ends: with -1, or with the number of bytes that it copied in all, which with what
  -- remains are what remained before.
  abbrev pub Ends : ℕ → ℕ → Bytes → TlsSocket → S → Type 0
  Ends fuel size copied t s =
      (r : ℤ) × (more : Bytes) × (t2 : TlsSocket) × (s2 : S) × (read_loop calls fuel size copied t s
        ≡ finished r (copied ++ more) t2 s2)
      × (length more ≤ size)
      × Wf t2
      × ((r ≡ negsuc 0)
          ⊎ ((r ≡ pos (length (copied ++ more)))
              × (more ++ remaining plain t2 s2 ≡ remaining plain t s)))

  Ends-zero :
      (fuel : ℕ) (copied : Bytes) (t : TlsSocket) (s : S) → Wf t → Ends (suc fuel) 0 copied t s
  unfolding read_loop
  Ends-zero fuel copied t s w = (
    pos (length copied),
    [],
    t,
    s,
    ap (λ z. finished (pos (length copied)) z t s) (sym (append-nil copied)),
    omega arith,
    w,
    inr (ap (λ z. pos (length z)) (sym (append-nil copied)), refl),
  )

  Ends-busy :
      (fuel size u : ℕ) (copied c p : Bytes) (s : S)
      → Wf (busy c u p)
      → (size == 0) ≡ false
      → Ends fuel
          (size - min size (length p))
          (copied ++ take (min size (length p)) p)
          (consume (min size (length p)) p (busy c u p))
          s
      → Ends (suc fuel) size copied (busy c u p) s
  unfolding read_loop
  Ends-busy fuel size u copied c p s w e (r, more, t2, s2, f, l, v, k) =
      let count = min size (length p) in
      let part = take count p in
      let keeps = (consume_keeps size u c p s w).1.0 in
      let assoc = append_assoc copied part more in
      let n = length-append part more in
      let m = length-take count p in
      (
        r,
        part ++ more,
        t2,
        s2,
        rw (read_loop, e) (f ∙ ap (λ z. finished r z t2 s2) assoc),
        omega arith,
        v,
        elim k [
          | inl i ↦ inl i
          | inr (i, q) ↦ inr (
            i ∙ ap (λ z. pos (length z)) assoc,
            append_assoc part more (remaining plain t2 s2) ∙ ap (λ z. part ++ z) q ∙ keeps,
          )
        ],
      )

  Ends-ends :
      (fuel size u : ℕ) (copied c : Bytes) (s : S) (r : ℤ) (t2 : TlsSocket) (s2 : S)
      → (size == 0) ≡ false
      → decrypt_more calls (length copied) (idle c u) s ≡ ends r t2 s2
      → Goes arriving plain (length copied) (idle c u) s (ends r t2 s2)
      → Ends (suc fuel) size copied (idle c u) s
  unfolding read_loop
  Ends-ends fuel size u copied c s r t2 s2 e f (w, k) = (
    r,
    [],
    t2,
    s2,
    rw (read_loop, e, f) (ap (λ z. finished r z t2 s2) (sym (append-nil copied))),
    omega arith,
    w,
    elim k [
      | inl i ↦ inl i
      | inr (i, q) ↦ inr (i ∙ ap (λ z. pos (length z)) (sym (append-nil copied)), q)
    ],
  )

  Ends-again :
      (fuel size u : ℕ) (copied c : Bytes) (s : S) (t2 : TlsSocket) (s2 : S)
      → (size == 0) ≡ false
      → decrypt_more calls (length copied) (idle c u) s ≡ again t2 s2
      → remaining plain t2 s2 ≡ remaining plain (idle c u) s
      → Ends fuel size copied t2 s2
      → Ends (suc fuel) size copied (idle c u) s
  unfolding read_loop
  Ends-again fuel size u copied c s t2 s2 e f q (r, more, t3, s3, g, l, v, k) = (
    r,
    more,
    t3,
    s3,
    rw (read_loop, e, f) g,
    l,
    v,
    elim k [ inl i ↦ inl i | inr (i, p) ↦ inr (i, p ∙ q) ],
  )

  abbrev socket_of : Bytes → ℕ → Option Bytes → TlsSocket
  socket_of c u o = record { incoming = c; used = u; decrypted = o }

  -- A round without decrypted data, given what the rest of the loop does.
  Ends-idle :
      (fuel size u : ℕ) (copied c : Bytes) (s : S) (next : Next S)
      → length c ≤ capacity
      → (size == 0) ≡ false
      → decrypt_more calls (length copied) (idle c u) s ≡ next
      → Goes arriving plain (length copied) (idle c u) s next
      → ((t2 : TlsSocket) (s2 : S)
          → Wf t2
          → work arriving t2 s2 < work arriving (idle c u) s
          → Ends fuel size copied t2 s2)
      → Ends (suc fuel) size copied (idle c u) s
  Ends-idle fuel size u copied c s (ends r t2 s2) w e f g ih =
      Ends-ends fuel size u copied c s r t2 s2 e f g
  Ends-idle fuel size u copied c s (again t2 s2) w e f (v, (q, l)) ih =
      Ends-again fuel size u copied c s t2 s2 e f q (ih t2 s2 v l)

  read_loop-Ends :
      (fuel size u : ℕ) (copied c : Bytes) (o : Option Bytes) (s : S)
      → Wf (socket_of c u o)
      → 0 < fuel
      → (size ≡ 0) ⊎ (work arriving (socket_of c u o) s + 1 < fuel)
      → Ends fuel size copied (socket_of c u o) s
  read_loop-Ends zero size u copied c o s w l k = absurd (omega arith)
  read_loop-Ends (suc fuel) size u copied c o s w l (inl z) =
      rw z (Ends-zero fuel copied (socket_of c u o) s w)
  read_loop-Ends (suc fuel) size u copied c none s w l (inr k) = elim (Bool-cases (size == 0)) [
    | inl e ↦
        (let z : size ≡ 0 = ground arith in rw z (Ends-zero fuel copied (socket_of c u none) s w))
    | inr e ↦
        Ends-idle fuel size u copied c s (decrypt_more calls (length copied) (idle c u) s) w.0 e
          refl (decrypt_more-Goes calls arriving plain d (length copied) u c s w.0)
          (λ t2 s2 v m.
            read_loop-Ends fuel size t2.used copied t2.incoming t2.decrypted s2 v (omega arith)
              (inr (omega arith)))
  ]
  read_loop-Ends (suc fuel) size u copied c (some p) s w l (inr k) =
      let (v, (q, m)) = consume_keeps size u c p s w in
      let count = min size (length p) in
      let t2 = consume count p (busy c u p) in
      elim (Bool-cases (size == 0)) [
        | inl e ↦
            (let z : size ≡ 0 = ground arith in
              rw z (Ends-zero fuel copied (socket_of c u (some p)) s w))
        | inr e ↦ Ends-busy fuel size u copied c p s w e (
            read_loop-Ends fuel (size - count) t2.used (copied ++ take count p) t2.incoming
              t2.decrypted s v (omega arith) (elim m [ inl z ↦ inl z | inr n ↦ inr (omega arith) ]))
      ]

  -- tls_read with fuel for the bytes that it has and that arrive: it ends, with -1 or with the number of bytes that
  -- it copied, at most `size`; in that case those bytes and what the socket has still to give are, in this order, what
  -- it had to give before. In either case what the socket has received fits in its buffer.
  pub tls_read-Ends :
      (fuel size : ℕ) (t : TlsSocket) (s : S)
      → Wf t
      → work arriving t s + 1 < fuel
      → (r : ℤ) × (copied : Bytes) × (t2 : TlsSocket) × (s2 : S) × (tls_read calls fuel size t s
          ≡ finished r copied t2 s2)
        × (length copied ≤ size)
        × Wf t2
        × ((r ≡ negsuc 0)
            ⊎ ((r ≡ pos (length copied)) × (copied ++ remaining plain t2 s2 ≡ remaining plain t s)))
  unfolding tls_read
  tls_read-Ends fuel size t s w l =
      read_loop-Ends fuel size t.used [] t.incoming t.decrypted s w (omega arith) (inr l)
