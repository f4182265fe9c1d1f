-- ===== src/Tls/Records/Seals.antt =====
-- What SslEncrypt writes: the records of chunks of the plain text, in order.
use win32_experiments.Common.{
  ℕ, zero, suc, ◌≤◌, ◌<◌, ◌≡◌, ◌⊎◌, inl, inr, refl, sym, ap, ◌∙◌, true, false, List, [], ◌∷◌, ◌++◌,
  ◌==◌, length, take, drop, min, arith, append_assoc, append-nil, length-take, length-drop,
  take-append-drop, Bool-cases,
}
use win32_experiments.Tls.{
  Bytes, StreamSizes, Schannel, sec_e_ok, returned, failed, encrypt_loop, ssl_encrypt,
}
use win32_experiments.Tls.Records.Area.{resize-record_area}

-- An EncryptMessage that, where it succeeds, fills the header of cbHeader bytes and keeps the size of the data.
pub record IsSealing {S : Type 0} (schannel : Schannel S) (sizes : StreamSizes) : Type 0 where
  pub header_length :
      (chunk : Bytes) (s : S)
      → (schannel.encrypt chunk s).0 ≡ sec_e_ok
      → length (schannel.encrypt chunk s).1 ≡ sizes.header
  pub same_length :
      (chunk : Bytes) (s : S)
      → (schannel.encrypt chunk s).0 ≡ sec_e_ok
      → length (schannel.encrypt chunk s).2 ≡ length chunk

abbrev pub concat : List Bytes → Bytes
concat [] = []
concat (c ∷ cs) = c ++ concat cs

module _ {S : Type 0} (schannel : Schannel S) where
  abbrev pub sealed_record : Bytes → S → Bytes
  sealed_record chunk s =
      let (ss, header, sealed, trailer, u) = schannel.encrypt chunk s in
      header ++ (sealed ++ trailer)

module _ {S : Type 0} (schannel : Schannel S) (sizes : StreamSizes) where
  -- From `s` on, `out` is the records of the chunks, which ends in `u`.
  abbrev pub Seals : List Bytes → S → Bytes → S → Type 0
  Seals [] s out u = (out ≡ []) × (s ≡ u)
  Seals (c ∷ cs) s out u =
      (0 < length c)
      × (length c ≤ sizes.maximum_message)
      × ((schannel.encrypt c s).0 ≡ sec_e_ok)
      × ((rest : Bytes) × (out ≡ sealed_record schannel c s ++ rest)
          × Seals cs (schannel.encrypt c s).4 rest u)

  -- SslEncrypt behind `out`: an EncryptMessage fails, or all of the text is sealed.
  abbrev pub Encrypts : ℕ → Bytes → Bytes → S → Type 0
  Encrypts fuel plain out s =
      ((u : S) × (encrypt_loop schannel sizes fuel plain out s ≡ failed u))
      ⊎ ((cs : List Bytes) × (more : Bytes) × (u : S) × (encrypt_loop schannel sizes fuel plain out
              s
            ≡ returned (out ++ more) u)
          × (concat cs ≡ plain)
          × Seals cs s more u)

  module _ (d : IsSealing schannel sizes) where
    encrypt_loop-fails :
        (fuel b : ℕ) (bs out : Bytes) (s : S)
        → ((schannel.encrypt (take (min (length (b ∷ bs)) sizes.maximum_message) (b ∷ bs)) s).0
            == sec_e_ok)
          ≡ false
        → Encrypts (suc fuel) (b ∷ bs) out s
    unfolding encrypt_loop
    encrypt_loop-fails fuel b bs out s e = inl (
      (schannel.encrypt (take (min (length (b ∷ bs)) sizes.maximum_message) (b ∷ bs)) s).4,
      rw (encrypt_loop, e),
    )

    abbrev chunk_of : Bytes → Bytes
    chunk_of plain = take (min (length plain) sizes.maximum_message) plain

    encrypt_loop-step :
        (fuel b : ℕ) (bs out : Bytes) (s : S)
        → (schannel.encrypt (chunk_of (b ∷ bs)) s).0 ≡ sec_e_ok
        → encrypt_loop schannel sizes (suc fuel) (b ∷ bs) out s
          ≡ encrypt_loop schannel sizes fuel
              (drop (length (chunk_of (b ∷ bs))) (b ∷ bs))
              (out ++ sealed_record schannel (chunk_of (b ∷ bs)) s)
              (schannel.encrypt (chunk_of (b ∷ bs)) s).4
    unfolding encrypt_loop
    encrypt_loop-step fuel b bs out s e =
        let c = chunk_of (b ∷ bs) in
        let (ss, header, sealed, trailer, u) = schannel.encrypt c s in
        let t : (ss == sec_e_ok) ≡ true = ground arith in
        let r =
          resize-record_area sizes out c header sealed trailer (d.header_length c s e)
            (d.same_length c s e) in
        rw (encrypt_loop, t, r)

    encrypt_loop-seals :
        (fuel b : ℕ) (bs out : Bytes) (s : S)
        → 0 < sizes.maximum_message
        → (schannel.encrypt (chunk_of (b ∷ bs)) s).0 ≡ sec_e_ok
        → Encrypts fuel
            (drop (length (chunk_of (b ∷ bs))) (b ∷ bs))
            (out ++ sealed_record schannel (chunk_of (b ∷ bs)) s)
            (schannel.encrypt (chunk_of (b ∷ bs)) s).4
        → Encrypts (suc fuel) (b ∷ bs) out s
    encrypt_loop-seals fuel b bs out s m e (inl (u, f)) =
        inl (u, encrypt_loop-step fuel b bs out s e ∙ f)
    encrypt_loop-seals fuel b bs out s m e (inr (cs, more, u, f, p, l)) =
        let plain = b ∷ bs in
        let c = chunk_of plain in
        let n = length-take (min (length plain) sizes.maximum_message) plain in
        let k : length c ≡ min (length plain) sizes.maximum_message = omega arith in
        let whole : c ++ drop (length c) plain ≡ plain =
          (ap (λ i. c ++ drop i plain) k
            ∙ take-append-drop (min (length plain) sizes.maximum_message) plain) in
        inr (
          c ∷ cs,
          sealed_record schannel c s ++ more,
          u,
          encrypt_loop-step fuel b bs out s e
              ∙ rw (f, append_assoc out (sealed_record schannel c s) more),
          ap (λ r. c ++ r) p ∙ whole,
          (omega arith, omega arith, e, (more, refl, l)),
        )

    encrypt_loop-Encrypts :
        (fuel : ℕ) (plain out : Bytes) (s : S)
        → 0 < sizes.maximum_message
        → length plain < fuel
        → Encrypts fuel plain out s
    unfolding encrypt_loop
    encrypt_loop-Encrypts zero plain out s m l = absurd (omega arith)
    encrypt_loop-Encrypts (suc fuel) [] out s m l =
        inr ([], [], s, ap (λ o. returned o s) (sym (append-nil out)), refl, (refl, refl))
    encrypt_loop-Encrypts (suc fuel) (b ∷ bs) out s m l =
        let c = chunk_of (b ∷ bs) in
        let n = length-take (min (length (b ∷ bs)) sizes.maximum_message) (b ∷ bs) in
        let k = length-drop (length c) (b ∷ bs) in
        let r = schannel.encrypt c s in
        let rest =
          encrypt_loop-Encrypts fuel (drop (length c) (b ∷ bs)) (out ++ sealed_record schannel c s)
            r.4 m (omega (arith, n, k)) in
        elim (Bool-cases (r.0 == sec_e_ok)) [
          | inr e ↦ encrypt_loop-fails fuel b bs out s e
          | inl e ↦ encrypt_loop-seals fuel b bs out s m (ground arith) rest
        ]

    -- With an EncryptMessage that, where it succeeds, fills a header of cbHeader bytes and keeps the size of the data,
    -- with a positive cbMaximumMessage and fuel above the length of the text, SslEncrypt ends, and where no EncryptMessage
    -- fails its result is the records of chunks that make up the text, none of them empty or longer than cbMaximumMessage.
    pub ssl_encrypt-Seals :
        (fuel : ℕ) (plain : Bytes) (s : S)
        → 0 < sizes.maximum_message
        → length plain < fuel
        → ((u : S) × (ssl_encrypt schannel sizes fuel plain s ≡ failed u))
          ⊎ ((cs : List Bytes) × (out : Bytes) × (u : S) × (ssl_encrypt schannel sizes fuel plain s
                ≡ returned out u)
              × (concat cs ≡ plain)
              × Seals cs s out u)
    unfolding ssl_encrypt
    ssl_encrypt-Seals fuel plain s m l = encrypt_loop-Encrypts fuel plain [] s m l
