-- ===== src/SharedMemory/Mapping/Failing.antt =====
-- What the constructor and the destructor leave open, and the mutex that the thread owns.
use win32_experiments.Common.{
  ℕ, ◌≡◌, ◌⊎◌, ◌∙◌, ap, Bool, true, false, Option, none, some, inl, inr, List, ◌∷◌, ◌==◌,
  if◌then◌else◌, Bool-cases, erase, erase_first,
}
use win32_experiments.SharedMemory.Mapping.{Calls, MemoryMappedFile, cleanup, construct, IsMapping}

module _ {S : Type 0} (calls : Calls S) (opened views owned : S → List ℕ)
    (d : IsMapping calls opened views owned) where
  abbrev pub At : List ℕ → List ℕ → List ℕ → S → Type 0
  At o v w s = (opened s ≡ o) × (views s ≡ v) × (owned s ≡ w)

  close-At : (h : ℕ) (s : S) {o v w : List ℕ} → At (h ∷ o) v w s → At o v w (calls.close_handle h s)
  close-At h s {o} (a, b, c) =
      let (x, y, z) = d.closes h s in (x ∙ ap (erase h) a ∙ erase_first h o, y ∙ b, z ∙ c)

  unmap-At : (h : ℕ) (s : S) {o v w : List ℕ} → At o (h ∷ v) w s → At o v w (calls.unmap h s)
  unmap-At h s {v = v} (a, b, c) =
      let (x, y, z) = d.unmaps h s in (x ∙ a, y ∙ ap (erase h) b ∙ erase_first h v, z ∙ c)

  cleanup_none :
      (s : S) {o v w : List ℕ}
      → At o v w s
      → At o v w (cleanup calls (record { view = 0; map_file = 0; mutex = 0 }) s)
  unfolding cleanup
  cleanup_none s h = h

  cleanup_mutex :
      (m : ℕ) (s : S) {o v w : List ℕ}
      → (m == 0) ≡ false
      → At (m ∷ o) v w s
      → At o v w (cleanup calls (record { view = 0; map_file = 0; mutex = m }) s)
  unfolding cleanup
  cleanup_mutex m s e h = rw (cleanup, e) (close-At m s h)

  cleanup_file :
      (f m : ℕ) (s : S) {o v w : List ℕ}
      → (f == 0) ≡ false
      → (m == 0) ≡ false
      → At (f ∷ m ∷ o) v w s
      → At o v w (cleanup calls (record { view = 0; map_file = f; mutex = m }) s)
  unfolding cleanup
  cleanup_file f m s g e h =
      rw (cleanup, g, e) (close-At m (calls.close_handle f s) (close-At f s h))

  cleanup_all :
      (x f m : ℕ) (s : S) {o v w : List ℕ}
      → (x == 0) ≡ false
      → (f == 0) ≡ false
      → (m == 0) ≡ false
      → At (f ∷ m ∷ o) (x ∷ v) w s
      → At o v w (cleanup calls (record { view = x; map_file = f; mutex = m }) s)
  unfolding cleanup
  cleanup_all x f m s u g e h =
      let s2 = calls.unmap x s in
      rw (cleanup, u, g, e) (close-At m (calls.close_handle f s2) (close-At f s2 (unmap-At x s h)))

  -- What the constructor leaves. With an object, the destructor brings back what was before.
  abbrev pub Constructed : List ℕ → List ℕ → List ℕ → Option MemoryMappedFile → S → Type 0
  Constructed o v w none s =
      (opened s ≡ o) × (views s ≡ v) × ((owned s ≡ w) ⊎ ((m : ℕ) × (owned s ≡ m ∷ w)))
  Constructed o v w (some x) s =
      (opened s ≡ x.map_file ∷ x.mutex ∷ o)
      × (views s ≡ x.view ∷ v)
      × (owned s ≡ w)
      × At o v w (cleanup calls x s)

  zero-At :
      (new : Bool) (x : ℕ) (s : S) {o v w : List ℕ}
      → At o v w s
      → At o v w (if new then calls.zero_memory x s else s)
  zero-At true x s (a, b, c) = let (p, q, r) = d.zeroes x s in (p ∙ a, q ∙ b, r ∙ c)
  zero-At false x s h = h

  -- The constructor of MemoryMappedFile, where m_View happens to be null. When it returns, one mutex handle, one mapping
  -- handle and one view are open in addition, the mutex is free for others, and the destructor closes them all. When it
  -- throws, nothing is open in addition, but the thread may own the mutex from then on.
  pub construct-Constructed :
      (new : Bool) (s : S)
      → Constructed
          (opened s)
          (views s)
          (owned s)
          (construct calls new 0 s).0
          (construct calls new 0 s).1
  unfolding construct
  construct-Constructed new s =
      let (m, s2) = calls.mutex new s in
      let s3 = calls.wait m s2 in
      let (f, s4) = calls.mapping new s3 in
      let (x, s5) = calls.map_view f s4 in
      let (mv, mo) = d.mutex_keeps new s in
      let (wo, wv, ww) = d.waits m s2 in
      let (fv, fo) = d.mapping_keeps new s3 in
      let (xo, xw) = d.view_keeps f s4 in
      let held = fo ∙ ww ∙ ap (λ l. m ∷ l) mo in
      let seen = fv ∙ wv ∙ mv in
      elim (Bool-cases (m == 0)) [
        | inl e ↦
            (let (a, b, c) = cleanup_none s2 (d.mutex_none new s e, mv, mo) in
              rw (construct, e) (a, b, inl c))
        | inr e ↦
            (let o3 = wo ∙ d.mutex_some new s e in
              elim (Bool-cases (f == 0)) [
                | inl g ↦
                    (let (a, b, c) =
                        cleanup_mutex m s4 e (d.mapping_none new s3 g ∙ o3, seen, held) in
                      rw (construct, e, g) (a, b, inr (m, c)))
                | inr g ↦
                    (let o4 = d.mapping_some new s3 g ∙ ap (λ l. f ∷ l) o3 in
                      elim (Bool-cases (x == 0)) [
                        | inl u ↦
                            (let (a, b, c) =
                                cleanup_file f m s5 g e
                                  (xo ∙ o4, d.view_none f s4 u ∙ seen, xw ∙ held) in
                              rw (construct, e, g, u) (a, b, inr (m, c)))
                        | inr u ↦
                            (let s6 = if new then calls.zero_memory x s5 else s5 in
                              let (p, q, r) =
                                zero-At new x s5
                                  (xo ∙ o4, d.view_some f s4 u ∙ ap (λ l. x ∷ l) seen, xw ∙ held) in
                              let (po, pv, pw) = d.releases m s6 in
                              let free = pw ∙ ap (erase m) r ∙ erase_first m (owned s) in
                              rw (construct, e, g, u)
                                (
                                  po ∙ p,
                                  pv ∙ q,
                                  free,
                                  cleanup_all x f m (calls.release_mutex m s6) u g e
                                      (po ∙ p, pv ∙ q, free),
                                ))
                      ])
              ])
      ]
