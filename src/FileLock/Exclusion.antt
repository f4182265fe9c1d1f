-- ===== src/FileLock/Exclusion.antt =====
-- At most one lock is owned.
use win32_experiments.Common.{
  ◌||◌, Bool, ℕ, ◌≡◌, ◌≢◌, refl, sym, ap, ◌∙◌, ◌⊎◌, inl, inr, true, false, List, [], ◌∷◌, ◌==◌,
  if◌then◌else◌, arith, Bool-cases,
}
use win32_experiments.FileLock.{
  Files, World, update, lock, unlock, try_lock, is_locked, invalid_handle_value, Action, locks,
  tries, unlocks, act, run,
}

module _ {E : Type 0} (files : Files E) (owner : E → ℕ) where
  -- What Windows documents, with `owner` the handle that is open on the file, or zero where the file does
  -- not exist: CREATE_NEW fails on a file that exists; where it fails it changes nothing, else its handle
  -- is the open one; closing the open handle deletes the file.
  pub record Documented : Type 0 where
    pub exists_fails : (e : E) → owner e ≢ 0 → ((files.create_new e).0 ≡ invalid_handle_value)
    pub creates :
        (e : E)
        → owner (files.create_new e).1 ≡ (
            if (files.create_new e).0 == invalid_handle_value
            then owner e
            else (files.create_new e).0)
    pub deletes : (e : E) → owner (files.close_handle (owner e) e) ≡ 0

  -- Every lock that has a handle has the one that is open on the file, and only one lock has it.
  abbrev pub IsExclusive : World E → Type 0
  IsExclusive w =
      ((i : ℕ) → w.file_handle i ≢ 0 → owner w.env ≡ w.file_handle i)
      × ((i j : ℕ) → w.file_handle i ≢ 0 → w.file_handle j ≢ 0 → i ≡ j)

  -- Of a lock whose handle was set, and of any other one.
  update_nonzero : (f : ℕ → ℕ) (i h j : ℕ) → update f i h j ≢ 0 → (j ≡ i) ⊎ (f j ≢ 0)
  update_nonzero f i h j n = elim (Bool-cases (i == j)) [
    | inl e ↦ inl (ground arith)
    | inr e ↦ inr (ground arith)
  ]

  update_self : (f : ℕ → ℕ) (i h : ℕ) → update f i h i ≡ h
  update_self f i h = ground arith

  update_zero : (f : ℕ → ℕ) (i j : ℕ) → update f i 0 j ≢ 0 → (j ≢ i) × (f j ≢ 0)
  update_zero f i j n = elim (Bool-cases (i == j)) [
    | inl e ↦ absurd (ground arith)
    | inr e ↦ (ground arith, ground arith)
  ]

  no_file :
      (w : World E)
      → Documented
      → (files.create_new w.env).0 ≢ invalid_handle_value
      → owner w.env ≡ 0
  no_file w d n = elim (Bool-cases (owner w.env == 0)) [
    | inl e ↦ ground arith
    | inr e ↦ absurd (n (d.exists_fails w.env (ground arith)))
  ]

  no_lock : (w : World E) → IsExclusive w → owner w.env ≡ 0 → (j : ℕ) → w.file_handle j ≡ 0
  no_lock w (a, b) e j = elim (Bool-cases (w.file_handle j == 0)) [
    | inl z ↦ ground arith
    | inr z ↦ let n : w.file_handle j ≢ 0 = ground arith in let f = a j n in absurd (ground arith)
  ]

  module _ (d : Documented) where
    -- The new handle is the open one, and the only one.
    owned-IsExclusive :
        (i : ℕ) (w : World E)
        → IsExclusive w
        → (files.create_new w.env).0 ≢ invalid_handle_value
        → IsExclusive (record {
          env = (files.create_new w.env).1;
          file_handle = update w.file_handle i (files.create_new w.env).0;
        })
    owned-IsExclusive i w x n =
        let free = no_file w d n in
        let others = no_lock w x free in
        let h = (files.create_new w.env).0 in
        let open_now : owner (files.create_new w.env).1 ≡ h =
          let c = d.creates w.env in ground arith in
        let only : (j : ℕ) → update w.file_handle i h j ≢ 0 → j ≡ i = λ j m.
          (elim (update_nonzero w.file_handle i h j m) [
            | inl e ↦ e
            | inr q ↦ absurd (q (others j))
          ]) in
        (
          λ j m.
              (let e = only j m in
                open_now
                ∙ (sym (update_self w.file_handle i h) ∙ ap (update w.file_handle i h) (sym e))),
          λ j k m o. only j m ∙ sym (only k o),
        )

    kept-IsExclusive :
        (w : World E)
        → IsExclusive w
        → ((files.create_new w.env).0 == 0) || ((files.create_new w.env).0 == invalid_handle_value)
          ≡ true
        → IsExclusive (record w { env = (files.create_new w.env).1 })
    kept-IsExclusive w (a, b) f = (
      λ j n.
          (let e = a j n in
            let x = d.exists_fails w.env (ground arith) in let c = d.creates w.env in ground arith),
      b,
    )

    lock-IsExclusive : (i : ℕ) (w : World E) → IsExclusive w → IsExclusive (lock files i w).1
    unfolding lock
    lock-IsExclusive i w x = elim (Bool-cases (w.file_handle i == 0)) [
      | inr own ↦ rw own x
      | inl free ↦
          elim (Bool-cases (
            ((files.create_new w.env).0 == 0)
            || ((files.create_new w.env).0 == invalid_handle_value))) [
              | inl z ↦ rw (free, z) (kept-IsExclusive w x z)
              | inr z ↦ rw (free, z) (owned-IsExclusive i w x (ground arith))
            ]
    ]

    closed-IsExclusive :
        (i : ℕ) (w : World E)
        → IsExclusive w
        → w.file_handle i ≢ 0
        → IsExclusive (record {
          env = files.close_handle (w.file_handle i) w.env;
          file_handle = update w.file_handle i 0;
        })
    closed-IsExclusive i w (a, b) n =
        let none_left : (j : ℕ) → update w.file_handle i 0 j ≢ 0 → ⊥ =
          λ j m. (let (other, q) = update_zero w.file_handle i j m in other (b j i q n)) in
        (λ j m. absurd (none_left j m), λ j k m o. absurd (none_left j m))

    unlock-IsExclusive : (i : ℕ) (w : World E) → IsExclusive w → IsExclusive (unlock files i w)
    unfolding unlock
    unlock-IsExclusive i w x = elim (Bool-cases (w.file_handle i == 0)) [
      | inl free ↦ rw free x
      | inr own ↦ rw own (closed-IsExclusive i w x (ground arith))
    ]

    run-IsExclusive :
        (actions : List Action) (w : World E) → IsExclusive w → IsExclusive (run files actions w)
    unfolding run act try_lock
    run-IsExclusive [] w x = x
    run-IsExclusive (locks i ∷ rest_actions) w x =
        run-IsExclusive rest_actions (lock files i w).1 (lock-IsExclusive i w x)
    run-IsExclusive (tries i ∷ rest_actions) w x =
        run-IsExclusive rest_actions (lock files i w).1 (lock-IsExclusive i w x)
    run-IsExclusive (unlocks i ∷ rest_actions) w x =
        run-IsExclusive rest_actions (unlock files i w) (unlock-IsExclusive i w x)

    -- Where one is locked, no other one is.
    others_unlocked :
        (w : World E) (i j : ℕ)
        → IsExclusive w
        → is_locked files i w ≡ true
        → j ≢ i
        → is_locked files j w ≡ false
    unfolding is_locked
    others_unlocked w i j x p q = elim (Bool-cases (w.file_handle j == 0)) [
      | inl e ↦ rw e refl
      | inr e ↦ absurd (q (x.1 j i (ground arith) (ground arith)))
    ]

    -- try_lock of a lock that is not owned, while another one is.
    refused :
        (w : World E) (i j : ℕ)
        → IsExclusive w
        → is_locked files i w ≡ true
        → j ≢ i
        → try_lock files j w ≡ (false, record w { env = (files.create_new w.env).1 })
    unfolding try_lock lock is_locked
    refused w i j x p q =
        let own = x.0 i (ground arith) in
        let fails = d.exists_fails w.env (ground arith) in
        let none_kept : (w.file_handle j == 0) ≡ true =
          let other = others_unlocked w i j x p q in ground arith in
        let tested : ((files.create_new w.env).0 == 0)
              || ((files.create_new w.env).0 == invalid_handle_value)
            ≡ true =
          ground arith in
        rw (none_kept, tested) refl

    owned_again :
        (w : World E) (i : ℕ) → is_locked files i w ≡ true → try_lock files i w ≡ (true, w)
    unfolding try_lock lock is_locked
    owned_again w i p = let own : (w.file_handle i == 0) ≡ false = ground arith in rw own refl

    -- With files that behave as Windows documents, and from a state in which nobody owns a lock, after any
    -- locks, tries and unlocks of any processes: where one is locked no other one is, a try_lock of
    -- another one answers false and changes no lock, and a try_lock of the one that is locked answers
    -- true and changes nothing.
    pub run-exclusive :
        (actions : List Action) (w : World E) (i j : ℕ)
        → ((k : ℕ) → w.file_handle k ≡ 0)
        → is_locked files i (run files actions w) ≡ true
        → j ≢ i
        → (is_locked files j (run files actions w) ≡ false)
          × (((try_lock files j (run files actions w)).0 ≡ false)
              × (((try_lock files j (run files actions w)).1.file_handle
                    ≡ (run files actions w).file_handle)
                  × (try_lock files i (run files actions w) ≡ (true, run files actions w))))
    run-exclusive actions w i j free p q =
        let v = run files actions w in
        let x =
          run-IsExclusive actions w (λ k n. absurd (n (free k)), λ k l n m. absurd (n (free k))) in
        let no = refused v i j x p q in
        (
          others_unlocked v i j x p q,
          (
            ap (λ (r : Bool × World E). r.0) no,
            (ap (λ (r : Bool × World E). r.1.file_handle) no, owned_again v i p),
          ),
        )

    -- An unlock of a lock that is owned, where the open handle is the one of every lock that has one:
    -- behind it no lock is owned, and the file is gone.
    pub unlock-gone :
        (i : ℕ) (w : World E)
        → IsExclusive w
        → w.file_handle i ≢ 0
        → (owner (unlock files i w).env ≡ 0) × ((j : ℕ) → (unlock files i w).file_handle j ≡ 0)
    unfolding unlock
    unlock-gone i w x n =
        let own : (w.file_handle i == 0) ≡ false = ground arith in
        let mine = x.0 i n in
        let gone : owner (files.close_handle (w.file_handle i) w.env) ≡ 0 =
          ap (λ h. owner (files.close_handle h w.env)) (sym mine) ∙ d.deletes w.env in
        let t = closed-IsExclusive i w x n in rw own (gone, no_lock _ t gone)
