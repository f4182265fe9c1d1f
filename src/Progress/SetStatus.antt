-- ===== src/Progress/SetStatus.antt =====
-- What SetStatus and the other setters leave on show.
use win32_experiments.Common.{
  ℕ, ◌≤◌, ◌<◌, ◌^◌, ◌%◌, ap, sym, ◌∙◌, ◌≡◌, refl, inl, inr, Bool, true, false, not, ◌||◌, [], ◌∷◌,
  ◌==◌, arith, Bool-cases,
}
use win32_experiments.Progress.{
  Text, ProgressStatus, Shown, Window, low_word, within, set_title, set_text, set_value,
  set_progress, set_marquee, text_eq, bool_eq, update_title, update_text, update_marquee,
  update_progress, update_value, set_status,
}

-- The controls show what the status says, the range by the low halves of its bounds.
abbrev pub Mirrors : Shown → ProgressStatus → Type 0
Mirrors v s =
    ((v.title ≡ s.title) × (v.text ≡ s.text))
    × ((v.position ≡ s.value)
        × (((v.low ≡ low_word s.min) × (v.high ≡ low_word s.max)) × (v.marquee ≡ s.marquee)))

-- All of it but the position.
abbrev pub Dressed : Window → ProgressStatus → Type 0
Dressed w s =
    (w.status ≡ s)
    × (((w.shown.title ≡ s.title) × (w.shown.text ≡ s.text))
        × (((w.shown.low ≡ low_word s.min) × (w.shown.high ≡ low_word s.max))
            × (w.shown.marquee ≡ s.marquee)))

text_eq_sound : (a b : Text) → text_eq a b ≡ true → a ≡ b
unfolding text_eq
text_eq_sound [] [] e = refl
text_eq_sound [] (d ∷ b) e = cc
text_eq_sound (c ∷ a) [] e = cc
text_eq_sound (c ∷ a) (d ∷ b) e = elim (Bool-cases (c == d)) [
  | inl f ↦ let g = text_eq_sound a b (ground arith) in let h : c ≡ d = ground arith in cc
  | inr f ↦ absurd (ground arith)
]

bool_eq_sound : (a b : Bool) → bool_eq a b ≡ true → a ≡ b
unfolding bool_eq
bool_eq_sound true true e = refl
bool_eq_sound true false e = cc
bool_eq_sound false true e = cc
bool_eq_sound false false e = refl

-- The value stands in a range whose bounds are below 2^16.
abbrev pub Fits : ProgressStatus → Type 0
Fits s = (s.min ≤ s.value) × ((s.value ≤ s.max) × (s.max < 2 ^ 16))

within_lem :
    (low high v : ℕ)
    → low ≤ v
    → v ≤ high
    → high < 2 ^ 16
    → within (low_word low) (low_word high) v ≡ v
unfolding within low_word
within_lem low high v a b c =
    let e : low % 2 ^ 16 ≡ low = omega arith in
    let f : high % 2 ^ 16 ≡ high = omega arith in rw (e, f) (ground arith)

-- The window has this status, and shows it.
abbrev pub Shows : Window → ProgressStatus → Type 0
Shows w s = (w.status ≡ s) × Mirrors w.shown s

pub set_progress-Shows :
    (low high : ℕ) (p : ProgressStatus) (w : Window)
    → Shows w p
    → Fits (record p { min = low; max = high })
    → Shows (set_progress low high w) (record p { min = low; max = high })
unfolding set_progress
set_progress-Shows low high p w (h, (a, (b, (c, d)))) (x, (y, z)) = (
  ap (λ (q : ProgressStatus). record q { min = low; max = high }) h,
  (
    a,
    (
      ap (within (low_word low) (low_word high)) b ∙ within_lem low high p.value x y z,
      ((refl, refl), d),
    ),
  ),
)

pub set_value-Shows :
    (v : ℕ) (p : ProgressStatus) (w : Window)
    → Dressed w p
    → Fits (record p { value = v })
    → Shows (set_value v w) (record p { value = v })
unfolding set_value
set_value-Shows v p w (h, (a, ((c, e), d))) (x, (y, z)) = (
  ap (λ (q : ProgressStatus). record q { value = v }) h,
  (a, (rw (c, e) (within_lem p.min p.max v x y z), ((c, e), d))),
)

update_title-Shows :
    (s p : ProgressStatus) (w : Window)
    → Shows w p
    → Shows (update_title s w) (record p { title = s.title })
unfolding update_title set_title
update_title-Shows s p w (h, ((t, x), m)) = elim (Bool-cases (text_eq w.status.title s.title)) [
  | inl e ↦
      let z = text_eq_sound w.status.title s.title e in
      let k : p.title ≡ s.title = ap (λ (q : ProgressStatus). q.title) (sym h) ∙ z in
      rw e ((cc), ((t ∙ k, x), m))
  | inr e ↦ rw e (ap (λ (q : ProgressStatus). record q { title = s.title }) h, ((refl, x), m))
]

update_text-Shows :
    (s p : ProgressStatus) (w : Window)
    → Shows w p
    → Shows (update_text s w) (record p { text = s.text })
unfolding update_text set_text
update_text-Shows s p w (h, ((t, x), m)) = elim (Bool-cases (text_eq w.status.text s.text)) [
  | inl e ↦
      let z = text_eq_sound w.status.text s.text e in
      let k : p.text ≡ s.text = ap (λ (q : ProgressStatus). q.text) (sym h) ∙ z in
      rw e ((cc), ((t, x ∙ k), m))
  | inr e ↦ rw e (ap (λ (q : ProgressStatus). record q { text = s.text }) h, ((t, refl), m))
]

update_marquee-Shows :
    (s p : ProgressStatus) (w : Window)
    → Shows w p
    → Shows (update_marquee s w) (record p { marquee = s.marquee })
unfolding update_marquee set_marquee
update_marquee-Shows s p w (h, (a, (b, (c, d)))) =
    elim (Bool-cases (bool_eq w.status.marquee s.marquee)) [
      | inl e ↦
          let z = bool_eq_sound w.status.marquee s.marquee e in
          let k : p.marquee ≡ s.marquee = ap (λ (q : ProgressStatus). q.marquee) (sym h) ∙ z in
          rw e ((cc), (a, (b, (c, d ∙ k))))
      | inr e ↦
          rw e
            (ap (λ (q : ProgressStatus). record q { marquee = s.marquee }) h, (a, (b, (c, refl))))
    ]

-- The range of SetStatus, before its value.
update_progress-Dressed :
    (s p : ProgressStatus) (w : Window)
    → Shows w p
    → Dressed (update_progress s w) (record p { min = s.min; max = s.max })
unfolding update_progress set_progress
update_progress-Dressed s p w (h, (a, (b, ((c, f), d)))) =
    elim (Bool-cases (not (w.status.max == s.max) || not (w.status.min == s.min))) [
      | inl e ↦ rw e (
        ap (λ (q : ProgressStatus). record q { min = s.min; max = s.max }) h,
        (a, ((refl, refl), d)),
      )
      | inr e ↦
          let x : w.status.max ≡ s.max = ground arith in
          let y : w.status.min ≡ s.min = ground arith in
          let i : p.max ≡ s.max = ap (λ (q : ProgressStatus). q.max) (sym h) ∙ x in
          let j : p.min ≡ s.min = ap (λ (q : ProgressStatus). q.min) (sym h) ∙ y in
          rw e ((cc), (a, ((c ∙ ap low_word j, f ∙ ap low_word i), d)))
    ]

-- A value that SetStatus does not send is in the new range, so that the control has kept it.
update_progress-position :
    (s p : ProgressStatus) (w : Window)
    → Shows w p
    → Fits s
    → p.value ≡ s.value
    → (update_progress s w).shown.position ≡ s.value
unfolding update_progress set_progress
update_progress-position s p w (h, (a, (b, m))) (x, (y, z)) k =
    elim (Bool-cases (not (w.status.max == s.max) || not (w.status.min == s.min))) [
      | inl e ↦ rw e (
          ap (within (low_word s.min) (low_word s.max)) (b ∙ k)
          ∙ within_lem s.min s.max s.value x y z)
      | inr e ↦ rw e (b ∙ k)
    ]

update_value-Shows :
    (s p : ProgressStatus) (w : Window)
    → Dressed w p
    → (p.value ≡ s.value → w.shown.position ≡ s.value)
    → Fits (record p { value = s.value })
    → Shows (update_value s w) (record p { value = s.value })
unfolding update_value
update_value-Shows s p w (h, (a, (c, d))) k f = elim (Bool-cases (w.status.value == s.value)) [
  | inl e ↦
      let z : w.status.value ≡ s.value = ground arith in
      let v : p.value ≡ s.value = ap (λ (q : ProgressStatus). q.value) (sym h) ∙ z in
      rw e ((cc), (a, (k v, (c, d))))
  | inr e ↦ rw e (set_value-Shows s.value p w (h, (a, (c, d))) f)
]

-- SetStatus of a value in its range, on a window that shows its status, leaves a window with the new status that shows it,
-- though it sends only what differs from the old status.
pub set_status-Shows :
    (s p : ProgressStatus) (w : Window) → Shows w p → Fits s → Shows (set_status s w) s
unfolding set_status
set_status-Shows s p w m f =
    let a = update_text-Shows s _ _ (update_title-Shows s p w m) in
    let b = update_marquee-Shows s _ _ a in
    update_value-Shows s _ _ (update_progress-Dressed s _ _ b) (update_progress-position s _ _ b f)
      f
