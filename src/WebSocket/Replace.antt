-- ===== src/WebSocket/Replace.antt =====
-- Replace against a relation that does not mention positions.
use win32_experiments.Common.{
  ℕ, zero, suc, ◌+◌, ◌≤◌, ◌<◌, ◌≡◌, ◌≢◌, refl, sym, ap, ◌∙◌, ◌⊎◌, inl, inr, true, false, [], ◌∷◌,
  ◌++◌, append_assoc, none, some, arith, Bool-cases, Option-cases, length, take, drop,
  length-append, take-length-append, drop-length-append, ◌==◌,
}
use win32_experiments.WebSocket.{Text, starts_with, find, replace_loop, replace}

-- `from` does not stand anywhere in the text.
abbrev pub Lacks : Text → Text → Type 0
Lacks from text = (p q : Text) → text ≢ p ++ (from ++ q)

-- In `before ++ from ++ rest`, `from` stands nowhere earlier than behind `before`.
abbrev pub IsFirst : Text → Text → Text → Type 0
IsFirst from before rest =
    (p q : Text) → before ++ (from ++ rest) ≡ p ++ (from ++ q) → length before ≤ length p

-- From the left, each first occurrence of `from` gives way to `to`.
pub data Replaces (from to : Text) : Text → Text → Type 0 where
  finished : (text : Text) → Lacks from text → Replaces from to text text
  found :
      (before rest out : Text)
      → IsFirst from before rest
      → Replaces from to rest out
      → Replaces from to (before ++ (from ++ rest)) (before ++ (to ++ out))

starts_with_sound :
    (from text : Text) → starts_with from text ≡ true → (rest : Text) × (text ≡ from ++ rest)
unfolding starts_with
starts_with_sound [] text h = (text, refl)
starts_with_sound (c ∷ from) [] h = cc
starts_with_sound (c ∷ from) (d ∷ text) h = elim (Bool-cases (c == d)) [
  | inl e ↦
      let (rest, r) = starts_with_sound from text (ground arith) in
      let same : c ≡ d = ground arith in (rest, rw (same, r))
  | inr e ↦ absurd (ground arith)
]

starts_with_complete : (from rest : Text) → starts_with from (from ++ rest) ≡ true
unfolding starts_with
starts_with_complete [] rest = refl
starts_with_complete (c ∷ from) rest = ground (arith, starts_with_complete from rest)

find_nil : (from : Text) (k : ℕ) → find from [] ≡ some k → (starts_with from [] ≡ true) × (k ≡ 0)
unfolding find
find_nil from k h = ground arith

find_nil_none : (from : Text) → find from [] ≡ none → starts_with from [] ≡ false
unfolding find
find_nil_none from h = ground arith

find_cons_none :
    (from : Text) (c : ℕ) (text : Text)
    → find from (c ∷ text) ≡ none
    → (starts_with from (c ∷ text) ≡ false) × (find from text ≡ none)
unfolding find
find_cons_none from c text h = ground arith

find_cons_some :
    (from : Text) (c k : ℕ) (text : Text)
    → find from (c ∷ text) ≡ some k
    → ((starts_with from (c ∷ text) ≡ true) × (k ≡ 0))
      ⊎ ((starts_with from (c ∷ text) ≡ false)
          × ((j : ℕ) × (find from text ≡ some j) × (k ≡ suc j)))
unfolding find
find_cons_some from c k text h = elim (Bool-cases (starts_with from (c ∷ text))) [
  | inl e ↦ inl (e, ground arith)
  | inr e ↦ elim (Option-cases (find from text)) [
    | inl n ↦ absurd (ground arith)
    | inr (j, s) ↦ inr (e, (j, s, ground arith))
  ]
]

-- A text that does not begin with `from` is not `from` and more.
not_at_start : (from text q : Text) → starts_with from text ≡ false → text ≢ from ++ q
not_at_start from text q h e = let k = starts_with_complete from q in let z = rw e at h in cc

find-none : (from text : Text) → find from text ≡ none → Lacks from text
find-none from [] h [] q e = not_at_start from [] q (find_nil_none from h) e
find-none from [] h (x ∷ p) q e = cc
find-none from (c ∷ text) h [] q e =
    not_at_start from (c ∷ text) q (find_cons_none from c text h).0 e
find-none from (c ∷ text) h (x ∷ p) q e =
    find-none from text (find_cons_none from c text h).1 p q (cc)

-- The text split at what `find` found.
abbrev Found : Text → Text → ℕ → Type 0
Found from text k =
    (before : Text) × (rest : Text) × (text ≡ before ++ (from ++ rest))
    × (length before ≡ k)
    × IsFirst from before rest

find-some : (from text : Text) (k : ℕ) → find from text ≡ some k → Found from text k
find-some from [] k h =
    let (s, z) = find_nil from k h in
    let (rest, e) = starts_with_sound from [] s in ([], rest, e, sym z, λ p q _. omega arith)
find-some from (c ∷ text) k h = elim (find_cons_some from c k text h) [
  | inl (s, z) ↦
      let (rest, e) = starts_with_sound from (c ∷ text) s in
      ([], rest, e, sym z, λ p q _. omega arith)
  | inr (s, (j, f, z)) ↦
      let (before, rest, e, l, first) = find-some from text j f in
      (c ∷ before, rest, rw e, omega arith, later before rest s e first)
]
  where
    later :
        (before rest : Text)
        → starts_with from (c ∷ text) ≡ false
        → text ≡ before ++ (from ++ rest)
        → IsFirst from before rest
        → IsFirst from (c ∷ before) rest
    later before rest s e first [] q f = absurd (not_at_start from (c ∷ text) q s (rw e f))
    later before rest s e first (x ∷ p) q f = let g = first p q (cc) in omega arith

replace_loop-none :
    (fuel : ℕ) (from to rest new : Text)
    → find from rest ≡ none
    → replace_loop (suc fuel) from to rest new ≡ some (new ++ rest)
unfolding replace_loop
replace_loop-none fuel from to rest new e = ground arith

replace_loop-some :
    (fuel k : ℕ) (from to rest new : Text)
    → find from rest ≡ some k
    → replace_loop (suc fuel) from to rest new
      ≡ replace_loop fuel from to (drop (k + length from) rest) ((new ++ take k rest) ++ to)
unfolding replace_loop
replace_loop-some fuel k from to rest new e = ground arith

-- The loop steps over the occurrence that `find` found.
drop_found :
    (before from rest : Text) → drop (length before + length from) (before ++ (from ++ rest)) ≡ rest
drop_found [] from rest =
    let e : 0 + length from ≡ length from = omega arith in rw e (drop-length-append from rest)
drop_found (x ∷ before) from rest =
    let e : suc (length before) + length from ≡ suc (length before + length from) = omega arith in
    rw e (drop_found before from rest)

length_found :
    (before from rest : Text) → from ≢ [] → length rest < length (before ++ (from ++ rest))
length_found before [] rest n = absurd (n refl)
length_found before (c ∷ from) rest n =
    omega (arith, length-append before (c ∷ (from ++ rest)), length-append from rest)

-- From any state of the loop, the rest of the text is replaced behind what is written.
abbrev Written : ℕ → Text → Text → Text → Text → Type 0
Written fuel from to rest new =
    (out : Text) × (replace_loop fuel from to rest new ≡ some (new ++ out))
    × Replaces from to rest out

Written-found :
    (fuel : ℕ) (from to before rest new : Text)
    → find from (before ++ (from ++ rest)) ≡ some (length before)
    → IsFirst from before rest
    → Written fuel from to rest ((new ++ before) ++ to)
    → Written (suc fuel) from to (before ++ (from ++ rest)) new
Written-found fuel from to before rest new e first (out, w, r) =
    let s = replace_loop-some fuel (length before) from to (before ++ (from ++ rest)) new e in
    let t = rw (drop_found before from rest, take-length-append before (from ++ rest), w) at s in
    (
      before ++ (to ++ out),
      t ∙ ap some (append_assoc (new ++ before) to out ∙ append_assoc new before (to ++ out)),
      found before rest out first r,
    )

replace_loop-Replaces :
    (fuel : ℕ) (from to rest new : Text)
    → from ≢ []
    → length rest < fuel
    → Written fuel from to rest new
replace_loop-Replaces zero from to rest new n h = elim h [ ]
replace_loop-Replaces (suc fuel) from to rest new n h = elim (Option-cases (find from rest)) [
  | inl e ↦ (rest, replace_loop-none fuel from to rest new e, finished rest (find-none from rest e))
  | inr (k, e) ↦
      let (before, rest', split, l, first) = find-some from rest k e in
      let shorter = length_found before from rest' n in
      let all = ap length split in
      let tail = replace_loop-Replaces fuel from to rest' ((new ++ before) ++ to) n (omega arith) in
      let there = ap (find from) (sym split) ∙ (e ∙ ap some (sym l)) in
      rw split (Written-found fuel from to before rest' new there first tail)
]

-- Replace with a `from` that is not empty ends, and within one round for each character of the source:
-- what it returns is the source with, from the left, each first occurrence of `from` given way to
-- `to`, and `from` nowhere in what is left behind the last one.
pub replace-Replaces :
    (fuel : ℕ) (source from to : Text)
    → from ≢ []
    → length source < fuel
    → (out : Text) × (replace fuel source from to ≡ some out) × Replaces from to source out
unfolding replace
replace-Replaces fuel source from to n h = replace_loop-Replaces fuel from to source [] n h

find_empty : (text : Text) → find [] text ≡ some 0
unfolding find starts_with
find_empty [] = refl
find_empty (c ∷ text) = refl

replace_loop_empty : (fuel : ℕ) (to rest new : Text) → replace_loop fuel [] to rest new ≡ none
unfolding replace_loop
replace_loop_empty zero to rest new = refl
replace_loop_empty (suc fuel) to rest new =
    replace_loop-some fuel 0 [] to rest new (find_empty rest) ∙ replace_loop_empty fuel to rest _

-- Replace with an empty `from` never ends: the empty string is found where the loop stands, and the
-- loop does not move.
pub replace_empty : (fuel : ℕ) (source to : Text) → replace fuel source [] to ≡ none
unfolding replace
replace_empty fuel source to = replace_loop_empty fuel to source []
