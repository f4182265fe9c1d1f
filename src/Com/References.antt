-- ===== src/Com/References.antt =====
-- The counts of the references against those that a client holds.
use win32_experiments.Common.{
  ℕ, zero, suc, ◌+◌, ◌-◌, ◌%◌, ◌^◌, ◌≤◌, ◌<◌, ◌≡◌, refl, sym, ap, ◌∙◌, inl, inr, Bool, true, false,
  [], ◌∷◌, ◌++◌, Option, none, some, arith, length, set, ◌==◌, if◌then◌else◌, Bool-cases,
}
use win32_experiments.Com.{
  Iid, iid_unknown, iid_add, iid_class_factory, iid_other, AddObj, Heap, Server, deref, store,
  new_obj, World, adjust, on_object, Call, creates, queries, adds_ref, releases, sets_first,
  sets_second, call, created, create_instance, query_interface, queried, add_ref, release,
  set_first_number, set_second_number, empty_world,
}

pub deref-set :
    (heap : Heap) (p q : ℕ) (left : Option AddObj) (o : AddObj)
    → deref heap p ≡ some o
    → deref (set heap p left) q ≡ (if p == q then left else deref heap q)
unfolding deref
deref-set [] p q left o e = cc
deref-set (x ∷ heap) zero zero left o e = refl
deref-set (x ∷ heap) zero (suc q) left o e = ground arith
deref-set (x ∷ heap) (suc p) zero left o e = ground arith
deref-set (x ∷ heap) (suc p) (suc q) left o e = ground (arith, deref-set heap p q left o e)

pub deref-append :
    (heap : Heap) (q : ℕ) (o : AddObj)
    → deref (heap ++ some o ∷ []) q ≡ (if length heap == q then some o else deref heap q)
unfolding deref
deref-append [] zero o = refl
deref-append [] (suc q) o = ground arith
deref-append (x ∷ heap) zero o = ground arith
deref-append (x ∷ heap) (suc q) o = ground (arith, deref-append heap q o)

pub deref_end : (heap : Heap) → deref heap (length heap) ≡ none
unfolding deref
deref_end [] = refl
deref_end (x ∷ heap) = deref_end heap

-- An object counts the references that are held; to a deleted object none is.
abbrev pub Counts : Option AddObj → ℕ → Type 0
Counts none n = n ≡ 0
Counts (some o) n = o.ref_count ≡ n

-- The counts are right, and below a bound.
abbrev pub Counted : ℕ → World → Type 0
Counted n w = (p : ℕ) → Counts (deref w.server.heap p) (w.held p) × (w.held p ≤ n)

-- The client uses a pointer only while it holds a reference to it.
abbrev pub Allowed : World → Call → Type 0
Allowed w (creates aggregated iid) = Unit {0}
Allowed w (queries p iid) = 0 < w.held p
Allowed w (adds_ref p) = 0 < w.held p
Allowed w (releases p) = 0 < w.held p
Allowed w (sets_first p n) = 0 < w.held p
Allowed w (sets_second p n) = 0 < w.held p

-- So many allowed calls, one after the other.
pub data Runs (w : World) : ℕ → World → Type 0 where
  at_start : Runs w 0 w
  calls :
      {n : ℕ} {v u : World} (c : Call)
      → Runs w n v
      → Allowed v c
      → call v c ≡ some u
      → Runs w (suc n) u

live :
    (x : Option AddObj) (n : ℕ)
    → Counts x n
    → 0 < n
    → (o : AddObj) × (x ≡ some o) × (o.ref_count ≡ n)
live none n c h = absurd (omega arith)
live (some o) n c h = (o, refl, c)

-- The call returns, and the counts stay right.
abbrev pub Returns : ℕ → World → Call → Type 0
Returns n w c = (u : World) × (call w c ≡ some u) × Counted (suc n) u

-- Counts that change at one pointer only.
pub Counted-adjust :
    (n p m : ℕ) (w : World) (s : Server) (left : Option AddObj)
    → Counted n w
    → ((q : ℕ) → deref s.heap q ≡ (if p == q then left else deref w.server.heap q))
    → Counts left m
    → m ≤ suc n
    → Counted (suc n) (record { server = s; held = adjust w.held p m })
Counted-adjust n p m w s left c d k h q = elim (Bool-cases (p == q)) [
  | inl e ↦ rw (d q, e) (k, h)
  | inr e ↦ rw (d q, e) ((c q).0, let z = (c q).1 in omega arith)
]

pub on_object_live :
    (p : ℕ) (w : World) (method : AddObj → Option AddObj × ℕ) (o : AddObj)
    → deref w.server.heap p ≡ some o
    → on_object method p w
      ≡ some
          (record { server = store w.server p (method o).0; held = adjust w.held p (method o).1 })
unfolding on_object
on_object_live p w method o e = rw (e, on_object)

on_object-Counted :
    (n p : ℕ) (w : World) (method : AddObj → Option AddObj × ℕ)
    → Counted n w
    → 0 < w.held p
    → ((o : AddObj)
        → o.ref_count ≡ w.held p
        → Counts (method o).0 (method o).1 × ((method o).1 ≤ suc n))
    → (u : World) × (on_object method p w ≡ some u) × Counted (suc n) u
on_object-Counted n p w method c h keeps =
    let (o, e, k) = live (deref w.server.heap p) (w.held p) (c p).0 h in
    let (counts, bound) = keeps o k in
    let u : World = record {
      server = store w.server p (method o).0;
      held = adjust w.held p (method o).1;
    } in
    (
      u,
      on_object_live p w method o e,
      Counted-adjust n p (method o).1 w (store w.server p (method o).0) (method o).0 c
          (λ q. deref-set w.server.heap p q (method o).0 o e) counts bound,
    )

queried-Counts :
    (iid : Iid) (n m : ℕ) (o : AddObj)
    → o.ref_count ≡ m
    → m ≤ n
    → suc n < 2 ^ 32
    → Counts (queried iid m o).0 (queried iid m o).1 × ((queried iid m o).1 ≤ suc n)
unfolding queried query_interface add_ref
queried-Counts iid_unknown n m o e h w = (omega arith, omega arith)
queried-Counts iid_add n m o e h w = (omega arith, omega arith)
queried-Counts iid_class_factory n m o e h w = (e, omega arith)
queried-Counts iid_other n m o e h w = (e, omega arith)

release-Counts :
    (m : ℕ) (o : AddObj) → o.ref_count ≡ m → 0 < m → m < 2 ^ 32 → Counts (release o) (m - 1)
unfolding release
release-Counts m o e h w =
    let count : (o.ref_count + (2 ^ 32 - 1)) % 2 ^ 32 ≡ m - 1 = omega arith in
    rw count (elim (Bool-cases ((m - 1) == 0)) [ inl z ↦ rw z (ground arith) | inr z ↦ rw z refl ])

held_end : (n : ℕ) (w : World) → Counted n w → w.held (length w.server.heap) ≡ 0
held_end n w c =
    let h : Counts (deref w.server.heap (length w.server.heap)) (w.held (length w.server.heap)) =
      (c (length w.server.heap)).0 in
    rw (deref_end w.server.heap) at h

-- A new object with one reference, which the client holds.
given-Counted :
    (n : ℕ) (w : World) (o : AddObj)
    → Counted n w
    → o.ref_count ≡ 1
    → Counted (suc n) (record {
      server = record (w.server) { heap = w.server.heap ++ some o ∷ [] };
      held = adjust w.held (length w.server.heap) (w.held (length w.server.heap) + 1);
    })
given-Counted n w o c one =
    let z = held_end n w c in
    Counted-adjust n (length w.server.heap) (w.held (length w.server.heap) + 1) w
      (record (w.server) { heap = w.server.heap ++ some o ∷ [] }) (some o) c
      (λ q. deref-append w.server.heap q o) (omega arith) (omega arith)

-- A new object to which no reference was given out.
lost-Counted :
    (n : ℕ) (w : World)
    → Counted n w
    → Counted
        (suc n)
        (record w { server = record (w.server) { heap = w.server.heap ++ some new_obj ∷ [] } })
lost-Counted n w c q = elim (Bool-cases (length w.server.heap == q)) [
  | inl e ↦
      let same : length w.server.heap ≡ q = ground arith in
      let z = held_end n w c in
      rw (deref-append w.server.heap q new_obj, e)
        (sym (ap w.held (sym same) ∙ z), let b = (c q).1 in omega arith)
  | inr e ↦ rw (deref-append w.server.heap q new_obj, e) ((c q).0, let b = (c q).1 in omega arith)
]

created-Counted :
    (n : ℕ) (w : World) (aggregated : Bool) (iid : Iid)
    → Counted n w
    → Counted (suc n) (created w (create_instance aggregated iid w.server))
unfolding created create_instance query_interface add_ref
created-Counted n w true iid c = λ p. ((c p).0, let z = (c p).1 in omega arith)
created-Counted n w false iid_unknown c = given-Counted n w (add_ref new_obj) c (omega arith)
created-Counted n w false iid_add c = given-Counted n w (add_ref new_obj) c (omega arith)
created-Counted n w false iid_class_factory c = lost-Counted n w c
created-Counted n w false iid_other c = lost-Counted n w c

-- The next call of a client that keeps to its references.
call-Returns :
    (n : ℕ) (w : World) (c : Call) → Counted n w → suc n < 2 ^ 32 → Allowed w c → Returns n w c
unfolding call set_first_number set_second_number
call-Returns n w (creates aggregated iid) k b h = (
  created w (create_instance aggregated iid w.server),
  refl,
  created-Counted n w aggregated iid k,
)
call-Returns n w (queries p iid) k b h =
    on_object-Counted n p w (queried iid (w.held p)) k h
      (λ o e. queried-Counts iid n (w.held p) o e (k p).1 b)
call-Returns n w (adds_ref p) k b h =
    on_object-Counted n p w (λ o. (some (add_ref o), w.held p + 1)) k h
      (λ o e. queried-Counts iid_add n (w.held p) o e (k p).1 b)
call-Returns n w (releases p) k b h =
    let bound = (k p).1 in
    on_object-Counted n p w (λ o. (release o, w.held p - 1)) k h
      (λ o e. (release-Counts (w.held p) o e h (omega arith), omega arith))
call-Returns n w (sets_first p x) k b h =
    let bound = (k p).1 in
    on_object-Counted n p w (λ o. (some (set_first_number x o), w.held p)) k h
      (λ o e. (e, omega arith))
call-Returns n w (sets_second p x) k b h =
    let bound = (k p).1 in
    on_object-Counted n p w (λ o. (some (set_second_number x o), w.held p)) k h
      (λ o e. (e, omega arith))

Runs-Counted : {n : ℕ} {w : World} → Runs empty_world n w → n < 2 ^ 32 → Counted n w
unfolding deref
Runs-Counted at_start h = λ p. (refl, omega arith)
Runs-Counted (calls {n = n} {v = v} {u = next} c r a e) h =
    let before = Runs-Counted r (omega arith) in
    let (u, f, k) = call-Returns n v c before h a in let same : next ≡ u = cc in rw same k

-- After any allowed calls, fewer than 2^32 - 1, from a server without objects: an object's count is the
-- number of references that the client holds to it, none is held to a deleted object, and every call
-- that is allowed next finds its object live.
pub Runs-Returns :
    {n : ℕ} {w : World} (c : Call)
    → Runs empty_world n w
    → suc n < 2 ^ 32
    → Allowed w c
    → Counted n w × Returns n w c
Runs-Returns {n = n} {w = w} c r h a =
    let k = Runs-Counted r (omega arith) in (k, call-Returns n w c k h a)
