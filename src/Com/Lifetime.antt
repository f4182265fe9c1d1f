-- ===== src/Com/Lifetime.antt =====
-- Objects that outlive every reference, and the DLL's answer about its objects.
use win32_experiments.Common.{
  ℕ, suc, ◌+◌, ◌<◌, ◌^◌, ◌≡◌, ◌≢◌, refl, sym, ap, ◌∙◌, inl, inr, Bool, true, false, [], ◌∷◌, ◌++◌,
  Option, none, some, arith, length, ◌==◌, Option-cases,
}
use win32_experiments.Com.{
  Iid, iid_unknown, iid_add, iid_class_factory, iid_other, s_ok, e_no_interface, AddObj, deref,
  store, new_obj, World, adjust, on_object, Call, creates, queries, add_ref, adds_ref, releases,
  sets_first, sets_second, call, created, create_instance, query_interface, empty_world,
  dll_can_unload_now,
}
use win32_experiments.Com.References.{
  Counts, Runs, at_start, calls, Allowed, Runs-Returns, deref-set, deref-append, deref_end,
  on_object_live,
}

-- A new object to which nobody holds a reference.
abbrev pub Lost : ℕ → World → Type 0
Lost p w = (deref w.server.heap p ≡ some new_obj) × (w.held p ≡ 0)

on_object_dead :
    (p : ℕ) (w : World) (method : AddObj → Option AddObj × ℕ)
    → deref w.server.heap p ≡ none
    → on_object method p w ≡ none
unfolding on_object
on_object_dead p w method e = rw (e, on_object)

on_object-Lost :
    (p q : ℕ) (w u : World) (method : AddObj → Option AddObj × ℕ)
    → Lost p w
    → 0 < w.held q
    → on_object method q w ≡ some u
    → Lost p u
on_object-Lost p q w u method (at_p, none_held) h r = elim (Option-cases (deref w.server.heap q)) [
  | inl e ↦ let d = on_object_dead q w method e in absurd (cc)
  | inr (o, e) ↦
      let other : q ≢ p = λ same. (let z = ap w.held same in omega arith) in
      let apart : (q == p) ≡ false = ground arith in
      let d = on_object_live q w method o e in
      let u' : World = record {
        server = store w.server q (method o).0;
        held = adjust w.held q (method o).1;
      } in
      let same : u ≡ u' = cc in
      rw same (rw (deref-set w.server.heap q p (method o).0 o e, apart) (at_p, none_held))
]

-- Where an object is, no new one is put.
append-Lost :
    (p : ℕ) (w : World) (o : AddObj)
    → Lost p w
    → (length w.server.heap ≢ p) × (deref (w.server.heap ++ some o ∷ []) p ≡ some new_obj)
append-Lost p w o (at_p, none_held) =
    let other : length w.server.heap ≢ p =
      λ e. (let d = deref_end w.server.heap in let f = rw e at d in absurd (cc)) in
    let apart : (length w.server.heap == p) ≡ false = ground arith in
    (other, deref-append w.server.heap p o ∙ rw apart at_p)

given-Lost :
    (p : ℕ) (w : World)
    → Lost p w
    → Lost p (record {
      server = record (w.server) { heap = w.server.heap ++ some (add_ref new_obj) ∷ [] };
      held = adjust w.held (length w.server.heap) (w.held (length w.server.heap) + 1);
    })
given-Lost p w l =
    let (other, there) = append-Lost p w (add_ref new_obj) l in
    let apart : (length w.server.heap == p) ≡ false = ground arith in (there, rw apart l.1)

created-Lost :
    (p : ℕ) (w : World) (aggregated : Bool) (iid : Iid)
    → Lost p w
    → Lost p (created w (create_instance aggregated iid w.server))
unfolding created create_instance query_interface
created-Lost p w true iid l = l
created-Lost p w false iid_unknown l = given-Lost p w l
created-Lost p w false iid_add l = given-Lost p w l
created-Lost p w false iid_class_factory l = ((append-Lost p w new_obj l).1, l.1)
created-Lost p w false iid_other l = ((append-Lost p w new_obj l).1, l.1)

call-Lost : (p : ℕ) (w u : World) (c : Call) → Lost p w → Allowed w c → call w c ≡ some u → Lost p u
unfolding call
call-Lost p w u (creates aggregated iid) l a e =
    let same : created w (create_instance aggregated iid w.server) ≡ u = cc in
    rw (sym same) (created-Lost p w aggregated iid l)
call-Lost p w u (queries q iid) l a e = on_object-Lost p q w u _ l a e
call-Lost p w u (adds_ref q) l a e = on_object-Lost p q w u _ l a e
call-Lost p w u (releases q) l a e = on_object-Lost p q w u _ l a e
call-Lost p w u (sets_first q n) l a e = on_object-Lost p q w u _ l a e
call-Lost p w u (sets_second q n) l a e = on_object-Lost p q w u _ l a e

Runs-Lost : {w : World} {n : ℕ} {u : World} (p : ℕ) → Runs w n u → Lost p w → Lost p u
Runs-Lost p at_start l = l
Runs-Lost p (calls {v = v} {u = u} c r a e) l = call-Lost p v u c (Runs-Lost p r l) a e

new_obj-Lost :
    (w : World)
    → w.held (length w.server.heap) ≡ 0
    → Lost
        (length w.server.heap)
        (record w { server = record (w.server) { heap = w.server.heap ++ some new_obj ∷ [] } })
new_obj-Lost w h =
    let same : (length w.server.heap == length w.server.heap) ≡ true = ground arith in
    (deref-append w.server.heap (length w.server.heap) new_obj ∙ rw same refl, h)

-- CreateInstance without aggregation, for any interface that is neither IUnknown nor IAdd, answers
-- E_NOINTERFACE and no pointer, and leaves an object in the heap that is never deleted, whatever
-- allowed calls follow, if no reference to its place was held before.
pub create_instance_leaks :
    {n : ℕ} (iid : Iid) (w u : World)
    → iid ≢ iid_unknown
    → iid ≢ iid_add
    → w.held (length w.server.heap) ≡ 0
    → Runs (created w (create_instance false iid w.server)) n u
    → ((create_instance false iid w.server).0 ≡ (e_no_interface, none))
      × (deref u.server.heap (length w.server.heap) ≡ some new_obj)
unfolding created create_instance query_interface
create_instance_leaks iid_unknown w u a b h r = absurd (a refl)
create_instance_leaks iid_add w u a b h r = absurd (b refl)
create_instance_leaks iid_class_factory w u a b h r =
    (refl, (Runs-Lost (length w.server.heap) r (new_obj-Lost w h)).0)
create_instance_leaks iid_other w u a b h r =
    (refl, (Runs-Lost (length w.server.heap) r (new_obj-Lost w h)).0)

call-objs_in_use :
    (w u : World) (c : Call) → call w c ≡ some u → u.server.objs_in_use ≡ w.server.objs_in_use
unfolding call on_object created create_instance query_interface
call-objs_in_use w u (creates true iid) e = ground arith
call-objs_in_use w u (creates false iid_unknown) e = ground arith
call-objs_in_use w u (creates false iid_add) e = ground arith
call-objs_in_use w u (creates false iid_class_factory) e = ground arith
call-objs_in_use w u (creates false iid_other) e = ground arith
call-objs_in_use w u (queries q iid) e = ground arith
call-objs_in_use w u (adds_ref q) e = ground arith
call-objs_in_use w u (releases q) e = ground arith
call-objs_in_use w u (sets_first q n) e = ground arith
call-objs_in_use w u (sets_second q n) e = ground arith

Runs-objs_in_use :
    {w : World} {n : ℕ} {u : World} → Runs w n u → u.server.objs_in_use ≡ w.server.objs_in_use
Runs-objs_in_use at_start = refl
Runs-objs_in_use (calls {v = v} {u = u} c r a e) = call-objs_in_use v u c e ∙ Runs-objs_in_use r

-- After any allowed calls, fewer than 2^32 - 1, with which a client holds a reference, the object is
-- live and DllCanUnloadNow answers S_OK all the same.
pub unload-Runs :
    {n : ℕ} {w : World} (p : ℕ)
    → Runs empty_world n w
    → suc n < 2 ^ 32
    → 0 < w.held p
    → (deref w.server.heap p ≢ none) × (dll_can_unload_now w.server ≡ s_ok)
unfolding dll_can_unload_now
unload-Runs {w = w} p r h a =
    let (k, next) = Runs-Returns (adds_ref p) r h a in
    let zero_used : w.server.objs_in_use ≡ 0 = Runs-objs_in_use r in
    (
      λ dead.
          (let c : Counts (deref w.server.heap p) (w.held p) = (k p).0 in
            let z = rw dead at c in omega arith),
      ground arith,
    )
