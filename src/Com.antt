-- ===== src/Com.antt =====
-- src/basic-com: a COM server in a DLL with one class of objects, CAddObj, which AddObj.cpp and
-- AddObj.hpp define. The heap is a list: a pointer is a place in it, and a deleted object leaves `none`.
-- A call on what is no live object faults, which stands for what C++ leaves undefined. `long` is 32 bits
-- wide, by its bit pattern.
pub mod References
pub mod Lifetime
mod Examples
use win32_experiments.Common.{
  ℕ, zero, suc, ◌+◌, ◌-◌, ◌%◌, ◌^◌, Bool, true, false, List, [], ◌∷◌, ◌++◌, Option, none, some,
  ◌==◌, if◌then◌else◌, length, set, get_elem?,
}

-- The interfaces that a client may ask for.
pub data Iid : Type 0 where
  iid_unknown iid_add iid_class_factory iid_other : Iid

pub data Hresult : Type 0 where
  s_ok s_false e_no_interface class_e_no_aggregation class_e_class_not_available e_not_impl :
      Hresult

-- CAddObj.
pub record AddObj : Type 0 where
  pub x1 : ℕ
  pub x2 : ℕ
  pub ref_count : ℕ

abbrev pub Heap : Type 0
Heap = List (Option AddObj)

-- The globals of the DLL: its objects and g_nComObjsInUse.
pub record Server : Type 0 where
  pub heap : Heap
  pub objs_in_use : ℕ

-- The object at a pointer, if it is live.
pub deref : Heap → ℕ → Option AddObj
deref heap p = elim (get_elem? heap p) [ none ↦ none | some o ↦ o ]

abbrev pub store : Server → ℕ → Option AddObj → Server
store s p o = record s { heap = set s.heap p o }

-- SetFirstNumber, SetSecondNumber.
pub set_first_number : ℕ → AddObj → AddObj
set_first_number n o = record o { x1 = n }

pub set_second_number : ℕ → AddObj → AddObj
set_second_number n o = record o { x2 = n }

pub do_the_addition : AddObj → ℕ
do_the_addition o = (o.x1 + o.x2) % 2 ^ 32

-- AddRef on a live object.
pub add_ref : AddObj → AddObj
add_ref o = record o { ref_count = (o.ref_count + 1) % 2 ^ 32 }

-- InterlockedDecrement, and `delete this` at zero.
pub release : AddObj → Option AddObj
release o =
    let count = (o.ref_count + (2 ^ 32 - 1)) % 2 ^ 32 in
    if count == 0 then none else some (record o { ref_count = count })

-- CAddObj::QueryInterface: the result, whether `*ppObj` is the object, and the object.
pub query_interface : Iid → AddObj → Hresult × Bool × AddObj
unfolding add_ref
query_interface iid_unknown o = (s_ok, true, add_ref o)
query_interface iid_add o = (s_ok, true, add_ref o)
query_interface iid o = (e_no_interface, false, o)

abbrev pub new_obj : AddObj
new_obj = record { x1 = 0; x2 = 0; ref_count = 0 }

-- CAddFactory::CreateInstance: the result, and the pointer that `*ppv` gets.
pub create_instance : Bool → Iid → Server → (Hresult × Option ℕ) × Server
unfolding query_interface
create_instance true iid s = ((class_e_no_aggregation, none), s)
create_instance false iid s =
    let (result, here, o) = query_interface iid new_obj in
    let t = record s { heap = s.heap ++ some o ∷ [] } in
    ((result, if here then some (length s.heap) else none), t)

-- DllCanUnloadNow.
pub dll_can_unload_now : Server → Hresult
dll_can_unload_now s = if s.objs_in_use == 0 then s_ok else s_false

-- What a client calls on the server; the first argument is the object's pointer.
pub data Call : Type 0 where
  creates : Bool → Iid → Call
  queries : ℕ → Iid → Call
  adds_ref : ℕ → Call
  releases : ℕ → Call
  sets_first : ℕ → ℕ → Call
  sets_second : ℕ → ℕ → Call

-- The references that the client holds to each pointer, as it counts them by the results.
pub record World : Type 0 where
  pub server : Server
  pub held : ℕ → ℕ

abbrev pub adjust : (ℕ → ℕ) → ℕ → ℕ → ℕ → ℕ
adjust held p n q = if p == q then n else held q

-- A method of the object at `p`, which gives what is left of the object and the client's count.
pub on_object : (AddObj → Option AddObj × ℕ) → ℕ → World → Option World
unfolding deref
on_object method p w = elim (deref w.server.heap p) [
  | none ↦ none
  | some o ↦
      let (left, n) = method o in
      some (record { server = store w.server p left; held = adjust w.held p n })
]

-- The client's count of the references that it holds to `p` after the call.
pub queried : Iid → ℕ → AddObj → Option AddObj × ℕ
unfolding query_interface
queried iid n o =
    let (result, here, left) = query_interface iid o in (some left, if here then n + 1 else n)

pub created : World → (Hresult × Option ℕ) × Server → World
created w ((result, none), s) = record w { server = s }
created w ((result, some p), s) = record { server = s; held = adjust w.held p (w.held p + 1) }

pub call : World → Call → Option World
unfolding created create_instance on_object queried add_ref release
call w (creates aggregated iid) = some (created w (create_instance aggregated iid w.server))
call w (queries p iid) = on_object (queried iid (w.held p)) p w
call w (adds_ref p) = on_object (λ o. (some (add_ref o), w.held p + 1)) p w
call w (releases p) = on_object (λ o. (release o, w.held p - 1)) p w
call w (sets_first p n) = on_object (λ o. (some (set_first_number n o), w.held p)) p w
call w (sets_second p n) = on_object (λ o. (some (set_second_number n o), w.held p)) p w

abbrev pub empty_world : World
empty_world = record { server = record { heap = []; objs_in_use = 0 }; held = λ p. 0 }
