-- ===== src/XSocket/LinkedList/Ring.antt =====
-- The list against the entries that it links, in order.
use win32_experiments.Common.{
  ℕ, ◌≡◌, ◌≢◌, refl, sym, true, false, List, [], ◌∷◌, ◌++◌, Option, arith,
}
use win32_experiments.XSocket.LinkedList.{
  Buffer, Heap, make_list, is_empty, peek, remove_head, append_tail,
}
use win32_experiments.XSocket.LinkedList.Links.{
  Apart, Distinct, Links, last, Links-last, appended, Links-appended, Apart-append, Distinct-append,
  removed, Links-buffer, first, Links-first, Links-removed,
}

-- What the list with sentinel `head` holds: the entries, each linked once.
pub record IsRing (head : ℕ) (h : Heap) (xs : List ℕ) : Type 0 where
  pub links : Links h head xs head
  pub apart : Apart head xs
  pub distinct : Distinct xs

append_tail_lem :
    (head e : ℕ) (h : Heap) (xs : List ℕ)
    → IsRing head h xs
    → append_tail head e h ≡ appended h (last head xs) head e
unfolding append_tail
append_tail_lem head e h xs r = let (b, f) = Links-last h head head xs r.links in rw (b, f)

-- AppendTail of an entry that is not linked yet puts it behind the others.
pub append_tail-IsRing :
    (head e : ℕ) (h : Heap) (xs : List ℕ)
    → IsRing head h xs
    → e ≢ head
    → Apart e xs
    → IsRing head (append_tail head e h) (xs ++ e ∷ [])
append_tail-IsRing head e h xs r n m = record {
  links =
      rw (append_tail_lem head e h xs r)
        (Links-appended h head head e xs r.links r.apart r.distinct r.apart n m n);
  apart = Apart-append head e xs r.apart (λ q. n (sym q));
  distinct = Distinct-append e xs r.distinct m;
}

pub remove_head_lem :
    (head x s : ℕ) (h : Heap)
    → h.forward head ≡ x
    → h.forward x ≡ s
    → h.backward x ≡ head
    → remove_head head h ≡ removed h head x s
unfolding remove_head
remove_head_lem head x s h f g b = rw (f, g, b)

-- RemoveHead unlinks the first entry alone.
pub remove_head-IsRing :
    (head x : ℕ) (h : Heap) (xs : List ℕ)
    → IsRing head h (x ∷ xs)
    → IsRing head (remove_head head h) xs
remove_head-IsRing head x h xs r =
    let (f, (b, l)) = r.links in
    let (n, a) = r.apart in
    let (m, d) = r.distinct in
    record {
      links =
          rw (remove_head_lem head x (first xs head) h f (Links-first h x head xs l) b)
            (Links-removed h head x head xs l a d a);
      apart = a;
      distinct = d;
    }

pub peek-IsRing : (head x : ℕ) (h : Heap) (xs : List ℕ) → IsRing head h (x ∷ xs) → peek head h ≡ x
unfolding peek
peek-IsRing head x h xs r = r.links.0

-- IsEmpty answers whether no entry is linked.
pub is_empty-IsRing :
    (head x : ℕ) (h : Heap) (xs : List ℕ)
    → (IsRing head h [] → is_empty head h ≡ true)
      × (IsRing head h (x ∷ xs) → is_empty head h ≡ false)
unfolding is_empty
is_empty-IsRing head x h xs = (
  λ r. (let (f, b) = r.links in ground arith),
  λ r. (let f = r.links.0 in let n = r.apart.0 in ground arith),
)

pub make_list-IsRing : (head : ℕ) (h : Heap) → IsRing head (make_list head h) []
unfolding make_list
make_list-IsRing head h = record { links = (ground arith, ground arith); apart = tt; distinct = tt }

-- The operations leave the buffers of the other entries.
pub remove_head-buffer :
    (head x p : ℕ) (h : Heap) (xs : List ℕ)
    → IsRing head h (x ∷ xs)
    → x ≢ p
    → (remove_head head h).buffer p ≡ h.buffer p
unfolding remove_head
remove_head-buffer head x p h xs r n = let f = r.links.0 in rw (f) (ground arith)

pub append_tail-buffer : (head e p : ℕ) (h : Heap) → (append_tail head e h).buffer p ≡ h.buffer p
unfolding append_tail
append_tail-buffer head e p h = refl

pub IsRing-buffer :
    (head : ℕ) (h : Heap) (xs : List ℕ) (v : ℕ → Option Buffer)
    → IsRing head h xs
    → IsRing head (record h { buffer = v }) xs
IsRing-buffer head h xs v r = record {
  links = Links-buffer h head head xs v r.links;
  apart = r.apart;
  distinct = r.distinct;
}
