-- ===== src/XSocket/LinkedList/Links.antt =====
-- Chains of pointers on the heap of the list, and what the writes of its operations do to them.
use win32_experiments.Common.{ℕ, ◌≡◌, ◌≢◌, sym, List, [], ◌∷◌, ◌++◌, Option, none, arith}
use win32_experiments.XSocket.LinkedList.{Buffer, Heap, update}

abbrev pub Apart : ℕ → List ℕ → Type 0
Apart a [] = Unit {0}
Apart a (x ∷ xs) = (a ≢ x) × Apart a xs

abbrev pub Distinct : List ℕ → Type 0
Distinct [] = Unit {0}
Distinct (x ∷ xs) = Apart x xs × Distinct xs

-- From `p` the forward pointers lead through `xs` to `q`, and the backward pointers lead back.
abbrev pub Links : Heap → ℕ → List ℕ → ℕ → Type 0
Links h p [] q = (h.forward p ≡ q) × (h.backward q ≡ p)
Links h p (x ∷ xs) q = (h.forward p ≡ x) × ((h.backward x ≡ p) × Links h x xs q)

abbrev pub last : ℕ → List ℕ → ℕ
last p [] = p
last p (x ∷ xs) = last x xs

pub Links-last :
    (h : Heap) (p q : ℕ) (xs : List ℕ)
    → Links h p xs q
    → (h.backward q ≡ last p xs) × (h.forward (last p xs) ≡ q)
Links-last h p q [] (f, b) = (b, f)
Links-last h p q (x ∷ xs) (f, (b, l)) = Links-last h x q xs l

pub Apart-last : (a x : ℕ) (xs : List ℕ) → Apart a (x ∷ xs) → a ≢ last x xs
Apart-last a x [] (n, r) = n
Apart-last a x (y ∷ xs) (n, r) = Apart-last a y xs r

-- The links survive writes elsewhere.
pub Links-frame :
    (h : Heap) (p q a v b w : ℕ) (xs : List ℕ)
    → Links h p xs q
    → a ≢ p
    → Apart a xs
    → b ≢ q
    → Apart b xs
    → Links (record h { forward = update h.forward a v; backward = update h.backward b w }) p xs q
Links-frame h p q a v b w [] (f, l) n m k o = (ground arith, ground arith)
Links-frame h p q a v b w (x ∷ xs) (f, (l, r)) n (m, m') k (o, o') =
    (ground arith, (ground arith, Links-frame h x q a v b w xs r m m' k o'))

-- The four writes of AppendTail, with what it read.
abbrev pub appended : Heap → ℕ → ℕ → ℕ → Heap
appended h l q e = record h {
  forward = update (update h.forward l e) e q;
  backward = update (update h.backward q e) e l;
}

pub Links-appended :
    (h : Heap) (p q e : ℕ) (xs : List ℕ)
    → Links h p xs q
    → Apart p xs
    → Distinct xs
    → Apart q xs
    → e ≢ p
    → Apart e xs
    → e ≢ q
    → Links (appended h (last p xs) q e) p (xs ++ e ∷ []) q
Links-appended h p q e [] l a d b n m k =
    (ground arith, (ground arith, (ground arith, ground arith)))
Links-appended h p q e (x ∷ xs) (f, (g, l)) a (d, d') (b, b') n (m, m') k =
    let apart = Apart-last p x xs a in
    (ground arith, (ground arith, Links-appended h x q e xs l d d' b' m m' k))

pub Apart-append : (a e : ℕ) (xs : List ℕ) → Apart a xs → a ≢ e → Apart a (xs ++ e ∷ [])
Apart-append a e [] r n = (n, tt)
Apart-append a e (x ∷ xs) (m, r) n = (m, Apart-append a e xs r n)

pub Distinct-append : (e : ℕ) (xs : List ℕ) → Distinct xs → Apart e xs → Distinct (xs ++ e ∷ [])
Distinct-append e [] d r = (tt, tt)
Distinct-append e (x ∷ xs) (d, d') (m, r) =
    (Apart-append x e xs d (λ q. m (sym q)), Distinct-append e xs d' r)

-- The three writes of RemoveHead, with what it read.
abbrev pub removed : Heap → ℕ → ℕ → ℕ → Heap
removed h p x s = record {
  forward = update h.forward p s;
  backward = update h.backward s p;
  buffer = update h.buffer x none;
}

-- The links do not depend on the buffers.
pub Links-buffer :
    (h : Heap) (p q : ℕ) (xs : List ℕ) (v : ℕ → Option Buffer)
    → Links h p xs q
    → Links (record h { buffer = v }) p xs q
Links-buffer h p q [] v l = l
Links-buffer h p q (x ∷ xs) v (f, (b, l)) = (f, (b, Links-buffer h x q xs v l))

abbrev pub first : List ℕ → ℕ → ℕ
first [] q = q
first (x ∷ xs) q = x

pub Links-first : (h : Heap) (p q : ℕ) (xs : List ℕ) → Links h p xs q → h.forward p ≡ first xs q
Links-first h p q [] (f, b) = f
Links-first h p q (x ∷ xs) (f, l) = f

pub Links-removed :
    (h : Heap) (p x q : ℕ) (xs : List ℕ)
    → Links h x xs q
    → Apart p xs
    → Distinct xs
    → Apart q xs
    → Links (removed h p x (first xs q)) p xs q
Links-removed h p x q [] l n d k = (ground arith, ground arith)
Links-removed h p x q (y ∷ ys) (g, (c, l)) (n, n') (d, d') (k, k') =
    let written : Heap = record h {
      forward = update h.forward p y;
      backward = update h.backward y p;
    } in
    (
      ground arith,
      (
        ground arith,
        Links-buffer written y q ys (update h.buffer x none)
            (Links-frame h y q p y y p ys l n n' (λ i. k (sym i)) d),
      ),
    )
