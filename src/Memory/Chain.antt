-- ===== src/Memory/Chain.antt =====
-- Chains of nodes with a value and a pointer to the next node.
use c_programming_language.Base.{
  ◌≡◌, ◌≢◌, refl, Bool, true, false, ◌||◌, Option, none, some, List, [], ◌∷◌, ◌++◌, ◌==◌, arith,
}
use c_programming_language.Base.Int.{ℤ}
use c_programming_language.Memory.{Ptr, null, Store, done, set_cell, load, store, free}

pub record Node : Type 0 where
  pub value : ℤ
  pub next : Ptr

abbrev pub node : ℤ → Ptr → Node
node v q = record { value = v; next = q }

-- what a chain stands for: the address and the value of each node
abbrev pub Cells : Type 0
Cells = List (Ptr × ℤ)

abbrev pub has : Ptr → Cells → Bool
has a [] = false
has a ((p, v) ∷ xs) = (a == p) || has a xs

abbrev pub values : Cells → List ℤ
values [] = []
values ((p, v) ∷ xs) = v ∷ values xs

-- the address that a chain starts at, if it ends at `stop`
abbrev pub first : Cells → Ptr → Ptr
first [] stop = stop
first ((p, v) ∷ xs) stop = p

-- The nodes of `xs`, all distinct, each point to the next one and the last to `stop`.
abbrev pub Chain : Store Node → Ptr → Cells → Type 0
Chain s stop [] = Unit
Chain s stop ((p, v) ∷ xs) =
    (p ≢ null) × (has p xs ≡ false) × (s p ≡ some (node v (first xs stop))) × Chain s stop xs

-- the list that starts at `p`
pub record IsList (s : Store Node) (p : Ptr) (xs : Cells) : Type 0 where
  pub head : p ≡ first xs null
  pub chain : Chain s null xs

-- `t` differs from `s` at most at the addresses of `xs`.
abbrev pub SameOutside : Cells → Store Node → Store Node → Type 0
SameOutside xs s t = (a : Ptr) → has a xs ≡ false → t a ≡ s a

pub load-done :
    (p : Ptr) (n : Node) (s : Store Node) → p ≢ null → s p ≡ some n → load p s ≡ done n s
unfolding load
load-done p n s h e = rw (let f : (p == null) ≡ false = ground arith in f, e)

pub store-done :
    (p : Ptr) (m n : Node) (s : Store Node)
    → p ≢ null
    → s p ≡ some m
    → store p n s ≡ done tt (set_cell s p (some n))
unfolding store
store-done p m n s h e = rw (let f : (p == null) ≡ false = ground arith in f, e)

pub free-done :
    (p : Ptr) (n : Node) (s : Store Node)
    → p ≢ null
    → s p ≡ some n
    → free p s ≡ done tt (set_cell s p none)
unfolding free
free-done p n s h e = rw (let f : (p == null) ≡ false = ground arith in f, e)

-- A chain survives every change elsewhere.
pub Chain-frame :
    (s t : Store Node) (stop : Ptr) (xs : Cells)
    → ((a : Ptr) → has a xs ≡ true → t a ≡ s a)
    → Chain s stop xs
    → Chain t stop xs
Chain-frame s t stop [] same c = tt
Chain-frame s t stop ((p, v) ∷ xs) same (n, out, e, c) =
    (n, out, ground (arith, same p), Chain-frame s t stop xs (λ a h. same a (ground arith)) c)

pub Chain-set_cell :
    (s : Store Node) (stop p : Ptr) (m : Option Node) (xs : Cells)
    → has p xs ≡ false
    → Chain s stop xs
    → Chain (set_cell s p m) stop xs
Chain-set_cell s stop p m xs out = Chain-frame s (set_cell s p m) stop xs (λ a h. not_p a h)
  where
    not_p : (a : Ptr) → has a xs ≡ true → set_cell s p m a ≡ s a
    not_p a h = ground arith

-- An address that holds no node is in no chain.
pub fresh-not-has :
    (s : Store Node) (stop p : Ptr) (xs : Cells) → s p ≡ none → Chain s stop xs → has p xs ≡ false
fresh-not-has s stop p [] e c = refl
fresh-not-has s stop p ((q, v) ∷ xs) e c = ground (arith, fresh-not-has s stop p xs e c.3)

pub has-append : (a : Ptr) (xs ys : Cells) → has a (xs ++ ys) ≡ (has a xs || has a ys)
has-append a [] ys = refl
has-append a ((p, v) ∷ xs) ys = ground (arith, has-append a xs ys)

pub first-append :
    (xs : Cells) (p : Ptr) (v : ℤ) (ys : Cells) (stop : Ptr)
    → first (xs ++ (p, v) ∷ ys) stop ≡ first xs p
first-append [] p v ys stop = refl
first-append (x ∷ xs) p v ys stop = refl
