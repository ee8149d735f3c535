-- ===== src/ThreadedQueue/Chain.antt =====
-- The nodes behind a node, by their `next` fields, and what the last of them is.
use c_programming_language.Base.{
  ◌≤◌, ◌≡◌, ◌≢◌, refl, sym, ap, ◌∙◌, List, [], ◌∷◌, ◌++◌, map, All, arith, update,
}
use c_programming_language.Base.Threads.{count}
use mathlib.Core.Path.{subst}
use c_programming_language.Memory.{Ptr, null}

-- `xs` are the nodes behind `h`.
abbrev pub Follows : (Ptr → Ptr) → Ptr → List Ptr → Type 0
Follows next h [] = next h ≡ null
Follows next h (x ∷ xs) = (next h ≡ x) × (x ≢ null) × Follows next x xs

abbrev pub last : Ptr → List Ptr → Ptr
last h [] = h
last h (x ∷ xs) = last x xs

pub last-snoc : (h : Ptr) (xs : List Ptr) (p : Ptr) → last h (xs ++ p ∷ []) ≡ p
last-snoc h [] p = refl
last-snoc h (x ∷ xs) p = last-snoc x xs p

-- The last node is one of the nodes.
pub count-last : (h : Ptr) (xs : List Ptr) → 1 ≤ count (last h xs) (h ∷ xs)
count-last h [] = ground arith
count-last h (x ∷ xs) = omega (arith, count-last x xs)

pub last-ne-null :
    (next : Ptr → Ptr) (h : Ptr) (xs : List Ptr) → h ≢ null → Follows next h xs → last h xs ≢ null
last-ne-null next h [] n c = n
last-ne-null next h (x ∷ xs) n c = last-ne-null next x xs c.1 c.2

-- A write to a node that is not there changes nothing.
pub Follows-update :
    (next : Ptr → Ptr) (h : Ptr) (xs : List Ptr) (p q : Ptr)
    → count p (h ∷ xs) ≡ 0
    → Follows next h xs
    → Follows (update next p q) h xs
Follows-update next h [] p q out c = ground arith
Follows-update next h (x ∷ xs) p q out c = ground (arith, Follows-update next x xs p q)

-- A node put behind the last one.
pub Follows-snoc :
    (next : Ptr → Ptr) (h : Ptr) (xs : List Ptr) (p : Ptr)
    → count (last h xs) (h ∷ xs) ≡ 1
    → count p (h ∷ xs) ≡ 0
    → p ≢ null
    → next p ≡ null
    → Follows next h xs
    → Follows (update next (last h xs) p) h (xs ++ p ∷ [])
Follows-snoc next h [] p once out n e c = ground arith
Follows-snoc next h (x ∷ xs) p once out n e c =
    ground (arith, count-last x xs, Follows-snoc next x xs p)

-- The values in nodes, where another node is written.
pub map-update :
    (f : Ptr → Ptr) (xs : List Ptr) (p v : Ptr) → count p xs ≡ 0 → map (update f p v) xs ≡ map f xs
map-update f [] p v out = refl
map-update f (x ∷ xs) p v out = ground (arith, map-update f xs p v)

pub map-snoc :
    (f : Ptr → Ptr) (xs : List Ptr) (p : Ptr) → map f (xs ++ p ∷ []) ≡ map f xs ++ f p ∷ []
map-snoc f [] p = refl
map-snoc f (x ∷ xs) p = ap (λ l. f x ∷ l) (map-snoc f xs p)

abbrev pub tail_of : List Ptr → List Ptr
tail_of [] = []
tail_of (x ∷ xs) = xs

-- Where the first node has a next node, that is the first of the nodes behind it.
pub rest-cons :
    (next : Ptr → Ptr) (h nx : Ptr) (xs : List Ptr)
    → next h ≡ nx
    → nx ≢ null
    → Follows next h xs
    → xs ≡ nx ∷ tail_of xs
rest-cons next h nx [] e n c = absurd (n (sym e ∙ c))
rest-cons next h nx (x ∷ xs) e n c = ap (λ y. y ∷ xs) (sym c.0 ∙ e)

pub Follows-tail :
    (next : Ptr → Ptr) (h nx : Ptr) (xs : List Ptr)
    → next h ≡ nx
    → nx ≢ null
    → Follows next h xs
    → Follows next nx (tail_of xs) × (last nx (tail_of xs) ≡ last h xs)
Follows-tail next h nx [] e n c = absurd (n (sym e ∙ c))
Follows-tail next h nx (x ∷ xs) e n c =
    let same : x ≡ nx = sym c.0 ∙ e in
    (subst (λ y. Follows next y xs) same c.2, ap (λ y. last y xs) (sym same))

pub All-tail :
    (f : Ptr → Ptr) (xs : List Ptr)
    → All (λ v. v ≢ null) (map f xs)
    → All (λ v. v ≢ null) (map f (tail_of xs))
All-tail f [] a = tt
All-tail f (x ∷ xs) a = a.1

pub next-last :
    (next : Ptr → Ptr) (h : Ptr) (xs : List Ptr) → Follows next h xs → next (last h xs) ≡ null
next-last next h [] c = c
next-last next h (x ∷ xs) c = next-last next x xs c.2
