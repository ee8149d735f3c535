-- ===== src/LinkedList/Walk.antt =====
-- DQ.c: the walks to the end of a list, and what a write at the end does to the list.
use c_programming_language.Base.{
  ℕ, zero, suc, ◌<◌, ◌≡◌, ◌≢◌, refl, false, some, [], ◌∷◌, ◌++◌, ◌==◌, arith, length,
}
use c_programming_language.Base.Int.{ℤ}
use c_programming_language.Memory.{Ptr, null, Store, done, set_cell}
use c_programming_language.Memory.Chain.{
  Node, node, Cells, has, Chain, load-done, store-done, has-append, first-append,
}
use c_programming_language.LinkedList.{set_next, last_loop, last_two_loop}

pub set_next-done :
    (p q r : Ptr) (v : ℤ) (s : Store Node)
    → p ≢ null
    → s p ≡ some (node v q)
    → set_next p r s ≡ done tt (set_cell s p (some (node v r)))
unfolding set_next
set_next-done p q r v s h e =
    rw (load-done p (node v q) s h e) (store-done p (node v q) (node v r) s h e)

abbrev pub last_of : Cells → Ptr → Ptr
last_of [] d = d
last_of ((p, v) ∷ xs) d = last_of xs p

-- the address before the last one
abbrev pub before_last : Cells → Ptr → Ptr
before_last [] d = d
before_last ((p, v) ∷ []) d = d
before_last ((p, v) ∷ (q, w) ∷ xs) d = before_last ((q, w) ∷ xs) p

-- The walk ends at the last node.
pub last_loop-done :
    (fuel : ℕ) (s : Store Node) (p : Ptr) (v : ℤ) (xs : Cells)
    → Chain s null ((p, v) ∷ xs)
    → length xs < fuel
    → last_loop fuel p s ≡ done (last_of xs p) s
unfolding last_loop
last_loop-done zero s p v xs c enough = absurd (omega arith)
last_loop-done (suc fuel) s p v [] (n, out, e, c) enough = rw (load-done p (node v null) s n e)
last_loop-done (suc fuel) s p v ((q, w) ∷ xs) (n, out, e, c) enough =
    let next : (q == null) ≡ false = ground (arith, c.0) in
    rw (load-done p (node v q) s n e, next) (last_loop-done fuel s q w xs c (omega arith))

pub last_two_loop-done :
    (fuel : ℕ) (s : Store Node) (p prev : Ptr) (v : ℤ) (xs : Cells)
    → Chain s null ((p, v) ∷ xs)
    → length xs < fuel
    → last_two_loop fuel p prev s ≡ done (last_of xs p, before_last ((p, v) ∷ xs) prev) s
unfolding last_two_loop
last_two_loop-done zero s p prev v xs c enough = absurd (omega arith)
last_two_loop-done (suc fuel) s p prev v [] (n, out, e, c) enough =
    rw (load-done p (node v null) s n e)
last_two_loop-done (suc fuel) s p prev v ((q, w) ∷ xs) (n, out, e, c) enough =
    let next : (q == null) ≡ false = ground (arith, c.0) in
    rw (load-done p (node v q) s n e, next) (last_two_loop-done fuel s q p w xs c (omega arith))

-- A list of at least one node ends in its last node.
pub last_of-append : (xs : Cells) (p d : Ptr) (v : ℤ) → last_of (xs ++ (p, v) ∷ []) d ≡ p
last_of-append [] p d v = refl
last_of-append ((q, w) ∷ xs) p d v = last_of-append xs p q v

-- The last node of a chain.
pub Chain-last :
    (s : Store Node) (stop p : Ptr) (v : ℤ) (xs : Cells)
    → Chain s stop (xs ++ (p, v) ∷ [])
    → (p ≢ null) × (has p xs ≡ false) × (s p ≡ some (node v stop)) × Chain s p xs
Chain-last s stop p v [] (n, out, e, c) = (n, refl, e, tt)
Chain-last s stop p v ((q, w) ∷ xs) (n, out, e, c) =
    let (m, away, last, front) = Chain-last s stop p v xs c in
    (
      m,
      ground (arith, has-append q xs ((p, v) ∷ [])),
      last,
      (
        n,
        ground (arith, has-append q xs ((p, v) ∷ [])),
        rw (first-append xs p v [] stop) at e,
        front,
      ),
    )

-- A chain with one more node at its end.
pub Chain-snoc :
    (s : Store Node) (stop p : Ptr) (v : ℤ) (xs : Cells)
    → p ≢ null
    → has p xs ≡ false
    → s p ≡ some (node v stop)
    → Chain s p xs
    → Chain s stop (xs ++ (p, v) ∷ [])
Chain-snoc s stop p v [] n out e c = (n, refl, e, tt)
Chain-snoc s stop p v ((q, w) ∷ xs) n out e (m, away, f, c) = (
  m,
  ground (arith, has-append q xs ((p, v) ∷ [])),
  rw (first-append xs p v [] stop) f,
  Chain-snoc s stop p v xs n (ground arith) e c,
)
