-- ===== src/LinkedStack/Lifo.antt =====
-- Stack.c: the last value is the first to leave.
use c_programming_language.Base.{◌≡◌, ◌≢◌, refl, false, none, some, [], ◌∷◌, ◌==◌, arith}
use c_programming_language.Base.Int.{ℤ}
use c_programming_language.Memory.{
  Ptr, null, Store, Run, fault, Ends, Ends-bind, set_cell, load, ◌>>=◌,
}
use c_programming_language.Memory.Chain.{
  Node, node, Cells, first, IsList, load-done, free-done, Chain-set_cell, fresh-not-has,
}
use c_programming_language.LinkedList.Walk.{set_next-done}
use c_programming_language.LinkedStack.{push, pop}

-- Where memory is left, `push` puts the value before the others.
push_lem :
    (s : Store Node) (top fresh : Ptr) (x : ℤ) (xs : Cells)
    → IsList s top xs
    → fresh ≢ null
    → s fresh ≡ none
    → Ends (λ l t. (l ≡ fresh) × IsList t l ((fresh, x) ∷ xs)) (push fresh x top s)
unfolding push
push_lem s top fresh x [] is h unused =
    let some_room : (fresh == null) ≡ false = ground arith in
    rw (some_room, is.head) (refl, record { head = refl; chain = (h, refl, ground arith, tt) })
push_lem s top fresh x ((p, v) ∷ xs) is h unused =
    let some_room : (fresh == null) ≡ false = ground arith in
    let full : (p == null) ≡ false = ground (arith, is.chain.0) in
    let out = fresh-not-has s null fresh ((p, v) ∷ xs) unused is.chain in
    rw
      (
        some_room,
        is.head,
        full,
        set_next-done fresh null p x (set_cell s fresh (some (node x null))) h (ground arith),
      )
      (
        refl,
        record {
          head = refl;
          chain = (
            h,
            out,
            ground arith,
            Chain-set_cell _ null fresh _ ((p, v) ∷ xs) out
                (Chain-set_cell s null fresh _ ((p, v) ∷ xs) out is.chain),
          );
        },
      )

-- How `pop` ends.
abbrev pub Popped : Store Node → Cells → Run Node (ℤ × Ptr) → Type 0
Popped s [] r = r ≡ fault
Popped s ((p, v) ∷ xs) r = Ends (λ a t. (a.0 ≡ v) × IsList t a.1 xs × (t ≡ set_cell s p none)) r

-- `pop` takes the first value, frees its node alone and leaves the other values. It reads through NULL
-- if the stack is empty.
pub pop_lem : (s : Store Node) (top : Ptr) (xs : Cells) → IsList s top xs → Popped s xs (pop top s)
unfolding pop load
pop_lem s top [] is = rw (is.head) refl
pop_lem s top ((p, v) ∷ xs) is =
    let (n, out, e, c) = is.chain in
    rw
      (
        is.head,
        load-done p (node v (first xs null)) s n e,
        free-done p (node v (first xs null)) s n e,
      )
      (refl, record { head = refl; chain = Chain-set_cell s null p none xs out c }, refl)

then_pop :
    (t : Store Node) (p : Ptr) (x : ℤ) (xs : Cells)
    → IsList t p ((p, x) ∷ xs)
    → Ends (λ a u. (a ≡ (x, first xs null)) × IsList u a.1 xs × (u p ≡ none)) (pop p t)
unfolding pop
then_pop t p x xs is =
    let (n, out, e, c) = is.chain in
    rw (load-done p (node x (first xs null)) t n e, free-done p (node x (first xs null)) t n e)
      (refl, record { head = refl; chain = Chain-set_cell t null p none xs out c }, ground arith)

-- Where memory is left, `pop` after `push` returns the pushed value and the top from before, at
-- which the same values stand, and the node that `push` made is freed.
pub pop-push :
    (s : Store Node) (top fresh : Ptr) (x : ℤ) (xs : Cells)
    → IsList s top xs
    → fresh ≢ null
    → s fresh ≡ none
    → Ends
        (λ a t. (a ≡ (x, top)) × IsList t a.1 xs × (t fresh ≡ none))
        ((push fresh x top >>= pop) s)
pop-push s top fresh x xs is h unused =
    Ends-bind _ _ (push fresh x top s) pop (push_lem s top fresh x xs is h unused)
      λ l t (e, after). rw (is.head, e) (then_pop t fresh x xs (rw e at after))
