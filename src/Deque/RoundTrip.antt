-- ===== src/Deque/RoundTrip.antt =====
-- DoublyLinkedListDequ.c: removals undo insertions at the same end.
use c_programming_language.Base.{ℕ, ◌≡◌, ◌≢◌, refl, false, none, some, ◌==◌, arith}
use c_programming_language.Base.Int.{ℤ, pos, negsuc, ◌+ℤ◌, eq_of_parts, +ℤ_parts}
use c_programming_language.Memory.{
  Ptr, null, Store, done, fault, Ends, set_cell, load, store, free, ◌>>=◌,
}
use c_programming_language.Deque.{
  Node, Deque, init, create_node, set_next, set_prev, insert_last, remove_last, insert_first,
  remove_first, insert,
}

abbrev pub node : ℤ → Ptr → Ptr → Node
node v q r = record { value = v; next = q; prev = r }

load_at : (p : Ptr) (n : Node) (s : Store Node) → p ≢ null → s p ≡ some n → load p s ≡ done n s
unfolding load
load_at p n s h e = rw (let f : (p == null) ≡ false = ground arith in f, e)

free_at :
    (p : Ptr) (n : Node) (s : Store Node)
    → p ≢ null
    → s p ≡ some n
    → free p s ≡ done tt (set_cell s p none)
unfolding free
free_at p n s h e = rw (let f : (p == null) ≡ false = ground arith in f, e)

store_at :
    (p : Ptr) (m n : Node) (s : Store Node)
    → p ≢ null
    → s p ≡ some m
    → store p n s ≡ done tt (set_cell s p (some n))
unfolding store
store_at p m n s h e = rw (let f : (p == null) ≡ false = ground arith in f, e)

set_next_at :
    (p q r x : Ptr) (v : ℤ) (s : Store Node)
    → p ≢ null
    → s p ≡ some (node v q r)
    → set_next p x s ≡ done tt (set_cell s p (some (node v x r)))
unfolding set_next
set_next_at p q r x v s h e =
    rw (load_at p (node v q r) s h e) (store_at p (node v q r) (node v x r) s h e)

set_prev_at :
    (p q r x : Ptr) (v : ℤ) (s : Store Node)
    → p ≢ null
    → s p ≡ some (node v q r)
    → set_prev p x s ≡ done tt (set_cell s p (some (node v q x)))
unfolding set_prev
set_prev_at p q r x v s h e =
    rw (load_at p (node v q r) s h e) (store_at p (node v q r) (node v q x) s h e)

create_node_at :
    (fresh : Ptr) (d : ℤ) (s : Store Node)
    → fresh ≢ null
    → create_node fresh d s ≡ done fresh (set_cell s fresh (some (node d null null)))
unfolding create_node
create_node_at fresh d s h = rw (let f : (fresh == null) ≡ false = ground arith in f)

up_and_down : (n : ℤ) → n +ℤ pos 1 +ℤ negsuc 0 ≡ n
up_and_down n =
    eq_of_parts (n +ℤ pos 1 +ℤ negsuc 0) n
      (omega (arith, +ℤ_parts n (pos 1), +ℤ_parts (n +ℤ pos 1) (negsuc 0)))

module _ (s : Store Node) (q : Deque) (fresh : Ptr) (d v : ℤ) (r : Ptr) (h : fresh ≢ null)
    (unused : s fresh ≡ none) where
  -- The runs of the insertions at the end and at the front.
  insert_last_at :
      q.tail ≢ null
      → s q.tail ≡ some (node v null r)
      → insert_last fresh d q s
        ≡ done
            (record q { tail = fresh; size = q.size +ℤ pos 1 })
            (set_cell
              (set_cell (set_cell s fresh (some (node d null null))) q.tail (some (node v fresh r)))
              fresh
              (some (node d null q.tail)))
  unfolding insert_last
  insert_last_at t e =
      let s1 = set_cell s fresh (some (node d null null)) in
      let s2 = set_cell s1 q.tail (some (node v fresh r)) in
      rw (
        create_node_at fresh d s h,
        set_next_at q.tail null r fresh v s1 t (ground arith),
        set_prev_at fresh null null q.tail d s2 h (ground arith),
      )

  insert_first_at :
      q.head ≢ null
      → s q.head ≡ some (node v r null)
      → insert_first fresh d q s
        ≡ done
            (record q { head = fresh; size = q.size +ℤ pos 1 })
            (set_cell
              (set_cell (set_cell s fresh (some (node d null null))) q.head (some (node v r fresh)))
              fresh
              (some (node d q.head null)))
  unfolding insert_first
  insert_first_at t e =
      let s1 = set_cell s fresh (some (node d null null)) in
      let s2 = set_cell s1 q.head (some (node v r fresh)) in
      rw (
        create_node_at fresh d s h,
        set_prev_at q.head r null fresh v s1 t (ground arith),
        set_next_at fresh null null q.head d s2 h (ground arith),
      )

  -- Given an unused address and a last node, `remove_last` undoes `insert_last`: the pointers, the
  -- size and every address are as before.
  pub remove_last-insert_last :
      q.tail ≢ null
      → s q.tail ≡ some (node v null r)
      → Ends (λ p t. (p ≡ q) × ((a : Ptr) → t a ≡ s a)) ((insert_last fresh d q >>= remove_last) s)
  unfolding remove_last
  remove_last-insert_last t e =
      let s1 = set_cell s fresh (some (node d null null)) in
      let s2 = set_cell s1 q.tail (some (node v fresh r)) in
      let s3 = set_cell s2 fresh (some (node d null q.tail)) in
      rw
        (
          insert_last_at t e,
          load_at fresh (node d null q.tail) s3 h (ground arith),
          set_next_at q.tail fresh r null v s3 t (ground arith),
          free_at fresh (node d null q.tail) (set_cell s3 q.tail (some (node v null r))) h
              (ground arith),
          up_and_down q.size,
        )
        (refl, λ a. ground arith)

  -- Given an unused address and a first node, `remove_first` undoes `insert_first`: the pointers, the
  -- size and every address are as before.
  pub remove_first-insert_first :
      q.head ≢ null
      → s q.head ≡ some (node v r null)
      → Ends
          (λ p t. (p ≡ q) × ((a : Ptr) → t a ≡ s a))
          ((insert_first fresh d q >>= remove_first) s)
  unfolding remove_first
  remove_first-insert_first t e =
      let s1 = set_cell s fresh (some (node d null null)) in
      let s2 = set_cell s1 q.head (some (node v r fresh)) in
      let s3 = set_cell s2 fresh (some (node d q.head null)) in
      rw
        (
          insert_first_at t e,
          load_at fresh (node d q.head null) s3 h (ground arith),
          set_prev_at q.head r fresh null v s3 t (ground arith),
          free_at fresh (node d q.head null) (set_cell s3 q.head (some (node v r null))) h
              (ground arith),
          up_and_down q.size,
        )
        (refl, λ a. ground arith)

set_next-null : (x : Ptr) (s : Store Node) → set_next null x s ≡ fault
unfolding set_next load
set_next-null x s = refl

-- Where memory is left, `insert_last` after the first `insert` writes through NULL, since the tail is
-- not set.
pub insert_last-insert :
    (fuel : ℕ) (s : Store Node) (a b : Ptr) (c d : ℤ)
    → a ≢ null
    → b ≢ null
    → (insert fuel a c init >>= insert_last b d) s ≡ fault
unfolding insert insert_last init
insert_last-insert fuel s a b c d h k = rw (
  create_node_at a c s h,
  create_node_at b d (set_cell s a (some (node c null null))) k,
  set_next-null b (set_cell (set_cell s a (some (node c null null))) b (some (node d null null))),
)
