-- ===== src/ArrayStack/Laws.antt =====
-- Stack2.c: what the stack holds.
use c_programming_language.Base.{
  ℕ, zero, suc, ◌<◌, ◌≤◌, ◌≡◌, refl, some, List, [], ◌∷◌, ◌==◌, ltb, if◌then◌else◌, arith, true,
  false,
}
use c_programming_language.Base.Int.{
  top_index, top_index_suc, top_index_pred, ℤ, pos, negsuc, ◌+ℤ◌, eqb_ℤ,
}
use c_programming_language.ArrayStack.{Stack, push, pop, stack_is_full}

-- the first `n` elements of the array, the last one first
abbrev pub elements : (ℕ → ℤ) → ℕ → List ℤ
elements a zero = []
elements a (suc n) = a n ∷ elements a n

-- `n` elements within the capacity
pub record IsStack (s : Stack) (n : ℕ) : Type 0 where
  pub top : s.top_of_stack ≡ top_index n
  pub fits : n ≤ s.capacity

below_capacity :
    (n m : ℕ) → n ≤ m → eqb_ℤ (top_index n) (pos m +ℤ negsuc 0) ≡ false → ltb n m ≡ true
below_capacity n m h e = below n m h (rw (top_index_pred m) at e)
  where
    below : (n m : ℕ) → n ≤ m → eqb_ℤ (top_index n) (top_index m) ≡ false → ltb n m ≡ true
    below zero zero h e = ground arith
    below zero (suc m) h e = ground arith
    below (suc n) zero h e = ground arith
    below (suc n) (suc m) h e = ground arith

-- While the stack is not full, `push` is in bounds, and `pop` then returns the value and a stack of
-- as many elements as before, with the same array elsewhere.
pub pop-push_room :
    (s : Stack) (x : ℤ) (n : ℕ)
    → IsStack s n
    → stack_is_full s ≡ false
    → (t : Stack) × (push s x ≡ some t)
      × (pop t ≡ some (x, record t { top_of_stack = s.top_of_stack }))
      × ((i : ℕ) → i < n → t.array i ≡ s.array i)
unfolding push pop stack_is_full
pop-push_room s x n is room =
    let bound = below_capacity n s.capacity is.fits (rw is.top at room) in
    rw (is.top, top_index_suc n, bound)
      (
        record {
          capacity = s.capacity;
          top_of_stack = pos n;
          array = λ j. if n == j then x else s.array j;
        },
        refl,
        rw (bound, top_index_pred n) (ground arith),
        λ i below. ground arith,
      )
