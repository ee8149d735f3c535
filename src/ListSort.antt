-- ===== src/ListSort.antt =====
-- DataStructures/LinkedList/BubbleSort.c: a linked list whose values a double loop exchanges in
-- place. The loops run on fuel. Prints are left out, with the loop of `main` that frees the list.
pub mod Values
pub mod Sorted
mod Tests
use c_programming_language.Base.{ℕ, zero, suc, ◌==◌, if◌then◌else◌}
use c_programming_language.Base.Int.{ℤ, ltb_ℤ}
use c_programming_language.Memory.{
  Ptr, null, Cmd, fault, out_of_fuel, pure, ◌>>=◌, ◌>>◌, load, store, allocate,
}
use c_programming_language.Memory.Chain.{Node, node}

-- `fresh` is what `malloc` returns, which is not tested.
unfoldable pub insert : Ptr → ℤ → Ptr → Cmd Node Ptr
unfolding allocate
insert fresh data_ head =
    if fresh == null
    then (λ s. fault)
    else (allocate fresh (node data_ null)
        >> (if head == null
            then pure fresh
            else (do n ← load fresh; store fresh (record n { next = head }); pure fresh)))

-- the inner loop: a value less than the one at `i` is exchanged with it
unfoldable pub inner_loop : ℕ → (i j : Ptr) → Cmd Node (Unit {0})
inner_loop zero i j = λ s. out_of_fuel
inner_loop (suc fuel) i j = if j == null then pure tt else (do
  a ← load i
  b ← load j
  if ltb_ℤ b.value a.value
      then (do
        store i (record a { value = b.value })
        store j (record b { value = a.value })
        inner_loop fuel i b.next)
      else inner_loop fuel i b.next)

unfoldable pub outer_loop : ℕ → Ptr → Cmd Node (Unit {0})
outer_loop zero i = λ s. out_of_fuel
outer_loop (suc fuel) i =
    if i == null
    then pure tt
    else (do a ← load i; inner_loop (suc fuel) i a.next; b ← load i; outer_loop fuel b.next)

unfoldable pub sort : ℕ → Ptr → Cmd Node (Unit {0})
sort fuel head = outer_loop fuel head
