-- ===== src/ArraySort.antt =====
-- Threads/SortAndPrintArray.c: the bubble sort of the thread, on the array of main. An array is a
-- function of its index; only the indices below `size` are read or written.
pub mod Sorted
mod Tests
use c_programming_language.Base.{ℕ, zero, suc, ◌+◌, ◌-◌, update, if◌then◌else◌}
use c_programming_language.Base.Int.{ℤ, ltb_ℤ}

-- the number of elements
abbrev pub size : ℕ
size = 10

-- the exchange through temp
abbrev pub exchange : (ℕ → ℤ) → ℕ → ℕ → ℤ
exchange a j = update (update a (j - 1) (a j)) j (a (j - 1))

abbrev pub compare_at : (ℕ → ℤ) → ℕ → ℕ → ℤ
compare_at a j = if ltb_ℤ (a j) (a (j - 1)) then exchange a j else a

-- The loop on j with `m` rounds left: j is `i + m`.
unfoldable pub inner_loop : (ℕ → ℤ) → ℕ → ℕ → ℕ → ℤ
inner_loop a i zero = a
inner_loop a i (suc m) = inner_loop (compare_at a (i + suc m)) i m

-- The loop on i with `k` rounds left.
unfoldable pub outer_loop : (ℕ → ℤ) → ℕ → ℕ → ℕ → ℤ
unfolding inner_loop
outer_loop a i zero = a
outer_loop a i (suc k) = outer_loop (inner_loop a i (size - 1 - i)) (i + 1) k

unfoldable pub sort_array : (ℕ → ℤ) → ℕ → ℤ
unfolding outer_loop
sort_array a = outer_loop a 0 size
