-- ===== src/MaxSub.antt =====
-- Algorithms/D&C/max_sub.c: the greatest sum of a part of an array, by halving. An array is a
-- function of its index; a part runs from `start` to the index before `stop`, so that `end` is
-- `stop - 1`. `none` is a sum that overflows `int`, or fuel that is used up. `max_three` is declared in
-- the file but not defined: it is an argument.
pub mod Sums
pub mod Loops
pub mod Middle
pub mod Correct
mod Tests
use c_programming_language.Base.{
  ℕ, zero, suc, ◌+◌, ◌-◌, ◌^◌, ◌/◌, Bool, ◌&&◌, Option, none, some, ◌>>=◌, leb, ◌==◌, if◌then◌else◌,
}
use c_programming_language.Base.Int.{ℤ, pos, negsuc, ◌+ℤ◌, ltb_ℤ, leb_ℤ}

abbrev pub int_min : ℤ
int_min = negsuc (2 ^ 31 - 1)

abbrev pub int_max : ℤ
int_max = pos (2 ^ 31 - 1)

-- a sum of two `int` values
unfoldable pub add_int : ℤ → ℤ → Option ℤ
add_int x y = if leb_ℤ int_min (x +ℤ y) && leb_ℤ (x +ℤ y) int_max then some (x +ℤ y) else none

-- the loop from `med` down, with `k` elements left: the element at `start + k - 1` is the next
unfoldable pub left_loop : (ℕ → ℤ) → ℕ → ℕ → (sum left_sum : ℤ) → Option ℤ
left_loop a start zero sum left_sum = some left_sum
left_loop a start (suc k) sum left_sum = add_int sum (a (start + k)) >>= λ x.
    left_loop a start k x (if ltb_ℤ left_sum x then x else left_sum)

-- the loop from `med + 1` up, with `k` elements left
unfoldable pub right_loop : (ℕ → ℤ) → ℕ → ℕ → (sum right_sum : ℤ) → Option ℤ
right_loop a i zero sum right_sum = some right_sum
right_loop a i (suc k) sum right_sum =
    add_int sum (a i) >>= λ x. right_loop a (i + 1) k x (if ltb_ℤ right_sum x then x else right_sum)

unfoldable pub mid_sub : (max_three : ℤ → ℤ → ℤ → ℤ) → (ℕ → ℤ) → (start med stop : ℕ) → Option ℤ
unfolding left_loop right_loop add_int
mid_sub max_three a start med stop = do
  left_sum ← left_loop a start (med + 1 - start) (pos 0) int_min
  right_sum ← right_loop a (med + 1) (stop - (med + 1)) (pos 0) int_min
  both ← add_int left_sum right_sum
  some (max_three both left_sum right_sum)

-- the last test of `max_sub`
abbrev pub greatest : ℤ → ℤ → ℤ → ℤ
greatest l r m = if leb_ℤ r l && leb_ℤ m l then l else if leb_ℤ l r && leb_ℤ m r then r else m

unfoldable pub max_sub : (max_three : ℤ → ℤ → ℤ → ℤ) → ℕ → (ℕ → ℤ) → (start stop : ℕ) → Option ℤ
unfolding mid_sub
max_sub max_three zero a start stop = none
max_sub max_three (suc fuel) a start stop =
    let med = (start + (stop - 1)) / 2 in
    let halves : Option ℤ = max_sub max_three fuel a start med >>= λ l.
    max_sub max_three fuel a (med + 1) stop >>= λ r.
    mid_sub max_three a start med stop >>= λ m. some (greatest l r m) in
    if leb stop start then some int_min else if start + 1 == stop then some (a start) else halves
