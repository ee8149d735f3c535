-- ===== src/Fibonacci.antt =====
-- TextFiles/FibonacciNumbers.c: the numbers that main writes to its file. The inputs are what scanf
-- reads. `none` is an overflow of `int`, or inputs that end before one is above 2.
pub mod Numbers
mod Tests
use c_programming_language.Base.{
  ℕ, zero, suc, ◌+◌, ◌-◌, Option, none, some, List, [], ◌∷◌, ◌>>=◌, leb, if◌then◌else◌,
}
use c_programming_language.Base.Int.{ℤ, pos, leb_ℤ, pos_part}

abbrev pub int_max : ℕ
int_max = 2147483647

-- the rounds that are left of the loop, with fa and fb
unfoldable pub write_loop : ℕ → (fa fb : ℕ) → Option (List ℕ)
write_loop zero fa fb = some []
write_loop (suc k) fa fb =
    let rest = write_loop k fb (fa + fb) in
    if leb (fa + fb) int_max then (rest >>= λ fcs. some ((fa + fb) ∷ fcs)) else none

-- the loop that asks for the last number
abbrev pub ask : List ℤ → Option ℕ
ask [] = none
ask (n ∷ inputs) = if leb_ℤ n (pos 2) then ask inputs else some (pos_part n)

unfoldable pub write_numbers : List ℤ → Option (List ℕ)
unfolding write_loop
write_numbers inputs = ask inputs >>= λ n. write_loop (n - 2) 1 1 >>= λ fcs. some (1 ∷ 1 ∷ fcs)
