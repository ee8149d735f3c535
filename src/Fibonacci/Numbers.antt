-- ===== src/Fibonacci/Numbers.antt =====
-- The numbers that the loop writes are the Fibonacci numbers, up to the largest in an int.
use native.Mathlib.Decide.{dec_lt}
use c_programming_language.Base.{
  ℕ, zero, suc, ◌+◌, ◌-◌, ◌≤◌, ◌<◌, ◌≡◌, refl, sym, ap, ◌∙◌, none, some, List, [], ◌∷◌, arith, leb,
  if◌then◌else◌, ◌>>=◌,
}
use c_programming_language.Base.Int.{ℤ}
use c_programming_language.Fibonacci.{int_max, write_loop, ask, write_numbers}

unfoldable pub fib : ℕ → ℕ
fib zero = 0
fib (suc zero) = 1
fib (suc (suc n)) = fib n + fib (suc n)

-- `k` Fibonacci numbers from the one with number `i`
abbrev pub fibs_from : ℕ → ℕ → List ℕ
fibs_from i zero = []
fibs_from i (suc k) = fib i ∷ fibs_from (suc i) k

-- `fib` by its last two values, to compute it at large numbers
unfoldable walk : ℕ → ℕ → ℕ → ℕ
walk zero a b = a
walk (suc n) a b = walk n b (a + b)

walk-fib : (n i : ℕ) → walk n (fib i) (fib (suc i)) ≡ fib (n + i)
unfolding walk fib
walk-fib zero i = ap fib (omega arith)
walk-fib (suc n) i = walk-fib n (suc i) ∙ ap fib (omega arith)

fib_46 : fib 46 ≡ 1836311903
unfolding walk fib
fib_46 = sym (walk-fib 46 0)

fib_47 : fib 47 ≡ 2971215073
unfolding walk fib
fib_47 = sym (walk-fib 47 0)

fib_step : (n : ℕ) → fib (suc (suc n)) ≡ fib n + fib (suc n)
unfolding fib
fib_step n = refl

fib_grows : (n : ℕ) → fib n ≤ fib (suc n)
unfolding fib
fib_grows zero = omega arith
fib_grows (suc n) = omega (arith, fib_step n)

fib_at : (m n : ℕ) → m ≡ n → fib m ≡ fib n
fib_at m n e = ap fib e

fib_mono : (n k : ℕ) → fib n ≤ fib (n + k)
fib_mono n zero = omega (arith, fib_at (n + 0) n (omega arith))
fib_mono n (suc k) =
    omega (arith, fib_mono n k, fib_grows (n + k), fib_at (n + suc k) (suc (n + k)) (omega arith))

fib_fits : (n : ℕ) → n ≤ 46 → fib n ≤ int_max
fib_fits n h = omega (arith, fib_mono n (46 - n), fib_46, fib_at (n + (46 - n)) 46 (omega arith))

write_loop-fits :
    (k i : ℕ)
    → suc i + k ≤ 46
    → write_loop k (fib i) (fib (suc i)) ≡ some (fibs_from (suc (suc i)) k)
unfolding write_loop
write_loop-fits zero i h = refl
write_loop-fits (suc k) i h = ground (
  arith,
  fib_fits (suc (suc i)) (omega arith),
  fib_step i,
  write_loop-fits k (suc i) (omega arith),
)

write_loop-overflows :
    (k i : ℕ) → i < 46 → 46 < suc i + k → write_loop k (fib i) (fib (suc i)) ≡ none
unfolding write_loop
write_loop-overflows zero i h g = absurd (omega arith)
write_loop-overflows (suc k) i h g = elim (dec_lt 46 (suc (suc i))) [
  | yes d ↦ ground (arith, fib_step i, fib_47, fib_at (suc (suc i)) 47 (omega arith))
  | no d ↦ ground (arith, fib_step i, write_loop-overflows k (suc i) (omega arith) (omega arith))
]

ask_above : (inputs : List ℤ) (n : ℕ) → ask inputs ≡ some n → 2 < n
ask_above [] n e = ground arith
ask_above (m ∷ inputs) n e = ground (arith, ask_above inputs n)

by_number :
    (n : ℕ)
    → 2 < n
    → (write_loop (n - 2) 1 1 >>= λ fcs. some (1 ∷ 1 ∷ fcs))
      ≡ (if leb n 46 then some (fibs_from 1 n) else none)
unfolding fib
by_number zero h = absurd (omega arith)
by_number (suc zero) h = absurd (omega arith)
by_number (suc (suc k)) h =
    rw (let f : suc (suc k) - 2 ≡ k = omega arith in f) (elim (dec_lt 46 (suc (suc k))) [
      | yes d ↦ ground (arith, write_loop-overflows k 1 (omega arith) (omega arith))
      | no d ↦ ground (arith, write_loop-fits k 1 (omega arith))
    ])

-- Where the first input above 2 is `n`, the file gets the Fibonacci numbers from the first to that with
-- number `n`, if `n` is at most 46, and the sum overflows if it is more.
pub write_numbers_lem :
    (inputs : List ℤ) (n : ℕ)
    → ask inputs ≡ some n
    → write_numbers inputs ≡ (if leb n 46 then some (fibs_from 1 n) else none)
unfolding write_numbers
write_numbers_lem inputs n e = rw e (by_number n (ask_above inputs n e))
