-- ===== src/MaxSub/Loops.antt =====
-- Algorithms/D&C/max_sub.c: the loops of `mid_sub`, which find the greatest of a row of sums.
use mathlib.Core.Path.{subst}
use c_programming_language.Base.{
  ℕ, zero, suc, ◌+◌, ◌-◌, ◌≤◌, ◌<◌, ◌≡◌, refl, sym, ap, ◌∙◌, some, arith, if◌then◌else◌,
}
use c_programming_language.Base.Int.{ℤ, ◌+ℤ◌, ◌≤ℤ◌, ltb_ℤ}
use c_programming_language.MaxSub.{int_min, int_max, add_int, left_loop, right_loop}
use c_programming_language.MaxSub.Sums.{part, part-front, IsGreatest, IsGreatest-step}

-- The sums of the parts from `start` to `stop` are values of `int`.
abbrev pub Fits : (ℕ → ℤ) → ℕ → ℕ → Type 0
Fits a start stop =
    (i k : ℕ) → start ≤ i → 0 < k → i + k ≤ stop → (int_min ≤ℤ part a i k) × (part a i k ≤ℤ int_max)

-- the greatest sum of each loop, in exact integers
unfoldable pub left_best : (ℕ → ℤ) → ℕ → ℕ → (sum best : ℤ) → ℤ
left_best a start zero sum best = best
left_best a start (suc k) sum best =
    left_best a start k (sum +ℤ a (start + k))
      (if ltb_ℤ best (sum +ℤ a (start + k)) then sum +ℤ a (start + k) else best)

unfoldable pub right_best : (ℕ → ℤ) → ℕ → ℕ → (sum best : ℤ) → ℤ
right_best a i zero sum best = best
right_best a i (suc k) sum best =
    right_best a (i + 1) k (sum +ℤ a i) (if ltb_ℤ best (sum +ℤ a i) then sum +ℤ a i else best)

pub add_int-fits :
    (x y : ℤ) → (int_min ≤ℤ x +ℤ y) × (x +ℤ y ≤ℤ int_max) → add_int x y ≡ some (x +ℤ y)
unfolding add_int
add_int-fits x y fits = ground arith

part-next :
    (a : ℕ → ℤ) (start k c : ℕ) (sum : ℤ)
    → sum ≡ part a (start + suc k) c
    → sum +ℤ a (start + k) ≡ part a (start + k) (suc c)
part-next a start k c sum same =
    ap (λ z. z +ℤ a (start + k))
      (same ∙ ap (λ z. part a z c) (let p : start + suc k ≡ start + k + 1 = omega arith in p))
    ∙ sym (part-front a (start + k) c)

-- the parts that end before `e`, and those that start there
abbrev pub ending : (ℕ → ℤ) → ℕ → ℕ → ℤ
ending a e d = part a (e - suc d) (suc d)

abbrev pub starting : (ℕ → ℤ) → ℕ → ℕ → ℤ
starting a e d = part a e (suc d)

module _ (a : ℕ → ℤ) (start e stop : ℕ) (fits : Fits a start stop) where
  pub left_loop_lem :
      (k c : ℕ) (sum best : ℤ)
      → e ≡ start + k + c
      → e ≤ stop
      → sum ≡ part a (start + k) c
      → IsGreatest (ending a e) c best
      → IsGreatest (ending a e) (c + k) (left_best a start k sum best)
  unfolding left_best
  left_loop_lem zero c sum best at_c inside same is =
      subst (λ z. IsGreatest (ending a e) z best) (let p : c ≡ c + 0 = omega arith in p) is
  left_loop_lem (suc k) c sum best at_c inside same is =
      let from : e - suc c ≡ start + k = omega arith in
      let x = sum +ℤ a (start + k) in
      let best' = if ltb_ℤ best x then x else best in
      let whole : x ≡ part a (start + k) (suc c) = part-next a start k c sum same in
      let here : x ≡ ending a e c = whole ∙ ap (λ z. part a z (suc c)) (sym from) in
      subst (λ z. IsGreatest (ending a e) z (left_best a start k x best'))
        (let p : suc c + k ≡ c + suc k = omega arith in p)
        (left_loop_lem k (suc c) x best' (omega arith) inside whole (
          IsGreatest-step (ending a e) c best x here
            (fits (e - suc c) (suc c) (omega arith) (omega arith) (omega arith)).0 is))

  pub right_loop_lem :
      (k c : ℕ) (sum best : ℤ)
      → start ≤ e
      → e + c + k ≤ stop
      → sum ≡ part a e c
      → IsGreatest (starting a e) c best
      → IsGreatest (starting a e) (c + k) (right_best a (e + c) k sum best)
  unfolding right_best
  right_loop_lem zero c sum best low inside same is =
      subst (λ z. IsGreatest (starting a e) z best) (let p : c ≡ c + 0 = omega arith in p) is
  right_loop_lem (suc k) c sum best low inside same is =
      let x = sum +ℤ a (e + c) in
      let best' = if ltb_ℤ best x then x else best in
      let here : x ≡ starting a e c = ap (λ z. z +ℤ a (e + c)) same in
      let rest = right_loop_lem k (suc c) x best' low (omega arith) here (
        IsGreatest-step (starting a e) c best x here
          (fits e (suc c) low (omega arith) (omega arith)).0 is) in
      subst (λ z. IsGreatest (starting a e) z (right_best a (e + c + 1) k x best'))
        (let p : suc c + k ≡ c + suc k = omega arith in p)
        (subst (λ z. IsGreatest (starting a e) (suc c + k) (right_best a z k x best'))
          (let p : e + suc c ≡ e + c + 1 = omega arith in p) rest)

-- No sum of the loops overflows.
module _ (a : ℕ → ℤ) (start stop : ℕ) (fits : Fits a start stop) where
  pub left_loop-fits :
      (k c : ℕ) (sum best : ℤ)
      → start + k + c ≤ stop
      → sum ≡ part a (start + k) c
      → left_loop a start k sum best ≡ some (left_best a start k sum best)
  unfolding left_loop left_best
  left_loop-fits zero c sum best inside same = refl
  left_loop-fits (suc k) c sum best inside same =
      let whole = part-next a start k c sum same in
      let both = fits (start + k) (suc c) (omega arith) (omega arith) (omega arith) in
      rw (add_int-fits sum (a (start + k)) (rw whole both))
        (left_loop-fits k (suc c) (sum +ℤ a (start + k)) _ (omega arith) whole)

  pub right_loop-fits :
      (e k c : ℕ) (sum best : ℤ)
      → start ≤ e
      → e + c + k ≤ stop
      → sum ≡ part a e c
      → right_loop a (e + c) k sum best ≡ some (right_best a (e + c) k sum best)
  unfolding right_loop right_best
  right_loop-fits e zero c sum best low inside same = refl
  right_loop-fits e (suc k) c sum best low inside same =
      let whole : sum +ℤ a (e + c) ≡ part a e (suc c) = ap (λ z. z +ℤ a (e + c)) same in
      let both = fits e (suc c) low (omega arith) (omega arith) in
      let x = sum +ℤ a (e + c) in
      let rest =
        right_loop-fits e k (suc c) x (if ltb_ℤ best x then x else best) low (omega arith) whole in
      rw (add_int-fits sum (a (e + c)) (rw whole both))
        (rw (let p : e + suc c ≡ e + c + 1 = omega arith in p) at rest)
