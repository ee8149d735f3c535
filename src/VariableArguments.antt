-- ===== src/VariableArguments.antt =====
-- Variable_Arguments/Mix_Max_Sum.c: the functions with a variable argument list. The arguments
-- behind `count` are a list; `none` is an argument read that is not there.
mod Tests
use c_programming_language.Base.{
  ℕ, zero, suc, ◌∙◌, ap, sym, ◌≡◌, refl, ◌⊎◌, inl, inr, Bool, true, false, Bool-cases, ◌||◌, Option,
  none, some, List, [], ◌∷◌, length, All, ◌+◌, ◌-◌, if◌then◌else◌, arith,
}
use c_programming_language.Base.Int.{ℤ, pos, ◌+ℤ◌, ◌≤ℤ◌, ltb_ℤ, int_laws}

sum_loop : ℕ → ℤ → List ℤ → Option ℤ
sum_loop zero acc args = some acc
sum_loop (suc k) acc [] = none
sum_loop (suc k) acc (x ∷ args) = sum_loop k (acc +ℤ x) args

unfoldable pub sum : ℕ → List ℤ → Option ℤ
unfolding sum_loop
sum count args = sum_loop count (pos 0) args

-- The test assigns the outcome of the comparison, 0 or 1, to `a`, and `a` to `min` if it is 1.
min_loop : ℕ → ℤ → List ℤ → Option ℤ
min_loop zero min args = some min
min_loop (suc k) min [] = none
min_loop (suc k) min (x ∷ args) = min_loop k (if ltb_ℤ x min then pos 1 else min) args

unfoldable pub min : ℕ → List ℤ → Option ℤ
unfolding min_loop
min count [] = none
min count (x ∷ args) = min_loop (count - 1) x args

max_loop : ℕ → ℤ → List ℤ → Option ℤ
max_loop zero max args = some max
max_loop (suc k) max [] = none
max_loop (suc k) max (x ∷ args) = max_loop k (if ltb_ℤ max x then x else max) args

unfoldable pub max : ℕ → List ℤ → Option ℤ
unfolding max_loop
max count [] = none
max count (x ∷ args) = max_loop (count - 1) x args

-- the sum as the arguments are added one by one
abbrev total : ℤ → List ℤ → ℤ
total acc [] = acc
total acc (x ∷ args) = total (acc +ℤ x) args

-- some argument is less than the first
abbrev pub any_less : ℤ → List ℤ → Bool
any_less m [] = false
any_less m (x ∷ args) = ltb_ℤ x m || any_less m args

min_loop-one : (args : List ℤ) → min_loop (length args) (pos 1) args ≡ some (pos 1)
unfolding min_loop
min_loop-one [] = refl
min_loop-one (x ∷ args) =
    ap (λ z. min_loop (length args) z args) (same (ltb_ℤ x (pos 1))) ∙ min_loop-one args
  where
    same : (b : Bool) → (if b then pos 1 else pos 1) ≡ pos 1
    same true = refl
    same false = refl

min_loop-any_less :
    (m : ℤ) (args : List ℤ)
    → min_loop (length args) m args ≡ some (if any_less m args then pos 1 else m)
unfolding min_loop
min_loop-any_less m [] = refl
min_loop-any_less m (x ∷ args) = elim (Bool-cases (ltb_ℤ x m)) [
  | inl e ↦
      ap (λ z. min_loop (length args) (if z then pos 1 else m) args) e
      ∙ min_loop-one args
      ∙ ap (λ z. some (if z || any_less m args then pos 1 else m)) (sym e)
  | inr e ↦
      ap (λ z. min_loop (length args) (if z then pos 1 else m) args) e
      ∙ min_loop-any_less m args
      ∙ ap (λ z. some (if z || any_less m args then pos 1 else m)) (sym e)
]

-- Called with the number of its arguments, `min` returns the first argument if none is less than it,
-- and else 1, whatever the least argument is.
pub min-any_less :
    (x : ℤ) (args : List ℤ)
    → min (suc (length args)) (x ∷ args) ≡ some (if any_less x args then pos 1 else x)
unfolding min
min-any_less x args =
    rw (let e : suc (length args) - 1 ≡ length args = omega arith in e) (min_loop-any_less x args)

abbrev pub IsOneOf : ℤ → List ℤ → Type 0
IsOneOf m [] = ⊥
IsOneOf m (x ∷ xs) = (m ≡ x) ⊎ IsOneOf m xs

-- One of the values, and none of them is greater.
abbrev pub IsMax : ℤ → List ℤ → Type 0
IsMax m xs = All (λ x. x ≤ℤ m) xs × IsOneOf m xs

-- `m` is at least `best` and the arguments, and one of them
abbrev Best : ℤ → List ℤ → Option ℤ → Type 0
Best best args none = ⊥
Best best args (some m) = (best ≤ℤ m) × All (λ x. x ≤ℤ m) args × ((m ≡ best) ⊎ IsOneOf m args)

Best-step :
    (best x : ℤ) (args : List ℤ) (o : Option ℤ)
    → Best (if ltb_ℤ best x then x else best) args o
    → Best best (x ∷ args) o
Best-step best x args none b = b
Best-step best x args (some m) (ge, all, inl e) = elim (Bool-cases (ltb_ℤ best x)) [
  | inl t ↦ ground arith
  | inr t ↦ ground arith
]
Best-step best x args (some m) (ge, all, inr o) = ground arith

max_loop-Best : (best : ℤ) (args : List ℤ) → Best best args (max_loop (length args) best args)
unfolding max_loop
max_loop-Best best [] = (omega arith, tt, inl refl)
max_loop-Best best (x ∷ args) =
    Best-step best x args _ (max_loop-Best (if ltb_ℤ best x then x else best) args)

IsMax-of_Best :
    (x : ℤ) (args : List ℤ) (o : Option ℤ)
    → Best x args o
    → (m : ℤ) × (o ≡ some m) × IsMax m (x ∷ args)
IsMax-of_Best x args none b = absurd b
IsMax-of_Best x args (some m) (ge, all, one) = (m, refl, ((ge, all), one))

-- Called with the number of its arguments, at least one, `max` returns an argument that none of the
-- arguments exceeds.
pub max-IsMax :
    (x : ℤ) (args : List ℤ)
    → (m : ℤ) × (max (suc (length args)) (x ∷ args) ≡ some m) × IsMax m (x ∷ args)
unfolding max
max-IsMax x args =
    let e : suc (length args) - 1 ≡ length args = omega arith in
    rw e (IsMax-of_Best x args (max_loop (length args) x args) (max_loop-Best x args))

sum_loop-total : (acc : ℤ) (args : List ℤ) → sum_loop (length args) acc args ≡ some (total acc args)
unfolding sum_loop
sum_loop-total acc [] = refl
sum_loop-total acc (x ∷ args) = sum_loop-total (acc +ℤ x) args
