-- ===== src/MaxSub/Middle.antt =====
-- Algorithms/D&C/max_sub.c: `mid_sub`, the greatest sum of the parts around the middle.
use mathlib.Core.Path.{subst}
use c_programming_language.Base.{
  ℕ, suc, ◌+◌, ◌-◌, ◌≤◌, ◌<◌, ◌≡◌, refl, sym, ap, ◌∙◌, ◌⊎◌, inl, inr, some, arith, ◌==◌, Bool-cases,
}
use c_programming_language.Base.Int.{ℤ, pos, ◌+ℤ◌, ◌≤ℤ◌, +ℤ_parts}
use c_programming_language.MaxSub.{int_min, int_max, left_loop, right_loop, mid_sub}
use c_programming_language.MaxSub.Sums.{part, part-append, IsGreatest, IsGreatest-none}
use c_programming_language.MaxSub.Loops.{
  Fits, ending, starting, left_best, right_best, left_loop_lem, right_loop_lem, left_loop-fits,
  right_loop-fits, add_int-fits,
}

-- The greatest of three.
abbrev pub IsMaxThree : (ℤ → ℤ → ℤ → ℤ) → Type 0
IsMaxThree f =
    (x y z : ℤ)
    → (x ≤ℤ f x y z)
      × (y ≤ℤ f x y z)
      × (z ≤ℤ f x y z)
      × ((f x y z ≡ x) ⊎ (f x y z ≡ y) ⊎ (f x y z ≡ z))

-- `m` is the sum of a part from `start` to `stop`.
abbrev pub IsPart : (ℕ → ℤ) → ℕ → ℕ → ℤ → Type 0
IsPart a start stop m =
    (i : ℕ) × (k : ℕ) × (start ≤ i) × (0 < k) × (i + k ≤ stop) × (m ≡ part a i k)

-- A part, and no part that holds the element at `med` is greater.
pub record IsMiddle (a : ℕ → ℤ) (start med stop : ℕ) (m : ℤ) : Type 0 where
  pub above : (i k : ℕ) → start ≤ i → 0 < k → i + k ≤ stop → i ≤ med → med < i + k → part a i k ≤ℤ m
  pub among : IsPart a start stop m

-- a part on both sides of `e`, as the sum of its halves
split :
    (a : ℕ → ℤ) (i e n k : ℕ)
    → i ≤ e
    → k ≡ (e - i) + n
    → part a i k ≡ part a i (e - i) +ℤ part a e n
split a i e n k h same =
    ap (part a i) same
    ∙ part-append a i (e - i) n
    ∙ ap (λ z. part a i (e - i) +ℤ part a z n) (let p : i + (e - i) ≡ e = omega arith in p)

module _ (a : ℕ → ℤ) (start e stop : ℕ) (l r m : ℤ) (low : start < e) (high : e < stop)
    (left : IsGreatest (ending a e) (e - start) l) (right : IsGreatest (starting a e) (stop - e) r)
    (over_both : l +ℤ r ≤ℤ m) (over_l : l ≤ℤ m) (over_r : r ≤ℤ m)
    (one_of : (m ≡ l +ℤ r) ⊎ (m ≡ l) ⊎ (m ≡ r)) where
  left-le : (i : ℕ) → start ≤ i → i < e → part a i (e - i) ≤ℤ l
  left-le i h k =
      let same : ending a e (e - i - 1) ≡ part a i (e - i) =
        ap (λ z. part a z (suc (e - i - 1))) (let p : e - suc (e - i - 1) ≡ i = omega arith in p)
        ∙ ap (part a i) (let p : suc (e - i - 1) ≡ e - i = omega arith in p) in
      subst (λ z. z ≤ℤ l) same (left.above (e - i - 1) (omega arith))

  above_around : (i k : ℕ) → start ≤ i → i + k ≤ stop → i < e → e ≤ i + k → part a i k ≤ℤ m
  above_around i k from to before behind = elim (Bool-cases (e == i + k)) [
    | inl t ↦
        let same : part a i k ≡ part a i (e - i) =
          ap (part a i) (let p : k ≡ e - i = ground arith in p) in
        rw same (let h = left-le i from before in omega arith)
    | inr t ↦
        let n = i + k - e - 1 in
        let more = right.above n (ground arith) in
        let h = left-le i from before in
        rw (split a i e (suc n) k (omega arith) (ground arith))
          (omega (arith, +ℤ_parts (part a i (e - i)) (part a e (suc n)), +ℤ_parts l r))
  ]

  left-IsPart : IsPart a start stop l
  left-IsPart = elim left.among [
    | inl (empty, low_l) ↦ absurd (omega arith)
    | inr (d, h, same) ↦ (e - suc d, suc d, omega arith, omega arith, omega arith, same)
  ]

  right-IsPart : IsPart a start stop r
  right-IsPart = elim right.among [
    | inl (empty, low_r) ↦ absurd (omega arith)
    | inr (d, h, same) ↦ (e, suc d, omega arith, omega arith, omega arith, same)
  ]

  both-IsPart : IsPart a start stop (l +ℤ r)
  both-IsPart = elim left.among [
    | inl (empty, low_l) ↦ absurd (omega arith)
    | inr (d, h, same_l) ↦ elim right.among [
      | inl (empty, low_r) ↦ absurd (omega arith)
      | inr (d', h', same_r) ↦ (
        e - suc d,
        suc d + suc d',
        omega arith,
        omega arith,
        omega arith,
        ap (λ z. z +ℤ r) same_l
            ∙ ap (λ z. ending a e d +ℤ z) same_r
            ∙ ap (λ z. ending a e d +ℤ part a z (suc d'))
                (let p : e ≡ e - suc d + suc d = omega arith in p)
            ∙ sym (part-append a (e - suc d) (suc d) (suc d')),
      )
    ]
  ]

  one_of-IsPart : IsPart a start stop m
  one_of-IsPart = elim one_of [
    | inl both ↦ rw both both-IsPart
    | inr (inl is_l) ↦ rw is_l left-IsPart
    | inr (inr is_r) ↦ rw is_r right-IsPart
  ]

counted : (f : ℕ → ℤ) (n : ℕ) (b : ℤ) → IsGreatest f (0 + n) b → IsGreatest f n b
counted f n b is = subst (λ z. IsGreatest f z b) (let p : 0 + n ≡ n = omega arith in p) is

pub mid_sub_lem :
    (max_three : ℤ → ℤ → ℤ → ℤ) (a : ℕ → ℤ) (start med stop : ℕ)
    → IsMaxThree max_three
    → Fits a start stop
    → start ≤ med
    → suc med < stop
    → (m : ℤ) × (mid_sub max_three a start med stop ≡ some m) × IsMiddle a start med stop m
unfolding mid_sub
mid_sub_lem max_three a start med stop greatest_three fits low high =
    let e = med + 1 in
    let l = left_best a start (e - start) (pos 0) int_min in
    let r = right_best a e (stop - e) (pos 0) int_min in
    let left : IsGreatest (ending a e) (e - start) l = counted (ending a e) (e - start) l (
      left_loop_lem a start e stop fits (e - start) 0 (pos 0) int_min (omega arith) (omega arith)
        refl (IsGreatest-none (ending a e))) in
    let right : IsGreatest (starting a e) (stop - e) r = counted (starting a e) (stop - e) r (
      subst
        (λ z.
          IsGreatest (starting a e) (0 + (stop - e)) (right_best a z (stop - e) (pos 0) int_min))
        (let p : e + 0 ≡ e = omega arith in p)
        (right_loop_lem a start e stop fits (stop - e) 0 (pos 0) int_min (omega arith) (omega arith)
          refl (IsGreatest-none (starting a e)))) in
    let (over_both, over_l, over_r, one_of) = greatest_three (l +ℤ r) l r in
    let m = max_three (l +ℤ r) l r in
    let whole : IsPart a start stop (l +ℤ r) =
      both-IsPart a start e stop l r m (omega arith) (omega arith) left right over_both over_l
        over_r one_of in
    let both : (int_min ≤ℤ l +ℤ r) × (l +ℤ r ≤ℤ int_max) =
      let (i, k, from, some_k, to, same) = whole in rw same (fits i k from some_k to) in
    let run_l : left_loop a start (e - start) (pos 0) int_min ≡ some l =
      left_loop-fits a start stop fits (e - start) 0 (pos 0) int_min (omega arith) refl in
    let run_r : right_loop a e (stop - e) (pos 0) int_min ≡ some r =
      rw (let p : e + 0 ≡ e = omega arith in p) at (
        right_loop-fits a start stop fits e (stop - e) 0 (pos 0) int_min (omega arith) (omega arith)
          refl) in
    (
      m,
      rw (run_l, run_r, add_int-fits l r both) refl,
      record {
        above = λ i k from some_k to at_med over.
            above_around a start e stop l r m (omega arith) (omega arith) left right over_both
              over_l over_r one_of i k from to (omega arith) (omega arith);
        among =
            one_of-IsPart a start e stop l r m (omega arith) (omega arith) left right over_both
              over_l over_r one_of;
      },
    )
