-- ===== src/MaxSub/Sums.antt =====
-- Algorithms/D&C/max_sub.c: sums of parts of an array, and the greatest of a row of them.
use c_programming_language.Base.{
  ℕ, zero, suc, ◌+◌, ◌<◌, ◌≡◌, refl, sym, ap, ◌∙◌, ◌⊎◌, inl, inr, true, false, arith, ◌==◌,
  if◌then◌else◌, Bool-cases,
}
use c_programming_language.Base.Int.{
  ℤ, pos, ◌+ℤ◌, ◌≤ℤ◌, ltb_ℤ, +ℤ_comm, +ℤ_assoc, +ℤ_zero, antisym_ℤ,
}
use c_programming_language.MaxSub.{int_min}

-- the sum of `k` elements from index `i` on
abbrev pub part : (ℕ → ℤ) → ℕ → ℕ → ℤ
part a i zero = pos 0
part a i (suc k) = part a i k +ℤ a (i + k)

pub part-front : (a : ℕ → ℤ) (i k : ℕ) → part a i (suc k) ≡ part a (i + 1) k +ℤ a i
part-front a i zero = ap (λ z. pos 0 +ℤ a z) (let e : i + 0 ≡ i = omega arith in e)
part-front a i (suc k) =
    ap (λ z. z +ℤ a (i + suc k)) (part-front a i k)
    ∙ +ℤ_assoc (part a (i + 1) k) (a i) (a (i + suc k))
    ∙ ap (λ z. part a (i + 1) k +ℤ z) (+ℤ_comm (a i) (a (i + suc k)))
    ∙ sym (+ℤ_assoc (part a (i + 1) k) (a (i + suc k)) (a i))
    ∙ ap (λ z. part a (i + 1) k +ℤ a z +ℤ a i) (let e : i + suc k ≡ i + 1 + k = omega arith in e)

pub part-append : (a : ℕ → ℤ) (i m n : ℕ) → part a i (m + n) ≡ part a i m +ℤ part a (i + m) n
part-append a i m zero =
    ap (part a i) (let e : m + 0 ≡ m = omega arith in e) ∙ sym (+ℤ_zero (part a i m))
part-append a i m (suc n) =
    ap (part a i) (let e : m + suc n ≡ suc (m + n) = omega arith in e)
    ∙ ap (λ z. z +ℤ a (i + (m + n))) (part-append a i m n)
    ∙ ap (λ z. part a i m +ℤ part a (i + m) n +ℤ a z)
        (let e : i + (m + n) ≡ i + m + n = omega arith in e)
    ∙ +ℤ_assoc (part a i m) (part a (i + m) n) (a (i + m + n))

-- `b` is the greatest of the first `c` values, or `INT_MIN` if there are none.
pub record IsGreatest (f : ℕ → ℤ) (c : ℕ) (b : ℤ) : Type 0 where
  pub above : (d : ℕ) → d < c → f d ≤ℤ b
  pub among : (c ≡ 0) × (b ≡ int_min) ⊎ ((d : ℕ) × (d < c) × (b ≡ f d))

pub IsGreatest-none : (f : ℕ → ℤ) → IsGreatest f 0 int_min
IsGreatest-none f = record { above = λ d h. absurd (omega arith); among = inl (refl, refl) }

pub IsGreatest-step :
    (f : ℕ → ℤ) (c : ℕ) (b x : ℤ)
    → x ≡ f c
    → int_min ≤ℤ f c
    → IsGreatest f c b
    → IsGreatest f (suc c) (if ltb_ℤ b x then x else b)
IsGreatest-step f c b x e low is = elim (Bool-cases (ltb_ℤ b x)) [
  | inl t ↦ rw t (record { above = λ d h. raised d h t; among = inr (c, omega arith, e) })
  | inr t ↦ rw t (record {
    above = λ d h. kept d h t;
    among = elim is.among [
      | inl (none_yet, b_low) ↦
          inr (c, omega arith, antisym_ℤ b (f c) (rw b_low low) (kept c (omega arith) t))
      | inr (d, h, same) ↦ inr (d, omega arith, same)
    ];
  })
]
  where
    raised : (d : ℕ) → d < suc c → ltb_ℤ b x ≡ true → f d ≤ℤ x
    raised d h t = elim (Bool-cases (d == c)) [
      | inl u ↦ let same : d ≡ c = ground arith in rw same (rw e (omega arith))
      | inr u ↦ let old = is.above d (ground arith) in ground arith
    ]

    kept : (d : ℕ) → d < suc c → ltb_ℤ b x ≡ false → f d ≤ℤ b
    kept d h t = elim (Bool-cases (d == c)) [
      | inl u ↦ let same : d ≡ c = ground arith in rw same (rw (sym e) (ground arith))
      | inr u ↦ is.above d (ground arith)
    ]
