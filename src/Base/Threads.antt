-- ===== src/Base/Threads.antt =====
-- Weights of the first `n` members of a family that threads index, and how often a list has a number.
use native.Mathlib.Decide.{dec_lt}
use c_programming_language.Base.Tests.{◌==◌, ltb, if◌then◌else◌}
use c_programming_language.Base.Lists.{update}
use Prim.Native.Nat.{ℕ, zero, suc, ◌+◌, ◌*◌, ◌≤◌, ◌<◌}
use mathlib.Core.Path.{◌≡◌, refl}
use mathlib.Core.Logic.{◌≢◌}
use mathlib.Core.List.{List, [], ◌∷◌, ◌++◌}
use native.Mathlib.Omega.{arith}

abbrev pub count : ℕ → List ℕ → ℕ
count p [] = 0
count p (q ∷ rest) = (if p == q then 1 else 0) + count p rest

pub count-append :
    (p : ℕ) (front back : List ℕ) → count p (front ++ back) ≡ count p front + count p back
count-append p [] back = ground arith
count-append p (q ∷ front) back = ground (arith, count-append p front back)

module _ {ℓ} {A : Type ℓ} (w : A → ℕ) where
  unfoldable pub total : ℕ → (ℕ → A) → ℕ
  total zero g = 0
  total (suc k) g = w (g k) + total k g

  -- A change from the end on is not seen.
  total-beyond : (g : ℕ → A) (j : ℕ) (v : A) (k : ℕ) → k ≤ j → total k (update g j v) ≡ total k g
  unfolding total
  total-beyond g j v zero out = refl
  total-beyond g j v (suc k) out = ground (arith, total-beyond g j v k)

  -- One member gives its old weight for the new one.
  pub total-update :
      (g : ℕ → A) (j : ℕ) (v : A) (k : ℕ)
      → j < k
      → w (g j) + total k (update g j v) ≡ w v + total k g
  unfolding total
  total-update g j v zero within = absurd (omega arith)
  total-update g j v (suc k) within = elim (dec_lt j k) [
    | yes earlier ↦ ground (arith, total-update g j v k earlier)
    | no latest ↦ ground (arith, total-beyond g j v k)
  ]

  pub le-total : (n : ℕ) (f : ℕ → A) (i : ℕ) → i < n → w (f i) ≤ total n f
  unfolding total
  le-total zero f i h = absurd (omega arith)
  le-total (suc n) f i h = elim (dec_lt i n) [
    | yes below ↦ ground (arith, le-total n f i below)
    | no last ↦ ground arith
  ]

  -- Two members have their weights in the total.
  pub two-le-total :
      (n : ℕ) (f : ℕ → A) (i j : ℕ) → i < n → j < n → i ≢ j → w (f i) + w (f j) ≤ total n f
  unfolding total
  two-le-total zero f i j h k d = absurd (omega arith)
  two-le-total (suc n) f i j h k d = elim (dec_lt i n) [
    | yes below ↦ elim (dec_lt j n) [
      | yes under ↦ ground (arith, two-le-total n f i j below under d)
      | no last ↦ ground (arith, le-total n f i below)
    ]
    | no last ↦ ground (arith, le-total n f j)
  ]

  pub total-constant :
      (n : ℕ) (f : ℕ → A) (c : ℕ) → ((i : ℕ) → i < n → w (f i) ≡ c) → total n f ≡ n * c
  unfolding total
  total-constant zero f c h = omega arith
  total-constant (suc n) f c h =
      omega (arith, total-constant n f c (λ i below. h i (omega arith)), h n)

  -- The first `k` members have the weight `c`, and the others none.
  pub total-first :
      (n : ℕ) (f : ℕ → A) (k c : ℕ)
      → k ≤ n
      → ((i : ℕ) → i < n → w (f i) ≡ (if ltb i k then c else 0))
      → total n f ≡ k * c
  unfolding total
  total-first zero f k c h at = ground arith
  total-first (suc n) f k c h at = elim (dec_lt n k) [
    | yes all ↦
        let same : k ≡ suc n = omega arith in
        rw same
          (omega (arith, total-constant n f c (λ i b. ground (arith, at i (omega arith))), last))
    | no less ↦
        ground
          (arith, total-first n f k c (omega arith) (λ i b. at i (omega arith)), at n (omega arith))
  ]
    where
      last : n < k → w (f n) ≡ c
      last b = ground (arith, at n (omega arith))

  -- Where there is weight, there is a member that has it.
  pub total-pos : (n : ℕ) (f : ℕ → A) → 0 < total n f → (i : ℕ) × (i < n) × (0 < w (f i))
  unfolding total
  total-pos zero f h = absurd (omega arith)
  total-pos (suc n) f h = elim (dec_lt 0 (w (f n))) [
    | yes here ↦ (n, omega arith, here)
    | no less ↦ let (i, b, p) = total-pos n f (omega arith) in (i, omega arith, p)
  ]
