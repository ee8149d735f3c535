-- ===== src/ArraySort/Sorted.antt =====
-- The sorted array has the elements of the array it was, in ascending order.
use mathlib.Core.Path.{subst}
use native.Mathlib.Decide.{dec_lt}
use c_programming_language.Base.{
  ℕ, zero, suc, ◌+◌, ◌-◌, ◌≤◌, ◌<◌, ◌≡◌, refl, ap, ◌∙◌, arith, Bool, true, false, ◌==◌, ltb,
  if◌then◌else◌,
}
use c_programming_language.Base.Int.{ℤ, ◌≤ℤ◌, ltb_ℤ}
use c_programming_language.ArraySort.{
  size, exchange, compare_at, inner_loop, outer_loop, sort_array,
}

-- `b` has the elements of `a` at other indices below `size`, each once.
pub record Rearranged (a b : ℕ → ℤ) : Type 0 where
  pub from : ℕ → ℕ
  pub back : ℕ → ℕ
  pub same : (l : ℕ) → b l ≡ a (from l)
  pub from-back : (l : ℕ) → from (back l) ≡ l
  pub back-from : (l : ℕ) → back (from l) ≡ l
  pub inside : (l : ℕ) → ltb (from l) size ≡ ltb l size

Rearranged-refl : (a : ℕ → ℤ) → Rearranged a a
Rearranged-refl a = record {
  from = λ l. l;
  back = λ l. l;
  same = λ l. refl;
  from-back = λ l. refl;
  back-from = λ l. refl;
  inside = λ l. refl;
}

Rearranged-trans : {a b c : ℕ → ℤ} → Rearranged a b → Rearranged b c → Rearranged a c
Rearranged-trans p q = record {
  from = λ l. p.from (q.from l);
  back = λ l. q.back (p.back l);
  same = λ l. q.same l ∙ p.same (q.from l);
  from-back = λ l. ap p.from (q.from-back (p.back l)) ∙ p.from-back l;
  back-from = λ l. ap q.back (p.back-from (q.from l)) ∙ q.back-from l;
  inside = λ l. p.inside (q.from l) ∙ q.inside l;
}

-- the exchange of an index with the one before it
abbrev beside : ℕ → ℕ → ℕ
beside j l = if l == j then j - 1 else if l == j - 1 then j else l

exchange-Rearranged : (a : ℕ → ℤ) (j : ℕ) → 0 < j → j < size → Rearranged a (exchange a j)
exchange-Rearranged a j p h = record {
  from = beside j;
  back = beside j;
  same = λ l. ground arith;
  from-back = λ l. ground arith;
  back-from = λ l. ground arith;
  inside = λ l. ground arith;
}

choice-Rearranged :
    {a b c : ℕ → ℤ} (t : Bool) → Rearranged a b → Rearranged a c → Rearranged a (if t then b else c)
choice-Rearranged true p q = p
choice-Rearranged false p q = q

compare_at-Rearranged : (a : ℕ → ℤ) (j : ℕ) → 0 < j → j < size → Rearranged a (compare_at a j)
compare_at-Rearranged a j p h =
    choice-Rearranged (ltb_ℤ (a j) (a (j - 1))) (exchange-Rearranged a j p h) (Rearranged-refl a)

inner_loop-Rearranged : (a : ℕ → ℤ) (i m : ℕ) → i + m < size → Rearranged a (inner_loop a i m)
unfolding inner_loop
inner_loop-Rearranged a i zero h = Rearranged-refl a
inner_loop-Rearranged a i (suc m) h =
    Rearranged-trans (compare_at-Rearranged a (i + suc m) (omega arith) h)
      (inner_loop-Rearranged (compare_at a (i + suc m)) i m (omega arith))

-- The elements before the part from `i` on stay.
inner_loop_before : (a : ℕ → ℤ) (i m l : ℕ) → l < i → inner_loop a i m l ≡ a l
unfolding inner_loop
inner_loop_before a i zero l h = refl
inner_loop_before a i (suc m) l h =
    inner_loop_before (compare_at a (i + suc m)) i m l h ∙ ground arith

-- `x` is at most each element from index `i` on.
abbrev Lower : ℤ → ℕ → (ℕ → ℤ) → Type 0
Lower x i a = (l : ℕ) → i ≤ l → l < size → x ≤ℤ a l

compare_at-Lower :
    (x : ℤ) (a : ℕ → ℤ) (i j : ℕ) → i < j → j < size → Lower x i a → Lower x i (compare_at a j)
compare_at-Lower x a i j h g low l e b =
    ground (arith, low l e b, low j (omega arith) g, low (j - 1) (omega arith) (omega arith))

inner_loop-Lower :
    (x : ℤ) (a : ℕ → ℤ) (i m : ℕ) → i + m < size → Lower x i a → Lower x i (inner_loop a i m)
unfolding inner_loop
inner_loop-Lower x a i zero h low = low
inner_loop-Lower x a i (suc m) h low =
    inner_loop-Lower x (compare_at a (i + suc m)) i m (omega arith)
      (compare_at-Lower x a i (i + suc m) (omega arith) h low)

-- A comparison moves the least element of the part from `j` on to the index before.
compare_at-least :
    (a : ℕ → ℤ) (j : ℕ)
    → 0 < j
    → j < size
    → Lower (a j) j a
    → Lower (compare_at a j (j - 1)) (j - 1) (compare_at a j)
compare_at-least a j p h low l e b = ground (arith, low l)

at_index : (P : ℕ → Type 0) (i j : ℕ) → i ≡ j → P i → P j
at_index P i j e h = subst P e h

inner_loop-least :
    (a : ℕ → ℤ) (i m : ℕ)
    → i + m < size
    → Lower (a (i + m)) (i + m) a
    → Lower (inner_loop a i m i) i (inner_loop a i m)
unfolding inner_loop
inner_loop-least a i zero h low = at_index (λ j. Lower (a j) j a) (i + 0) i (omega arith) low
inner_loop-least a i (suc m) h low = inner_loop-least (compare_at a (i + suc m)) i m (omega arith) (
    at_index (λ j. Lower (compare_at a (i + suc m) j) j (compare_at a (i + suc m))) (i + suc m - 1)
      (i + m) (omega arith) (compare_at-least a (i + suc m) (omega arith) h low))

-- Each element before index `i` is at most those behind it.
abbrev Ordered : ℕ → (ℕ → ℤ) → Type 0
Ordered i a = (p : ℕ) → p < i → Lower (a p) p a

inner_loop-Ordered :
    (a : ℕ → ℤ) (i : ℕ) → i < size → Ordered i a → Ordered (i + 1) (inner_loop a i (size - 1 - i))
inner_loop-Ordered a i h ord p g l e b =
    let rounds = size - 1 - i in
    elim (dec_lt p i) [
      | yes before ↦ elim (dec_lt l i) [
        | yes too ↦
            rw (inner_loop_before a i rounds p before, inner_loop_before a i rounds l too)
              (ord p before l e b)
        | no behind ↦ rw (inner_loop_before a i rounds p before) (
            inner_loop-Lower (a p) a i rounds (omega arith)
              (λ q c f. ord p before q (omega arith) f) l (omega arith) b)
      ]
      | no here ↦
          at_index (λ j. inner_loop a i rounds j ≤ℤ inner_loop a i rounds l) i p (omega arith)
            (inner_loop-least a i rounds (omega arith)
              (λ q c f.
                at_index (λ j. a (i + rounds) ≤ℤ a j) (i + rounds) q (omega arith) (omega arith))
              l (omega arith) b)
    ]

outer_loop_lem :
    (a : ℕ → ℤ) (i k : ℕ)
    → i + k ≡ size
    → Ordered i a
    → Ordered size (outer_loop a i k) × Rearranged a (outer_loop a i k)
unfolding outer_loop
outer_loop_lem a i zero h ord =
    (at_index (λ j. Ordered j a) i size (omega arith) ord, Rearranged-refl a)
outer_loop_lem a i (suc k) h ord =
    let b = inner_loop a i (size - 1 - i) in
    let rest =
      outer_loop_lem b (i + 1) k (omega arith) (inner_loop-Ordered a i (omega arith) ord) in
    (rest.0, Rearranged-trans (inner_loop-Rearranged a i (size - 1 - i) (omega arith)) rest.1)

-- After the sort, an element is at most each one behind it, and the array has the elements that it had
-- before, each at one index.
pub sort_array_lem :
    (a : ℕ → ℤ) (p l : ℕ)
    → p ≤ l
    → l < size
    → (sort_array a p ≤ℤ sort_array a l) × Rearranged a (sort_array a)
unfolding sort_array
sort_array_lem a p l h b =
    let done = outer_loop_lem a 0 size refl (λ q g. absurd (omega arith)) in
    (done.0 p (omega arith) l h b, done.1)
