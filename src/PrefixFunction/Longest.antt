-- ===== src/PrefixFunction/Longest.antt =====
-- compute_lps finds the longest border of every prefix.
use native.Mathlib.Decide.{ℕ_discrete}
use mathlib.Core.Path.{subst}
use c_programming_language.Base.{
  ℕ, zero, suc, ◌+◌, ◌-◌, ◌*◌, ◌≤◌, ◌<◌, ◌≡◌, ◌≢◌, refl, sym, ap, ◌∙◌, true, some, List, ◌==◌, ltb,
  leb, update, arith, Bool-cases, inl, inr, length,
}
use c_programming_language.PrefixFunction.{char_at, lps_loop, compute_lps}
use c_programming_language.PrefixFunction.Borders.{
  Border, IsLongest, Border-zero, Border-grow, Border-shrink, Border-last, Border-trans,
  Border-inner,
}

-- Before a round: the entries below `i` are right, `len` is a border of the first `i` characters, and
-- no border of the first `i + 1` is longer than `len + 1`.
record Ready (s : ℕ → ℕ) (i len : ℕ) (p : ℕ → ℕ) : Type 0 where
  below : len < i
  entries : (j : ℕ) → j < i → IsLongest s (j + 1) (p j)
  border : Border s i len
  bound : (k : ℕ) → k < i → Border s (i + 1) (k + 1) → k ≤ len

module _ (s : ℕ → ℕ) (i len : ℕ) (p : ℕ → ℕ) (r : Ready s i len p) where
  -- A round that finds the longest border of the next prefix goes on with it.
  Ready-next : (v : ℕ) → IsLongest s (i + 1) v → Ready s (i + 1) v (update p i v)
  Ready-next v new = record {
    below = new.shorter;
    entries = written;
    border = new.border;
    bound = λ k h b. new.longest k h (Border-shrink s (i + 1) k (omega arith) b);
  }
    where
      written : (j : ℕ) → j < i + 1 → IsLongest s (j + 1) (update p i v j)
      written j h = elim (ℕ_discrete i j) [
        | yes same ↦
            let at : update p i v j ≡ v = ground arith in
            rw at (subst (λ k. IsLongest s (k + 1) v) same new)
        | no other ↦
            let at : update p i v j ≡ p j = ground arith in rw at (r.entries j (omega arith))
      ]

  within_bound : (l : ℕ) → l < i + 1 → Border s (i + 1) l → l ≤ len + 1
  within_bound zero h b = omega arith
  within_bound (suc k) h b =
      let next : suc k ≡ k + 1 = omega arith in
      omega (arith, r.bound k (omega arith) (subst (Border s (i + 1)) next b))

  longer-IsLongest : s i ≡ s len → IsLongest s (i + 1) (len + 1)
  longer-IsLongest e = record {
    shorter = omega (arith, r.below);
    border = Border-grow s i len (omega (arith, r.below)) e r.border;
    longest = within_bound;
  }

  none-IsLongest : s i ≢ s len → len ≡ 0 → IsLongest s (i + 1) 0
  none-IsLongest d e = record {
    shorter = omega arith;
    border = Border-zero s (i + 1);
    longest = no_border;
  }
    where
      no_border : (l : ℕ) → l < i + 1 → Border s (i + 1) l → l ≤ 0
      no_border zero h b = omega arith
      no_border (suc k) h b =
          let next : suc k ≡ k + 1 = omega arith in
          let b' : Border s (i + 1) (k + 1) = subst (Border s (i + 1)) next b in
          let first : k ≡ len = omega (arith, r.bound k (omega arith) b') in
          absurd (d (sym (Border-last s i k (omega arith) b') ∙ ap s first))

  Ready-none : s i ≢ s len → len ≡ 0 → Ready s (i + 1) len (update p i 0)
  Ready-none d e =
      subst (λ v. Ready s (i + 1) v (update p i 0)) (sym e) (Ready-next 0 (none-IsLongest d e))

  shorter-lt : len ≢ 0 → p (len - 1) < len
  shorter-lt e =
      let inner = r.entries (len - 1) (omega (arith, r.below)) in omega (arith, inner.shorter)

  Ready-shorter : s i ≢ s len → len ≢ 0 → Ready s i (p (len - 1)) p
  Ready-shorter d e = record {
    below = omega (arith, inner.shorter, r.below);
    entries = r.entries;
    border =
        Border-trans s i len (p (len - 1)) (omega (arith, r.below)) (omega (arith, inner.shorter))
          r.border inner.border;
    bound = shorter_bound;
  }
    where
      inner : IsLongest s len (p (len - 1))
      inner =
          let same : len - 1 + 1 ≡ len = omega arith in
          subst (λ n. IsLongest s n (p (len - 1))) same
            (r.entries (len - 1) (omega (arith, r.below)))

      shorter_bound : (k : ℕ) → k < i → Border s (i + 1) (k + 1) → k ≤ p (len - 1)
      shorter_bound k h b =
          let not_len : k ≢ len = λ same. d (sym (Border-last s i k (omega arith) b) ∙ ap s same) in
          let less : k < len = omega (arith, r.bound k h b) in
          inner.longest k less (
            Border-inner s i len k (omega (arith, r.below)) (omega arith) r.border
              (Border-shrink s i k (omega arith) b))

first_Ready : (pat : List ℕ) (garbage : ℕ → ℕ) → Ready (char_at pat) 1 0 (update garbage 0 0)
first_Ready pat garbage = record {
  below = omega arith;
  entries = only_first;
  border = Border-zero (char_at pat) 1;
  bound = λ k h b. omega arith;
}
  where
    only_first : (j : ℕ) → j < 1 → IsLongest (char_at pat) (j + 1) (update garbage 0 0 j)
    only_first zero h = record {
      shorter = omega arith;
      border = Border-zero (char_at pat) (0 + 1);
      longest = λ l b c. omega arith;
    }
    only_first (suc j) h = absurd (omega arith)

-- With fuel for two rounds for each character that is left, and one for each of the border, the loop
-- ends, and all entries are right.
lps_loop-longest :
    (fuel : ℕ) (pat : List ℕ) (m i len : ℕ) (p : ℕ → ℕ)
    → Ready (char_at pat) i len p
    → i ≤ m
    → 2 * (m - i) + len < fuel
    → (p' : ℕ → ℕ) × (lps_loop fuel pat m i len p ≡ some p')
      × ((j : ℕ) → j < m → IsLongest (char_at pat) (j + 1) (p' j))
unfolding lps_loop
lps_loop-longest zero pat m i len p r h f = absurd (omega arith)
lps_loop-longest (suc fuel) pat m i len p r h f = elim (Bool-cases (ltb i m)) [
  | inr over ↦
      let past : m ≤ i = ground arith in (p, rw over refl, λ j b. r.entries j (omega arith))
  | inl more ↦
      let inside : leb len m ≡ true = ground (arith, r.below) in
      let room : i < m = ground arith in
      rw (more, inside)
        (elim (Bool-cases (char_at pat i == char_at pat len)) [
          | inl same ↦ rw same (
              lps_loop-longest fuel pat m (i + 1) (len + 1) (update p i (len + 1))
                (Ready-next (char_at pat) i len p r (len + 1)
                  (longer-IsLongest (char_at pat) i len p r (ground arith)))
                (omega arith) (omega arith))
          | inr other ↦ rw other (elim (Bool-cases (len == 0)) [
            | inl no_border ↦ rw no_border (
                lps_loop-longest fuel pat m (i + 1) len (update p i 0)
                  (Ready-none (char_at pat) i len p r (ground arith) (ground arith)) (omega arith)
                  (omega (arith, r.below)))
            | inr border ↦
                let before : ltb (len - 1) m ≡ true = ground (arith, r.below) in
                let fewer : p (len - 1) < len = shorter-lt (char_at pat) i len p r (ground arith) in
                rw (border, before)
                  (lps_loop-longest fuel pat m i (p (len - 1)) p
                    (Ready-shorter (char_at pat) i len p r (ground arith) (ground arith)) h
                    (omega arith))
          ])
        ])
]

-- For a pattern with a character, whatever malloc leaves in p, and with fuel for two rounds for each
-- character, compute_lps ends without an index out of bounds, and each entry of p is then the length of
-- the longest border of the prefix that ends there, the prefix itself left out.
pub compute_lps_lem :
    (pat : List ℕ) (garbage : ℕ → ℕ) (fuel : ℕ)
    → 0 < length pat
    → 2 * length pat < fuel
    → (p : ℕ → ℕ) × (compute_lps fuel pat (length pat) garbage ≡ some p)
      × ((j : ℕ) → j < length pat → IsLongest (char_at pat) (j + 1) (p j))
unfolding compute_lps
compute_lps_lem pat garbage fuel h f =
    let inside : ltb 0 (length pat) ≡ true = ground arith in
    rw inside (
      lps_loop-longest fuel pat (length pat) 1 0 (update garbage 0 0) (first_Ready pat garbage)
        (omega arith) (omega arith))
