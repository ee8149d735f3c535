-- ===== src/PrefixFunction.antt =====
-- DataStructures/String_Algorithms/LPS.c: compute_lps. The array p is a function of its index, whose
-- entries before the call are what malloc left there; the prints are left out.
pub mod Borders
pub mod Longest
mod Tests
use c_programming_language.Base.{
  ℕ, zero, suc, ◌+◌, ◌-◌, Bool, Option, none, some, List, get_or, ltb, leb, ◌==◌, if◌then◌else◌,
  update,
}

-- an access to an array, where the index is in its bounds
abbrev pub in_bounds {ℓ} : {A : Type ℓ} → Bool → Option A → Option A
in_bounds b r = if b then r else none

-- pat[i], with the terminating NUL
abbrev pub char_at : List ℕ → ℕ → ℕ
char_at pat i = get_or pat i 0

-- The while loop, on fuel; `none` is also an index out of bounds.
unfoldable pub lps_loop : ℕ → List ℕ → ℕ → ℕ → ℕ → (ℕ → ℕ) → Option (ℕ → ℕ)
lps_loop zero pat m i len p = none
lps_loop (suc fuel) pat m i len p =
    let longer = lps_loop fuel pat m (i + 1) (len + 1) (update p i (len + 1)) in
    let shorter = in_bounds (ltb (len - 1) m) (lps_loop fuel pat m i (p (len - 1)) p) in
    let no_border = lps_loop fuel pat m (i + 1) len (update p i 0) in
    if ltb i m
    then in_bounds (leb len m) (
        if char_at pat i == char_at pat len
        then longer
        else if len == 0
        then no_border
        else shorter)
    else some p

unfoldable pub compute_lps : ℕ → List ℕ → ℕ → (ℕ → ℕ) → Option (ℕ → ℕ)
unfolding lps_loop
compute_lps fuel pat m p = in_bounds (ltb 0 m) (lps_loop fuel pat m 1 0 (update p 0 0))
