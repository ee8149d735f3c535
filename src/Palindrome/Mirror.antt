-- ===== src/Palindrome/Mirror.antt =====
-- StringsAndChars.c: what the palindrome test decides.
use c_programming_language.Base.{
  ℕ, zero, suc, ◌+◌, ◌-◌, ◌≤◌, ◌<◌, ◌≡◌, refl, sym, ap, ◌∙◌, ◌↔◌, inl, inr, Bool, true, false, some,
  List, arith, ltb, ◌==◌, Bool-cases, length, get_or,
}
use c_programming_language.Palindrome.{palindrome_loop, is_palindrome}

-- The characters from `low` to the one before `end` are those at the mirrored places.
abbrev pub IsMirrored : List ℕ → ℕ → ℕ → Type 0
IsMirrored s low end = (i : ℕ) → low ≤ i → i < end → get_or s i 0 ≡ get_or s (low + end - 1 - i) 0

IsMirrored-outer :
    (s : List ℕ) (low end : ℕ)
    → low + 1 < end
    → get_or s low 0 ≡ get_or s (end - 1) 0
    → IsMirrored s (low + 1) (end - 1)
    → IsMirrored s low end
IsMirrored-outer s low end h e inner i from to = elim (Bool-cases (i == low)) [
  | inl t ↦
      ap (λ z. get_or s z 0) (let p : i ≡ low = ground arith in p)
      ∙ e
      ∙ ap (λ z. get_or s z 0) (let p : end - 1 ≡ low + end - 1 - i = ground arith in p)
  | inr t ↦ elim (Bool-cases (i == end - 1)) [
    | inl u ↦
        ap (λ z. get_or s z 0) (let p : i ≡ end - 1 = ground arith in p)
        ∙ sym e
        ∙ ap (λ z. get_or s z 0) (let p : low ≡ low + end - 1 - i = ground arith in p)
    | inr u ↦
        inner i (ground arith) (ground arith)
        ∙ ap (λ z. get_or s z 0)
            (let p : low + 1 + (end - 1) - 1 - i ≡ low + end - 1 - i = omega arith in p)
  ]
]

IsMirrored-inner :
    (s : List ℕ) (low end : ℕ)
    → low + 1 < end
    → IsMirrored s low end
    → IsMirrored s (low + 1) (end - 1)
IsMirrored-inner s low end h outer i from to =
    outer i (omega arith) (omega arith)
    ∙ ap (λ z. get_or s z 0)
        (let p : low + end - 1 - i ≡ low + 1 + (end - 1) - 1 - i = omega arith in p)

palindrome_loop_lem :
    (fuel low end : ℕ) (s : List ℕ)
    → low ≤ end
    → end < low + fuel
    → (b : Bool) × (palindrome_loop fuel low end s ≡ some b) × ((b ≡ true) ↔ IsMirrored s low end)
unfolding palindrome_loop
palindrome_loop_lem zero low end s order enough = absurd (omega arith)
palindrome_loop_lem (suc fuel) low end s order enough = elim (Bool-cases (ltb (low + 1) end)) [
  | inr t ↦ rw t (true, refl, (λ _ i from to. ap (λ z. get_or s z 0) (ground arith), λ _. refl))
  | inl t ↦ elim (Bool-cases (get_or s low 0 == get_or s (end - 1) 0)) [
    | inl u ↦
        let (b, e, (sound, full)) =
          palindrome_loop_lem fuel (low + 1) (end - 1) s (ground arith) (ground arith) in
        rw (t, u)
          (
            b,
            e,
            (
              λ y. IsMirrored-outer s low end (ground arith) (ground arith) (sound y),
              λ m. full (IsMirrored-inner s low end (ground arith) m),
            ),
          )
    | inr u ↦
        rw (t, u)
          (
            false,
            refl,
            (
              λ y. absurd (cc),
              λ m. absurd (
                  let same = m low (omega arith) (ground arith) in
                  let place : get_or s (low + end - 1 - low) 0 ≡ get_or s (end - 1) 0 =
                    ap (λ z. get_or s z 0) (omega arith) in
                  ground arith),
            ),
          )
  ]
]

-- With fuel for one round more than there are characters, the test ends, and it says yes exactly if
-- every character is the one at the mirrored place.
pub is_palindrome-IsMirrored :
    (fuel : ℕ) (s : List ℕ)
    → length s < fuel
    → (b : Bool) × (is_palindrome fuel s ≡ some b) × ((b ≡ true) ↔ IsMirrored s 0 (length s))
unfolding is_palindrome
is_palindrome-IsMirrored fuel s enough =
    palindrome_loop_lem fuel 0 (length s) s (omega arith) (omega arith)
