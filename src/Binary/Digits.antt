-- ===== src/Binary/Digits.antt =====
-- String_To_Binary.c: the string is the numeral of the number.
use c_programming_language.Base.{
  ℕ, zero, suc, ◌+◌, ◌-◌, ◌*◌, ◌/◌, ◌%◌, ◌^◌, ◌≤◌, ◌<◌, ◌≡◌, refl, sym, ap, ◌∙◌, inl, inr, true,
  false, ◌&&◌, ◌||◌, Option, none, some, ◌>>=◌, arith, ltb, leb, ◌==◌, if◌then◌else◌, Bool-cases,
  update,
}
use c_programming_language.Base.Int.{pos}
use c_programming_language.Binary.{
  is_odd, strlen_loop, digits_loop, dec_to_bin, swap, reverse_loop, reverse, convert,
}

-- `v`, halved `j` times
abbrev pub halves : ℕ → ℕ → ℕ
halves zero v = v
halves (suc j) v = halves j v / 2

-- the value of a character as a binary digit
abbrev pub digit : ℕ → Option ℕ
digit c = if c == b'0' then some 0 else if c == b'1' then some 1 else none

-- the number that the first `k` characters write in base 2, if they are all digits
unfoldable pub number : ℕ → (ℕ → ℕ) → Option ℕ
number zero str = some 0
number (suc k) str = number k str >>= λ n. digit (str k) >>= λ d. some (n * 2 + d)

halves_next : (j v : ℕ) → halves (j + 1) v ≡ halves j v / 2
halves_next j v = ap (λ z. halves z v) (let e : j + 1 ≡ suc j = omega arith in e)

-- The loop writes the bits of the number from its index on, the least one first.
digits_loop_lem :
    (k count v val : ℕ) (str : ℕ → ℕ)
    → val ≡ halves count v
    → (i : ℕ)
    → digits_loop k count (pos val) str i
      ≡ (if ltb i count || leb (count + k) i then str i else b'0' + halves i v % 2)
unfolding digits_loop
digits_loop_lem zero count v val str e i = ground arith
digits_loop_lem (suc k) count v val str e i =
    let next : val / 2 ≡ halves (count + 1) v = ap (λ z. z / 2) e ∙ sym (halves_next count v) in
    let rest =
      digits_loop_lem k (count + 1) v (val / 2)
        (update str count (if is_odd (pos val) then b'1' else b'0')) next i in
    elim (Bool-cases (i == count)) [
      | inl t ↦
          let same : halves i v ≡ val =
            ap (λ z. halves z v) (let p : i ≡ count = ground arith in p) ∙ sym e in
          ground arith
      | inr t ↦ ground arith
    ]

halves_bound : (j m v : ℕ) → v < 2 ^ (j + m) → halves j v < 2 ^ m
halves_bound zero m v h = let e : 0 + m ≡ m = omega arith in rw e at h
halves_bound (suc j) m v h =
    let e : suc j + m ≡ j + suc m = omega arith in
    let below = halves_bound j (suc m) v (rw e at h) in omega arith

-- A round exchanges the outer characters; what the rest reverses lies between them.
exchanged :
    (up end i : ℕ) (str : ℕ → ℕ)
    → up + 1 < end
    → (if leb (up + 1) i && ltb i (end - 1)
        then swap str up (end - 1) (up + 1 + (end - 1) - 1 - i)
        else swap str up (end - 1) i)
      ≡ (if leb up i && ltb i end then str (up + end - 1 - i) else str i)
unfolding swap
exchanged up end i str h =
    let inner : up + 1 + (end - 1) - 1 - i ≡ up + end - 1 - i = omega arith in
    rw inner (elim (Bool-cases (i == up)) [
      | inl t ↦
          let at_end : str (up + end - 1 - i) ≡ str (end - 1) =
            ap str (let p : up + end - 1 - i ≡ end - 1 = ground arith in p) in
          ground arith
      | inr t ↦ elim (Bool-cases (i == end - 1)) [
        | inl u ↦
            let at_up : str (up + end - 1 - i) ≡ str up =
              ap str (let p : up + end - 1 - i ≡ up = ground arith in p) in
            ground arith
        | inr u ↦ ground arith
      ]
    ])

-- The reversal of the characters from `up` to the one before `end`.
pub reverse_loop_lem :
    (fuel up end : ℕ) (str : ℕ → ℕ)
    → up ≤ end
    → end < up + fuel
    → (r : ℕ → ℕ) × (reverse_loop fuel up end str ≡ some r)
      × ((i : ℕ) → r i ≡ (if leb up i && ltb i end then str (up + end - 1 - i) else str i))
unfolding reverse_loop swap
reverse_loop_lem zero up end str order enough = absurd (omega arith)
reverse_loop_lem (suc fuel) up end str order enough = elim (Bool-cases (ltb (up + 1) end)) [
  | inl t ↦
      let (r, e, spec) =
        reverse_loop_lem fuel (up + 1) (end - 1) (swap str up (end - 1)) (ground arith)
          (ground arith) in
      (r, rw t e, λ i. spec i ∙ exchanged up end i str (ground arith))
  | inr t ↦ (
    str,
    rw t refl,
    λ i. elim (Bool-cases (leb up i && ltb i end)) [
      | inl u ↦ rw u (ap str (let p : i ≡ up + end - 1 - i = ground arith in p))
      | inr u ↦ rw u refl
    ],
  )
]

strlen_loop_lem :
    (fuel i len : ℕ) (str : ℕ → ℕ)
    → ((j : ℕ) → j < len → (str j == 0) ≡ false)
    → str len ≡ 0
    → i ≤ len
    → len < i + fuel
    → strlen_loop fuel i str ≡ some len
unfolding strlen_loop
strlen_loop_lem zero i len str body last order enough = absurd (omega arith)
strlen_loop_lem (suc fuel) i len str body last order enough = elim (Bool-cases (i == len)) [
  | inl t ↦ let same : i ≡ len = ground arith in rw (same, last) refl
  | inr t ↦
      rw (body i (ground arith))
        (strlen_loop_lem fuel (i + 1) len str body last (ground arith) (omega arith))
]

-- The digits in the order of their weight, the greatest first.
number_reversed :
    (v : ℕ) (r : ℕ → ℕ)
    → v < 2 ^ 32
    → ((i : ℕ) → i < 32 → r i ≡ b'0' + halves (31 - i) v % 2)
    → (k : ℕ) → k ≤ 32
    → number k r ≡ some (halves (32 - k) v)
unfolding number
number_reversed v r small spec zero h =
    let none_left = halves_bound 32 0 v small in ap some (omega arith)
number_reversed v r small spec (suc k) h =
    let before : halves (32 - k) v ≡ halves (31 - k) v / 2 =
      ap (λ z. halves z v) (let p : 32 - k ≡ suc (31 - k) = omega arith in p) in
    let index : halves (32 - suc k) v ≡ halves (31 - k) v =
      ap (λ z. halves z v) (let p : 32 - suc k ≡ 31 - k = omega arith in p) in
    rw (number_reversed v r small spec k (omega arith), spec k h) (ground (arith, index, before))

-- For an int that is not negative, and with fuel for every character, the string after `dec_to_bin`
-- and `reverse` is the number's numeral: 32 characters, each 0 or 1, that write it in base 2, and the
-- final NUL.
pub convert-number :
    (fuel v : ℕ) (str : ℕ → ℕ)
    → v < 2 ^ 31
    → 32 < fuel
    → (r : ℕ → ℕ) × (convert fuel (pos v) str ≡ some r) × (number 32 r ≡ some v) × (r 32 ≡ 0)
unfolding convert reverse dec_to_bin
convert-number fuel v str small enough =
    let bits = update (digits_loop 32 0 (pos v) str) 32 0 in
    let bit : (i : ℕ) → i < 32 → bits i ≡ b'0' + halves i v % 2 =
      λ i h. ground (arith, digits_loop_lem 32 0 v v str refl i) in
    let len =
      strlen_loop_lem fuel 0 32 bits (λ j h. ground (arith, bit j h)) refl (omega arith)
        (omega arith) in
    let (r, e, spec) = reverse_loop_lem fuel 0 32 bits (omega arith) (omega arith) in
    let digits : (i : ℕ) → i < 32 → r i ≡ b'0' + halves (31 - i) v % 2 = λ i h.
      let inside : (leb 0 i && ltb i 32) ≡ true = ground arith in
      rw inside at (spec i)
      ∙ ap bits (let p : 0 + 32 - 1 - i ≡ 31 - i = omega arith in p)
      ∙ bit (31 - i) (omega arith) in
    (r, rw len e, number_reversed v r (omega arith) digits 32 (omega arith), spec 32)
