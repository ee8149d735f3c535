-- ===== src/Binary.antt =====
-- String_To_Binary.c: the binary digits of a number as a string. A buffer is a function of its index,
-- and a character a number. The loops run on fuel, and `none` is fuel that is used up.
pub mod Digits
mod Tests
use c_programming_language.Base.{
  ℕ, zero, suc, ◌+◌, ◌-◌, ◌*◌, ◌/◌, ◌%◌, ◌^◌, ◌≤◌, ◌<◌, ◌≡◌, refl, sym, ap, ◌∙◌, ◌≢◌, ◌↔◌, ◌⊎◌, inl,
  inr, Bool, true, false, ◌&&◌, ◌||◌, not, Option, none, some, List, [], ◌∷◌, ◌++◌, map, arith, ltb,
  leb, ◌==◌, if◌then◌else◌, Bool-cases, Option-cases, ◌>>=◌, length, get_elem?, get_or, set, All,
  update, mem, length-append, length-set, length-replicate, get_or-set, All-append,
}
use c_programming_language.Base.Int.{ℤ, pos, negsuc, sub_ℕ}

-- `strlen` from index `i` on
unfoldable pub strlen_loop : ℕ → ℕ → (ℕ → ℕ) → Option ℕ
strlen_loop zero i str = none
strlen_loop (suc fuel) i str =
    let rest = strlen_loop fuel (i + 1) str in if str i == 0 then some i else rest

-- `val%2!=0` and `val/2`, which rounds towards 0
abbrev pub is_odd : ℤ → Bool
is_odd (pos n) = n % 2 == 1
is_odd (negsuc n) = n % 2 == 0

abbrev pub half : ℤ → ℤ
half (pos n) = pos (n / 2)
half (negsuc n) = sub_ℕ 0 ((n + 1) / 2)

-- the digits from index `count` on, with `k` left
unfoldable pub digits_loop : ℕ → (count : ℕ) → (val : ℤ) → (ℕ → ℕ) → ℕ → ℕ
digits_loop zero count val str = str
digits_loop (suc k) count val str =
    digits_loop k (count + 1) (half val) (update str count (if is_odd val then b'1' else b'0'))

unfoldable pub dec_to_bin : ℤ → (ℕ → ℕ) → ℕ → ℕ
dec_to_bin val str = update (digits_loop 32 0 val str) 32 0

-- the exchange of two characters
unfoldable pub swap : (ℕ → ℕ) → ℕ → ℕ → ℕ → ℕ
swap str up down = update (update str up (str down)) down (str up)

-- `end` is `down + 1`.
unfoldable pub reverse_loop : ℕ → (up end : ℕ) → (ℕ → ℕ) → Option (ℕ → ℕ)
reverse_loop zero up end str = none
reverse_loop (suc fuel) up end str =
    let rest = reverse_loop fuel (up + 1) (end - 1) (swap str up (end - 1)) in
    if ltb (up + 1) end then rest else some str

unfoldable pub reverse : ℕ → (ℕ → ℕ) → Option (ℕ → ℕ)
reverse fuel str = strlen_loop fuel 0 str >>= λ len. reverse_loop fuel 0 len str

-- What `disp_bin` prints from index `i` on; the index is raised before the character is read.
unfoldable pub disp_loop : ℕ → ℕ → (ℕ → ℕ) → Option (List ℕ)
disp_loop zero i str = none
disp_loop (suc fuel) i str =
    let rest : Option (List ℕ) = disp_loop fuel (i + 1) str >>= λ out.
    some (str (i + 1) ∷ (if (i + 1) % 4 == 3 then b' ' ∷ out else out)) in
    if str i == 0 then some [] else rest

unfoldable pub disp_bin : ℕ → (ℕ → ℕ) → Option (List ℕ)
disp_bin fuel str = disp_loop fuel 0 str

-- `dec_to_bin(number,str); reverse(str);`
unfoldable pub convert : ℕ → ℤ → (ℕ → ℕ) → Option (ℕ → ℕ)
convert fuel number str = reverse fuel (dec_to_bin number str)
