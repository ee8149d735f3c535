-- ===== src/Palindrome.antt =====
-- StringsAndChars.c: the palindrome test. A string is the list of its characters, and `strlen` its
-- length. The loop runs on fuel, and `none` is fuel that is used up.
pub mod Mirror
mod Tests
use c_programming_language.Base.{
  ℕ, zero, suc, ◌+◌, ◌-◌, ◌*◌, ◌/◌, ◌%◌, ◌^◌, ◌≤◌, ◌<◌, ◌≡◌, refl, sym, ap, ◌∙◌, ◌≢◌, ◌↔◌, ◌⊎◌, inl,
  inr, Bool, true, false, ◌&&◌, ◌||◌, not, Option, none, some, List, [], ◌∷◌, ◌++◌, map, arith, ltb,
  leb, ◌==◌, if◌then◌else◌, Bool-cases, Option-cases, ◌>>=◌, length, get_elem?, get_or, set,
  replicate, All, update, mem, length-append, length-set, length-replicate, get_or-set, All-append,
}

-- `end` is `high + 1`.
unfoldable pub palindrome_loop : ℕ → (low end : ℕ) → List ℕ → Option Bool
palindrome_loop zero low end s = none
palindrome_loop (suc fuel) low end s =
    let rest = palindrome_loop fuel (low + 1) (end - 1) s in
    if ltb (low + 1) end
    then (if get_or s low 0 == get_or s (end - 1) 0 then rest else some false)
    else some true

unfoldable pub is_palindrome : ℕ → List ℕ → Option Bool
is_palindrome fuel s = palindrome_loop fuel 0 (length s) s
