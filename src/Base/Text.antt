-- ===== src/Base/Text.antt =====
-- C strings as lists of bytes.
use Prim.Native.Nat.{ℕ, zero, suc, ◌≤◌, ◌<◌}
use Prim.Native.Char.{code}
use Prim.Native.String.{String}
use mathlib.Core.Path.{◌≡◌, refl, ap}
use mathlib.Core.List.{List, [], ◌∷◌}
use native.Mathlib.Omega.{arith}
use c_programming_language.Base.Tests.{◌==◌, leb, if◌then◌else◌}
use c_programming_language.Base.Lists.{length, get_elem?}

-- `take k` of a list
abbrev pub take : ℕ → List ℕ → List ℕ
take zero xs = []
take (suc k) [] = []
take (suc k) (x ∷ xs) = x ∷ take k xs

-- the characters of an array up to the terminating NUL
unfoldable pub string_of : List ℕ → List ℕ
string_of [] = []
string_of (x ∷ xs) = let rest = string_of xs in if x == 0 then [] else x ∷ rest

-- the code points of a text, here its bytes
abbrev pub codes : String → List ℕ
codes String.[] = []
codes (String.◌∷◌ c s) = code c ∷ codes s

pub take-all : (k : ℕ) (xs : List ℕ) → length xs ≤ k → take k xs ≡ xs
take-all zero [] h = refl
take-all zero (x ∷ xs) h = absurd (omega arith)
take-all (suc k) [] h = refl
take-all (suc k) (x ∷ xs) h = ap (λ l. x ∷ l) (take-all k xs (omega arith))

pub length-take :
    (k : ℕ) (xs : List ℕ) → length (take k xs) ≡ (if leb k (length xs) then k else length xs)
length-take zero xs = ground arith
length-take (suc k) [] = ground arith
length-take (suc k) (x ∷ xs) = ground (arith, length-take k xs)

pub get_elem?-take : (k i : ℕ) (xs : List ℕ) → i < k → get_elem? (take k xs) i ≡ get_elem? xs i
get_elem?-take zero i xs h = absurd (omega arith)
get_elem?-take (suc k) i [] h = refl
get_elem?-take (suc k) zero (x ∷ xs) h = refl
get_elem?-take (suc k) (suc i) (x ∷ xs) h = get_elem?-take k i xs (omega arith)

pub length-take_le : (k : ℕ) (xs : List ℕ) → length (take k xs) ≤ k
length-take_le zero xs = omega arith
length-take_le (suc k) [] = omega arith
length-take_le (suc k) (x ∷ xs) = omega (arith, length-take_le k xs)
