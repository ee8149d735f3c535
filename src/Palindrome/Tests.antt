-- ===== src/Palindrome/Tests.antt =====
-- Runs of the palindrome test.
use c_programming_language.Base.{ℕ, ◌≡◌, refl, ◌↔◌, Bool, true, some, List, [], ◌∷◌, arith}
use c_programming_language.Palindrome.{is_palindrome, palindrome_loop}
use c_programming_language.Palindrome.Mirror.{IsMirrored, is_palindrome-IsMirrored}

abbrev aba : List ℕ
aba = b'a' ∷ b'b' ∷ b'a' ∷ []

is_palindrome-IsMirrored_example :
    (b : Bool) × (is_palindrome 4 aba ≡ some b) × ((b ≡ true) ↔ IsMirrored aba 0 3)
is_palindrome-IsMirrored_example = is_palindrome-IsMirrored 4 aba (omega arith)

aba_is_one : is_palindrome 4 aba ≡ some true
unfolding is_palindrome palindrome_loop
aba_is_one = refl
