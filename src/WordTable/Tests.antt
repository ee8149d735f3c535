-- ===== src/WordTable/Tests.antt =====
-- Runs of the word table.
use c_programming_language.Base.{◌≡◌, refl, Bool, Option, none, some, List, [], ◌∷◌}
use c_programming_language.Base.Int.{ℤ, pos, eqb_ℤ}
use c_programming_language.WordTable.{Word, hash, hash_loop, split, remove_punct}
use c_programming_language.WordTable.Counts.{occurrences, without_punct}
use c_programming_language.WordTable.Reading.{read_tokens}

-- a full stop
abbrev full_stop : ℤ → Bool
full_stop c = eqb_ℤ c (pos 46)

-- "ab b. ab." and a line feed
abbrev line : Word
line = pos 97 ∷ pos 98 ∷ pos 32 ∷ pos 98 ∷ pos 46 ∷ pos 32 ∷ pos 97 ∷ pos 98 ∷ pos 46 ∷ pos 10 ∷ []

abbrev ab : Word
ab = pos 97 ∷ pos 98 ∷ []

hash_ab : hash (pos 97 ∷ pos 98 ∷ []) 511 ≡ 136
unfolding hash hash_loop
hash_ab = refl

-- The file has one line, and fgets finds its end in the second round.
abbrev rounds : List (Option Word)
rounds = some line ∷ none ∷ []

-- "ab" stands in the line once, and "ab" with a line feed once.
ab_twice : occurrences ab (without_punct full_stop (read_tokens [] rounds)) ≡ 2
unfolding split remove_punct
ab_twice = refl
