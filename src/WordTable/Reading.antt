-- ===== src/WordTable/Reading.antt =====
-- Hash/FrequencyCounter/main.c: the loop of `main` on the file.
use c_programming_language.Base.{ℕ, ◌≡◌, Bool, true, Option, none, some, List, [], ◌∷◌, ◌++◌}
use c_programming_language.Base.Int.{ℤ}
use c_programming_language.WordTable.{Word, HashTable, tokens}
use c_programming_language.WordTable.Counts.{without_punct, IsCounting, reverse_onto}

-- the first token alone
abbrev pub first : List Word → List Word
first [] = []
first (t ∷ ts) = t ∷ []

-- The tokens that the loop reads, where the buffer has the tokens `ts`: those of each line, and where
-- `fgets` reads nothing, the first one of the line before once more.
abbrev pub read_tokens : List Word → List (Option Word) → List Word
read_tokens ts [] = []
read_tokens ts (some line ∷ rs) = tokens line ++ read_tokens (first (tokens line)) rs
read_tokens ts (none ∷ rs) = ts ++ read_tokens (first ts) rs

-- the words of a line and of the rest, put before others
abbrev words_after : (ℤ → Bool) → Word → List (Option Word) → List Word → List Word
words_after ispunct line rs before =
    reverse_onto (without_punct ispunct (tokens line ++ read_tokens (first (tokens line)) rs))
      before

module _ (ispunct : ℤ → Bool) (malloc : ℕ → Bool) (room : (i : ℕ) → malloc i ≡ true) where
  -- what the loop comes to from a table, where the words before are counted
  abbrev Counted : Option HashTable → List Word → Type 0
  Counted o words = (u : HashTable) × (o ≡ some u) × IsCounting u words
