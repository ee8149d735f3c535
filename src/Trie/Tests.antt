-- ===== src/Trie/Tests.antt =====
-- Runs of the trie.
use c_programming_language.Base.{ℕ, ◌≡◌, refl, none, some, List, [], ◌∷◌, arith}
use c_programming_language.Trie.{Trie, create_node, insert_trie, insert_words, search}
use c_programming_language.Trie.Words.{IsWord, is_among, search-insert_words}

-- "all" and "at"
abbrev words : List (List ℕ)
words = (b'a' ∷ b'l' ∷ b'l' ∷ []) ∷ (b'a' ∷ b't' ∷ []) ∷ []

search-insert_words_example :
    (t : Trie) × (insert_words words (create_node 0) ≡ some t)
    × ((v : List ℕ) → IsWord v → search v t ≡ some (is_among v words))
search-insert_words_example = search-insert_words 0 words (ground arith)

no_capitals : insert_trie (b'A' ∷ []) (create_node 0) ≡ none
unfolding insert_trie create_node
no_capitals = refl
