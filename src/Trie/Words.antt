-- ===== src/Trie/Words.antt =====
-- DataStructures/Trie/main.c: the trie finds the words that it was given.
use c_programming_language.Base.{
  ℕ, ◌-◌, ◌≡◌, refl, inl, inr, Bool, true, false, ◌&&◌, ◌||◌, some, List, [], ◌∷◌, arith, ◌==◌,
  if◌then◌else◌, Bool-cases, All, update,
}
use c_programming_language.Trie.{
  Trie, null, node, is_letter, create_node, child_or_new, insert_trie, is_null, search,
  insert_words,
}

abbrev pub same : List ℕ → List ℕ → Bool
same [] [] = true
same [] (d ∷ w) = false
same (c ∷ v) [] = false
same (c ∷ v) (d ∷ w) = c == d && same v w

-- every character is a letter in lower case
abbrev pub IsWord : List ℕ → Type 0
IsWord = All (λ c. is_letter c ≡ true)

abbrev pub is_among : List ℕ → List (List ℕ) → Bool
is_among v [] = false
is_among v (w ∷ ws) = same w v || is_among v ws

search-create_node : (c : ℕ) (v : List ℕ) → IsWord v → search v (create_node c) ≡ some false
unfolding search create_node
search-create_node c [] w = refl
search-create_node c (d ∷ v) (h, w) = rw h refl

-- What `search` says of the child that the insertion goes to.
search-child_or_new :
    (u : Trie) (c : ℕ) (v : List ℕ)
    → IsWord v
    → search v (child_or_new u c) ≡ (if is_null u then some false else search v u)
search-child_or_new null c v w = search-create_node c v w
search-child_or_new (node l d cs) c v w = refl

child_or_new-node : (u : Trie) (c : ℕ) → is_null (child_or_new u c) ≡ false
unfolding create_node
child_or_new-node null c = refl
child_or_new-node (node l d cs) c = refl

search-leaf :
    (l : Bool) (d : ℕ) (cs : ℕ → Trie) (v : List ℕ)
    → search v (node true d cs) ≡ (if same [] v then some true else search v (node l d cs))
unfolding search
search-leaf l d cs [] = refl
search-leaf l d cs (e ∷ v) = refl

-- A node with a new child for one letter.
search-update :
    (c : ℕ) (w : List ℕ) (l : Bool) (d : ℕ) (cs : ℕ → Trie) (u : Trie)
    → is_letter c ≡ true
    → is_null u ≡ false
    → ((v : List ℕ)
        → IsWord v
        → search v u ≡ (if same w v then some true else search v (child_or_new (cs (c - b'a')) c)))
    → (v : List ℕ) → IsWord v
    → search v (node l d (update cs (c - b'a') u))
      ≡ (if same (c ∷ w) v then some true else search v (node l d cs))
unfolding search
search-update c w l d cs u letter ne spec [] is = refl
search-update c w l d cs u letter ne spec (e ∷ v) (e_letter, is) = elim (Bool-cases (c == e)) [
  | inl t ↦
      let equal : e ≡ c = ground arith in
      let here : (c - b'a' == c - b'a') ≡ true = ground arith in
      let self : (c == c) ≡ true = ground arith in
      rw (e_letter, equal, here, ne, self)
        (rw (spec v is, search-child_or_new (cs (c - b'a')) c v is) refl)
  | inr t ↦
      let other : (c - b'a' == e - b'a') ≡ false = ground arith in rw (t, e_letter, other) refl
]

-- Into a trie `insert_trie` inserts the word, and `search` then finds it, and every other word as
-- before.
insert_trie_lem :
    (w : List ℕ) (t : Trie)
    → IsWord w
    → is_null t ≡ false
    → (u : Trie) × (insert_trie w t ≡ some u)
      × (is_null u ≡ false)
      × ((v : List ℕ) → IsWord v → search v u ≡ (if same w v then some true else search v t))
unfolding insert_trie search
insert_trie_lem w null word ne = absurd (cc)
insert_trie_lem [] (node l d cs) word ne =
    (node true d cs, refl, refl, λ v is. search-leaf l d cs v)
insert_trie_lem (c ∷ w) (node l d cs) (letter, word) ne =
    let (u, e, node_u, spec) =
      insert_trie_lem w (child_or_new (cs (c - b'a')) c) word
        (child_or_new-node (cs (c - b'a')) c) in
    rw (letter, e)
      (node l d (update cs (c - b'a') u), refl, refl, search-update c w l d cs u letter node_u spec)

insert_words_lem :
    (ws : List (List ℕ)) (t : Trie)
    → All IsWord ws
    → is_null t ≡ false
    → (u : Trie) × (insert_words ws t ≡ some u)
      × ((v : List ℕ) → IsWord v → search v u ≡ (if is_among v ws then some true else search v t))
unfolding insert_words
insert_words_lem [] t words ne = (t, refl, λ v is. refl)
insert_words_lem (w ∷ ws) t (word, words) ne =
    let (u, e, node_u, spec) = insert_trie_lem w t word ne in
    let (r, f, rest) = insert_words_lem ws u words node_u in
    rw e (r, f, λ v is. ground (arith, rest v is, spec v is))

-- The trie that `main` builds of words in lower case finds a word in lower case exactly if it is one
-- of them, and no index is out of bounds.
pub search-insert_words :
    (root : ℕ) (ws : List (List ℕ))
    → All IsWord ws
    → (t : Trie) × (insert_words ws (create_node root) ≡ some t)
      × ((v : List ℕ) → IsWord v → search v t ≡ some (is_among v ws))
search-insert_words root ws words =
    let (t, e, spec) = insert_words_lem ws (create_node root) words (child_or_new-node null root) in
    (t, e, λ v is. ground (arith, spec v is, search-create_node root v is))
