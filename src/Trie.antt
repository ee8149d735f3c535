-- ===== src/Trie.antt =====
-- DataStructures/Trie/main.c: a trie of words in lower case. A pointer to a node is a trie, NULL is
-- `null`, the array of children is a function of its index, and a word the list of its characters
-- before the final 0. `none` is a dereference of NULL or an index out of bounds; `malloc`, which the
-- source does not test, succeeds. Prints are left out, with the release of the trie.
pub mod Words
mod Tests
use c_programming_language.Base.{
  ℕ, zero, suc, ◌+◌, ◌-◌, ◌*◌, ◌/◌, ◌%◌, ◌^◌, ◌≤◌, ◌<◌, ◌≡◌, refl, sym, ap, ◌∙◌, ◌≢◌, ◌↔◌, ◌⊎◌, inl,
  inr, Bool, true, false, ◌&&◌, ◌||◌, not, Option, none, some, List, [], ◌∷◌, ◌++◌, map, arith, ltb,
  leb, ◌==◌, if◌then◌else◌, Bool-cases, Option-cases, ◌>>=◌, length, get_elem?, get_or, set,
  replicate, All, update, mem, length-append, length-set, length-replicate, get_or-set, All-append,
}

pub data Trie : Type 0 where
  null : Trie
  node : (is_leaf : Bool) → (data_ : ℕ) → (children : ℕ → Trie) → Trie

abbrev pub letters : ℕ
letters = 26

-- `word[i]-'a'` is an index into the array of children.
abbrev pub is_letter : ℕ → Bool
is_letter c = leb b'a' c && ltb (c - b'a') letters

unfoldable pub create_node : ℕ → Trie
create_node c = node false c (λ i. null)

-- the child that the loop of `insert_trie` goes to, made where there is none
abbrev pub child_or_new : Trie → ℕ → Trie
child_or_new null c = create_node c
child_or_new (node l d cs) c = node l d cs

unfoldable pub insert_trie : List ℕ → Trie → Option Trie
insert_trie [] null = none
insert_trie (c ∷ word) null = none
insert_trie [] (node l d cs) = some (node true d cs)
insert_trie (c ∷ word) (node l d cs) =
    let rest : Option Trie = insert_trie word (child_or_new (cs (c - b'a')) c) >>= λ u.
    some (node l d (update cs (c - b'a') u)) in
    if is_letter c then rest else none

-- `temp->children[index]==NULL`
abbrev pub is_null : Trie → Bool
is_null null = true
is_null (node l d cs) = false

unfoldable pub search : List ℕ → Trie → Option Bool
search [] null = none
search (c ∷ word) null = none
search [] (node l d cs) = some l
search (c ∷ word) (node l d cs) =
    let rest = search word (cs (c - b'a')) in
    if is_letter c then (if is_null (cs (c - b'a')) then some false else rest) else none

-- the calls of `insert_trie` in `main`
unfoldable pub insert_words : List (List ℕ) → Trie → Option Trie
insert_words [] root = some root
insert_words (word ∷ words) root = insert_trie word root >>= insert_words words
