-- ===== src/WordTable.antt =====
-- Hash/FrequencyCounter/main.c: a hash table with chains that counts words. A `char` is an integer, a
-- string the list of its characters before the final 0, and a chain the list of its nodes. `none`
-- is a failed `assert`, an index out of bounds, or a read of the buffer before it has a value. `ispunct`
-- is an argument, and so is what `malloc` and `fgets` return. Prints are left out, with the release of
-- the table.
pub mod Counts
pub mod Reading
mod Tests
use c_programming_language.Base.{
  ℕ, ◌+◌, ◌-◌, ◌*◌, ◌%◌, ◌^◌, Bool, true, false, ◌&&◌, Option, none, some, ◌>>=◌, List, [], ◌∷◌,
  ◌++◌, length, ltb, ◌==◌, if◌then◌else◌,
}
use c_programming_language.Base.Int.{ℤ, pos, negsuc, eqb_ℤ}

abbrev pub Word : Type 0
Word = List ℤ

pub record Node : Type 0 where
  pub word : Word
  pub frequency : ℕ

pub record HashTable : Type 0 where
  pub size : ℕ
  pub head : ℕ → List Node

abbrev pub table_size : ℕ
table_size = 511

-- `strcmp(a,b)==0`
abbrev pub same : Word → Word → Bool
same [] [] = true
same [] (c ∷ b) = false
same (c ∷ a) [] = false
same (c ∷ a) (d ∷ b) = eqb_ℤ c d && same a b

-- a `char` as an `unsigned int`
abbrev to_unsigned : ℤ → ℕ
to_unsigned (pos n) = n % 2 ^ 32
to_unsigned (negsuc n) = 2 ^ 32 - 1 - n

unfoldable pub hash_loop : ℕ → ℕ → Word → ℕ
hash_loop size h [] = h
hash_loop size h (c ∷ s) = hash_loop size ((32 * h + to_unsigned c) % 2 ^ 32 % size) s

unfoldable pub hash : Word → ℕ → ℕ
hash s size = hash_loop size 0 s

-- The first argument says whether both calls of `malloc` succeed.
unfoldable pub create_node : Bool → Word → Option Node
create_node true s = some (record { word = s; frequency = 1 })
create_node false s = none

unfoldable pub init_hash : Bool → Option HashTable
init_hash true = some (record { size = table_size; head = λ i. [] })
init_hash false = none

-- `t->head[index]`
abbrev pub chain : HashTable → ℕ → Option (List Node)
chain t index = if ltb index t.size then some (t.head index) else none

-- the assignment to `t->head[index]`
abbrev pub with_chain : HashTable → ℕ → List Node → HashTable
with_chain t index b = record t { head = λ i. if i == index then b else t.head i }

-- the chain after the walk: the word's node counts once more, or the new node is the last
unfoldable pub insert_loop : Node → Word → List Node → List Node
insert_loop n s [] = n ∷ []
insert_loop n s (cur ∷ b) =
    let rest = insert_loop n s b in
    if same cur.word s then record cur { frequency = cur.frequency + 1 } ∷ b else cur ∷ rest

unfoldable pub insert_hash : Bool → HashTable → Word → Option HashTable
unfolding create_node insert_loop
insert_hash m t s = do
  n ← create_node m s
  b ← chain t (hash s t.size)
  some (with_chain t (hash s t.size) (insert_loop n s b))

unfoldable pub find_loop : Word → List Node → Bool
find_loop s [] = false
find_loop s (cur ∷ b) = let rest = find_loop s b in if same cur.word s then true else rest

unfoldable pub find_hash : HashTable → Word → Option Bool
unfolding find_loop
find_hash t s = do b ← chain t (hash s t.size); some (find_loop s b)

unfoldable pub remove_punct : (ℤ → Bool) → Word → Word
remove_punct ispunct [] = []
remove_punct ispunct (c ∷ s) =
    let rest = remove_punct ispunct s in if ispunct c then rest else c ∷ rest

-- a token that is not empty, before the others
abbrev pub emit : Word → List Word → List Word
emit [] ts = ts
emit (c ∷ token) ts = (c ∷ token) ∷ ts

-- the tokens that `strtok` finds between spaces, where a token has begun with `token`
unfoldable pub split : Word → Word → List Word
split token [] = emit token []
split token (c ∷ s) =
    let at_space = emit token (split [] s) in
    let inside = split (token ++ c ∷ []) s in if eqb_ℤ c (pos 32) then at_space else inside

abbrev pub tokens : Word → List Word
tokens = split []

-- The string in the buffer when `strtok` has found no further token: it has put a NUL behind the first
-- one. The flag says whether that has begun.
unfoldable pub left_over : Bool → Word → Word
left_over begun [] = []
left_over true (c ∷ s) = let rest = left_over true s in if eqb_ℤ c (pos 32) then [] else c ∷ rest
left_over false (c ∷ s) =
    let before = left_over false s in
    let rest = left_over true s in if eqb_ℤ c (pos 32) then c ∷ before else c ∷ rest

-- The loop of `main` over the tokens; `malloc k` says whether its call number `k` succeeds.
unfoldable pub insert_tokens :
    (ispunct : ℤ → Bool) (malloc : ℕ → Bool) → ℕ → HashTable → List Word → Option HashTable
insert_tokens ispunct malloc k t [] = some t
insert_tokens ispunct malloc k t (token ∷ tokens) =
    let rest : Option HashTable =
      insert_hash (malloc (k + 1) && malloc (k + 2)) t (remove_punct ispunct token) >>= λ t'.
      insert_tokens ispunct malloc (k + 3) t' tokens in
    if malloc k then rest else none

-- What is in the buffer after `fgets`, which leaves it as it was if it returns NULL; before the first
-- call it has no value.
abbrev pub fetch : Option Word → Option Word → Option Word
fetch none buffer = buffer
fetch (some line) buffer = some line

-- The loop of `main` on the file, by what `fgets` returns in each round until `feof` holds.
unfoldable pub main_loop :
    (ispunct : ℤ → Bool) (malloc : ℕ → Bool)
    → ℕ
    → (buffer : Option Word) → HashTable
    → List (Option Word)
    → Option HashTable
unfolding split left_over insert_tokens
main_loop ispunct malloc k buffer t [] = some t
main_loop ispunct malloc k buffer t (r ∷ rs) = fetch r buffer >>= λ line.
    insert_tokens ispunct malloc k t (tokens line) >>= λ t'.
    main_loop ispunct malloc (k + 3 * length (tokens line)) (some (left_over false line)) t' rs

unfoldable pub count_words :
    (ispunct : ℤ → Bool) (malloc : ℕ → Bool) → List (Option Word) → Option HashTable
unfolding main_loop init_hash
count_words ispunct malloc rs =
    init_hash (malloc 0 && malloc 1) >>= λ t. main_loop ispunct malloc 2 none t rs
