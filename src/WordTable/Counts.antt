-- ===== src/WordTable/Counts.antt =====
-- Hash/FrequencyCounter/main.c: the table counts the words.
use c_programming_language.Base.{
  ℕ, ◌+◌, ◌<◌, ◌≡◌, refl, ap, sym, ◌∙◌, inl, inr, Bool, true, false, Bool-cases, ◌||◌, some, List,
  [], ◌∷◌, ltb, ◌==◌, if◌then◌else◌, arith,
}
use c_programming_language.Base.Int.{ℤ, eq_of_parts}
use c_programming_language.WordTable.{
  Word, Node, HashTable, same, hash, hash_loop, with_chain, insert_loop, insert_hash, find_loop,
  remove_punct, insert_tokens, create_node, table_size,
}

same_self : (a : Word) → same a a ≡ true
same_self [] = refl
same_self (c ∷ a) = ground (arith, same_self a)

eq_of_same : (a b : Word) → same a b ≡ true → a ≡ b
eq_of_same [] [] e = refl
eq_of_same [] (d ∷ b) e = ground arith
eq_of_same (c ∷ a) [] e = ground arith
eq_of_same (c ∷ a) (d ∷ b) e =
    let c_eq : c ≡ d = eq_of_parts c d (ground arith) in
    let rest = eq_of_same a b (ground arith) in cc

hash_loop_bound : (s : Word) (h : ℕ) → h < table_size → hash_loop table_size h s < table_size
unfolding hash_loop
hash_loop_bound [] h b = b
hash_loop_bound (c ∷ s) h b = hash_loop_bound s _ (omega arith)

-- A word that differs from `a` differs from all that equal `a`.
same_apart : (a b c : Word) → same a b ≡ false → same a c ≡ true → same b c ≡ false
same_apart a b c ne e = elim (Bool-cases (same b c)) [
  | inl t ↦ absurd (let f : same a b ≡ true = ap (same a) (eq_of_same b c t) ∙ e in ground arith)
  | inr f ↦ f
]

-- The count at the first node of the word, or 0.
abbrev pub count : Word → List Node → ℕ
count w [] = 0
count w (n ∷ b) = if same n.word w then n.frequency else count w b

-- what the table says of a word
abbrev pub frequency_of : HashTable → Word → ℕ
frequency_of t w = count w (t.head (hash w t.size))

abbrev pub one_if : Bool → ℕ
one_if b = if b then 1 else 0

-- how often a word stands in a text
abbrev pub occurrences : Word → List Word → ℕ
occurrences w [] = 0
occurrences w (v ∷ vs) = one_if (same v w) + occurrences w vs

abbrev pub without_punct : (ℤ → Bool) → List Word → List Word
without_punct ispunct [] = []
without_punct ispunct (v ∷ vs) = remove_punct ispunct v ∷ without_punct ispunct vs

abbrev new_node : Word → Node
new_node s = record { word = s; frequency = 1 }

count-insert_loop :
    (s w : Word) (b : List Node)
    → count w (insert_loop (new_node s) s b) ≡ count w b + one_if (same s w)
unfolding insert_loop
count-insert_loop s w [] = omega arith
count-insert_loop s w (cur ∷ b) = elim (Bool-cases (same cur.word s)) [
  | inl e ↦
      let f : same cur.word w ≡ same s w = ap (λ z. same z w) (eq_of_same cur.word s e) in
      ground arith
  | inr e ↦ elim (Bool-cases (same cur.word w)) [
    | inl g ↦ let f = same_apart cur.word s w e g in ground arith
    | inr g ↦ ground (arith, count-insert_loop s w b)
  ]
]

find_loop-insert_loop :
    (s w : Word) (b : List Node)
    → find_loop w (insert_loop (new_node s) s b) ≡ (find_loop w b || same s w)
unfolding insert_loop find_loop
find_loop-insert_loop s w [] = ground arith
find_loop-insert_loop s w (cur ∷ b) = elim (Bool-cases (same cur.word s)) [
  | inl e ↦
      let f : same cur.word w ≡ same s w = ap (λ z. same z w) (eq_of_same cur.word s e) in
      ground arith
  | inr e ↦ ground (arith, find_loop-insert_loop s w b)
]

-- The table counts the words of a text, and finds them.
pub record IsCounting (t : HashTable) (words : List Word) : Type 0 where
  pub size : t.size ≡ table_size
  pub counts : (w : Word) → frequency_of t w ≡ occurrences w words
  pub finds : (w : Word) → find_loop w (t.head (hash w t.size)) ≡ ltb 0 (occurrences w words)

pub hash_bound :
    (t : HashTable) (s : Word) → t.size ≡ table_size → ltb (hash s t.size) t.size ≡ true
unfolding hash
hash_bound t s e = let b = hash_loop_bound s 0 (omega arith) in rw e (ground arith)

-- the table after a word
abbrev pub counted : HashTable → Word → HashTable
counted t s = with_chain t (hash s t.size) (insert_loop (new_node s) s (t.head (hash s t.size)))

insert_hash-counted :
    (t : HashTable) (s : Word) → t.size ≡ table_size → insert_hash true t s ≡ some (counted t s)
unfolding insert_hash create_node
insert_hash-counted t s e = rw (hash_bound t s e) refl

-- Words with another hash are other words.
hash-apart :
    (t : HashTable) (s w : Word) → (hash w t.size == hash s t.size) ≡ false → same s w ≡ false
hash-apart t s w ne = elim (Bool-cases (same s w)) [
  | inl e ↦
      let f : hash s t.size ≡ hash w t.size = ap (λ z. hash z t.size) (eq_of_same s w e) in
      absurd (ground arith)
  | inr f ↦ f
]

IsCounting-counted :
    (t : HashTable) (s : Word) (words : List Word)
    → IsCounting t words
    → IsCounting (counted t s) (s ∷ words)
IsCounting-counted t s words is = record {
  size = is.size;
  counts = λ w. elim (Bool-cases (hash w t.size == hash s t.size)) [
    | inl e ↦
        let i : hash w t.size ≡ hash s t.size = ground arith in
        let c : count w (t.head (hash s t.size)) ≡ occurrences w words =
          ap (λ z. count w (t.head z)) (sym i) ∙ is.counts w in
        rw e (omega (arith, c, count-insert_loop s w (t.head (hash s t.size))))
    | inr e ↦ let f = hash-apart t s w e in ground (arith, is.counts w)
  ];
  finds = λ w. elim (Bool-cases (hash w t.size == hash s t.size)) [
    | inl e ↦
        let i : hash w t.size ≡ hash s t.size = ground arith in
        let c : find_loop w (t.head (hash s t.size)) ≡ ltb 0 (occurrences w words) =
          ap (λ z. find_loop w (t.head z)) (sym i) ∙ is.finds w in
        rw e (ground (arith, c, find_loop-insert_loop s w (t.head (hash s t.size))))
    | inr e ↦ let f = hash-apart t s w e in ground (arith, is.finds w)
  ];
}

abbrev pub reverse_onto : List Word → List Word → List Word
reverse_onto [] ys = ys
reverse_onto (x ∷ xs) ys = reverse_onto xs (x ∷ ys)

-- The words of the tokens are counted, where memory is left.
pub IsCounting-insert_tokens :
    (ispunct : ℤ → Bool) (malloc : ℕ → Bool) (k : ℕ) (t : HashTable) (before tokens : List Word)
    → ((i : ℕ) → malloc i ≡ true)
    → IsCounting t before
    → (u : HashTable) × (insert_tokens ispunct malloc k t tokens ≡ some u)
      × IsCounting u (reverse_onto (without_punct ispunct tokens) before)
unfolding insert_tokens
IsCounting-insert_tokens ispunct malloc k t before [] room is = (t, refl, is)
IsCounting-insert_tokens ispunct malloc k t before (token ∷ tokens) room is =
    let s = remove_punct ispunct token in
    let (u, run, counts) =
      IsCounting-insert_tokens ispunct malloc (k + 3) (counted t s) (s ∷ before) tokens room
        (IsCounting-counted t s before is) in
    (u, rw (room k, room (k + 1), room (k + 2), insert_hash-counted t s is.size) run, counts)

pub occurrences-reverse_onto :
    (w : Word) (xs ys : List Word)
    → occurrences w (reverse_onto xs ys) ≡ occurrences w xs + occurrences w ys
occurrences-reverse_onto w [] ys = omega arith
occurrences-reverse_onto w (x ∷ xs) ys = omega (arith, occurrences-reverse_onto w xs (x ∷ ys))

abbrev pub empty_table : HashTable
empty_table = record { size = table_size; head = λ i. [] }

pub empty_table-IsCounting : IsCounting empty_table []
unfolding find_loop
empty_table-IsCounting = record { size = refl; counts = λ w. refl; finds = λ w. refl }
