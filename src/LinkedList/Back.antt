-- ===== src/LinkedList/Back.antt =====
-- DQ.c: insertion and removal at the end.
use mathlib.Core.Path.{subst}
use c_programming_language.Base.{
  ℕ, suc, ◌+◌, ◌≤◌, ◌<◌, ◌≡◌, ◌≢◌, refl, ap, sym, ◌∙◌, false, none, some, [], ◌∷◌, ◌++◌, ◌==◌,
  arith, length, length-append,
}
use c_programming_language.Base.Int.{ℤ}
use c_programming_language.Memory.{Ptr, null, Store, done, fault, Ends, set_cell, load}
use c_programming_language.Memory.Chain.{
  Node, node, Cells, first, Chain, IsList, SameOutside, load-done, free-done, Chain-set_cell,
  fresh-not-has, has-append,
}
use c_programming_language.LinkedList.{
  set_next, last_loop, last_two_loop, insert_last, append, remove_last,
}
use c_programming_language.LinkedList.Walk.{
  set_next-done, last_loop-done, last_two_loop-done, last_of-append, before_last, Chain-last,
  Chain-snoc,
}
use c_programming_language.LinkedList.Front.{create_node-done}

-- the list of at least one node, by its last node
abbrev pub snoc : Cells → Ptr → ℤ → Cells
snoc xs p v = xs ++ (p, v) ∷ []

last_loop-snoc :
    (fuel : ℕ) (s : Store Node) (p : Ptr) (v : ℤ) (xs : Cells)
    → Chain s null (snoc xs p v)
    → length xs < fuel
    → last_loop fuel (first (snoc xs p v) null) s ≡ done p s
last_loop-snoc fuel s p v [] c enough = last_loop-done fuel s p v [] c enough
last_loop-snoc fuel s p v ((q, w) ∷ xs) c enough =
    last_loop-done fuel s q w (snoc xs p v) c (omega (arith, length-append xs ((p, v) ∷ [])))
    ∙ ap (λ z. done z s) (last_of-append xs p q v)

-- A list extended by a node at a fresh address, that points to `end`.
abbrev pub extended : Store Node → Ptr → ℤ → Ptr → ℤ → Ptr → Store Node
extended s p v fresh d end = set_cell (set_cell s fresh (some (node d end))) p (some (node v fresh))

module _ (s : Store Node) (p fresh stop end : Ptr) (v d : ℤ) (xs : Cells)
    (c : Chain s stop (snoc xs p v)) (h : fresh ≢ null) (unused : s fresh ≡ none) where
  pub extended-Chain : Chain (extended s p v fresh d end) end (snoc (snoc xs p v) fresh d)
  extended-Chain =
      let (n, out, e, front) = Chain-last s stop p v xs c in
      let away = fresh-not-has s stop fresh (snoc xs p v) unused c in
      let apart = has-append fresh xs ((p, v) ∷ []) in
      let t = extended s p v fresh d end in
      Chain-snoc t end fresh d (snoc xs p v) h away (ground arith) (
        Chain-snoc t fresh p v xs n out (ground arith)
          (Chain-set_cell _ p p _ xs out (Chain-set_cell s p fresh _ xs (ground arith) front)))

  -- `append`, `insert_last` and `enQueue` set the pointer of the last node
  pub set_next-extended :
      set_next p fresh (set_cell s fresh (some (node d end))) ≡ done tt (extended s p v fresh d end)
  set_next-extended =
      let (n, out, e, front) = Chain-last s stop p v xs c in
      set_next-done p stop fresh v (set_cell s fresh (some (node d end))) n (ground arith)

pub first-snoc :
    (xs : Cells) (p q : Ptr) (v w : ℤ)
    → first (snoc (snoc xs p v) q w) null ≡ first (snoc xs p v) null
first-snoc [] p q v w = refl
first-snoc (x ∷ xs) p q v w = refl

first-ne-null :
    (s : Store Node) (xs : Cells) (p : Ptr) (v : ℤ)
    → Chain s null (snoc xs p v)
    → first (snoc xs p v) null ≢ null
first-ne-null s [] p v c = c.0
first-ne-null s (x ∷ xs) p v c = c.0

ne_null_test : (p q : Ptr) → p ≢ null → p ≡ q → (q == null) ≡ false
ne_null_test p q n e = ground arith

-- Given an unused address, `insert_last` puts a node with the value behind the last node of a list
-- that has one, and changes no other address than that of the last node and the new one.
pub insert_last_lem :
    (fuel : ℕ) (s : Store Node) (head p fresh : Ptr) (v d : ℤ) (xs : Cells)
    → IsList s head (snoc xs p v)
    → fresh ≢ null
    → s fresh ≡ none
    → length xs < fuel
    → Ends
        (λ l t.
          IsList t l (snoc (snoc xs p v) fresh d) × SameOutside ((p, v) ∷ (fresh, d) ∷ []) s t)
        (insert_last fuel fresh head d s)
unfolding insert_last
insert_last_lem fuel s head p fresh v d xs is h unused enough =
    rw
      (
        is.head,
        last_loop-snoc fuel s p v xs is.chain enough,
        create_node-done fresh d s h,
        set_next-extended s p fresh null null v d xs is.chain h unused,
      )
      (
        record {
          head = sym (first-snoc xs p fresh v d);
          chain = extended-Chain s p fresh null null v d xs is.chain h unused;
        },
        λ a o. ground arith,
      )

-- `insert_last` of an empty list reads through NULL.
pub insert_last-empty :
    (fuel : ℕ) (s : Store Node) (fresh : Ptr) (d : ℤ)
    → insert_last (suc fuel) fresh null d s ≡ fault
unfolding insert_last last_loop load
insert_last-empty fuel s fresh d = refl

-- Every list with a node has a last one.
pub snoc_view :
    (x : Ptr × ℤ) (xs : Cells) → (ys : Cells) × (p : Ptr) × (v : ℤ) × (x ∷ xs ≡ snoc ys p v)
snoc_view (p, v) [] = ([], p, v, refl)
snoc_view x (y ∷ xs) = let (ys, p, v, e) = snoc_view y xs in (x ∷ ys, p, v, ap (λ z. x ∷ z) e)

append-snoc :
    (fuel : ℕ) (s : Store Node) (head p fresh : Ptr) (v d : ℤ) (xs : Cells)
    → IsList s head (snoc xs p v)
    → fresh ≢ null
    → s fresh ≡ none
    → length xs < fuel
    → Ends (λ l t. IsList t l (snoc (snoc xs p v) fresh d)) (append fuel fresh head d s)
unfolding append
append-snoc fuel s head p fresh v d xs is h unused enough =
    let full : (first (snoc xs p v) null == null) ≡ false =
      ground (arith, first-ne-null s xs p v is.chain) in
    rw
      (
        is.head,
        full,
        last_loop-snoc fuel s p v xs is.chain enough,
        create_node-done fresh d s h,
        set_next-extended s p fresh null null v d xs is.chain h unused,
      )
      (record {
        head = sym (first-snoc xs p fresh v d);
        chain = extended-Chain s p fresh null null v d xs is.chain h unused;
      })

-- Given an unused address, `append` puts a node with the value behind the last node, or makes it the
-- only one of an empty list.
pub append_lem :
    (fuel : ℕ) (s : Store Node) (head fresh : Ptr) (d : ℤ) (xs : Cells)
    → IsList s head xs
    → fresh ≢ null
    → s fresh ≡ none
    → length xs ≤ fuel
    → Ends (λ l t. IsList t l (snoc xs fresh d)) (append fuel fresh head d s)
unfolding append
append_lem fuel s head fresh d [] is h unused enough =
    rw (is.head, create_node-done fresh d s h)
      (record { head = refl; chain = (h, refl, ground arith, tt) })
append_lem fuel s head fresh d (x ∷ xs) is h unused enough =
    let (ys, p, v, e) = snoc_view x xs in
    let same : length (x ∷ xs) ≡ length ys + 1 = ap length e ∙ length-append ys ((p, v) ∷ []) in
    subst (λ z. Ends (λ l t. IsList t l (snoc z fresh d)) (append fuel fresh head d s)) (sym e)
      (append-snoc fuel s head p fresh v d ys (subst (IsList s head) e is) h unused (omega arith))

before_last-snoc : (xs : Cells) (p q d : Ptr) (v w : ℤ) → before_last (snoc (snoc xs p v) q w) d ≡ p
before_last-snoc [] p q d v w = refl
before_last-snoc ((a, b) ∷ []) p q d v w = refl
before_last-snoc ((a, b) ∷ (c, e) ∷ xs) p q d v w = before_last-snoc ((c, e) ∷ xs) p q a v w

last_two_loop-snoc :
    (fuel : ℕ) (s : Store Node) (p q : Ptr) (v w : ℤ) (xs : Cells)
    → Chain s null (snoc (snoc xs p v) q w)
    → length xs + 1 < fuel
    → last_two_loop fuel (first (snoc xs p v) null) null s ≡ done (q, p) s
last_two_loop-snoc fuel s p q v w [] c enough =
    last_two_loop-done fuel s p null v ((q, w) ∷ []) c (omega arith)
last_two_loop-snoc fuel s p q v w ((a, b) ∷ xs) c enough =
    last_two_loop-done fuel s a null b (snoc (snoc xs p v) q w) c
      (omega (arith, length-append xs ((p, v) ∷ []), length-append (snoc xs p v) ((q, w) ∷ [])))
    ∙ ap (λ z. done z s)
        (pair_eq (last_of-append (snoc xs p v) q a w) (before_last-snoc ((a, b) ∷ xs) p q null v w))
  where
    pair_eq : {k l m n : Ptr} → k ≡ l → m ≡ n → ◌≡◌ {A = Ptr × Ptr} (k, m) (l, n)
    pair_eq e f = cc

-- `remove_last` of a list of two nodes or more frees the last node, leaves the others as the list,
-- and changes no address but those of the last two nodes.
pub remove_last_lem :
    (fuel : ℕ) (s : Store Node) (head p q : Ptr) (v w : ℤ) (xs : Cells)
    → IsList s head (snoc (snoc xs p v) q w)
    → length xs + 1 < fuel
    → Ends
        (λ l t. IsList t l (snoc xs p v) × (t q ≡ none) × SameOutside ((p, v) ∷ (q, w) ∷ []) s t)
        (remove_last fuel head s)
unfolding remove_last
remove_last_lem fuel s head p q v w xs is enough =
    let (n, out, e, front) = Chain-last s null q w (snoc xs p v) is.chain in
    let (m, away, f, back) = Chain-last s q p v xs front in
    let apart = has-append q xs ((p, v) ∷ []) in
    let start : head ≡ first (snoc xs p v) null = is.head ∙ first-snoc xs p q v w in
    let full : (first (snoc xs p v) null == null) ≡ false =
      ne_null_test _ _ (first-ne-null s (snoc xs p v) q w is.chain) (first-snoc xs p q v w) in
    rw
      (
        start,
        full,
        last_two_loop-snoc fuel s p q v w xs is.chain enough,
        load-done q (node w null) s n e,
        set_next-done p q null v s m f,
        free-done q (node w null) (set_cell s p (some (node v null))) n (ground arith),
      )
      (
        record {
          head = refl;
          chain =
              Chain-snoc _ null p v xs m away (ground arith)
                (Chain-set_cell _ p q none xs (ground arith) (Chain-set_cell s p p _ xs away back));
        },
        ground arith,
        λ a o. ground arith,
      )

set_next-null : (r : Ptr) (s : Store Node) → set_next null r s ≡ fault
unfolding set_next load
set_next-null r s = refl

-- `remove_last` of a list of one node writes through NULL.
pub remove_last-single :
    (fuel : ℕ) (s : Store Node) (p : Ptr) (v : ℤ)
    → IsList s p ((p, v) ∷ [])
    → remove_last (suc fuel) p s ≡ fault
unfolding remove_last last_two_loop
remove_last-single fuel s p v is =
    let (n, out, e, c) = is.chain in
    let full : (p == null) ≡ false = ground arith in
    let read = load-done p (node v null) s n e in rw (full, read) (rw (read, set_next-null null s))
