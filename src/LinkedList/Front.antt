-- ===== src/LinkedList/Front.antt =====
-- DQ.c: insertion and removal at the front, and the release of a list.
use c_programming_language.Base.{
  ℕ, zero, suc, ◌<◌, ◌≡◌, ◌≢◌, refl, false, none, some, [], ◌∷◌, ◌==◌, if◌then◌else◌, arith, length,
}
use c_programming_language.Base.Int.{ℤ}
use c_programming_language.Memory.{Ptr, null, Store, done, Ends, Ends-mono, set_cell}
use c_programming_language.Memory.Chain.{
  Node, node, Cells, has, first, IsList, SameOutside, load-done, free-done, Chain-set_cell,
  fresh-not-has,
}
use c_programming_language.LinkedList.{create_node, insert_front, remove_first, free_list}
use c_programming_language.LinkedList.Walk.{set_next-done}

pub create_node-done :
    (fresh : Ptr) (d : ℤ) (s : Store Node)
    → fresh ≢ null
    → create_node fresh d s ≡ done fresh (set_cell s fresh (some (node d null)))
unfolding create_node
create_node-done fresh d s h = rw (let f : (fresh == null) ≡ false = ground arith in f)

pub create_node-null : (d : ℤ) (s : Store Node) → create_node null d s ≡ done null s
unfolding create_node
create_node-null d s = refl

-- `s` after `insert_front`
abbrev pub with_front : Store Node → Ptr → Ptr → ℤ → Store Node
with_front s fresh head d =
    set_cell (set_cell s fresh (some (node d null))) fresh (some (node d head))

insert_front-done :
    (fresh head : Ptr) (d : ℤ) (s : Store Node)
    → fresh ≢ null
    → insert_front fresh head d s ≡ done fresh (with_front s fresh head d)
unfolding insert_front
insert_front-done fresh head d s h = rw (
  create_node-done fresh d s h,
  set_next-done fresh null head d (set_cell s fresh (some (node d null))) h (ground arith),
)

-- Given an unused address, `insert_front` puts a node with the value before the list, and writes
-- nowhere else.
pub insert_front_lem :
    (s : Store Node) (head fresh : Ptr) (d : ℤ) (xs : Cells)
    → IsList s head xs
    → fresh ≢ null
    → s fresh ≡ none
    → Ends
        (λ l t. IsList t l ((fresh, d) ∷ xs) × SameOutside ((fresh, d) ∷ []) s t)
        (insert_front fresh head d s)
insert_front_lem s head fresh d xs is h unused =
    let out = fresh-not-has s null fresh xs unused is.chain in
    rw (insert_front-done fresh head d s h) (
      record {
        head = refl;
        chain = (
          h,
          out,
          ground (arith, is.head),
          Chain-set_cell _ null fresh _ xs out (Chain-set_cell s null fresh _ xs out is.chain),
        );
      },
      λ a o. ground arith,
    )

-- How `remove_first` changes a list.
abbrev pub FirstRemoved : Store Node → Ptr → Cells → Ptr → Store Node → Type 0
FirstRemoved s head [] l t = (l ≡ head) × (t ≡ s)
FirstRemoved s head ((p, v) ∷ xs) l t = IsList t l xs × (t ≡ set_cell s p none)

-- On an empty list `remove_first` does nothing; else it frees the first node, leaves the rest as the
-- list and changes no other address.
pub remove_first_lem :
    (s : Store Node) (head : Ptr) (xs : Cells)
    → IsList s head xs
    → Ends (FirstRemoved s head xs) (remove_first head s)
unfolding remove_first
remove_first_lem s head [] is = rw (is.head) (refl, refl)
remove_first_lem s head ((p, v) ∷ xs) is =
    let (n, out, e, c) = is.chain in
    let full : (p == null) ≡ false = ground arith in
    rw
      (
        is.head,
        full,
        load-done p (node v (first xs null)) s n e,
        free-done p (node v (first xs null)) s n e,
      )
      (record { head = refl; chain = Chain-set_cell s null p none xs out c }, refl)

-- `freeList` ends and frees exactly the nodes of the list.
pub free_list_lem :
    (fuel : ℕ) (s : Store Node) (head : Ptr) (xs : Cells)
    → IsList s head xs
    → length xs < fuel
    → Ends (λ u t. (a : Ptr) → t a ≡ (if has a xs then none else s a)) (free_list fuel head s)
unfolding free_list
free_list_lem zero s head xs is enough = absurd (omega arith)
free_list_lem (suc fuel) s head [] is enough = rw (is.head) (λ a. refl)
free_list_lem (suc fuel) s head ((p, v) ∷ xs) is enough =
    let (n, out, e, c) = is.chain in
    let full : (p == null) ≡ false = ground arith in
    let q = first xs null in
    rw (is.head, full, load-done p (node v q) s n e, free-done p (node v q) s n e)
      (Ends-mono _ _ (free_list fuel q (set_cell s p none))
        (free_list_lem fuel (set_cell s p none) q xs
          (record { head = refl; chain = Chain-set_cell s null p none xs out c }) (omega arith))
        λ u t gone a. ground (arith, gone a))
