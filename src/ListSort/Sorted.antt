-- ===== src/ListSort/Sorted.antt =====
-- BubbleSort.c: the sorted list.
use mathlib.Core.Path.{subst}
use mathlib.Core.List.{Perm}
use mathlib.Core.List.Perm
use c_programming_language.Base.{
  ℕ, zero, suc, ◌<◌, ◌≡◌, refl, sym, ap, ◌∙◌, ◌≢◌, false, ◌||◌, some, List, [], ◌∷◌, arith, ◌==◌,
  if◌then◌else◌, length, All, mem,
}
use c_programming_language.Base.Int.{ℤ, ltb_ℤ, ◌≤ℤ◌}
use c_programming_language.Memory.{Ptr, null, Store, Ends, Ends-mono, Ends-bind}
use c_programming_language.Memory.Chain.{
  Node, node, Cells, has, first, values, Chain, IsList, SameOutside, load-done,
}
use c_programming_language.ListSort.{inner_loop, outer_loop, sort}
use c_programming_language.ListSort.Values.{
  least, rest_of, has-rest_of, first-rest_of, length-rest_of, least-below_rest_of, rest_of-Perm,
  inner_loop_lem,
}

abbrev pub addresses : Cells → List Ptr
addresses [] = []
addresses ((p, v) ∷ xs) = p ∷ addresses xs

abbrev pub IsAscending : List ℤ → Type 0
IsAscending [] = Unit
IsAscending (v ∷ vs) = All (λ w. v ≤ℤ w) vs × IsAscending vs

addresses-rest_of : (v : ℤ) (xs : Cells) → addresses (rest_of v xs) ≡ addresses xs
addresses-rest_of v [] = refl
addresses-rest_of v ((q, w) ∷ xs) =
    ap (λ z. q ∷ z) (addresses-rest_of (if ltb_ℤ w v then w else v) xs)

has-addresses : (a : Ptr) (xs : Cells) → has a xs ≡ mem a (addresses xs)
has-addresses a [] = refl
has-addresses a ((p, v) ∷ xs) = ap (λ z. (a == p) || z) (has-addresses a xs)

-- The list with the addresses of `xs` whose values are those of `xs` in ascending order.
pub record IsSortedList (s : Store Node) (xs : Cells) (t : Store Node) (ys : Cells) : Type 0 where
  pub chain : Chain t null ys
  pub places : addresses ys ≡ addresses xs
  pub ascends : IsAscending (values ys)
  pub same_values : Perm (values xs) (values ys)
  pub bounds : (m : ℤ) → All (λ w. m ≤ℤ w) (values xs) → All (λ w. m ≤ℤ w) (values ys)
  pub outside : SameOutside xs s t

abbrev head_or : List Ptr → Ptr → Ptr
head_or [] stop = stop
head_or (p ∷ ps) stop = p

first-addresses : (xs : Cells) (stop : Ptr) → first xs stop ≡ head_or (addresses xs) stop
first-addresses [] stop = refl
first-addresses ((p, v) ∷ xs) stop = refl

rest_of-bounds :
    (m v : ℤ) (xs : Cells)
    → m ≤ℤ v
    → All (λ w. m ≤ℤ w) (values xs)
    → (m ≤ℤ least v xs) × All (λ w. m ≤ℤ w) (values (rest_of v xs))
rest_of-bounds m v [] h all = (h, tt)
rest_of-bounds m v ((q, w) ∷ xs) h (hw, all) =
    let (low, rest) = rest_of-bounds m (if ltb_ℤ w v then w else v) xs (ground arith) all in
    (low, (ground arith, rest))

-- The rest of the list is sorted behind the least value.
module _ (s t u : Store Node) (p : Ptr) (v : ℤ) (xs ys : Cells) (n : p ≢ null)
    (out : has p xs ≡ false) (at_p : t p ≡ some (node (least v xs) (first xs null)))
    (same : SameOutside ((p, v) ∷ xs) s t) (rest : IsSortedList t (rest_of v xs) u ys) where
  places_rest : addresses ys ≡ addresses xs
  places_rest = rest.places ∙ addresses-rest_of v xs

  first_rest : first xs null ≡ first ys null
  first_rest =
      first-addresses xs null
      ∙ ap (λ z. head_or z null) (sym places_rest)
      ∙ sym (first-addresses ys null)

  outside_rest : (a : Ptr) → has a xs ≡ false → u a ≡ t a
  outside_rest a h = rest.outside a (has-rest_of a v xs ∙ h)

  cons-IsSortedList : IsSortedList s ((p, v) ∷ xs) u ((p, least v xs) ∷ ys)
  cons-IsSortedList = record {
    chain = (
      n,
      has-addresses p ys ∙ ap (mem p) places_rest ∙ sym (has-addresses p xs) ∙ out,
      outside_rest p out ∙ at_p ∙ ap (λ z. some (node (least v xs) z)) first_rest,
      rest.chain,
    );
    places = ap (λ z. p ∷ z) places_rest;
    ascends = (rest.bounds (least v xs) (least-below_rest_of v xs), rest.ascends);
    same_values = Perm.trans (rest_of-Perm v xs) (Perm.cons (least v xs) rest.same_values);
    bounds =
        λ m (h, all). let (low, above) = rest_of-bounds m v xs h all in (low, rest.bounds m above);
    outside = λ a h. outside_rest a (ground arith) ∙ same a h;
  }

outer_loop_lem :
    (fuel : ℕ) (s : Store Node) (xs : Cells)
    → Chain s null xs
    → length xs < fuel
    → Ends (λ u t. (ys : Cells) × IsSortedList s xs t ys) (outer_loop fuel (first xs null) s)
unfolding outer_loop
outer_loop_lem zero s xs c enough = absurd (omega arith)
outer_loop_lem (suc fuel) s [] c enough = (
  [],
  record {
    chain = tt;
    places = refl;
    ascends = tt;
    same_values = Perm.refl [];
    bounds = λ m h. tt;
    outside = λ a h. refl;
  },
)
outer_loop_lem (suc fuel) s ((p, v) ∷ xs) (n, out, e, c) enough =
    let full : (p == null) ≡ false = ground arith in
    let r = first xs null in
    rw (full, load-done p (node v r) s n e)
      (Ends-bind _ _ (inner_loop (suc fuel) p r s) _
        (inner_loop_lem p r n (suc fuel) s v xs out e c (omega arith))
        λ u t (at_p, chain, same). rw (load-done p (node (least v xs) r) t n at_p) (
          Ends-mono _ _ (outer_loop fuel r t)
            (subst
              (λ z.
                Ends (λ u' t'. (ys : Cells) × IsSortedList t (rest_of v xs) t' ys)
                  (outer_loop fuel z t))
              (first-rest_of v xs null)
              (outer_loop_lem fuel t (rest_of v xs) chain (omega (arith, length-rest_of v xs))))
            λ u' t' (ys, done_rest).
              ((p, least v xs) ∷ ys, cons-IsSortedList s t t' p v xs ys n out at_p same done_rest)))

-- With fuel for one round more than there are nodes, `sort` of a list ends, and the list then has the
-- same addresses in the same order, with the same values in ascending order; it writes nowhere else.
pub sort-IsSortedList :
    (fuel : ℕ) (s : Store Node) (head : Ptr) (xs : Cells)
    → IsList s head xs
    → length xs < fuel
    → Ends (λ u t. (ys : Cells) × IsList t head ys × IsSortedList s xs t ys) (sort fuel head s)
unfolding sort
sort-IsSortedList fuel s head xs is enough = rw (is.head) (
    Ends-mono _ _ (outer_loop fuel (first xs null) s) (outer_loop_lem fuel s xs is.chain enough)
      λ u t (ys, sorted). (
        ys,
        record {
          head =
              first-addresses xs null
              ∙ ap (λ z. head_or z null) (sym sorted.places)
              ∙ sym (first-addresses ys null);
          chain = sorted.chain;
        },
        sorted,
      ))
