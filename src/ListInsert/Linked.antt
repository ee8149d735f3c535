-- ===== src/ListInsert/Linked.antt =====
-- TreeAndList.c: what `insertList` makes of a list.
use c_programming_language.Base.{
  ℕ, suc, ◌<◌, ◌≡◌, refl, sym, ◌∙◌, ◌≢◌, inl, inr, true, false, Option, none, some, List, [], ◌∷◌,
  arith, ◌==◌, Bool-cases, length, All,
}
use c_programming_language.Base.Int.{ℤ, ltb_ℤ, ◌≤ℤ◌, antisym_ℤ}
use c_programming_language.Memory.{Ptr, null, Store, done, Ends, set_cell, allocate}
use c_programming_language.Memory.Chain.{
  Node, node, Cells, values, has, first, Chain, IsList, load-done, Chain-set_cell, fresh-not-has,
}
use c_programming_language.LinkedList.Walk.{set_next-done}
use c_programming_language.ListSort.Sorted.{IsAscending}
use mathlib.Core.Path.{subst}
use c_programming_language.ListInsert.{place_loop, insert_behind, insert_list}
use c_programming_language.ListInsert.Place.{
  inserted, before, before_value, behind, place_loop-done, before_lem, has_apart, IsLinked,
  linked-Chain,
}

-- The value is not the one at the head of the list.
abbrev pub IsOffHead : ℤ → Cells → Type 0
IsOffHead d [] = Unit
IsOffHead d ((p, v) ∷ xs) = d ≢ v

-- `s` once the node between `b` and `c` is linked in
abbrev pub linked : Store Node → Ptr → ℤ → Ptr → ℤ → Ptr → Store Node
linked s fresh d b v c = set_cell (set_cell s b (some (node v fresh))) fresh (some (node d c))

insert_behind-done :
    (fuel : ℕ) (s : Store Node) (fresh : Ptr) (d : ℤ) (p : Ptr) (v : ℤ) (xs : Cells)
    → Chain s null ((p, v) ∷ xs)
    → fresh ≢ null
    → s fresh ≡ some (node d null)
    → has fresh ((p, v) ∷ xs) ≡ false
    → ltb_ℤ v d ≡ true
    → suc (length xs) < fuel
    → insert_behind fuel fresh d p s
      ≡ done p (linked s fresh d (before d p xs) (before_value d v xs) (behind d xs))
unfolding insert_behind
insert_behind-done fuel s fresh d p v xs c h e out less enough =
    let (m, is_in, at) = before_lem s d p v xs c in
    let apart = has_apart (before d p xs) fresh ((p, v) ∷ xs) is_in out in
    let walk : place_loop fuel d p p s ≡ done (before d p xs, behind d xs) s =
      place_loop-done fuel s d p ((p, v) ∷ xs) c enough ∙ rw less refl in
    rw
      (
        walk,
        set_next-done (before d p xs) (behind d xs) fresh (before_value d v xs) s m at,
        set_next-done fresh null (behind d xs) d
            (set_cell s (before d p xs) (some (node (before_value d v xs) fresh))) h
            (rw (apart, e) refl),
      )
      refl

flip_apart : (a b : Ptr) → (a == b) ≡ false → (b == a) ≡ false
flip_apart a b h = ground arith

set_cell_same : (s : Store Node) (a : Ptr) (m : Option Node) → set_cell s a m a ≡ m
set_cell_same s a m = ground arith

linked_lem :
    (s : Store Node) (fresh : Ptr) (d : ℤ) (p : Ptr) (v : ℤ) (xs : Cells)
    → has fresh ((p, v) ∷ xs) ≡ false
    → Chain s null ((p, v) ∷ xs)
    → IsLinked s fresh d p v xs
        (linked s fresh d (before d p xs) (before_value d v xs) (behind d xs))
linked_lem s fresh d p v xs out c =
    let (m, is_in, at) = before_lem s d p v xs c in
    let apart = has_apart (before d p xs) fresh ((p, v) ∷ xs) is_in out in
    let other : (before d p xs == fresh) ≡ false = flip_apart fresh (before d p xs) apart in
    (
      set_cell_same (set_cell s (before d p xs) _) fresh _,
      rw other (set_cell_same s (before d p xs) _),
      λ a n m. rw (n, m) refl,
    )

inserted_above :
    (m : ℤ) (p : Ptr) (d : ℤ) (xs : Cells)
    → m ≤ℤ d
    → All (λ w. m ≤ℤ w) (values xs)
    → All (λ w. m ≤ℤ w) (values (inserted p d xs))
inserted_above m p d [] le a = (le, tt)
inserted_above m p d ((q, w) ∷ xs) le (b, a) = elim (Bool-cases (ltb_ℤ w d)) [
  | inl t ↦ rw t (b, inserted_above m p d xs le a)
  | inr t ↦ rw t (le, (b, a))
]

All-trans_ℤ : (d w : ℤ) (vs : List ℤ) → d ≤ℤ w → All (λ x. w ≤ℤ x) vs → All (λ x. d ≤ℤ x) vs
All-trans_ℤ d w [] le a = tt
All-trans_ℤ d w (v ∷ vs) le (b, a) = (omega arith, All-trans_ℤ d w vs le a)

-- An ascending list stays ascending.
inserted-IsAscending :
    (p : Ptr) (d : ℤ) (xs : Cells)
    → IsAscending (values xs)
    → IsAscending (values (inserted p d xs))
inserted-IsAscending p d [] up = (tt, tt)
inserted-IsAscending p d ((q, w) ∷ xs) (b, up) = elim (Bool-cases (ltb_ℤ w d)) [
  | inl t ↦ rw t (inserted_above w p d xs (ground arith) b, inserted-IsAscending p d xs up)
  | inr t ↦ let le : d ≤ℤ w = ground arith in rw t ((le, All-trans_ℤ d w (values xs) le b), (b, up))
]

-- A value other than the head's goes into an ascending list before the first value that is not less,
-- and the list stays ascending, with enough fuel and an unused address.
pub insert_list_lem :
    (fuel : ℕ) (s : Store Node) (fresh : Ptr) (d : ℤ) (head : Ptr) (xs : Cells)
    → IsList s head xs
    → fresh ≢ null
    → s fresh ≡ none
    → IsAscending (values xs)
    → IsOffHead d xs
    → length xs < fuel
    → Ends
        (λ l t. IsList t l (inserted fresh d xs) × IsAscending (values (inserted fresh d xs)))
        (insert_list fuel fresh d head s)
unfolding insert_list allocate
insert_list_lem fuel s fresh d head [] is h unused up off enough =
    let full : (fresh == null) ≡ false = ground arith in
    rw (full, is.head) (record { head = refl; chain = (h, refl, ground arith, tt) }, (tt, tt))
insert_list_lem fuel s fresh d head ((p, v) ∷ xs) is h unused up off enough =
    let full : (fresh == null) ≡ false = ground arith in
    let out = fresh-not-has s null fresh ((p, v) ∷ xs) unused is.chain in
    let s1 : Store Node = set_cell s fresh (some (node d null)) in
    let c : Chain s1 null ((p, v) ∷ xs) =
      Chain-set_cell s null fresh (some (node d null)) ((p, v) ∷ xs) out is.chain in
    let p_full : (p == null) ≡ false = ground arith in
    let e : s1 fresh ≡ some (node d null) = ground arith in
    elim (Bool-cases (ltb_ℤ d v)) [
      | inl t ↦
          let not_less : ltb_ℤ v d ≡ false = ground arith in
          rw
            (
              full,
              is.head,
              p_full,
              load-done p (node v (first xs null)) s1 c.0 c.2,
              t,
              set_next-done fresh null p d s1 h e,
            )
            (
              subst (λ ys. IsList (set_cell s1 fresh (some (node d p))) fresh ys)
                  (sym (
                    let same : inserted fresh d ((p, v) ∷ xs) ≡ (fresh, d) ∷ (p, v) ∷ xs =
                      rw not_less refl in
                    same))
                  record {
                    head = refl;
                    chain = (
                      h,
                      out,
                      ground arith,
                      Chain-set_cell s1 null fresh (some (node d p)) ((p, v) ∷ xs) out c,
                    );
                  },
              inserted-IsAscending fresh d ((p, v) ∷ xs) up,
            )
      | inr t ↦
          let less : ltb_ℤ v d ≡ true = ground (arith, off, antisym_ℤ d v) in
          rw
            (
              full,
              is.head,
              p_full,
              load-done p (node v (first xs null)) s1 c.0 c.2,
              t,
              insert_behind-done fuel s1 fresh d p v xs c h e out less enough,
            )
            (
              subst
                  (λ ys.
                    IsList (linked s1 fresh d (before d p xs) (before_value d v xs) (behind d xs)) p
                      ys)
                  (sym (
                    let same : inserted fresh d ((p, v) ∷ xs) ≡ (p, v) ∷ inserted fresh d xs =
                      rw less refl in
                    same))
                  record {
                    head = refl;
                    chain =
                        linked-Chain s1
                          (linked s1 fresh d (before d p xs) (before_value d v xs) (behind d xs))
                          fresh d p v xs h out c (linked_lem s1 fresh d p v xs out c);
                  },
              inserted-IsAscending fresh d ((p, v) ∷ xs) up,
            )
    ]
