-- ===== src/ListInsert/Place.antt =====
-- TreeAndList.c: where `insertList` puts the value.
use mathlib.Core.Path.{subst}
use c_programming_language.Base.{
  ℕ, zero, suc, ◌<◌, ◌≡◌, refl, sym, ap, ◌∙◌, ◌≢◌, inl, inr, true, false, ◌||◌, some, [], ◌∷◌,
  arith, ◌==◌, if◌then◌else◌, Bool-cases, length,
}
use c_programming_language.Base.Int.{ℤ, ltb_ℤ}
use c_programming_language.Memory.{Ptr, null, Store, done}
use c_programming_language.Memory.Chain.{
  Node, node, Cells, has, first, Chain, load-done, Chain-frame,
}
use c_programming_language.ListInsert.{place_loop}

-- the list with the new node before the first value that is not less
abbrev pub inserted : Ptr → ℤ → Cells → Cells
inserted p d [] = (p, d) ∷ []
inserted p d ((q, w) ∷ xs) = if ltb_ℤ w d then (q, w) ∷ inserted p d xs else (p, d) ∷ (q, w) ∷ xs

-- the node before that place, its value, and the address behind it
abbrev pub before : ℤ → Ptr → Cells → Ptr
before d p [] = p
before d p ((q, w) ∷ xs) = if ltb_ℤ w d then before d q xs else p

abbrev pub before_value : ℤ → ℤ → Cells → ℤ
before_value d v [] = v
before_value d v ((q, w) ∷ xs) = if ltb_ℤ w d then before_value d w xs else v

abbrev pub behind : ℤ → Cells → Ptr
behind d [] = null
behind d ((q, w) ∷ xs) = if ltb_ℤ w d then behind d xs else q

pub place_loop-done :
    (fuel : ℕ) (s : Store Node) (d : ℤ) (p : Ptr) (xs : Cells)
    → Chain s null xs
    → length xs < fuel
    → place_loop fuel d p (first xs null) s ≡ done (before d p xs, behind d xs) s
unfolding place_loop
place_loop-done zero s d p xs c enough = absurd (omega arith)
place_loop-done (suc fuel) s d p [] c enough = refl
place_loop-done (suc fuel) s d p ((q, w) ∷ xs) (n, out, e, c) enough =
    let full : (q == null) ≡ false = ground arith in
    elim (Bool-cases (ltb_ℤ w d)) [
      | inl t ↦
          rw (full, load-done q (node w (first xs null)) s n e, t)
            (place_loop-done fuel s d q xs c (omega arith))
      | inr t ↦ rw (full, load-done q (node w (first xs null)) s n e, t) refl
    ]

has-inserted : (a p : Ptr) (d : ℤ) (xs : Cells) → has a (inserted p d xs) ≡ ((a == p) || has a xs)
has-inserted a p d [] = refl
has-inserted a p d ((q, w) ∷ xs) = elim (Bool-cases (ltb_ℤ w d)) [
  | inl t ↦ rw t (ground (arith, has-inserted a p d xs))
  | inr t ↦ rw t refl
]

has_behind : (a p : Ptr) (v : ℤ) (xs : Cells) → has a xs ≡ true → has a ((p, v) ∷ xs) ≡ true
has_behind a p v xs h = ground arith

pub has_apart : (a b : Ptr) (xs : Cells) → has a xs ≡ true → has b xs ≡ false → (b == a) ≡ false
has_apart a b xs h k = elim (Bool-cases (b == a)) [
  | inl t ↦
      let same : b ≡ a = ground arith in
      absurd (let clash = ap (λ z. has z xs) same in ground arith)
  | inr t ↦ t
]

-- The node before the place is one of the list, and holds its value and the address behind.
pub before_lem :
    (s : Store Node) (d : ℤ) (p : Ptr) (v : ℤ) (xs : Cells)
    → Chain s null ((p, v) ∷ xs)
    → (before d p xs ≢ null)
      × (has (before d p xs) ((p, v) ∷ xs) ≡ true)
      × (s (before d p xs) ≡ some (node (before_value d v xs) (behind d xs)))
before_lem s d p v [] (n, out, e, c) = (n, ground arith, e)
before_lem s d p v ((q, w) ∷ xs) (n, out, e, c) = elim (Bool-cases (ltb_ℤ w d)) [
  | inl t ↦
      let (m, is_in, at) = before_lem s d q w xs c in
      let here : before d p ((q, w) ∷ xs) ≡ before d q xs = rw t refl in
      (
        subst (λ b. b ≢ null) (sym here) m,
        subst (λ b. has b ((p, v) ∷ (q, w) ∷ xs) ≡ true) (sym here)
            (has_behind (before d q xs) p v ((q, w) ∷ xs) is_in),
        rw t at,
      )
  | inr t ↦ rw t (n, ground arith, e)
]

has-inserted_apart :
    (p q fresh : Ptr) (d w : ℤ) (xs : Cells)
    → has p ((q, w) ∷ xs) ≡ false
    → (p == fresh) ≡ false
    → has p ((q, w) ∷ inserted fresh d xs) ≡ false
has-inserted_apart p q fresh d w xs h k = let e = has-inserted p fresh d xs in ground arith

-- `s` with the new node linked in
abbrev pub IsLinked : Store Node → Ptr → ℤ → Ptr → ℤ → Cells → Store Node → Type 0
IsLinked s fresh d p v xs t =
    (t fresh ≡ some (node d (behind d xs)))
    × (t (before d p xs) ≡ some (node (before_value d v xs) fresh))
    × ((a : Ptr) → (a == fresh) ≡ false → (a == before d p xs) ≡ false → t a ≡ s a)

pub linked-Chain :
    (s t : Store Node) (fresh : Ptr) (d : ℤ) (p : Ptr) (v : ℤ) (xs : Cells)
    → fresh ≢ null
    → has fresh ((p, v) ∷ xs) ≡ false
    → Chain s null ((p, v) ∷ xs)
    → IsLinked s fresh d p v xs t
    → Chain t null ((p, v) ∷ inserted fresh d xs)
linked-Chain s t fresh d p v [] h out (n, pout, e, c) (at_fresh, at_p, same) =
    (n, ground arith, at_p, (h, refl, at_fresh, tt))
linked-Chain s t fresh d p v ((q, w) ∷ xs) h out (n, pout, e, c) l = elim (Bool-cases (ltb_ℤ w d)) [
  | inl u ↦
      let (m, is_in, at) = before_lem s d q w xs c in
      let apart = has_apart (before d q xs) p ((q, w) ∷ xs) is_in pout in
      let linked : IsLinked s fresh d q w xs t = rw u at l in
      let rest = linked-Chain s t fresh d q w xs h (ground arith) c linked in
      rw u (
        n,
        has-inserted_apart p q fresh d w xs pout (ground arith),
        linked.2 p (ground arith) apart ∙ e,
        rest,
      )
  | inr u ↦
      let linked : (t fresh ≡ some (node d q))
          × (t p ≡ some (node v fresh))
          × ((a : Ptr) → (a == fresh) ≡ false → (a == p) ≡ false → t a ≡ s a) =
        rw u at l in
      rw u (
        n,
        ground arith,
        linked.1,
        (
          h,
          ground arith,
          linked.0,
          Chain-frame s t null ((q, w) ∷ xs) (λ a o. linked.2 a (ground arith) (ground arith)) c,
        ),
      )
]
