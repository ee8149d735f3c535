-- ===== src/Base/Sorted.antt =====
-- Strictly ascending lists of integers, and insertion into them: the abstract view of a search tree.
use c_programming_language.Base.{
  ◌≡◌, refl, Bool, false, ◌||◌, List, [], ◌∷◌, ◌++◌, All, arith, if◌then◌else◌,
}
use c_programming_language.Base.Int.{ℤ, ◌<ℤ◌, ◌≤ℤ◌, ltb_ℤ, eqb_ℤ}

abbrev pub IsSorted : List ℤ → Type 0
IsSorted [] = Unit
IsSorted (x ∷ xs) = All (λ y. x <ℤ y) xs × IsSorted xs

abbrev pub Above : ℤ → List ℤ → Type 0
Above x = All (λ y. x <ℤ y)

abbrev pub Below : ℤ → List ℤ → Type 0
Below x = All (λ y. y <ℤ x)

-- A value that is there already is not added again.
unfoldable pub insert_sorted : ℤ → List ℤ → List ℤ
insert_sorted d [] = d ∷ []
insert_sorted d (x ∷ xs) =
    let rest = insert_sorted d xs in
    if ltb_ℤ d x then d ∷ x ∷ xs else if ltb_ℤ x d then x ∷ rest else x ∷ xs

pub Above-trans : (x y : ℤ) (xs : List ℤ) → x <ℤ y → Above y xs → Above x xs
Above-trans x y [] h a = tt
Above-trans x y (z ∷ zs) h a = (omega arith, Above-trans x y zs h a.1)

pub insert_sorted-Above :
    (x d : ℤ) (xs : List ℤ) → x <ℤ d → Above x xs → Above x (insert_sorted d xs)
unfolding insert_sorted
insert_sorted-Above x d [] h a = (h, tt)
insert_sorted-Above x d (y ∷ ys) h a = ground (arith, insert_sorted-Above x d ys h)

pub insert_sorted-IsSorted : (d : ℤ) (xs : List ℤ) → IsSorted xs → IsSorted (insert_sorted d xs)
unfolding insert_sorted
insert_sorted-IsSorted d [] s = (tt, tt)
insert_sorted-IsSorted d (x ∷ xs) s =
    ground (arith, Above-trans d x xs, insert_sorted-Above x d xs, insert_sorted-IsSorted d xs)

-- A sorted list splits at each of its elements.
pub IsSorted-split :
    (xs : List ℤ) (y : ℤ) (ys : List ℤ)
    → IsSorted (xs ++ y ∷ ys)
    → Below y xs × Above y ys × IsSorted xs × IsSorted ys
IsSorted-split [] y ys s = (tt, s.0, tt, s.1)
IsSorted-split (x ∷ xs) y ys s =
    let (below, above, left, right) = IsSorted-split xs y ys s.1 in
    let (before, less, _) = cut xs s.0 in ((less, below), above, (before, left), right)
  where
    cut : (zs : List ℤ) → Above x (zs ++ y ∷ ys) → Above x zs × (x <ℤ y) × Above x ys
    cut [] a = (tt, a.0, a.1)
    cut (z ∷ zs) a = let (b, c, d) = cut zs a.1 in ((a.0, b), c, d)

pub insert_sorted-left :
    (d : ℤ) (xs : List ℤ) (y : ℤ) (ys : List ℤ)
    → d <ℤ y
    → insert_sorted d (xs ++ y ∷ ys) ≡ insert_sorted d xs ++ y ∷ ys
unfolding insert_sorted
insert_sorted-left d [] y ys h = ground arith
insert_sorted-left d (x ∷ xs) y ys h = ground (arith, insert_sorted-left d xs y ys h)

pub insert_sorted-right :
    (d : ℤ) (xs : List ℤ) (y : ℤ) (ys : List ℤ)
    → Below y xs
    → y <ℤ d
    → insert_sorted d (xs ++ y ∷ ys) ≡ xs ++ y ∷ insert_sorted d ys
unfolding insert_sorted
insert_sorted-right d [] y ys b h = ground arith
insert_sorted-right d (x ∷ xs) y ys b h = ground (arith, insert_sorted-right d xs y ys b.1 h)

pub insert_sorted-same :
    (d : ℤ) (xs : List ℤ) (y : ℤ) (ys : List ℤ)
    → Below y xs
    → d ≡ y
    → insert_sorted d (xs ++ y ∷ ys) ≡ xs ++ y ∷ ys
unfolding insert_sorted
insert_sorted-same d [] y ys b h = ground arith
insert_sorted-same d (x ∷ xs) y ys b h = ground (arith, insert_sorted-same d xs y ys b.1 h)

-- Whether the value is in the list.
unfoldable pub has : ℤ → List ℤ → Bool
has d [] = false
has d (x ∷ xs) = eqb_ℤ d x || has d xs

pub has-append : (d : ℤ) (xs ys : List ℤ) → has d (xs ++ ys) ≡ (has d xs || has d ys)
unfolding has
has-append d [] ys = refl
has-append d (x ∷ xs) ys = ground (arith, has-append d xs ys)

pub Below-has : (d x : ℤ) (xs : List ℤ) → Below x xs → x ≤ℤ d → has d xs ≡ false
unfolding has
Below-has d x [] b h = refl
Below-has d x (y ∷ ys) b h = ground (arith, Below-has d x ys b.1 h)

pub Above-has : (d x : ℤ) (xs : List ℤ) → Above x xs → d ≤ℤ x → has d xs ≡ false
unfolding has
Above-has d x [] b h = refl
Above-has d x (y ∷ ys) b h = ground (arith, Above-has d x ys b.1 h)
