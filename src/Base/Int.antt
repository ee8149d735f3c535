-- ===== src/Base/Int.antt =====
-- The C type `int` as an integer. Sums and orders go through the two parts of an integer, which
-- are numbers that the tactics read. The programs' comparisons of `int` values are exact on it.
use native.Mathlib.Decide.{dec_lt}
use c_programming_language.Base.{
  ℕ, zero, suc, refl, ◌+◌, ◌-◌, ◌≤◌, ◌<◌, ◌≡◌, Bool, Option, none, some, arith, ltb, leb, ◌==◌,
  true, false, if◌then◌else◌,
}

-- `negsuc n` is -(n + 1).
pub data ℤ : Type 0 where
  pos : ℕ → ℤ
  negsuc : ℕ → ℤ

abbrev pub pos_part : ℤ → ℕ
pos_part (pos n) = n
pos_part (negsuc n) = 0

abbrev pub neg_part : ℤ → ℕ
neg_part (pos n) = 0
neg_part (negsuc n) = suc n

-- a - b, as an integer.
abbrev pub sub_ℕ : ℕ → ℕ → ℤ
sub_ℕ a b = if leb b a then pos (a - b) else negsuc (b - a - 1)

infixl 65 ◌+ℤ◌
infix 50 ◌≤ℤ◌ ◌<ℤ◌
unfoldable pub ◌+ℤ◌ : ℤ → ℤ → ℤ
a +ℤ b = sub_ℕ (pos_part a + pos_part b) (neg_part a + neg_part b)

abbrev pub ◌≤ℤ◌ : ℤ → ℤ → Type 0
a ≤ℤ b = pos_part a + neg_part b ≤ pos_part b + neg_part a

abbrev pub ◌<ℤ◌ : ℤ → ℤ → Type 0
a <ℤ b = pos_part a + neg_part b < pos_part b + neg_part a

abbrev pub ltb_ℤ : ℤ → ℤ → Bool
ltb_ℤ a b = ltb (pos_part a + neg_part b) (pos_part b + neg_part a)

abbrev pub leb_ℤ : ℤ → ℤ → Bool
leb_ℤ a b = leb (pos_part a + neg_part b) (pos_part b + neg_part a)

abbrev pub eqb_ℤ : ℤ → ℤ → Bool
eqb_ℤ a b = (pos_part a + neg_part b) == (pos_part b + neg_part a)

pub +ℤ_parts :
    (a b : ℤ)
    → pos_part (a +ℤ b) + neg_part a + neg_part b ≡ neg_part (a +ℤ b) + pos_part a + pos_part b
unfolding ◌+ℤ◌
+ℤ_parts a b = ground arith

pub eq_of_parts : (a b : ℤ) → pos_part a + neg_part b ≡ pos_part b + neg_part a → a ≡ b
eq_of_parts a b h = ground arith

pub +ℤ_comm : (a b : ℤ) → a +ℤ b ≡ b +ℤ a
+ℤ_comm a b = eq_of_parts (a +ℤ b) (b +ℤ a) (omega (arith, +ℤ_parts a b, +ℤ_parts b a))

pub +ℤ_assoc : (a b c : ℤ) → a +ℤ b +ℤ c ≡ a +ℤ (b +ℤ c)
+ℤ_assoc a b c =
    eq_of_parts (a +ℤ b +ℤ c) (a +ℤ (b +ℤ c))
      (omega (arith, +ℤ_parts a b, +ℤ_parts (a +ℤ b) c, +ℤ_parts b c, +ℤ_parts a (b +ℤ c)))

pub +ℤ_zero : (a : ℤ) → a +ℤ pos 0 ≡ a
+ℤ_zero a = eq_of_parts (a +ℤ pos 0) a (omega (arith, +ℤ_parts a (pos 0)))

pub antisym_ℤ : (x y : ℤ) → x ≤ℤ y → y ≤ℤ x → x ≡ y
antisym_ℤ x y h k = eq_of_parts x y (omega arith)

pub ruleset int_laws = (arith, +ℤ_parts, eq_of_parts)

pub ge→ltb : (a b : ℤ) → b ≤ℤ a → ltb_ℤ a b ≡ false
ge→ltb a b h = ground arith

unfoldable pub dec_lt_ℤ : (a b : ℤ) → Dec (a <ℤ b)
dec_lt_ℤ a b = dec_lt (pos_part a + neg_part b) (pos_part b + neg_part a)

-- an `int` as an index into an array of `n` elements
abbrev pub index : ℕ → ℤ → Option ℕ
index n (pos i) = if ltb i n then some i else none
index n (negsuc i) = none

-- the index of the top of `n` elements
abbrev pub top_index : ℕ → ℤ
top_index zero = negsuc 0
top_index (suc n) = pos n

pub top_index_suc : (n : ℕ) → top_index n +ℤ pos 1 ≡ pos n
unfolding ◌+ℤ◌
top_index_suc zero = refl
top_index_suc (suc n) = ground arith

pub top_index_pred : (n : ℕ) → pos n +ℤ negsuc 0 ≡ top_index n
unfolding ◌+ℤ◌
top_index_pred zero = refl
top_index_pred (suc n) = ground arith
