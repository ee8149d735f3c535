-- ===== src/Automata/Digits.antt =====
-- Automata/example2.c: a space, an `r` and a digit, with anything between them. On the way to the
-- last state the automaton takes one more character, which it may find missing.
use c_programming_language.Base.{
  ℕ, zero, suc, ◌≤◌, ap, length, ◌||◌, ◌≡◌, refl, Bool, true, false, ◌&&◌, Bool-cases, inl, inr,
  List, [], ◌∷◌, ◌==◌, leb, if◌then◌else◌, arith,
}

pub data State : Type 0 where
  before s0 s1 s2 se : State

unfoldable pub is_digit : ℕ → Bool
is_digit c = leb b'0' c && leb c b'9'

-- What a round leaves: the state and whether it has called `getchar` once more. The test of the last
-- state keeps the state, whatever the character.
pub record Round : Type 0 where
  pub state : State
  pub extra : Bool

abbrev from_s1 : State → ℕ → Round
from_s1 s1 c =
    if is_digit c then record { state = s2; extra = true } else record { state = s1; extra = false }
from_s1 s c = record { state = s; extra = false }

abbrev from_s0 : State → ℕ → State
from_s0 s0 c = if c == b'r' then s1 else s0
from_s0 s c = s

abbrev from_before : State → ℕ → State
from_before before c = if c == b' ' then s0 else before
from_before s c = s

-- one round of the loop
unfoldable pub round : State → ℕ → Round
unfolding is_digit
round s c = from_s1 (from_s0 (from_before s c) c) c

abbrev pub drop_one : List ℕ → List ℕ
drop_one [] = []
drop_one (c ∷ cs) = cs

-- The loop on fuel, since a round may take two characters.
unfoldable pub run : ℕ → State → List ℕ → State
run zero s cs = s
run (suc fuel) s [] = s
run (suc fuel) s (c ∷ cs) =
    let r = round s c in run fuel r.state (if r.extra then drop_one cs else cs)

-- The input behind the first character with the property.
abbrev pub after : (ℕ → Bool) → List ℕ → List ℕ
after p [] = []
after p (c ∷ cs) = if p c then cs else after p cs

abbrev pub any : (ℕ → Bool) → List ℕ → Bool
any p [] = false
any p (c ∷ cs) = p c || any p cs

abbrev pub is_s2 : State → Bool
is_s2 s2 = true
is_s2 s = false

-- Once in the last state the automaton stays there.
run-s2 : (fuel : ℕ) (cs : List ℕ) → run fuel s2 cs ≡ s2
unfolding run round
run-s2 zero cs = refl
run-s2 (suc fuel) [] = refl
run-s2 (suc fuel) (c ∷ cs) = run-s2 fuel cs

run-s1 : (fuel : ℕ) (cs : List ℕ) → length cs ≤ fuel → is_s2 (run fuel s1 cs) ≡ any is_digit cs
unfolding run round
run-s1 zero [] h = refl
run-s1 zero (c ∷ cs) h = absurd (omega arith)
run-s1 (suc fuel) [] h = refl
run-s1 (suc fuel) (c ∷ cs) h = elim (Bool-cases (is_digit c)) [
  | inl e ↦ rw e (ap is_s2 (run-s2 fuel (drop_one cs)))
  | inr e ↦ rw e (run-s1 fuel cs (omega arith))
]

-- one round in each of the first two states: no character serves two tests
round-r : (c : ℕ) → (c == b'r') ≡ true → round s0 c ≡ record { state = s1; extra = false }
unfolding round
round-r c e = ground arith

round-other : (c : ℕ) → (c == b'r') ≡ false → round s0 c ≡ record { state = s0; extra = false }
unfolding round
round-other c e = ground arith

round-space : (c : ℕ) → (c == b' ') ≡ true → round before c ≡ record { state = s0; extra = false }
unfolding round
round-space c e = ground arith

round-before :
    (c : ℕ) → (c == b' ') ≡ false → round before c ≡ record { state = before; extra = false }
unfolding round
round-before c e = ground arith

run-s0 :
    (fuel : ℕ) (cs : List ℕ)
    → length cs ≤ fuel
    → is_s2 (run fuel s0 cs) ≡ any is_digit (after (λ c. c == b'r') cs)
unfolding run
run-s0 zero [] h = refl
run-s0 zero (c ∷ cs) h = absurd (omega arith)
run-s0 (suc fuel) [] h = refl
run-s0 (suc fuel) (c ∷ cs) h = elim (Bool-cases (c == b'r')) [
  | inl e ↦ rw (round-r c e, e) (run-s1 fuel cs (omega arith))
  | inr e ↦ rw (round-other c e, e) (run-s0 fuel cs (omega arith))
]

-- With fuel for every character, the automaton ends in its last state exactly if the input has a
-- digit behind the first `r` that follows the first space.
pub run-digits :
    (fuel : ℕ) (cs : List ℕ)
    → length cs ≤ fuel
    → is_s2 (run fuel before cs) ≡ any is_digit (after (λ c. c == b'r') (after (λ c. c == b' ') cs))
unfolding run
run-digits zero [] h = refl
run-digits zero (c ∷ cs) h = absurd (omega arith)
run-digits (suc fuel) [] h = refl
run-digits (suc fuel) (c ∷ cs) h = elim (Bool-cases (c == b' ')) [
  | inl e ↦ rw (round-space c e, e) (run-s0 fuel cs (omega arith))
  | inr e ↦ rw (round-before c e, e) (run-digits fuel cs (omega arith))
]
