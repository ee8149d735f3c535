-- ===== src/Automata/Aab.antt =====
-- Automata/example3.c: the automaton for the string `aab`. Three of the functions return a local
-- variable that they have not set where the character is neither `a` nor `b`: what such a variable
-- holds is the argument `unset`.
use mathlib.Core.Path.{subst}
use c_programming_language.Base.{
  ℕ, ◌∙◌, ap, sym, ◌≡◌, refl, Bool, true, false, ◌&&◌, ◌||◌, inl, inr, ◌⊎◌, List, [], ◌∷◌, ◌==◌,
  if◌then◌else◌, All, arith,
}

pub data State : Type 0 where
  start s0 s1 final_state : State

unfoldable pub start_state : State → ℕ → State
start_state unset c = if c == b'b' then start else if c == b'a' then s0 else unset

unfoldable pub s0_state : State → ℕ → State
s0_state unset c = if c == b'a' then s1 else if c == b'b' then start else unset

unfoldable pub s1_state : ℕ → State
s1_state c = if c == b'a' then s1 else if c == b'b' then final_state else start

unfoldable pub final_states : State → ℕ → State
final_states unset c = if c == b'a' then final_state else if c == b'b' then final_state else unset

-- one round of the loop
unfoldable pub round : State → State → ℕ → State
unfolding start_state s0_state s1_state final_states
round unset start c = start_state unset c
round unset s0 c = s0_state unset c
round unset s1 c = s1_state c
round unset final_state c = final_states unset c

-- The test compares the character, as a signed `char`, to EOF: the byte 255 ends the loop too.
unfoldable pub run : State → State → List ℕ → State
run unset s [] = s
run unset s (c ∷ cs) = elim (c == 255) [ true ↦ s | false ↦ run unset (round unset s c) cs ]

abbrev pub starts_aab : List ℕ → Bool
starts_aab (x ∷ y ∷ z ∷ cs) = (x == b'a') && (y == b'a') && (z == b'b')
starts_aab cs = false

-- whether `aab` stands somewhere in the text
abbrev pub contains_aab : List ℕ → Bool
contains_aab [] = false
contains_aab (c ∷ cs) = starts_aab (c ∷ cs) || contains_aab cs

abbrev pub is_final : State → Bool
is_final final_state = true
is_final s = false

abbrev pub IsLetter : ℕ → Type 0
IsLetter c = (c ≡ b'a') ⊎ (c ≡ b'b')

run-final : (unset : State) (cs : List ℕ) → All IsLetter cs → run unset final_state cs ≡ final_state
unfolding run round
run-final unset [] a = refl
run-final unset (c ∷ cs) (inl e, a) = rw e (run-final unset cs a)
run-final unset (c ∷ cs) (inr e, a) = rw e (run-final unset cs a)

-- what the automaton has read, as far as it matters
abbrev read : State → List ℕ → List ℕ
read start cs = cs
read s0 cs = b'a' ∷ cs
read s1 cs = b'a' ∷ b'a' ∷ cs
read final_state cs = b'a' ∷ b'a' ∷ b'b' ∷ cs

skip_b : (cs : List ℕ) → contains_aab cs ≡ contains_aab (b'b' ∷ cs)
skip_b [] = refl
skip_b (x ∷ []) = refl
skip_b (x ∷ y ∷ cs) = refl

skip_ab : (cs : List ℕ) → contains_aab (b'b' ∷ cs) ≡ contains_aab (b'a' ∷ b'b' ∷ cs)
skip_ab [] = refl
skip_ab (x ∷ cs) = refl

at_letter :
    (unset s : State) {c k : ℕ} (cs : List ℕ)
    → c ≡ k
    → is_final (run unset s (k ∷ cs)) ≡ contains_aab (read s (k ∷ cs))
    → is_final (run unset s (c ∷ cs)) ≡ contains_aab (read s (c ∷ cs))
at_letter unset s cs e =
    subst (λ z. is_final (run unset s (z ∷ cs)) ≡ contains_aab (read s (z ∷ cs))) (sym e)

run-read :
    (unset s : State) (cs : List ℕ)
    → All IsLetter cs
    → is_final (run unset s cs) ≡ contains_aab (read s cs)
unfolding run round
run-read unset start [] a = refl
run-read unset s0 [] a = refl
run-read unset s1 [] a = refl
run-read unset final_state [] a = refl
run-read unset start (c ∷ cs) (inl e, a) = at_letter unset start cs e (run-read unset s0 cs a)
run-read unset start (c ∷ cs) (inr e, a) =
    at_letter unset start cs e (run-read unset start cs a ∙ skip_b cs)
run-read unset s0 (c ∷ cs) (inl e, a) = at_letter unset s0 cs e (run-read unset s1 cs a)
run-read unset s0 (c ∷ cs) (inr e, a) =
    at_letter unset s0 cs e (run-read unset start cs a ∙ skip_b cs ∙ skip_ab cs)
run-read unset s1 (c ∷ cs) (inl e, a) = at_letter unset s1 cs e (run-read unset s1 cs a)
run-read unset s1 (c ∷ cs) (inr e, a) = at_letter unset s1 cs e (ap is_final (run-final unset cs a))
run-read unset final_state (c ∷ cs) a = ap is_final (run-final unset (c ∷ cs) a)

-- On a text of `a` and `b` only, the automaton ends in its final state exactly if `aab` stands in the
-- text, whatever the variables hold that are not set.
pub run-aab :
    (unset : State) (cs : List ℕ)
    → All IsLetter cs
    → is_final (run unset start cs) ≡ contains_aab cs
run-aab unset cs a = run-read unset start cs a

-- Any other character but the byte 255 takes the first state to whatever the variable holds.
pub run-unset :
    (unset : State) (c : ℕ)
    → (c ≡ b'a' → ⊥)
    → (c ≡ b'b' → ⊥)
    → (c ≡ 255 → ⊥)
    → run unset start (c ∷ []) ≡ unset
unfolding run round
run-unset unset c a b e = ground arith
