-- ===== src/Automata/Cycle.antt =====
-- Automata/example.c. The tests of a round stand one after another, so that a state that an earlier
-- test sets is seen by a later one with the same character.
use c_programming_language.Base.{
  ℕ, ◌≡◌, refl, Bool, true, false, not, ◌||◌, Bool-cases, inl, inr, List, [], ◌∷◌, ◌==◌,
  if◌then◌else◌, arith,
}

pub data State : Type 0 where
  state_a state_b state_c state_d error : State

abbrev pub is_a : State → Bool
is_a state_a = true
is_a s = false

abbrev is_b : State → Bool
is_b state_b = true
is_b s = false

abbrev is_c : State → Bool
is_c state_c = true
is_c s = false

abbrev is_d : State → Bool
is_d state_d = true
is_d s = false

-- one round of the loop
unfoldable pub round : State → ℕ → State
round s c =
    let s₁ : State = if is_a s then (if c == b'a' then state_b else s) else s in
    let s₂ : State =
      if is_b s₁
      then (let t : State = if c == b'b' then state_c else s₁ in if c == b'c' then state_d else t)
      else s₁ in
    let s₃ : State = if is_c s₂ then (if c == b'a' then state_b else s₂) else s₂ in
    if is_d s₃ then (if c == b'a' then state_b else s₃) else s₃

unfoldable pub run : State → List ℕ → State
run s [] = s
run s (c ∷ cs) = run (round s c) cs

-- The transitions, one for a character.
abbrev pub transition : State → ℕ → State
transition state_a c = if c == b'a' then state_b else state_a
transition state_b c = if c == b'b' then state_c else if c == b'c' then state_d else state_b
transition state_c c = if c == b'a' then state_b else state_c
transition state_d c = if c == b'a' then state_b else state_d
transition error c = error

-- A round makes one transition only: no character takes the automaton through two states.
pub round-transition : (s : State) (c : ℕ) → round s c ≡ transition s c
unfolding round
round-transition state_a c = ground arith
round-transition state_b c = ground arith
round-transition state_c c = ground arith
round-transition state_d c = ground arith
round-transition error c = ground arith

abbrev pub has_byte : ℕ → List ℕ → Bool
has_byte b [] = false
has_byte b (c ∷ cs) = (c == b) || has_byte b cs

transition-left : (s : State) (c : ℕ) → is_a s ≡ false → is_a (transition s c) ≡ false
transition-left state_a c h = cc
transition-left state_b c h = ground arith
transition-left state_c c h = ground arith
transition-left state_d c h = ground arith
transition-left error c h = refl

run-left : (s : State) (cs : List ℕ) → is_a s ≡ false → is_a (run s cs) ≡ false
unfolding run
run-left s [] h = h
run-left s (c ∷ cs) h = run-left (round s c) cs (rw (round-transition s c) (transition-left s c h))

-- The automaton is in its first state after an input exactly if there is no `a` in the input.
pub run-start : (cs : List ℕ) → is_a (run state_a cs) ≡ not (has_byte b'a' cs)
unfolding run
run-start [] = refl
run-start (c ∷ cs) = elim (Bool-cases (c == b'a')) [
  | inl e ↦ rw (round-transition state_a c, e) (run-left state_b cs refl)
  | inr e ↦ rw (round-transition state_a c, e) (run-start cs)
]
