-- ===== src/Automata/Tests.antt =====
-- Automata: the theorems at inputs.
use c_programming_language.Base.{ℕ, ◌≡◌, refl, true, inl, inr, List, [], ◌∷◌}
use c_programming_language.Automata.Digits
use c_programming_language.Automata.Aab

abbrev text : List ℕ
text = b'x' ∷ b' ' ∷ b'a' ∷ b'r' ∷ b'b' ∷ b'7' ∷ []

digits_found : Digits.is_s2 (Digits.run 6 Digits.before text) ≡ true
unfolding Digits.run Digits.round
digits_found = refl

run-aab_example :
    Aab.is_final (Aab.run Aab.s1 Aab.start (b'b' ∷ b'a' ∷ b'a' ∷ b'a' ∷ b'b' ∷ []))
    ≡ Aab.contains_aab (b'b' ∷ b'a' ∷ b'a' ∷ b'a' ∷ b'b' ∷ [])
run-aab_example =
    Aab.run-aab Aab.s1 (b'b' ∷ b'a' ∷ b'a' ∷ b'a' ∷ b'b' ∷ [])
      (inr refl, (inl refl, (inl refl, (inl refl, (inr refl, tt)))))
