-- ===== src/Binary/Tests.antt =====
-- Runs of the conversion.
use c_programming_language.Base.{ℕ, ◌≡◌, refl, some, [], ◌∷◌, arith, ◌==◌, if◌then◌else◌}
use c_programming_language.Base.Int.{pos, negsuc}
use c_programming_language.Binary.{dec_to_bin, digits_loop, convert, disp_bin, disp_loop}
use c_programming_language.Binary.Digits.{number, convert-number}

convert-number_example :
    (r : ℕ → ℕ) × (convert 80 (pos 10) (λ i. 0) ≡ some r) × (number 32 r ≡ some 10) × (r 32 ≡ 0)
convert-number_example = convert-number 80 10 (λ i. 0) (omega arith) (omega arith)

-- The digits of -3, the least one first, are those of its absolute value.
digits_of_negative :
    let str = dec_to_bin (negsuc 2) (λ i. 0) in (str 0 ≡ b'1') × (str 1 ≡ b'1') × (str 2 ≡ b'0')
unfolding dec_to_bin digits_loop
digits_of_negative = (refl, refl, refl)

-- Of a string of two characters the second one is printed, and the final 0.
disp_bin_of_two :
    disp_bin 3 (λ i. if i == 0 then b'1' else if i == 1 then b'0' else 0) ≡ some (b'0' ∷ 0 ∷ [])
unfolding disp_bin disp_loop
disp_bin_of_two = refl
