-- ===== src/Kernel/Print/Tests.antt =====
-- Numbers and formats on the screen of Kernel.Display.Tests.
use rathal_os.Prelude.{◌^◌, ◌-◌, ◌≡◌, refl, arith, [], ◌∷◌, some, length}
use rathal_os.Memory.{Memory, IsString, place, zeros}
use rathal_os.User.Wrapper.{atoi}
use rathal_os.User.Wrapper.Words.{AllDigits}
use rathal_os.Kernel.Display.{display_string}
use rathal_os.Kernel.Display.Tests.{controller, screen}
use rathal_os.Kernel.Print.{digits_onto, int_chars, printf}
use rathal_os.Kernel.Print.Digits.{behind_first, atoi-int_chars}
use rathal_os.Kernel.Print.Plain.{printf-display_string}

-- "407" at 500, "ab" at 600.
abbrev ram : Memory
ram = place 500 (52 ∷ 48 ∷ 55 ∷ []) (place 600 (b'a' ∷ b'b' ∷ []) zeros)

four_hundred_seven : int_chars 407 10 ≡ 0 ∷ 52 ∷ 48 ∷ 55 ∷ []
unfolding int_chars digits_onto
four_hundred_seven = refl

-- -7 is displayed as the character 41, ')'.
minus_seven : int_chars (2 ^ 32 - 7) 10 ≡ 0 ∷ 41 ∷ []
unfolding int_chars digits_onto
minus_seven = refl

shown : IsString ram 500 (behind_first (int_chars 407 10))
unfolding int_chars digits_onto
shown = (refl, omega arith, (refl, omega arith, (refl, omega arith, refl)))

three_digits : length (behind_first (int_chars 407 10)) ≡ 3
unfolding int_chars digits_onto
three_digits = refl

atoi-int_chars_example :
    (int_chars 407 10 ≡ 0 ∷ behind_first (int_chars 407 10))
    × AllDigits (behind_first (int_chars 407 10))
    × (atoi 9 ram 500 ≡ some 407)
atoi-int_chars_example =
    atoi-int_chars 9 ram 500 407 (omega arith) (omega arith) shown (omega (arith, three_digits))

printf-display_string_example :
    printf controller 9 ram (λ depth i. 0) screen 600 ≡ display_string controller 9 ram screen 600
printf-display_string_example =
    printf-display_string controller 9 ram (λ depth i. 0) screen 600 b'a' (b'b' ∷ [])
      (refl, omega arith, (refl, omega arith, refl))
      ((λ e. omega arith), (λ e. omega arith), ((λ e. omega arith), (λ e. omega arith), _))
      (omega arith)
