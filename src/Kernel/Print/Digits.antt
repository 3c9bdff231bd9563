-- ===== src/Kernel/Print/Digits.antt =====
-- The digits that `print_int` displays.
use rathal_os.Prelude.{
  ℕ, zero, suc, ◌+◌, ◌-◌, ◌*◌, ◌/◌, ◌%◌, ◌^◌, ◌<◌, ◌≤◌, ◌≡◌, refl, arith, List, [], ◌∷◌, length,
  some, if◌then◌else◌, ◌==◌, leb, true, false, Bool, ap, ◌∙◌, sym,
}
use rathal_os.Memory.{Memory, IsString}
use rathal_os.User.Wrapper.{atoi}
use rathal_os.User.Wrapper.Words.{decimal, AllDigits, atoi_lem}
use rathal_os.Kernel.Print.{is_negative, magnitude, digit_char, digits_onto, int_chars}

-- Digits of a number that is not negative, in front of digits.
record IsNumeral (num : ℕ) (ret result : List ℕ) : Type 0 where
  pub digits : AllDigits result
  pub value : decimal 0 result ≡ decimal num ret

digits_onto-IsNumeral :
    (left num : ℕ) (ret : List ℕ)
    → num < 2 ^ left
    → AllDigits ret
    → IsNumeral num ret (digits_onto false 10 left num ret)
unfolding digits_onto
digits_onto-IsNumeral zero num ret lt d = record {
  digits = d;
  value = ap (λ (n : ℕ). decimal n ret) {x = 0} {y = num} (omega arith);
}
digits_onto-IsNumeral (suc left) num ret lt d =
    either (num == 0)
      (λ e. record {
        digits = d;
        value = ap (λ (n : ℕ). decimal n ret) {x = 0} {y = num} (ground (arith, e));
      })
      (λ e.
        let next = digit_char false (num % 10) in
        let is_digit : (48 ≤ next) × (next < 58) = (ground arith, ground arith) in
        let rest =
          digits_onto-IsNumeral left (num / 10) (next ∷ ret) (shorter left num lt)
            (is_digit.0, is_digit.1, d) in
        record {
          digits = rest.digits;
          value =
              rest.value
              ∙ ap (λ (n : ℕ). decimal n ret) {x = num / 10 * 10 + (next - 48)} {y = num}
                  (ground arith);
        })
  where
    either :
        {x y : List ℕ}
        → (b : Bool) → (b ≡ true → IsNumeral num ret x)
        → (b ≡ false → IsNumeral num ret y)
        → IsNumeral num ret (if b then x else y)
    either true f g = f refl
    either false f g = g refl

    shorter : (left num : ℕ) → num < 2 ^ suc left → num / 10 < 2 ^ left
    shorter left num lt = omega arith

-- For a positive `int` the characters are a NUL and decimal digits that denote the number.
pub int_chars-digits :
    (num : ℕ)
    → 0 < num
    → num < 2 ^ 31
    → (ds : List ℕ) × (int_chars num 10 ≡ 0 ∷ ds) × AllDigits ds × (decimal 0 ds ≡ num)
unfolding int_chars
int_chars-digits num positive small =
    let n = digits_onto-IsNumeral 32 num [] (omega arith) _ in
    (
      digits_onto false 10 32 num [],
      positive_number num (0 ∷ 48 ∷ []) (λ (b : Bool) (k : ℕ). 0 ∷ digits_onto b 10 32 k [])
          positive small,
      n.digits,
      n.value,
    )
  where
    positive_number :
        (num : ℕ) (none_left : List ℕ) (chars : Bool → ℕ → List ℕ)
        → 0 < num
        → num < 2 ^ 31
        → (if num == 0 then none_left else chars (is_negative num) (magnitude num))
          ≡ chars false num
    positive_number num none_left chars positive small =
        let zero_test : (num == 0) ≡ false = ground arith in
        let sign_test : leb (2 ^ 31) num ≡ false = ground arith in rw (zero_test, sign_test) refl

-- The characters behind the first.
abbrev pub behind_first : List ℕ → List ℕ
behind_first [] = []
behind_first (x ∷ xs) = xs

-- For a positive `int`, `print_int` displays in decimal a NUL and then only digits. From these digits, as a
-- string in memory, `atoi` of the user programs reads the number again, with fuel above their number.
pub atoi-int_chars :
    (fuel : ℕ) (m : Memory) (str num : ℕ)
    → 0 < num
    → num < 2 ^ 31
    → IsString m str (behind_first (int_chars num 10))
    → length (behind_first (int_chars num 10)) < fuel
    → (int_chars num 10 ≡ 0 ∷ behind_first (int_chars num 10))
      × AllDigits (behind_first (int_chars num 10))
      × (atoi fuel m str ≡ some num)
atoi-int_chars fuel m str num positive small s enough =
    let n = int_chars-digits num positive small in
    let same : behind_first (int_chars num 10) ≡ n.0 = ap behind_first n.1 in
    let d : AllDigits (behind_first (int_chars num 10)) = rw same n.2 in
    let value : decimal 0 (behind_first (int_chars num 10)) ≡ num = ap (decimal 0) same ∙ n.3 in
    (
      n.1 ∙ ap (λ (ds : List ℕ). 0 ∷ ds) (sym same),
      d,
      atoi_lem fuel m str (behind_first (int_chars num 10)) s d (omega (arith, value)) enough
          ∙ ap some value,
    )
