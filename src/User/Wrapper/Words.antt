-- ===== src/User/Wrapper/Words.antt =====
-- What the string helpers of the user programs compute.
use rathal_os.Prelude.{
  ℕ, zero, suc, ◌+◌, ◌-◌, ◌*◌, ◌^◌, ◌<◌, ◌≤◌, ◌≡◌, ◌≢◌, refl, arith, List, [], ◌∷◌, some, length,
  if◌then◌else◌, ◌==◌, ◌∙◌, get_or, leb, ltb, ◌&&◌, ◌/◌, ◌%◌,
}
use native.Mathlib.Decide.{dec_lt, ℕ_discrete}
use rathal_os.Memory.{Memory, IsString, store, at, store32}
use rathal_os.User.Wrapper.Pointer.{strlen_of_pointer_lem}
use rathal_os.User.Wrapper.{add_digit, atoi_from, atoi, gather, write_back, trim}

-- The first three characters of the line are those of `str` from its second on.
abbrev pub HasPrefix : Memory → ℕ → ℕ → Type 0
HasPrefix m str line =
    (m (str + 1) ≡ m line) × (m (str + 2) ≡ m (line + 1)) × (m (str + 3) ≡ m (line + 2))

-- The number that a string of digits denotes, `acc` being that of the digits before it.
abbrev pub decimal : ℕ → List ℕ → ℕ
decimal acc [] = acc
decimal acc (x ∷ xs) = decimal (acc * 10 + (x - 48)) xs

-- The characters are digits.
abbrev pub AllDigits : List ℕ → Type 0
AllDigits [] = Unit {0}
AllDigits (x ∷ xs) = (48 ≤ x) × (x < 58) × AllDigits xs

decimal_grows : (acc : ℕ) (xs : List ℕ) → acc ≤ decimal acc xs
decimal_grows acc [] = omega arith
decimal_grows acc (x ∷ xs) = ground (arith, decimal_grows (acc * 10 + (x - 48)) xs)

atoi_from_lem :
    (fuel : ℕ) (m : Memory) (str res : ℕ) (xs : List ℕ)
    → IsString m str xs
    → AllDigits xs
    → decimal res xs < 2 ^ 32
    → length xs < fuel
    → atoi_from fuel m str res ≡ some (decimal res xs)
unfolding atoi_from
atoi_from_lem zero m str res xs s d small enough = absurd (omega arith)
atoi_from_lem (suc fuel) m str res [] s d small enough = ground arith
atoi_from_lem (suc fuel) m str res (x ∷ xs) s d small enough =
    let fits = decimal_grows (res * 10 + (x - 48)) xs in
    let step : add_digit res (m str) ≡ res * 10 + (x - 48) =
      omega (arith, s.0, d.0, d.1, fits, small) in
    rw step (
      ground (
        arith,
        atoi_from_lem fuel m (str + 1) (res * 10 + (x - 48)) xs s.2 d.2 small (omega arith),
      ))

-- `atoi` of a string of digits returns the number that they denote, if that is below 2 ^ 32 and the
-- fuel exceeds the number of digits.
pub atoi_lem :
    (fuel : ℕ) (m : Memory) (str : ℕ) (xs : List ℕ)
    → IsString m str xs
    → AllDigits xs
    → decimal 0 xs < 2 ^ 32
    → length xs < fuel
    → atoi fuel m str ≡ some (decimal 0 xs)
unfolding atoi
atoi_lem fuel m str xs s d small enough = atoi_from_lem fuel m str 0 xs s d small enough

-- Characters less the blanks.
abbrev pub without_blanks : List ℕ → List ℕ
without_blanks [] = []
without_blanks (x ∷ xs) = let rest = without_blanks xs in if x == 32 then rest else x ∷ rest

gather_lem :
    (m : Memory) (buf : ℕ)
    → gather m buf 3 ≡ without_blanks (m buf ∷ m (buf + 1) ∷ m (buf + 2) ∷ [])
unfolding gather
gather_lem m buf =
    let e : m (buf + 1 + 1) ≡ m (buf + 2) = at m (buf + 1 + 1) (buf + 2) (omega arith) in rw e refl

write_back-at :
    (m : Memory) (buf : ℕ) (tmp : List ℕ) (n a : ℕ)
    → write_back m buf tmp n a
      ≡ (if leb buf a && ltb a (buf + n) then get_or tmp (a - buf) 0 else m a)
unfolding write_back
write_back-at m buf tmp zero a = ground arith
write_back-at m buf [] (suc n) a = write_back-at (store m buf 0) (buf + 1) [] n a ∙ ground arith
write_back-at m buf (x ∷ tmp) (suc n) a =
    write_back-at (store m buf x) (buf + 1) tmp n a ∙ elim (ℕ_discrete buf a) [
      | yes e ↦ let zero_index : a - buf ≡ 0 = omega arith in rw zero_index (ground arith)
      | no ne ↦ elim (dec_lt a buf) [
        | yes before ↦ ground arith
        | no behind ↦
            let next : a - buf ≡ suc (a - (buf + 1)) = omega arith in rw next (ground arith)
      ]
    ]

-- `trim` of a pointer below 2 ^ 24 whose three low bytes are not 0 returns. It removes the blanks among the
-- first three characters, filling up with NULs, and changes nothing else besides the parameter of `strlen`.
pub trim_lem :
    (fuel : ℕ) (m : Memory) (arg buf : ℕ)
    → buf < 2 ^ 24
    → buf % 256 ≢ 0
    → buf / 256 % 256 ≢ 0
    → buf / 65536 ≢ 0
    → 3 < fuel
    → let m0 = store32 m arg buf in
      (m' : Memory) × (trim fuel m arg buf ≡ some m')
      × ((a : ℕ)
          → m' a ≡ (
              if leb buf a && ltb a (buf + 3)
              then get_or (without_blanks (m0 buf ∷ m0 (buf + 1) ∷ m0 (buf + 2) ∷ [])) (a - buf) 0
              else m0 a))
unfolding trim
trim_lem fuel m arg buf small b0 b1 b2 enough =
    let m0 = store32 m arg buf in
    let tmp = without_blanks (m0 buf ∷ m0 (buf + 1) ∷ m0 (buf + 2) ∷ []) in
    (
      write_back m0 buf tmp 3,
      rw (trim, strlen_of_pointer_lem fuel m arg buf small b0 b1 b2 enough, gather_lem m0 buf) refl,
      λ a. write_back-at m0 buf tmp 3 a,
    )
