-- ===== src/Kernel/Print/Plain.antt =====
-- `printf` of a format without conversions and line feeds.
use rathal_os.Prelude.{
  ℕ, zero, suc, ◌+◌, ◌<◌, ◌≡◌, ◌≢◌, refl, arith, List, [], ◌∷◌, length, Option, some, ◌>>=◌,
  if◌then◌else◌, ◌==◌, true, false, Bool, ap, ◌∙◌, sym,
}
use rathal_os.Memory.{Memory, IsString}
use rathal_os.Kernel.Crtc.{Crtc}
use rathal_os.Kernel.Display.{Screen, display_carac, display_string}
use rathal_os.Kernel.Print.{Item, plain, item, print_item, printf_from, printf}

-- Neither '%' nor a line feed.
abbrev pub AllPlain : List ℕ → Type 0
AllPlain [] = Unit {0}
AllPlain (x ∷ xs) = (x ≢ 37) × (x ≢ 10) × AllPlain xs

item-plain : (c next : ℕ) → c ≢ 37 → c ≢ 10 → item c next ≡ plain
unfolding item
item-plain c next a b =
    let percent : (c == 37) ≡ false = ground arith in
    let feed : (c == 10) ≡ false = ground arith in rw (percent, feed) refl

module _ {State : Type 0} (crtc : Crtc State) (m : Memory) (args : ℕ → ℕ → ℕ) where
  one_round :
      (fuel depth cnt : ℕ) (s : Screen State) (rh : ℕ) (stop : Bool)
      → item (m rh) (m (rh + 1)) ≡ plain
      → (m (rh + 1) == 0) ≡ stop
      → printf_from crtc (suc fuel) m args depth s rh cnt ≡ (
          if stop
          then some (display_carac crtc s (m rh))
          else printf_from crtc fuel m args depth (display_carac crtc s (m rh)) (rh + 1) cnt)
  unfolding printf_from print_item
  one_round fuel depth cnt s rh stop e t =
      ap
        (λ (i : Item).
          print_item crtc m (λ fmt. printf_from crtc fuel m args (depth + 1) s fmt 0)
            (args depth (cnt + 1)) s rh cnt i
          >>= λ (s', rh', cnt'). elim (m rh' == 0) [
            | true ↦ some s'
            | false ↦ printf_from crtc fuel m args depth s' rh' cnt'
          ])
        e
      ∙ ap
          (λ (b : Bool). elim b as (λ x. Option (Screen State)) [
            | true ↦ some (display_carac crtc s (m rh))
            | false ↦ printf_from crtc fuel m args depth (display_carac crtc s (m rh)) (rh + 1) cnt
          ])
          t
      ∙ by_stop stop
    where
      by_stop :
          (b : Bool)
          → (elim b as (λ x. Option (Screen State)) [
            | true ↦ some (display_carac crtc s (m rh))
            | false ↦ printf_from crtc fuel m args depth (display_carac crtc s (m rh)) (rh + 1) cnt
          ])
            ≡ (if b
                then some (display_carac crtc s (m rh))
                else printf_from crtc fuel m args depth (display_carac crtc s (m rh)) (rh + 1) cnt)
      by_stop true = refl
      by_stop false = refl

  one_character :
      (fuel : ℕ) (s : Screen State) (string : ℕ) (stop : Bool)
      → (m string == 0) ≡ stop
      → display_string crtc (suc fuel) m s string ≡ (
          if stop
          then some s
          else display_string crtc fuel m (display_carac crtc s (m string)) (string + 1))
  unfolding display_string
  one_character fuel s string stop t =
      ap
        (λ (b : Bool).
          if b
          then some s
          else display_string crtc fuel m (display_carac crtc s (m string)) (string + 1))
        t

  is_plain :
      (rh x : ℕ) (xs : List ℕ)
      → IsString m rh (x ∷ xs)
      → AllPlain (x ∷ xs)
      → item (m rh) (m (rh + 1)) ≡ plain
  is_plain rh x xs str p =
      item-plain (m rh) (m (rh + 1)) (λ e. p.0 (sym str.0 ∙ e)) (λ e. p.1 (sym str.0 ∙ e))

  printf_from-plain :
      (fuel depth cnt : ℕ) (s : Screen State) (rh x : ℕ) (xs : List ℕ)
      → IsString m rh (x ∷ xs)
      → AllPlain (x ∷ xs)
      → length (x ∷ xs) < fuel
      → printf_from crtc fuel m args depth s rh cnt ≡ display_string crtc fuel m s rh
  printf_from-plain zero depth cnt s rh x xs str p enough = absurd (omega arith)
  printf_from-plain (suc zero) depth cnt s rh x xs str p enough = absurd (omega arith)
  printf_from-plain (suc (suc fuel)) depth cnt s rh x [] str p enough =
      one_round (suc fuel) depth cnt s rh true (is_plain rh x [] str p) (ground (arith, str.2))
      ∙ sym (one_character fuel (display_carac crtc s (m rh)) (rh + 1) true (ground (arith, str.2)))
      ∙ sym (one_character (suc fuel) s rh false (ground (arith, str.0, str.1)))
  printf_from-plain (suc (suc fuel)) depth cnt s rh x (y ∷ xs) str p enough =
      one_round (suc fuel) depth cnt s rh false (is_plain rh x (y ∷ xs) str p)
        (ground (arith, str.2.0, str.2.1))
      ∙ printf_from-plain (suc fuel) depth cnt (display_carac crtc s (m rh)) (rh + 1) y xs str.2 p.2
          (omega arith)
      ∙ sym (one_character (suc fuel) s rh false (ground (arith, str.0, str.1)))

-- For a format that is not empty and contains neither '%' nor a line feed, `printf` displays what
-- `display_string` does, whatever stands behind it on the stack, if the fuel exceeds its length.
pub printf-display_string :
    {State : Type 0} (crtc : Crtc State) (fuel : ℕ) (m : Memory) (args : ℕ → ℕ → ℕ)
    (s : Screen State) (fmt x : ℕ) (xs : List ℕ)
    → IsString m fmt (x ∷ xs)
    → AllPlain (x ∷ xs)
    → length (x ∷ xs) < fuel
    → printf crtc fuel m args s fmt ≡ display_string crtc fuel m s fmt
unfolding printf
printf-display_string crtc fuel m args s fmt x xs str p enough =
    printf_from-plain crtc m args fuel 0 0 s fmt x xs str p enough
