-- ===== src/Kernel/Timer/Divider.antt =====
-- The counter that the timer is programmed with.
use native.Mathlib.Nat.{le-div_iff_mul-le}
use native.Mathlib.Decide.{dec_lt}
use rathal_os.Prelude.{
  ℕ, ◌+◌, ◌*◌, ◌/◌, ◌%◌, ◌^◌, ◌<◌, ◌≤◌, ◌≡◌, refl, ◌↔◌, arith, List, [], ◌∷◌, some, ◌==◌, false,
  get_or,
}
use rathal_os.Kernel.Timer.{Timer, timer_divider, ratio, timer_init}

-- The counter of channel 0 after a command and the low and the high byte.
abbrev pub counter : List (ℕ × ℕ) → ℕ
counter writes = (get_or writes 1 (0, 0)).1 + 256 * (get_or writes 2 (0, 0)).1

divider_fits : (q d : ℕ) → 0 < q → d ≡ 360082 / q → (d < 2 ^ 16) ↔ (6 ≤ q)
divider_fits q d h e =
    let large = le-div_iff_mul-le {k = q} {x = 2 ^ 16} {y = 360082} h in
    (
      λ lt. elim (dec_lt q 6) [
        | no ge ↦ omega arith
        | yes small ↦ let wide = large.1 (omega arith) in absurd (omega (arith, wide, e, lt))
      ],
      λ ge. elim (dec_lt d (2 ^ 16)) [
        | yes lt ↦ lt
        | no wide ↦ let small = large.0 (omega (arith, e)) in absurd (omega (arith, small))
      ],
    )

-- `timer_init` of 19 to 2 ^ 25 Hz returns, with tick 0; the counter that it programs is the low half of
-- the divider, and the divider itself exactly from 110 Hz on.
pub timer_init_lem :
    (freq_hz : ℕ)
    → 19 ≤ freq_hz
    → freq_hz < 2 ^ 25
    → (r : Timer × List (ℕ × ℕ)) × (timer_init freq_hz ≡ some r)
      × (r.0.tick ≡ 0)
      × (counter r.1 ≡ r.0.divider % 2 ^ 16)
      × ((counter r.1 ≡ r.0.divider) ↔ (110 ≤ freq_hz))
unfolding timer_init
timer_init_lem freq_hz lo hi =
    let divider = timer_divider / ratio freq_hz in
    let test : (ratio freq_hz == 0) ≡ false = ground arith in
    let fits = divider_fits (ratio freq_hz) divider (omega arith) refl in
    (
      (
        record { tick = 0; freq = freq_hz % 2 ^ 16; divider = divider },
        (0x43, 0x36) ∷ (0x40, divider % 2 ^ 8) ∷ (0x40, divider / 2 ^ 8 % 2 ^ 8) ∷ [],
      ),
      rw (timer_init, test) refl,
      refl,
      assembled divider,
      whole divider fits,
    )
  where
    assembled : (d : ℕ) → d % 2 ^ 8 + 256 * (d / 2 ^ 8 % 2 ^ 8) ≡ d % 2 ^ 16
    assembled d = omega arith

    whole :
        (d : ℕ)
        → ((d < 2 ^ 16) ↔ (6 ≤ ratio freq_hz))
        → (d % 2 ^ 8 + 256 * (d / 2 ^ 8 % 2 ^ 8) ≡ d) ↔ (110 ≤ freq_hz)
    whole d fits = (
      λ e. let six = fits.0 (omega arith) in omega (arith, six, lo, hi),
      λ ge. let lt = fits.1 (omega arith) in omega (arith, lt),
    )
