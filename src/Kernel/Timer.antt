-- ===== src/Kernel/Timer.antt =====
-- kernel/drivers/timer.c: the programmable timer. Writes to ports are pairs of a port and a byte.
pub mod Divider
pub mod Sleep
pub mod Tests
use rathal_os.Prelude.{
  ℕ, zero, suc, ◌+◌, ◌-◌, ◌*◌, ◌/◌, ◌%◌, ◌^◌, List, [], ◌∷◌, Option, none, some, if◌then◌else◌,
  ◌==◌, ltb,
}

abbrev pub timer_divider : ℕ
timer_divider = 360082

-- `timer_struct_t`; `freq` is an `ushort_t`.
pub record Timer : Type 0 where
  pub tick : ℕ
  pub freq : ℕ
  pub divider : ℕ

-- `(freq_hz*100) / 1820` on 32 bits.
abbrev pub ratio : ℕ → ℕ
ratio freq_hz = freq_hz * 100 % 2 ^ 32 / 1820

-- The timer and the bytes written; `none` is a division by zero.
unfoldable pub timer_init : ℕ → Option (Timer × List (ℕ × ℕ))
timer_init freq_hz =
    if ratio freq_hz == 0
    then none
    else let divider = timer_divider / ratio freq_hz in
      some (
        record { tick = 0; freq = freq_hz % 2 ^ 16; divider = divider },
        (0x43, 0x36) ∷ (0x40, divider % 2 ^ 8) ∷ (0x40, divider / 2 ^ 8 % 2 ^ 8) ∷ [],
      )

-- Less the picture that `time_graphic` draws.
unfoldable pub timer_handler : Timer → Timer
timer_handler t = record t { tick = (t.tick + 1) % 2 ^ 32 }

-- The tick that `sleep` waits for.
unfoldable pub sleep_until : Timer → ℕ → ℕ
sleep_until t ms = (t.tick + t.freq * (ms / 1000)) % 2 ^ 32

-- `n` interrupts of the timer.
unfoldable pub interrupts : ℕ → Timer → Timer
unfolding timer_handler
interrupts zero t = t
interrupts (suc n) t = interrupts n (timer_handler t)

-- The loop of `sleep`: the timer when it ends. The list has the number of interrupts between each test
-- and the next; `none` is that the loop has not ended with them.
unfoldable pub sleep_loop : List ℕ → ℕ → Timer → Option Timer
unfolding interrupts
sleep_loop [] total t = if ltb t.tick total then none else some t
sleep_loop (n ∷ schedule) total t =
    let rest = sleep_loop schedule total (interrupts n t) in
    if ltb t.tick total then rest else some t

unfoldable pub sleep : List ℕ → Timer → ℕ → Option Timer
unfolding sleep_until sleep_loop
sleep schedule t ms = sleep_loop schedule (sleep_until t ms) t
