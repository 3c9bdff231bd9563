-- ===== src/Kernel/Timer/Tests.antt =====
-- The timer as kernel/kernel.c starts it, at 100 Hz.
use rathal_os.Prelude.{ℕ, ◌%◌, ◌^◌, ◌≤◌, ◌<◌, ◌+◌, ◌≡◌, refl, ◌↔◌, arith, List, [], ◌∷◌, none, some}
use rathal_os.Kernel.Timer.{Timer, timer_init, sleep}
use rathal_os.Kernel.Timer.Divider.{counter, timer_init_lem}
use rathal_os.Kernel.Timer.Sleep.{ticks_in, sleep_lem}

abbrev at_100_hz : Timer
at_100_hz = record { tick = 7; freq = 100; divider = 72016 }

-- The divider 72016 loses its upper half; 18 Hz divides by zero.
programmed :
    (timer_init 100
      ≡ some (
        record { tick = 0; freq = 100; divider = 72016 },
        (0x43, 0x36) ∷ (0x40, 0x50) ∷ (0x40, 0x19) ∷ [],
      ))
    × (timer_init 18 ≡ none)
unfolding timer_init
programmed = (refl, refl)

timer_init_lem_example :
    (r : Timer × List (ℕ × ℕ)) × (timer_init 100 ≡ some r)
    × (r.0.tick ≡ 0)
    × (counter r.1 ≡ r.0.divider % 2 ^ 16)
    × ((counter r.1 ≡ r.0.divider) ↔ (110 ≤ 100))
timer_init_lem_example = timer_init_lem 100 (omega arith) (omega arith)

-- 120 interrupts before the second test, none before the third, then 90.
abbrev schedule : List ℕ
schedule = 120 ∷ 0 ∷ 90 ∷ 7 ∷ []

sleeps : sleep schedule at_100_hz 2999 ≡ some (record at_100_hz { tick = 217 })
unfolding sleep
sleeps = refl

sleep_lem_example :
    (tests : ℕ) × (200 ≤ ticks_in tests schedule)
    × ((i : ℕ) → i < tests → ticks_in i schedule < 200)
    × (sleep schedule at_100_hz 2999
        ≡ some (record at_100_hz { tick = 7 + ticks_in tests schedule }))
sleep_lem_example = sleep_lem schedule at_100_hz 2999 (omega arith) (omega arith)
