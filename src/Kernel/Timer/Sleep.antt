-- ===== src/Kernel/Timer/Sleep.antt =====
-- How long `sleep` waits.
use native.Mathlib.Decide.{dec_lt}
use rathal_os.Prelude.{
  ℕ, zero, suc, ◌+◌, ◌*◌, ◌/◌, ◌%◌, ◌^◌, ◌<◌, ◌≤◌, ◌≡◌, refl, arith, List, [], ◌∷◌, Option, some,
  ltb, ◌∙◌, ap, true, false,
}
use rathal_os.Kernel.Timer.{Timer, timer_handler, interrupts, sleep_until, sleep_loop, sleep}

-- The interrupts of the first `j` intervals of a schedule, and of all of them.
abbrev pub ticks_in : ℕ → List ℕ → ℕ
ticks_in zero schedule = 0
ticks_in (suc j) [] = 0
ticks_in (suc j) (n ∷ schedule) = n + ticks_in j schedule

abbrev pub all_ticks : List ℕ → ℕ
all_ticks [] = 0
all_ticks (n ∷ schedule) = n + all_ticks schedule

interrupts_lem :
    (n : ℕ) (t : Timer) → t.tick + n < 2 ^ 32 → interrupts n t ≡ record t { tick = t.tick + n }
unfolding interrupts timer_handler
interrupts_lem zero t small =
    ap (λ (k : ℕ). record t { tick = k }) {x = t.tick} {y = t.tick + 0} (omega arith)
interrupts_lem (suc n) t small =
    let next : (t.tick + 1) % 2 ^ 32 ≡ t.tick + 1 = omega arith in
    ap (λ (k : ℕ). interrupts n (record t { tick = k })) next
    ∙ interrupts_lem n (record t { tick = t.tick + 1 }) (omega arith)
    ∙ ap (λ (k : ℕ). record t { tick = k }) {x = t.tick + 1 + n} {y = t.tick + suc n} (omega arith)

-- The loop, with result `r`, ends at the first test that finds the tick `total` reached.
record EndsAt (schedule : List ℕ) (total : ℕ) (t : Timer) (r : Option Timer) : Type 0 where
  pub tests : ℕ
  pub reached : total ≤ t.tick + ticks_in tests schedule
  pub not_before : (i : ℕ) → i < tests → t.tick + ticks_in i schedule < total
  pub ends : r ≡ some (record t { tick = t.tick + ticks_in tests schedule })

at_once :
    (schedule : List ℕ) (total : ℕ) (t : Timer) (r : Option Timer)
    → total ≤ t.tick
    → r ≡ some t
    → EndsAt schedule total t r
at_once schedule total t r le e = record {
  tests = 0;
  reached = omega arith;
  not_before = λ i lt. absurd (omega arith);
  ends =
      e ∙ ap (λ (k : ℕ). some (record t { tick = k })) {x = t.tick} {y = t.tick + 0} (omega arith);
}

later :
    (n : ℕ) (schedule : List ℕ) (total : ℕ) (t : Timer) (r : Option Timer)
    → t.tick < total
    → EndsAt schedule total (record t { tick = t.tick + n }) r
    → EndsAt (n ∷ schedule) total t r
later n schedule total t r lt rest = record {
  tests = suc rest.tests;
  reached = omega (arith, rest.reached);
  not_before = before;
  ends =
      rest.ends
      ∙ ap (λ (k : ℕ). some (record t { tick = k })) {x = t.tick + n + ticks_in rest.tests schedule}
          {y = t.tick + (n + ticks_in rest.tests schedule)} (omega arith);
}
  where
    before : (i : ℕ) → i < suc rest.tests → t.tick + ticks_in i (n ∷ schedule) < total
    before zero h = omega arith
    before (suc i) h = let earlier = rest.not_before i (omega arith) in omega (arith, earlier)

sleep_loop-EndsAt :
    (schedule : List ℕ) (total : ℕ) (t : Timer)
    → t.tick + all_ticks schedule < 2 ^ 32
    → total ≤ t.tick + all_ticks schedule
    → EndsAt schedule total t (sleep_loop schedule total t)
unfolding sleep_loop
sleep_loop-EndsAt [] total t small enough =
    let test : ltb t.tick total ≡ false = ground arith in
    rw test (at_once [] total t (some t) (omega arith) refl)
sleep_loop-EndsAt (n ∷ schedule) total t small enough = elim (dec_lt t.tick total) [
  | yes lt ↦
      let test : ltb t.tick total ≡ true = ground arith in
      rw (test, interrupts_lem n t (omega arith))
        (later n schedule total t _ lt (
          sleep_loop-EndsAt schedule total (record t { tick = t.tick + n }) (omega arith)
            (omega arith)))
  | no ge ↦
      let test : ltb t.tick total ≡ false = ground arith in
      rw test (at_once (n ∷ schedule) total t (some t) (omega arith) refl)
]

-- `sleep` waits `freq` ticks for every full second of `ms`, and not at all for less than a second. Whatever
-- the numbers of interrupts between its tests are, it returns at the first test that finds these ticks over;
-- the interrupts must be enough and leave the tick below 2 ^ 32.
pub sleep_lem :
    (schedule : List ℕ) (t : Timer) (ms : ℕ)
    → t.tick + all_ticks schedule < 2 ^ 32
    → t.freq * (ms / 1000) ≤ all_ticks schedule
    → (tests : ℕ) × (t.freq * (ms / 1000) ≤ ticks_in tests schedule)
      × ((i : ℕ) → i < tests → ticks_in i schedule < t.freq * (ms / 1000))
      × (sleep schedule t ms ≡ some (record t { tick = t.tick + ticks_in tests schedule }))
unfolding sleep sleep_until
sleep_lem schedule t ms small enough = go (t.freq * (ms / 1000)) enough
  where
    go :
        (n : ℕ)
        → n ≤ all_ticks schedule
        → (tests : ℕ) × (n ≤ ticks_in tests schedule)
          × ((i : ℕ) → i < tests → ticks_in i schedule < n)
          × (sleep_loop schedule ((t.tick + n) % 2 ^ 32) t
              ≡ some (record t { tick = t.tick + ticks_in tests schedule }))
    go n le =
        let same : (t.tick + n) % 2 ^ 32 ≡ t.tick + n = omega arith in
        let e = sleep_loop-EndsAt schedule (t.tick + n) t small (omega arith) in
        (
          e.tests,
          omega (arith, e.reached),
          λ i lt. let earlier = e.not_before i lt in omega (arith, earlier),
          ap (λ (total : ℕ). sleep_loop schedule total t) same ∙ e.ends,
        )
