-- ===== src/Kernel/Keyboard/Run.antt =====
-- The keyboard as a queue: any sequence of interrupts and reads.
use rathal_os.Prelude.{
  ℕ, zero, suc, ◌+◌, ◌-◌, ◌%◌, ◌<◌, ◌≡◌, refl, arith, Bool, true, false, List, [], ◌∷◌, ◌++◌,
  if◌then◌else◌, leb, ◌==◌, ◌||◌, length, Option, none, some, ap, ap₂, ◌∙◌, get_or,
}
use rathal_os.Kernel.Keymap.{scan2char}
use rathal_os.Kernel.Keyboard.{Keyboard, add_key, keyboard_handler, getc}
use rathal_os.Kernel.Keyboard.Ring.{
  IsValid, from, pending, length-from, add_key-IsValid, pending-add_key,
}

-- What happens to the keyboard: an interrupt with the contents of the two ports, or a `getc`.
pub data Event : Type 0 where
  interrupt : ℕ → ℕ → Event
  read : Event

-- The specification: the characters that wait, and the state of the shift key.
pub record Queue : Type 0 where
  pub waiting : List ℕ
  pub shift : Bool

-- A key that finds 255 characters waiting clears the queue.
abbrev pub arrive : Queue → ℕ → Queue
arrive q c = record q { waiting = if length q.waiting == 255 then [] else q.waiting ++ (c ∷ []) }

abbrev pub interrupt_queue : ℕ → ℕ → Queue → Queue
interrupt_queue status code q =
    if status == 0
    then q
    else if leb 128 code
    then (if code == 0xaa || code == 0xb6 then record q { shift = false } else q)
    else if code == 0x2a || code == 0x36
    then record q { shift = true }
    else arrive q (scan2char code q.shift)

abbrev pub read_queue : List ℕ → Bool → Queue × Option ℕ
read_queue [] shift = (record { waiting = []; shift = shift }, none)
read_queue (c ∷ rest) shift = (record { waiting = rest; shift = shift }, some c)

-- The characters that the reads of a history deliver, `none` for one that has to wait.
pub run_queue : Queue → List Event → List (Option ℕ)
run_queue q [] = []
run_queue q (interrupt status code ∷ events) = run_queue (interrupt_queue status code q) events
run_queue q (read ∷ events) = let (q', c) = read_queue q.waiting q.shift in c ∷ run_queue q' events

abbrev pub read_step : Keyboard → Option (Keyboard × ℕ) → Keyboard × Option ℕ
read_step k none = (k, none)
read_step k (some (k', c)) = (k', some c)

unfoldable pub run : Keyboard → List Event → List (Option ℕ)
unfolding getc
run k [] = []
run k (interrupt status code ∷ events) = run (keyboard_handler status code k).0 events
run k (read ∷ events) = let (k', c) = read_step k (getc k) in c ∷ run k' events

-- Scan codes are bytes.
abbrev pub AllCodes : List Event → Type 0
AllCodes [] = Unit {0}
AllCodes (interrupt status code ∷ events) = (code < 256) × AllCodes events
AllCodes (read ∷ events) = AllCodes events

-- The queue that a keyboard holds.
abbrev pub queue : Keyboard → Queue
queue k = record { waiting = pending k; shift = k.shift }

add_key-shift : (k : Keyboard) (c : ℕ) → (add_key k c).shift ≡ k.shift
unfolding add_key
add_key-shift k c = refl

-- On a valid keyboard and a scan code below 256 the handler keeps the ring valid, acts on the queue as
-- specified, and never prints the overflow message: `size` is a byte and cannot reach 256.
pub keyboard_handler_lem :
    (status code : ℕ) (k : Keyboard)
    → IsValid k
    → code < 256
    → IsValid (keyboard_handler status code k).0
      × (queue (keyboard_handler status code k).0 ≡ interrupt_queue status code (queue k))
      × ((keyboard_handler status code k).1 ≡ false)
unfolding keyboard_handler
keyboard_handler_lem status code k v small = ground (
  arith,
  add_key-IsValid k (scan2char code k.shift) v,
  pending-add_key k (scan2char code k.shift) v,
  add_key-shift k (scan2char code k.shift),
  length-from k.fifo_buffer k.tail k.size,
)

-- `getc` waits on an empty queue; otherwise it takes the oldest character and keeps the ring valid.
pub getc_lem :
    (k : Keyboard)
    → IsValid k
    → let (k', c) = read_step k (getc k) in
      IsValid k' × ((queue k', c) ≡ read_queue (pending k) k.shift)
unfolding getc
getc_lem k v = go k.size refl
  where
    with_tail : ℕ → ℕ → Queue
    with_tail t m = record { waiting = from k.fifo_buffer t m; shift = k.shift }

    go :
        (n : ℕ)
        → k.size ≡ n
        → let (k', c) = read_step k (getc k) in
          IsValid k' × ((queue k', c) ≡ read_queue (from k.fifo_buffer k.tail n) k.shift)
    go zero e =
        let empty : (k.size == 0) ≡ true = ground arith in
        rw (getc, empty) (v, ap (λ (m : ℕ). (with_tail k.tail m, none)) e)
    go (suc n) e =
        let some_left : (k.size == 0) ≡ false = ground arith in
        rw (getc, some_left)
          (
            record {
              storage = v.storage;
              tail_in = omega arith;
              size_in = omega (arith, v.size_in);
              head_at = omega (arith, v.head_at, v.tail_in, v.size_in);
            },
            ap₂ (λ (t m : ℕ). (with_tail t m, some (get_or k.fifo_buffer k.tail 0)))
                {x = (k.tail + 1) % 256 % 256} {y = (k.tail + 1) % 256} {u = k.size - 1} {v = n}
                (omega arith) (omega arith),
          )

-- Whatever interrupts (with scan codes below 256) and reads happen, the reads from a valid keyboard
-- deliver what the queue delivers: the characters pressed, each once and in order, except that a
-- character that finds 255 waiting empties the queue; a read of an empty queue waits.
pub run_refines :
    (events : List Event) (k : Keyboard)
    → IsValid k
    → AllCodes events
    → run k events ≡ run_queue (queue k) events
unfolding run run_queue
run_refines [] k v codes = refl
run_refines (interrupt status code ∷ events) k v codes =
    let step = keyboard_handler_lem status code k v codes.0 in
    run_refines events (keyboard_handler status code k).0 step.0 codes.1
    ∙ ap (λ (q : Queue). run_queue q events) step.1
run_refines (read ∷ events) k v codes =
    let step = getc_lem k v in
    ap (◌∷◌ (read_step k (getc k)).1) (run_refines events (read_step k (getc k)).0 step.0 codes)
    ∙ ap (λ (r : Queue × Option ℕ). r.1 ∷ run_queue r.0 events) step.1
