-- ===== src/Kernel/Ide/Sectors.antt =====
-- The memory and the port writes of the two transfers, and the driver as the disk of the file system.
use native.Mathlib.Decide.{ℕ_discrete}
use rathal_os.Prelude.{
  ℕ, zero, suc, ◌+◌, ◌-◌, ◌*◌, ◌/◌, ◌%◌, ◌^◌, ◌<◌, ◌≤◌, ◌≡◌, refl, arith, List, [], ◌∷◌, ◌++◌,
  bit_or, if◌then◌else◌, ◌==◌, leb, ltb, ◌&&◌, ap, ◌∙◌, get_or, holds_below, holds_below-at, Bool,
  true, false,
}
use rathal_os.Memory.{Memory, store16, load16, at, IsBytes}
use rathal_os.Kernel.Disk.{Disk}
use rathal_os.Kernel.Ide.{pio_prepare, read_words, write_words, ide_read_sector, ide_write_sector}

-- Byte `j` of a sequence of words, little-endian.
abbrev pub byte_of : (ℕ → ℕ) → ℕ → ℕ
byte_of words j = if j % 2 == 0 then words (j / 2) % 256 else words (j / 2) / 256 % 256

store16-at :
    (m : Memory) (p v a : ℕ)
    → store16 m p v a ≡ (if a == p then v % 256 else if a == p + 1 then v / 256 % 256 else m a)
store16-at m p v a = ground arith

byte_even : (words : ℕ → ℕ) (i j : ℕ) → j ≡ 2 * i → byte_of words j ≡ words i % 256
byte_even words i j e =
    let test : (j % 2 == 0) ≡ true = ground arith in
    rw test (ap (λ (k : ℕ). words k % 256) {x = j / 2} {y = i} (omega arith))

byte_odd : (words : ℕ → ℕ) (i j : ℕ) → j ≡ 2 * i + 1 → byte_of words j ≡ words i / 256 % 256
byte_odd words i j e =
    let test : (j % 2 == 0) ≡ false = ground arith in
    rw test (ap (λ (k : ℕ). words k / 256 % 256) {x = j / 2} {y = i} (omega arith))

-- One word is stored, then those behind it.
word_step :
    (p left a low high x y z : ℕ)
    → (a ≡ p → z ≡ low)
    → (a ≡ p + 1 → z ≡ high)
    → (p + 2 ≤ a → z ≡ y)
    → (if leb (p + 2) a && ltb a (p + 2 + 2 * left)
        then y
        else if a == p
        then low
        else if a == p + 1
        then high
        else x)
      ≡ (if leb p a && ltb a (p + 2 * suc left) then z else x)
word_step p left a low high x y z h0 h1 h2 = ground arith

read_words-at :
    (words : ℕ → ℕ) (i p left a : ℕ) (m : Memory)
    → read_words words i p left m a
      ≡ (if leb p a && ltb a (p + 2 * left) then byte_of words (a - p + 2 * i) else m a)
unfolding read_words
read_words-at words i p zero a m = ground arith
read_words-at words i p (suc left) a m =
    let y = byte_of words (a - (p + 2) + 2 * (i + 1)) in
    read_words-at words (i + 1) (p + 2) left a (store16 m p (words i))
    ∙ ap (λ (v : ℕ). if leb (p + 2) a && ltb a (p + 2 + 2 * left) then y else v)
        (store16-at m p (words i) a)
    ∙ word_step p left a (words i % 256) (words i / 256 % 256) (m a) y
        (byte_of words (a - p + 2 * i)) (λ e. byte_even words i (a - p + 2 * i) (omega arith))
        (λ e. byte_odd words i (a - p + 2 * i) (omega arith))
        (λ ge. ap (byte_of words) (omega arith))

-- The sector number in the bytes written to a drive, and whether they choose addressing by it.
abbrev pub lba : List (ℕ × ℕ) → ℕ
lba writes =
    (get_or writes 1 (0, 0)).1
    + 2 ^ 8 * (get_or writes 2 (0, 0)).1
    + 2 ^ 16 * (get_or writes 3 (0, 0)).1
    + 2 ^ 24 * ((get_or writes 4 (0, 0)).1 % 2 ^ 4)

high_test : ℕ → Bool
high_test x = bit_or x 0xe0 % 2 ^ 4 == x

high_table : holds_below high_test 16 ≡ true
unfolding holds_below high_test
high_table = refl

high_lem : (x : ℕ) → x < 16 → bit_or x 0xe0 % 2 ^ 4 ≡ x
unfolding high_test
high_lem x h = let t = holds_below-at high_test {bound = 16} x h high_table in ground arith

-- Before a command the drive is given the number of the sector, if that is below 2 ^ 28: its four parts
-- put together are the number, for reading and for writing.
pub lba_lem :
    (sector src : ℕ) (m : Memory)
    → sector < 2 ^ 28
    → (lba (pio_prepare sector ++ ((0x1f7, 0x20) ∷ [])) ≡ sector)
      × (lba (ide_write_sector sector src m) ≡ sector)
unfolding pio_prepare ide_write_sector
lba_lem sector src m h =
    let high = high_lem (sector / 2 ^ 24 % 2 ^ 4) (omega arith) in
    let sum : sector % 2 ^ 8
          + 2 ^ 8 * (sector / 2 ^ 8 % 2 ^ 8)
          + 2 ^ 16 * (sector / 2 ^ 16 % 2 ^ 8)
          + 2 ^ 24 * (bit_or (sector / 2 ^ 24 % 2 ^ 4) 0xe0 % 2 ^ 4)
        ≡ sector =
      omega (arith, high) in
    (sum, sum)

-- The bytes on a drive.
abbrev pub drive_content : (List (ℕ × ℕ) → ℕ → ℕ) → ℕ → ℕ → ℕ
drive_content drive sector j = byte_of (drive (pio_prepare sector ++ ((0x1f7, 0x20) ∷ []))) j

pub byte_of_lt : (words : ℕ → ℕ) (j : ℕ) → byte_of words j < 256
byte_of_lt words j = ground arith

-- Reading a sector changes the 512 bytes at `dst`, to the bytes of the words that the drive delivers,
-- low byte first, and no other memory.
pub ide_read_sector_lem :
    (drive : List (ℕ × ℕ) → ℕ → ℕ) (sector dst : ℕ) (m : Memory) (a : ℕ)
    → ide_read_sector drive sector dst m a
      ≡ (if leb dst a && ltb a (dst + 512) then drive_content drive sector (a - dst) else m a)
unfolding ide_read_sector
ide_read_sector_lem drive sector dst m a =
    read_words-at (drive (pio_prepare sector ++ ((0x1f7, 0x20) ∷ []))) 0 dst 256 a m
    ∙ ap (λ (j : ℕ). if leb dst a && ltb a (dst + 512) then drive_content drive sector j else m a)
        {x = a - dst + 2 * 0} {y = a - dst} (omega arith)

-- The driver as the disk of the file system.
abbrev pub ide_disk : (List (ℕ × ℕ) → ℕ → ℕ) → Disk
ide_disk drive = record {
  content = drive_content drive;
  read_sector = ide_read_sector drive;
  read_sector_lem = ide_read_sector_lem drive;
  content_lt = λ sector j. byte_of_lt (drive (pio_prepare sector ++ ((0x1f7, 0x20) ∷ []))) j;
}

write_words-nth :
    (m : Memory) (p left i : ℕ)
    → i < left
    → get_or (write_words m p left) i (0, 0) ≡ (0x1f0, load16 m (p + 2 * i))
unfolding write_words
write_words-nth m p zero i h = absurd (omega arith)
write_words-nth m p (suc left) zero h =
    ap (λ (q : ℕ). (0x1f0, load16 m q)) {x = p} {y = p + 2 * 0} (omega arith)
write_words-nth m p (suc left) (suc i) h =
    write_words-nth m (p + 2) left i (omega arith)
    ∙ ap (λ (q : ℕ). (0x1f0, load16 m q)) {x = p + 2 + 2 * i} {y = p + 2 * suc i} (omega arith)

-- A list less its first entries.
abbrev pub behind : ℕ → List (ℕ × ℕ) → List (ℕ × ℕ)
behind zero writes = writes
behind (suc n) [] = []
behind (suc n) (w ∷ writes) = behind n writes

-- The words among what `ide_write_sector` sends to a drive: those behind the preparation and the
-- command.
abbrev pub words_sent : List (ℕ × ℕ) → ℕ → ℕ
words_sent writes i = (get_or (behind 6 writes) i (0, 0)).1

-- The two bytes of a word.
byte_of_load16 :
    (m : Memory) (src j : ℕ)
    → IsBytes m
    → (if j % 2 == 0
        then load16 m (src + 2 * (j / 2)) % 256
        else load16 m (src + 2 * (j / 2)) / 256 % 256)
      ≡ m (src + j)
byte_of_load16 m src j bytes = elim (ℕ_discrete (j % 2) 0) [
  | yes e ↦
      let test : (j % 2 == 0) ≡ true = ground arith in
      rw test (
        omega (arith, bytes (src + 2 * (j / 2))) ∙ at m (src + 2 * (j / 2)) (src + j) (omega arith))
  | no ne ↦
      let test : (j % 2 == 0) ≡ false = ground arith in
      rw test (
        omega (arith, bytes (src + 2 * (j / 2)), bytes (src + 2 * (j / 2) + 1))
        ∙ at m (src + 2 * (j / 2) + 1) (src + j) (omega arith))
]

-- From a drive that answers with the words that `ide_write_sector` sent, `ide_read_sector` restores the
-- 512 bytes of the source, at any address, if memory holds bytes.
pub write_read :
    (sector src dst j : ℕ) (m m' : Memory)
    → IsBytes m
    → j < 512
    → ide_read_sector
        (λ command. words_sent (ide_write_sector sector src m))
        sector
        dst
        m'
        (dst + j)
      ≡ m (src + j)
unfolding ide_write_sector pio_prepare
write_read sector src dst j m m' bytes h =
    let words = words_sent (ide_write_sector sector src m) in
    let sent = write_words-nth m src 256 (j / 2) (omega arith) in
    ide_read_sector_lem (λ command. words) sector dst m' (dst + j)
    ∙ in_range (byte_of words (dst + j - dst)) (m' (dst + j))
    ∙ ap (byte_of words) {x = dst + j - dst} {y = j} (omega arith)
    ∙ ap (λ (e : ℕ × ℕ). if j % 2 == 0 then e.1 % 256 else e.1 / 256 % 256) sent
    ∙ byte_of_load16 m src j bytes
  where
    in_range : (x y : ℕ) → (if leb dst (dst + j) && ltb (dst + j) (dst + 512) then x else y) ≡ x
    in_range x y = ground arith
