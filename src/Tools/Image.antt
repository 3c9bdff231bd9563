-- ===== src/Tools/Image.antt =====
-- Files of the C library, as the tools use them: a disk image that is open for reading and writing.
pub mod Access
use rathal_os.Prelude.{ℕ, ◌+◌, ◌-◌, if◌then◌else◌, leb, ltb, ◌&&◌}
use rathal_os.Memory.{Memory}

-- `content` is 0 behind the end, as in the gap that a write behind the end leaves.
pub record File : Type 0 where
  pub content : ℕ → ℕ
  pub size : ℕ
  pub position : ℕ

abbrev pub max : ℕ → ℕ → ℕ
max a b = if ltb a b then b else a

abbrev pub min : ℕ → ℕ → ℕ
min a b = if ltb a b then a else b

-- `fseek(f, offset, SEEK_SET)`
unfoldable pub fseek : ℕ → File → File
fseek offset f = record f { position = offset }

-- `fwrite(p, count, 1, f)`
unfoldable pub fwrite : Memory → ℕ → ℕ → File → File
fwrite m p count f = record {
  content = λ a.
      if leb f.position a && ltb a (f.position + count)
      then m (p + (a - f.position))
      else f.content a;
  size = max f.size (f.position + count);
  position = f.position + count;
}

-- The memory after `fread(p, count, 1, f)`: what the file has, up to `count` bytes.
unfoldable pub fread : File → ℕ → ℕ → Memory → Memory
fread f p count m a =
    if leb p a && ltb a (p + min count (f.size - f.position))
    then f.content (f.position + (a - p))
    else m a

-- The file after it.
unfoldable pub advance : ℕ → File → File
advance count f = record f { position = f.position + min count (f.size - f.position) }
