-- ===== src/Tools/Image/Access.antt =====
-- What a read of a file leaves in memory.
use rathal_os.Prelude.{ℕ, ◌+◌, ◌-◌, ◌<◌, ◌≤◌, ◌≡◌, arith, if◌then◌else◌, leb, ltb, ◌&&◌}
use rathal_os.Memory.{Memory, IsBytes}
use rathal_os.Tools.Image.{File, fread, fseek}

-- A read that the file covers.
pub fread-at :
    (f : File) (offset p count a : ℕ) (m : Memory)
    → offset + count ≤ f.size
    → fread (fseek offset f) p count m a
      ≡ (if leb p a && ltb a (p + count) then f.content (offset + (a - p)) else m a)
unfolding fread fseek
fread-at f offset p count a m fits = ground arith

pub fread-IsBytes :
    (f : File) (p count : ℕ) (m : Memory)
    → ((a : ℕ) → f.content a < 256)
    → IsBytes m
    → IsBytes (fread f p count m)
unfolding fread
fread-IsBytes f p count m file bytes a = ground (arith, file (f.position + (a - p)), bytes a)
