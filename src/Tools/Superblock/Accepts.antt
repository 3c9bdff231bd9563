-- ===== src/Tools/Superblock/Accepts.antt =====
-- Which images `superblock_read` takes.
use rathal_os.Prelude.{
  sym, ℕ, ◌+◌, ◌-◌, ◌<◌, ◌≤◌, ◌≡◌, refl, arith, none, some, if◌then◌else◌, leb, ltb, ◌&&◌, ◌==◌,
  Bool, ap, ap₂, ◌∙◌, true, false, ◌↔◌, ◌⊎◌,
}
use rathal_os.Memory.{Memory, load32}
use rathal_os.Common.Func.{memset}
use rathal_os.Tools.Image.{File, fseek, fread}
use rathal_os.Tools.Image.Access.{fread-at}
use rathal_os.Tools.Tables.{is_block_size}
use rathal_os.Tools.Superblock.{Superblock}
use rathal_os.Tools.Superblock.Bytes.{load_superblock, is_superblock, superblock_read}
use rathal_os.Tools.Superblock.Words.{load32-same}

-- Decoding memory that agrees on the bytes of a superblock.
module _ (m m' : Memory) (q : ℕ) (same : (j : ℕ) → j < 78 → m' (q + j) ≡ m j) where
  word_same : (i a b : ℕ) → i < 75 → q + i ≡ a → i ≡ b → load32 m' a ≡ load32 m b
  word_same i a b lt ea eb = load32-same m m' b a (λ j small.
      ap m' {x = a + j} {y = q + (i + j)} (omega arith)
      ∙ same (i + j) (omega arith)
      ∙ ap m {x = i + j} {y = b + j} (omega arith))

  is_superblock-same : is_superblock m' q ≡ is_superblock m 0
  unfolding is_superblock
  is_superblock-same =
      let e0 : m' q ≡ m 0 = ap m' {x = q} {y = q + 0} (omega arith) ∙ same 0 (omega arith) in
      λ i.
        (e0 i == b'B' && (same 1 (omega arith) i == b'F' && same 2 (omega arith) i == b'S'))
        && (same 4 (omega arith) i == 1
            && is_block_size (word_same 38 (q + 38) 38 (omega arith) refl refl i))

  load_superblock-same : load_superblock m' q ≡ load_superblock m 0
  load_superblock-same = λ i. record {
    block_size = word_same 38 (q + 38) 38 (omega arith) refl refl i;
    inode_bitmap_start = word_same 42 (q + 42) 42 (omega arith) refl refl i;
    inode_bitmap_block_count = word_same 46 (q + 46) 46 (omega arith) refl refl i;
    datablock_bitmap_start = word_same 50 (q + 50) 50 (omega arith) refl refl i;
    datablock_bitmap_block_count = word_same 54 (q + 54) 54 (omega arith) refl refl i;
    inode_start = word_same 58 (q + 58) 58 (omega arith) refl refl i;
    inode_count = word_same 62 (q + 62) 62 (omega arith) refl refl i;
    inode_block_count = word_same 66 (q + 66) 66 (omega arith) refl refl i;
    datablocks_start = word_same 70 (q + 70) 70 (omega arith) refl refl i;
    datablock_count = word_same 74 (q + 74) 74 (omega arith) refl refl i;
  }

-- The memory to which the image is read has its first bytes.
superblock_read-tests :
    (q : ℕ) (f : File) (m : Memory)
    → 78 ≤ f.size
    → superblock_read q f m
      ≡ (if is_superblock f.content 0 then some (load_superblock f.content 0) else none)
unfolding superblock_read
superblock_read-tests q f m fits =
    ap₂ (λ (b : Bool) (sb : Superblock). if b then some sb else none)
      (is_superblock-same f.content (fread (fseek 0 f) q 78 (memset m q 0 78)) q bytes)
      (load_superblock-same f.content (fread (fseek 0 f) q 78 (memset m q 0 78)) q bytes)
  where
    bytes : (j : ℕ) → j < 78 → fread (fseek 0 f) q 78 (memset m q 0 78) (q + j) ≡ f.content j
    bytes j lt =
        fread-at f 0 q 78 (q + j) (memset m q 0 78) fits
        ∙ inside j lt (f.content (0 + (q + j - q))) (memset m q 0 78 (q + j))
        ∙ ap f.content {x = 0 + (q + j - q)} {y = j} (omega arith)
      where
        inside :
            (j : ℕ)
            → j < 78
            → (x y : ℕ) → (if leb q (q + j) && ltb (q + j) (q + 78) then x else y) ≡ x
        inside j lt x y = ground arith

-- Reading the superblock depends on the first 78 bytes only.
pub superblock_read-same :
    (q : ℕ) (f f' : File) (m : Memory)
    → 78 ≤ f.size
    → 78 ≤ f'.size
    → ((j : ℕ) → j < 78 → f'.content j ≡ f.content j)
    → superblock_read q f' m ≡ superblock_read q f m
superblock_read-same q f f' m fits fits' same =
    superblock_read-tests q f' m fits'
    ∙ ap₂ (λ (b : Bool) (sb : Superblock). if b then some sb else none)
        (is_superblock-same f.content f'.content 0 bytes)
        (load_superblock-same f.content f'.content 0 bytes)
    ∙ sym (superblock_read-tests q f m fits)
  where
    bytes : (j : ℕ) → j < 78 → f'.content (0 + j) ≡ f.content j
    bytes j lt = ap f'.content {x = 0 + j} {y = j} (omega arith) ∙ same j lt

-- What an image must have: the signature "BFS", the major version 1, and one of five block sizes.
pub record IsAccepted (image : Memory) : Type 0 where
  pub signature : (image 0 ≡ b'B') × (image 1 ≡ b'F') × (image 2 ≡ b'S')
  pub major_version : image 4 ≡ 1
  pub block_size :
      (load32 image 38 ≡ 512)
      ⊎ (load32 image 38 ≡ 1024)
      ⊎ (load32 image 38 ≡ 2048)
      ⊎ (load32 image 38 ≡ 4096)
      ⊎ (load32 image 38 ≡ 8192)

is_block_size_iff :
    (n : ℕ)
    → (is_block_size n ≡ true) ↔ ((n ≡ 512) ⊎ (n ≡ 1024) ⊎ (n ≡ 2048) ⊎ (n ≡ 4096) ⊎ (n ≡ 8192))
is_block_size_iff n = ground arith

is_superblock_iff : (image : Memory) → (is_superblock image 0 ≡ true) ↔ IsAccepted image
unfolding is_superblock
is_superblock_iff image =
    let size = is_block_size_iff (load32 image 38) in
    let tests = parts (image 0) (image 1) (image 2) (image 4) (is_block_size (load32 image 38)) in
    (
      λ e.
          let t = tests.0 e in
          record { signature = (t.0, t.1, t.2); major_version = t.3; block_size = size.0 t.4 },
      λ a.
          tests.1
            (a.signature.0, a.signature.1, a.signature.2, a.major_version, size.1 a.block_size),
    )
  where
    parts :
        (x y z v : ℕ) (b : Bool)
        → (((x == b'B' && (y == b'F' && z == b'S')) && (v == 1 && b)) ≡ true)
          ↔ ((x ≡ b'B') × (y ≡ b'F') × (z ≡ b'S') × (v ≡ 1) × (b ≡ true))
    parts x y z v b = ground arith

-- From an image of at least 78 bytes `superblock_read` takes the superblock that its first bytes encode
-- exactly if they have the signature "BFS", the major version 1, and one of the block sizes 512, 1024, 2048,
-- 4096 and 8192; the tool exits exactly if they have not.
pub superblock_read_lem :
    (q : ℕ) (f : File) (m : Memory)
    → 78 ≤ f.size
    → ((superblock_read q f m ≡ some (load_superblock f.content 0)) ↔ IsAccepted f.content)
      × ((superblock_read q f m ≡ none) ↔ (¬ IsAccepted f.content))
superblock_read_lem q f m fits = rw (superblock_read-tests q f m fits) (
    decided (is_superblock f.content 0) (load_superblock f.content 0) (is_superblock_iff f.content))
  where
    decided :
        {A : Type 0} (b : Bool) (sb : Superblock)
        → ((b ≡ true) ↔ A)
        → (((if b then some sb else none) ≡ some sb) ↔ A)
          × (((if b then some sb else none) ≡ none) ↔ (¬ A))
    decided true sb h = ground (arith, h)
    decided false sb h = ground (arith, h)
