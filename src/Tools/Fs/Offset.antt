-- ===== src/Tools/Fs/Offset.antt =====
-- From an offset in a file to the number of its block.
use native.Mathlib.Nat.{
  div-div-eq-div-mul, add-mul-div_right, mod-eq-sub-div-mul, mul_comm, mul_assoc, div-mul-le_self,
  mod-lt, div-lt_iff_lt-mul,
}
use native.Mathlib.Decide.{dec_lt}
use mathlib.Core.Path.{subst}
use rathal_os.Prelude.{
  ℕ, ◌+◌, ◌-◌, ◌*◌, ◌/◌, ◌%◌, ◌^◌, ◌<◌, ◌≤◌, ◌≡◌, ◌≢◌, refl, arith, Option, Bool, none, some, ◌>>=◌,
  ℤ, pos, minus_one, if◌then◌else◌, leb, ltb, ◌&&◌, ◌==◌, ◌||◌, ap, ap₂, ◌∙◌, sym, true, false,
}
use rathal_os.Memory.{Memory, load16}
use rathal_os.Common.Inode.{direct_ptr, indirect_ptr}
use rathal_os.Tools.Image.{File, fread, fseek}
use rathal_os.Tools.Image.Access.{fread-at}
use rathal_os.Tools.Blocks.{block_offset, block_read}
use rathal_os.Tools.Fs.{data_block, indirect_to_block, fs_offset_to_block}

-- Block `q` of a file, for blocks with `w` pointers: a direct pointer, or entry `(q - 4) % w` of the
-- indirect block `(q - 4) / w`.
abbrev pub nth_block : ℕ → ℕ → ℕ → File → Memory → ℕ → ℕ → ℕ
nth_block bs w datablocks_start f m inode q =
    if ltb q 4
    then direct_ptr m inode q
    else load16 f.content (
        block_offset bs (data_block datablocks_start (pos (indirect_ptr m inode ((q - 4) / w))))
        + 2 * ((q - 4) % w))

-- The image holds the data block with the given number.
abbrev pub Holds : ℕ → ℕ → File → ℕ → Type 0
Holds bs datablocks_start f block =
    (data_block datablocks_start (pos block) ≢ 0)
    × (block_offset bs (data_block datablocks_start (pos block)) + bs ≤ f.size)

-- The quotients and remainders by a block and by the blocks of an indirect block.
indirect_index : (bs w d : ℕ) → d / (w * bs) ≡ d / bs / w
indirect_index bs w d = ap (λ (k : ℕ). d / k) (mul_comm w bs) ∙ sym (div-div-eq-div-mul d bs w)

entry_index : (bs w d : ℕ) → 0 < bs → (d - d / (w * bs) * (w * bs)) / bs ≡ d / bs % w
entry_index bs w d hb =
    let idx = d / (w * bs) in
    let below = div-mul-le_self d (w * bs) in
    let assoc = mul_assoc idx w bs in
    let whole : d - idx * (w * bs) + idx * w * bs ≡ d = omega (arith, below, assoc) in
    let quotient = add-mul-div_right (d - idx * (w * bs)) (idx * w) {z = bs} hb in
    let same : idx * w ≡ d / bs / w * w = ap (λ (k : ℕ). k * w) (indirect_index bs w d) in
    let total = ap (λ (k : ℕ). k / bs) whole in
    omega (arith, quotient, total, same, mod-eq-sub-div-mul (d / bs) w)

block_index : (bs o : ℕ) → 0 < bs → 4 * bs ≤ o → o / bs ≡ (o - 4 * bs) / bs + 4
block_index bs o hb le =
    ap (λ (k : ℕ). k / bs) {x = o} {y = o - 4 * bs + 4 * bs} (omega arith)
    ∙ add-mul-div_right (o - 4 * bs) 4 {z = bs} hb

mul-le : (a x y : ℕ) → x ≤ y → a * x ≤ a * y
mul-le a x y le = grind arith

half : (bs w : ℕ) → bs ≡ 2 * w → bs / 2 ≡ w
half bs w e = omega arith

-- The pointer read from an indirect block.
entry_read :
    (bs start local k : ℕ) (f : File) (m : Memory)
    → 2 * k + 1 < bs
    → start + bs ≤ f.size
    → load16 (fread (fseek start f) local bs m) (local + 2 * k) ≡ load16 f.content (start + 2 * k)
entry_read bs start local k f m fits holds =
    ap₂ (λ (x y : ℕ). x + 256 * y) (byte (2 * k) (omega arith))
      (ap (fread (fseek start f) local bs m) {x = local + 2 * k + 1} {y = local + (2 * k + 1)}
          (omega arith)
        ∙ byte (2 * k + 1) (omega arith)
        ∙ ap f.content {x = start + (2 * k + 1)} {y = start + 2 * k + 1} (omega arith))
  where
    byte : (j : ℕ) → j < bs → fread (fseek start f) local bs m (local + j) ≡ f.content (start + j)
    byte j lt =
        fread-at f start local bs (local + j) m holds
        ∙ inside j lt (f.content _) (m (local + j))
        ∙ ap f.content {x = start + (local + j - local)} {y = start + j} (omega arith)
      where
        inside :
            (j : ℕ)
            → j < bs
            → (x y : ℕ)
            → (if leb local (local + j) && ltb (local + j) (local + bs) then x else y) ≡ x
        inside j lt x y = ground arith

-- A block that can be read.
pub block_read_lem :
    (bs block dest : ℕ) (f : File) (m : Memory)
    → bs ≢ 0
    → block ≢ 0
    → block_read bs block dest f m ≡ some (fread (fseek (block_offset bs block) f) dest bs m)
unfolding block_read
block_read_lem bs block dest f m hb hk =
    let test : (bs == 0 || block == 0) ≡ false = ground arith in rw (block_read, test) refl

-- Where the pointers cover less than 2 ^ 32 bytes, the products do not wrap.
module _ (bs w : ℕ) (even : bs ≡ 2 * w) (hw : 0 < w) (small : 4 * bs + 9 * w * bs < 2 ^ 32) where
  span_whole : bs / 2 * bs % 2 ^ 32 ≡ w * bs
  span_whole =
      let fits : w * bs < 2 ^ 32 = omega (arith, small, mul_assoc 9 w bs) in
      let whole : w * bs % 2 ^ 32 ≡ w * bs = omega (arith, fits) in
      ap (λ (v : ℕ). v * bs % 2 ^ 32) (half bs w even) ∙ whole

  span_positive : (w * bs == 0) ≡ false
  span_positive = let large : w * 1 ≤ w * bs = mul-le w 1 bs (omega arith) in ground (arith, large)

  direct_whole : 4 * bs % 2 ^ 32 ≡ 4 * bs
  direct_whole = omega (arith, small)

  end_whole : (4 * bs + 9 * (bs / 2) * bs) % 2 ^ 32 ≡ 4 * bs + 9 * w * bs
  end_whole =
      let whole : (4 * bs + 9 * w * bs) % 2 ^ 32 ≡ 4 * bs + 9 * w * bs = omega (arith, small) in
      ap (λ (v : ℕ). (4 * bs + 9 * v * bs) % 2 ^ 32) (half bs w even) ∙ whole

  indirect_to_block_lem :
      (datablocks_start local d : ℕ) (f : File) (m : Memory) (inode : ℕ)
      → Holds bs datablocks_start f (indirect_ptr m inode (d / bs / w))
      → indirect_to_block bs datablocks_start local d f m inode
        ≡ some (
            pos (
              load16 f.content (
                block_offset bs
                  (data_block datablocks_start (pos (indirect_ptr m inode (d / bs / w))))
                + 2 * (d / bs % w))))
  unfolding indirect_to_block
  indirect_to_block_lem datablocks_start local d f m inode holds =
      let lt = mod-lt (d / bs) {m = w} hw in
      let block = data_block datablocks_start (pos (indirect_ptr m inode (d / bs / w))) in
      let read : ℕ → ℕ → Option ℤ = λ i k.
        block_read bs (data_block datablocks_start (pos (indirect_ptr m inode i))) local f m
        >>= λ buf. some (pos (load16 buf (local + 2 * k))) in
      ap (λ (span : ℕ). if span == 0 then none else read (d / span) ((d - d / span * span) / bs))
        span_whole
      ∙ ap
          (λ (b : Bool).
            if b then none else read (d / (w * bs)) ((d - d / (w * bs) * (w * bs)) / bs))
          span_positive
      ∙ ap₂ read (indirect_index bs w d) (entry_index bs w d (omega arith))
      ∙ ap (λ (r : Option Memory). r >>= λ buf. some (pos (load16 buf (local + 2 * (d / bs % w)))))
          (block_read_lem bs block local f m (λ e. omega arith) holds.0)
      ∙ ap (λ (k : ℕ). some (pos k))
          (entry_read bs (block_offset bs block) local (d / bs % w) f m (omega (arith, lt)) holds.1)

-- `fs_offset_to_block` gives for an offset the block of the file that holds it, through direct and
-- indirect pointers; it gives -1 for an offset beyond the end of what the pointers cover. At that end
-- itself it reads a pointer behind the nine indirect ones. The block size is even, the pointers cover less
-- than 2 ^ 32 bytes, and for an offset behind the direct blocks and not beyond the end the image holds the
-- indirect block that is read.
pub fs_offset_to_block_lem :
    (bs w datablocks_start local o : ℕ) (f : File) (m : Memory) (inode : ℕ)
    → bs ≡ 2 * w
    → 0 < w
    → 4 * bs + 9 * w * bs < 2 ^ 32
    → (4 * bs ≤ o
        → o ≤ 4 * bs + 9 * w * bs
        → Holds bs datablocks_start f (indirect_ptr m inode ((o / bs - 4) / w)))
    → fs_offset_to_block bs datablocks_start local o f m inode ≡ (
        if ltb (4 * bs + 9 * w * bs) o
        then some minus_one
        else some (pos (nth_block bs w datablocks_start f m inode (o / bs))))
unfolding fs_offset_to_block
fs_offset_to_block_lem bs w datablocks_start local o f m inode even hw small holds =
    let direct_eq = direct_whole bs w even hw small in
    let end_eq = end_whole bs w even hw small in
    elim (dec_lt o (4 * bs)) [
      | yes low ↦
          let q = div-lt_iff_lt-mul {k = bs} {x = o} {y = 4} (omega arith) in
          let below : o / bs < 4 = q.1 low in
          let test : ltb o (4 * bs) ≡ true = ground arith in
          let test2 : ltb (4 * bs + 9 * w * bs) o ≡ false = ground arith in
          let test3 : ltb (o / bs) 4 ≡ true = ground (arith, below) in
          rw (fs_offset_to_block, direct_eq, test, test2, test3) refl
      | no high ↦ elim (dec_lt (4 * bs + 9 * w * bs) o) [
        | yes beyond ↦
            let test : ltb o (4 * bs) ≡ false = ground arith in
            let test2 : ltb (4 * bs + 9 * w * bs) o ≡ true = ground arith in
            rw (fs_offset_to_block, direct_eq, end_eq, test, test2) refl
        | no inside ↦
            let index : o / bs - 4 ≡ (o - 4 * bs) / bs =
              omega (arith, block_index bs o (omega arith) (omega arith)) in
            let test : ltb o (4 * bs) ≡ false = ground arith in
            let test2 : ltb (4 * bs + 9 * w * bs) o ≡ false = ground arith in
            let test3 : ltb (o / bs) 4 ≡ false =
              ground (arith, block_index bs o (omega arith) (omega arith)) in
            let read =
              indirect_to_block_lem bs w even hw small datablocks_start local (o - 4 * bs) f m inode
                (subst (λ (q : ℕ). Holds bs datablocks_start f (indirect_ptr m inode (q / w))) index
                  (holds (omega arith) (omega arith))) in
            let same =
              ap
                (λ (q : ℕ). some (
                  pos (
                    load16 f.content (
                      block_offset bs
                        (data_block datablocks_start (pos (indirect_ptr m inode (q / w))))
                      + 2 * (q % w)))))
                (sym index) in
            rw (fs_offset_to_block, direct_eq, end_eq, test, test2, test3) (read ∙ same)
      ]
    ]
