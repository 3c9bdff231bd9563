-- ===== src/Tools/Add/Fill.antt =====
-- Which bytes of a file the loop over pointers puts where.
use native.Mathlib.Decide.{ℕ_discrete}
use rathal_os.Prelude.{
  ℕ, zero, suc, ◌+◌, ◌-◌, ◌*◌, ◌<◌, ◌≤◌, ◌≡◌, refl, arith, Option, some, ◌>>=◌, if◌then◌else◌, ◌==◌,
  ◌||◌, Bool, ℤ, pos, ap, ap₂, ◌∙◌, true, false,
}
use rathal_os.Memory.{store16}
use rathal_os.Common.Bitmap.{Bitmap}
use rathal_os.Tools.Fs.Content.{Apart}
use rathal_os.Tools.Add.{Copying, pointer, alloc_block_and_copy, fill_pointers}
use rathal_os.Tools.Add.Ready.{IsImage, IsReady}
use rathal_os.Tools.Add.Chunk.{alloc_block_and_copy-Added}
use rathal_os.Tools.Add.Filled.{
  Filled, Filled-already, stored_pointer, stored_pointer-IsReady, Filled-next,
}

-- The counters from one round to the next.
free_positive : (bs left free : ℕ) → 0 < left → left ≤ bs * free → 0 < free
free_positive bs left zero h le = absurd (omega arith)
free_positive bs left (suc free) h le = omega arith

enough_blocks :
    (bs left free free' : ℕ) → free' + 1 ≡ free → left ≤ bs * free → left - bs ≤ bs * free'
enough_blocks bs left free free' e le =
    let grown : bs * free ≡ bs * free' + bs =
      ap (λ (x : ℕ). bs * x) {x = free} {y = suc free'} (omega (arith, e)) ∙ omega arith in
    omega (arith, le, grown)

fewer : (bs left pointers : ℕ) → left ≤ bs * suc pointers → left - bs ≤ bs * pointers
fewer bs left pointers le =
    let e : bs * suc pointers ≡ bs * pointers + bs = omega arith in omega (arith, le, e)

-- The two branches of the loop.
fill_stop :
    (bs datablocks_start buf : ℕ) (b : Bitmap) (p left : ℕ) (c : Copying)
    → c.data_left ≡ 0
    → fill_pointers bs datablocks_start buf b p (suc left) c ≡ some c
unfolding fill_pointers
fill_stop bs datablocks_start buf b p left c e =
    ap
      (λ (t : Bool).
        if t
        then some c
        else alloc_block_and_copy bs datablocks_start buf b c >>= λ (c', blk).
            fill_pointers bs datablocks_start buf b (p + 2) left
              (record c' { memory = store16 c'.memory p (pointer blk) }))
      (stops c.free_datablocks c.data_left e)
  where
    stops : (x y : ℕ) → y ≡ 0 → (x == 0 || y == 0) ≡ true
    stops x y e = ground (arith, e)

fill_go :
    (bs datablocks_start buf : ℕ) (b : Bitmap) (p left : ℕ) (c c1 : Copying) (k : ℕ)
    → 0 < c.data_left
    → 0 < c.free_datablocks
    → alloc_block_and_copy bs datablocks_start buf b c ≡ some (c1, pos k)
    → fill_pointers bs datablocks_start buf b p (suc left) c
      ≡ fill_pointers bs datablocks_start buf b
          (p + 2)
          left
          (record c1 { memory = store16 c1.memory p (pointer (pos k)) })
unfolding fill_pointers
fill_go bs datablocks_start buf b p left c c1 k some_left some_free e =
    ap₂
      (λ (t : Bool) (x : Option (Copying × ℤ)).
        if t
        then some c
        else x >>= λ (c', blk).
            fill_pointers bs datablocks_start buf b (p + 2) left
              (record c' { memory = store16 c'.memory p (pointer blk) }))
      (goes c.free_datablocks c.data_left some_free some_left) e
  where
    goes : (x y : ℕ) → 0 < x → 0 < y → (x == 0 || y == 0) ≡ false
    goes x y hx hy = ground arith

-- With pointers and free blocks enough for what is left, the loop over pointers returns, having put all of
-- it in data blocks: byte `o` is byte `o % bs` of the block that word `o / bs` names. Blocks whose bits were
-- set keep bit and bytes, what stands before the data blocks keeps its bytes, and memory outside the bitmap,
-- the buffer and the words is as before. The image is below 4 GiB, its bitmap is valid for at most 65536
-- blocks, and bitmap, buffer and words are apart.
pub fill_pointers-Filled :
    (bs datablocks_start buf : ℕ) (b : Bitmap) (p left : ℕ) (c : Copying)
    → IsImage bs datablocks_start buf b
    → Apart b.bits b.size p (2 * left)
    → Apart buf bs p (2 * left)
    → IsReady b c
    → c.data_left ≤ bs * left
    → c.data_left ≤ bs * c.free_datablocks
    → (c' : Copying) × (fill_pointers bs datablocks_start buf b p left c ≡ some c')
      × Filled bs datablocks_start buf b p left c c'
unfolding fill_pointers
fill_pointers-Filled bs datablocks_start buf b p zero c i words_bits words_buffer r fits free =
    (c, refl, Filled-already bs datablocks_start buf b p zero c (omega arith))
fill_pointers-Filled bs datablocks_start buf b p (suc left) c i words_bits words_buffer r fits
      free =
    elim (ℕ_discrete c.data_left 0) [
      | yes e ↦ (
        c,
        fill_stop bs datablocks_start buf b p left c e,
        Filled-already bs datablocks_start buf b p (suc left) c e,
      )
      | no ne ↦
          let some_free : 0 < c.free_datablocks =
            free_positive bs c.data_left c.free_datablocks (omega (arith, ne)) free in
          let (k, c1, runs, added, ready, count, moved) =
            alloc_block_and_copy-Added bs datablocks_start buf b c i r (omega (arith, ne))
              some_free in
          let c2 =
            stored_pointer bs datablocks_start buf b p left c i words_bits words_buffer k c1 added
              ready moved in
          let (c', rest, filled) =
            fill_pointers-Filled bs datablocks_start buf b (p + 2) left c2 i
              (omega (arith, words_bits)) (omega (arith, words_buffer))
              (stored_pointer-IsReady bs datablocks_start buf b p left c i words_bits words_buffer k
                c1 added ready moved)
              (omega (arith, added.left, fewer bs c.data_left left fits))
              (omega (
                arith,
                added.left,
                enough_blocks bs c.data_left c.free_datablocks c1.free_datablocks count free,
              )) in
          (
            c',
            fill_go bs datablocks_start buf b p left c c1 k (omega (arith, ne)) some_free runs
                ∙ rest,
            Filled-next bs datablocks_start buf b p left c i words_bits words_buffer k c1 added
                ready moved c' filled,
          )
    ]
