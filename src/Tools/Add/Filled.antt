-- ===== src/Tools/Add/Filled.antt =====
-- One round of the loop over pointers and the rounds behind it.
use native.Mathlib.Nat.{div-eq_of_lt, mod-eq_of_lt, div-eq-sub-div, mod-eq-sub-mod}
use native.Mathlib.Decide.{dec_lt}
use rathal_os.Prelude.{
  ℕ, suc, ◌+◌, ◌-◌, ◌*◌, ◌/◌, ◌%◌, ◌^◌, ◌<◌, ◌≤◌, ◌≡◌, ◌≢◌, refl, arith, if◌then◌else◌, ltb, ◌==◌,
  pos, ap, ap₂, ◌∙◌, sym, true, false, ◌⊎◌, inl, inr,
}
use rathal_os.Memory.{Memory, IsBytes, load16, store16}
use rathal_os.Common.Bitmap.{Bitmap}
use rathal_os.Common.Bitmap.Bits.{bit, bit-same}
use rathal_os.Tools.Fs.Content.{Apart}
use rathal_os.Tools.Add.{Copying, pointer}
use rathal_os.Tools.Add.Address.{address, address-apart, mul-le}
use rathal_os.Tools.Add.Ready.{IsImage, IsReady, IsReady-outside, Added}

-- All bytes that were left are in the blocks that the `left` words from `p` on name, in order; a block whose
-- bit was set keeps its bit and its bytes, and so does what stands before the data blocks; memory outside
-- the bitmap, the buffer and the words is as before.
pub record Filled (bs datablocks_start buf : ℕ) (b : Bitmap) (p left : ℕ) (c c' : Copying)
    : Type 0 where
  pub done : c'.data_left ≡ 0
  pub stored :
      (o : ℕ)
      → o < c.data_left
      → c'.fs.content (address bs datablocks_start (load16 c'.memory (p + 2 * (o / bs))) + o % bs)
        ≡ c.f.content (c.f.position + o)
  pub named :
      (o : ℕ)
      → o < c.data_left
      → (load16 c'.memory (p + 2 * (o / bs)) < b.count)
        × (address bs datablocks_start (load16 c'.memory (p + 2 * (o / bs))) + bs ≤ c'.fs.size)
  pub grows : c.fs.size ≤ c'.fs.size
  pub marked : (j : ℕ) → j < b.count → bit c.memory b j ≡ true → bit c'.memory b j ≡ true
  pub kept :
      (j q : ℕ)
      → j < b.count
      → bit c.memory b j ≡ true
      → q < bs
      → c'.fs.content (address bs datablocks_start j + q)
        ≡ c.fs.content (address bs datablocks_start j + q)
  pub tables : (a : ℕ) → a < bs * datablocks_start → c'.fs.content a ≡ c.fs.content a
  pub others :
      (a : ℕ)
      → (a < b.bits) ⊎ (b.bits + b.size ≤ a)
      → (a < buf) ⊎ (buf + bs ≤ a)
      → (a < p) ⊎ (p + 2 * left ≤ a)
      → c'.memory a ≡ c.memory a

-- Nothing is left.
pub Filled-already :
    (bs datablocks_start buf : ℕ) (b : Bitmap) (p left : ℕ) (c : Copying)
    → c.data_left ≡ 0
    → Filled bs datablocks_start buf b p left c c
Filled-already bs datablocks_start buf b p left c e = record {
  done = e;
  stored = λ o lt. absurd (omega (arith, e, lt));
  named = λ o lt. absurd (omega (arith, e, lt));
  grows = omega arith;
  marked = λ j lt set. set;
  kept = λ j q lt set inside. refl;
  tables = λ a lt. refl;
  others = λ a out_b out_buf out_p. refl;
}

store16-outside : (m : Memory) (p v a : ℕ) → (a < p) ⊎ (p + 2 ≤ a) → store16 m p v a ≡ m a
store16-outside m p v a out = ground arith

store16-IsBytes : (m : Memory) (p v : ℕ) → IsBytes m → IsBytes (store16 m p v)
store16-IsBytes m p v h a = ground (arith, h a)

-- A block number read back from the word at `p`, where the two bytes are still those stored.
word_stored :
    (m m' : Memory) (p k : ℕ)
    → k < 2 ^ 16
    → m' p ≡ store16 m p (pointer (pos k)) p
    → m' (p + 1) ≡ store16 m p (pointer (pos k)) (p + 1)
    → m' p + 256 * m' (p + 1) ≡ k
word_stored m m' p k small e0 e1 =
    let b0 : store16 m p (pointer (pos k)) p ≡ k % 2 ^ 16 % 256 = ground arith in
    let b1 : store16 m p (pointer (pos k)) (p + 1) ≡ k % 2 ^ 16 / 256 % 256 = ground arith in
    omega (arith, e0 ∙ b0, e1 ∙ b1)

next_block :
    (bs o : ℕ) → 0 < bs → bs ≤ o → (o / bs ≡ suc ((o - bs) / bs)) × (o % bs ≡ (o - bs) % bs)
next_block bs o positive le =
    (omega (arith, div-eq-sub-div {m = bs} {n = o} positive le), mod-eq-sub-mod {n = o} {m = bs} le)

-- One round, and the rounds behind it.
module _ (bs datablocks_start buf : ℕ) (b : Bitmap) (p left : ℕ) (c : Copying)
    (i : IsImage bs datablocks_start buf b) (words_bits : Apart b.bits b.size p (2 * suc left))
    (words_buffer : Apart buf bs p (2 * suc left)) (k : ℕ) (c1 : Copying)
    (added : Added bs datablocks_start buf b k c c1) (ready : IsReady b c1)
    (moved : c1.f.position + c1.data_left ≡ c.f.position + c.data_left) where
  abbrev pub stored_pointer : Copying
  stored_pointer = record c1 { memory = store16 c1.memory p (pointer (pos k)) }

  pub stored_pointer-IsReady : IsReady b stored_pointer
  stored_pointer-IsReady =
      IsReady-outside b c1 (store16 c1.memory p (pointer (pos k))) i.valid ready
        (store16-IsBytes c1.memory p (pointer (pos k)) ready.bytes)
        (λ a lo hi. store16-outside c1.memory p (pointer (pos k)) a (omega (arith, words_bits)))

  bit-stored : (j : ℕ) → j < b.count → bit stored_pointer.memory b j ≡ bit c1.memory b j
  bit-stored j lt = bit-same stored_pointer.memory c1.memory b j (
      store16-outside c1.memory p (pointer (pos k)) (b.bits + j / 8)
        (omega (arith, words_bits, i.valid.fits, lt)))

  bit-next :
      (j : ℕ)
      → j < b.count
      → (k ≡ j) ⊎ (bit c.memory b j ≡ true)
      → bit stored_pointer.memory b j ≡ true
  bit-next j lt set = bit-stored j lt ∙ added.marked j lt ∙ known set
    where
      known :
          (k ≡ j) ⊎ (bit c.memory b j ≡ true) → (if k == j then true else bit c.memory b j) ≡ true
      known set = ground arith

  module _ (c' : Copying)
      (f : Filled bs datablocks_start buf b (p + 2) left stored_pointer c') where
    pointer_kept : load16 c'.memory p ≡ k
    pointer_kept =
        word_stored c1.memory c'.memory p k (omega (arith, added.below, i.count))
          (f.others p (omega (arith, words_bits)) (omega (arith, words_buffer)) (omega arith))
          (f.others (p + 1) (omega (arith, words_bits)) (omega (arith, words_buffer)) (omega arith))

    pointer_first : (o : ℕ) → o < bs → load16 c'.memory (p + 2 * (o / bs)) ≡ k
    pointer_first o small =
        ap (load16 c'.memory) {x = p + 2 * (o / bs)} {y = p}
          (omega (arith, div-eq_of_lt {n = o} {m = bs} small))
        ∙ pointer_kept

    pointer_later :
        (o : ℕ)
        → bs ≤ o
        → load16 c'.memory (p + 2 * (o / bs)) ≡ load16 c'.memory (p + 2 + 2 * ((o - bs) / bs))
    pointer_later o large =
        ap (load16 c'.memory) {x = p + 2 * (o / bs)} {y = p + 2 + 2 * ((o - bs) / bs)}
          (omega (arith, (next_block bs o i.positive large).0))

    first_block :
        (o : ℕ)
        → o < bs
        → o < c.data_left
        → c'.fs.content (address bs datablocks_start (load16 c'.memory (p + 2 * (o / bs))) + o % bs)
          ≡ c.f.content (c.f.position + o)
    first_block o small lt =
        ap₂ (λ (n r : ℕ). c'.fs.content (address bs datablocks_start n + r)) (pointer_first o small)
          (mod-eq_of_lt {n = o} {m = bs} small)
        ∙ f.kept k o added.below (bit-next k added.below (inl refl)) small
        ∙ added.chunk o small
        ∙ in_data (c.f.content (c.f.position + o))
      where
        in_data : (x : ℕ) → (if ltb o c.data_left then x else 0) ≡ x
        in_data x = ground arith

    later_block :
        (o : ℕ)
        → bs ≤ o
        → o < c.data_left
        → c'.fs.content (address bs datablocks_start (load16 c'.memory (p + 2 * (o / bs))) + o % bs)
          ≡ c.f.content (c.f.position + o)
    later_block o large lt =
        let next = next_block bs o i.positive large in
        ap₂ (λ (n r : ℕ). c'.fs.content (address bs datablocks_start n + r)) (pointer_later o large)
          next.1
        ∙ f.stored (o - bs) (omega (arith, added.left, lt, large))
        ∙ added.file (c1.f.position + (o - bs))
        ∙ ap c.f.content {x = c1.f.position + (o - bs)} {y = c.f.position + o}
            (omega (arith, added.left, lt, large, moved))

    another : (j : ℕ) → bit c.memory b j ≡ true → k ≢ j
    another j set e = no_bit (sym set ∙ sym (ap (bit c.memory b) e) ∙ added.was_free)
      where
        no_bit : true ≢ false
        no_bit e = ground (arith, e)

    pub Filled-next : Filled bs datablocks_start buf b p (suc left) c c'
    Filled-next = record {
      done = f.done;
      stored = λ o lt. elim (dec_lt o bs) [
        | yes small ↦ first_block o small lt
        | no large ↦ later_block o (omega (arith, large)) lt
      ];
      named = λ o lt. elim (dec_lt o bs) [
        | yes small ↦
            named_by k _ (sym (pointer_first o small)) added.below
              (omega (arith, added.size.1, f.grows))
        | no large ↦
            let there = f.named (o - bs) (omega (arith, added.left, lt, large)) in
            named_by _ _ (sym (pointer_later o (omega (arith, large)))) there.0 there.1
      ];
      grows = omega (arith, added.size.0, f.grows);
      marked = λ j lt set. f.marked j lt (bit-next j lt (inr set));
      kept = λ j q lt set inside.
          f.kept j q lt (bit-next j lt (inr set)) inside
          ∙ added.other_blocks (address bs datablocks_start j + q) (
              omega (
                arith,
                inside,
                address-apart bs datablocks_start j k (λ e. another j set (sym e)),
              ));
      tables = λ a lt.
          f.tables a lt
          ∙ added.other_blocks a (
              inl (
                omega
                  (arith, lt, mul-le bs datablocks_start (datablocks_start + k) (omega arith))));
      others = λ a out_b out_buf out_p.
          f.others a out_b out_buf (omega arith)
          ∙ store16-outside c1.memory p (pointer (pos k)) a (omega arith)
          ∙ added.others a out_b out_buf;
    }
      where
        named_by :
            (j j' : ℕ)
            → j ≡ j'
            → j < b.count
            → address bs datablocks_start j + bs ≤ c'.fs.size
            → (j' < b.count) × (address bs datablocks_start j' + bs ≤ c'.fs.size)
        named_by j j' e lt le = rw (sym e) (lt, le)
