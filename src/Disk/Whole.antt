-- ===== src/Disk/Whole.antt =====
-- What the sequential readers of final_project compute.
use Prim.Native.Nat.{bit_xor}
use nyu_operating_systems.Base.{
  ℕ, zero, suc, ◌+◌, ◌*◌, ◌/◌, ◌<◌, ◌≤◌, ◌≡◌, ◌==◌, refl, arith, sym, ◌∙◌, ap, subst, ltb,
  Bool-cases, lt→ltb, le→ltb, mul-le-mul_right, inl, inr, true, false, some, [], ◌∷◌, length,
}
use native.Mathlib.Nat.{le_refl}
use nyu_operating_systems.Disk.Bits.{zero-bit_xor, bit_xor-zero, bit_xor_assoc}
use nyu_operating_systems.Disk.Blocks.{
  File, take, drop, fill, word_list, add_block, add_block_lem, xor_all, xor-split, length-take,
  length-drop, take-take, drop-take,
}
use nyu_operating_systems.Disk.Sequential.{
  fast_block, fast_loop, fast_read, block_loop, block_read, skim_loop, seek_loop,
}

-- The exclusive or of the words of a file.
abbrev pub file_xor : File → ℕ
file_xor file = xor_all (word_list file)

pub empty-file_xor : (xs : File) → length xs ≡ 0 → xor_all (word_list xs) ≡ 0
empty-file_xor [] e = refl
empty-file_xor (x ∷ xs) e = absurd (omega arith)

-- One block more.
block-xor :
    (k : ℕ) (xs buf : File) (xor : ℕ)
    → bit_xor (add_block (take (k * 4) xs) buf xor) (file_xor (drop (k * 4) xs))
      ≡ bit_xor xor (file_xor xs)
block-xor k xs buf xor =
    ap (λ z. bit_xor z (file_xor (drop (k * 4) xs))) (add_block_lem (take (k * 4) xs) buf xor)
    ∙ bit_xor_assoc xor (file_xor (take (k * 4) xs)) (file_xor (drop (k * 4) xs))
    ∙ ap (bit_xor xor) (xor-split k xs)

fast_loop-xor :
    (size fuel : ℕ) (rest buf : File) (xor : ℕ)
    → 0 < size
    → length rest < fuel
    → fast_loop size fuel rest buf xor ≡ some (bit_xor xor (file_xor rest))
unfolding fast_loop
fast_loop-xor size zero rest buf xor some_words enough = absurd (omega arith)
fast_loop-xor size (suc fuel) rest buf xor some_words enough =
    let data_read = take (size * 4) rest in
    let got = length-take (size * 4) rest in
    elim (Bool-cases (length data_read == 0)) [
      | inl over ↦
          let empty : length rest ≡ 0 = ground arith in
          rw (over, empty-file_xor rest empty, bit_xor-zero xor) refl
      | inr more ↦
          let some_left : 0 < length rest = ground arith in
          let shorter : length (drop (size * 4) rest) < fuel =
            omega (arith, length-drop (size * 4) rest) in
          rw more (
            fast_loop-xor size fuel (drop (size * 4) rest) (fill data_read buf)
              (add_block data_read buf xor) some_words shorter
            ∙ ap some (block-xor size rest buf xor))
    ]

-- fast.c ends on every file, and prints the exclusive or of the file's words, whatever its buffer
-- holds before the first read; up to three bytes after the last word do not count.
pub fast_read-xor : (file buf : File) → fast_read file buf ≡ some (file_xor file)
unfolding fast_read
fast_read-xor file buf =
    fast_loop-xor (fast_block / 4) (suc (length file)) file buf 0 (omega arith) (omega arith)
    ∙ ap some (zero-bit_xor (file_xor file))

-- The first block of some more.
first-xor :
    (size n : ℕ) (xs buf : File) (xor : ℕ)
    → bit_xor (add_block (take (size * 4) xs) buf xor) (file_xor (take n (drop (size * 4) xs)))
      ≡ bit_xor xor (file_xor (take (size * 4 + n) xs))
first-xor size n xs buf xor =
    let more = take (size * 4 + n) xs in
    let here : take (size * 4) more ≡ take (size * 4) xs =
      take-take (size * 4) (size * 4 + n) xs (omega arith) in
    subst
      (λ z.
        bit_xor (add_block z buf xor) (file_xor (take n (drop (size * 4) xs)))
        ≡ bit_xor xor (file_xor more))
      here
      (ap (λ z. bit_xor (add_block (take (size * 4) more) buf xor) (file_xor z))
          (sym (drop-take (size * 4) n xs))
        ∙ block-xor size more buf xor)

block_loop-xor :
    (size block_count left fuel : ℕ) (rest buf : File) (xor count : ℕ)
    → 0 < size
    → length rest < fuel
    → count + left ≡ block_count
    → block_loop size block_count fuel rest buf xor count
      ≡ some (bit_xor xor (file_xor (take (left * (size * 4)) rest)))
unfolding block_loop
block_loop-xor size block_count left zero rest buf xor count some_words enough at =
    absurd (omega arith)
block_loop-xor size block_count zero (suc fuel) rest buf xor count some_words enough at =
    let last : ltb count block_count ≡ false = ground arith in
    let none_left : 0 * (size * 4) ≡ 0 = omega arith in
    elim (Bool-cases (length (take (size * 4) rest) == 0)) [
      | inl over ↦ rw (over, none_left, bit_xor-zero xor) refl
      | inr more ↦ rw (more, last, none_left, bit_xor-zero xor) refl
    ]
block_loop-xor size block_count (suc left) (suc fuel) rest buf xor count some_words enough at =
    let data_read = take (size * 4) rest in
    let got = length-take (size * 4) rest in
    let going : ltb count block_count ≡ true = ground arith in
    elim (Bool-cases (length data_read == 0)) [
      | inl over ↦
          let none_left : length rest ≡ 0 = ground arith in
          let none_taken : length (take (suc left * (size * 4)) rest) ≡ 0 =
            omega (arith, length-take (suc left * (size * 4)) rest) in
          rw (over, empty-file_xor (take (suc left * (size * 4)) rest) none_taken, bit_xor-zero xor)
            refl
      | inr more ↦
          let some_left : 0 < length rest = ground arith in
          let shorter : length (drop (size * 4) rest) < fuel =
            omega (arith, length-drop (size * 4) rest) in
          let next : count + 1 + left ≡ block_count = omega arith in
          let both : size * 4 + left * (size * 4) ≡ suc left * (size * 4) = grind arith in
          rw (more, going)
            (block_loop-xor size block_count left fuel (drop (size * 4) rest) (fill data_read buf)
                (add_block data_read buf xor) (count + 1) some_words shorter next
              ∙ ap some (
                  first-xor size (left * (size * 4)) rest buf xor
                  ∙ ap (λ n. bit_xor xor (file_xor (take n rest))) both))
    ]

-- run_blocksize.c, with a block size of one word at least, prints the exclusive or of the words in
-- the first block_count blocks of the file, or in all of it if it is shorter. A block is the block
-- size without its remainder by four.
pub block_read-xor :
    (block_size block_count : ℕ) (file buf : File)
    → 4 ≤ block_size
    → block_read block_size block_count file buf
      ≡ some (file_xor (take (block_count * (block_size / 4 * 4)) file))
unfolding block_read
block_read-xor block_size block_count file buf one_word =
    block_loop-xor (block_size / 4) block_count block_count (suc (length file)) file buf 0 0
      (omega arith) (omega arith) (omega arith)
    ∙ ap some (zero-bit_xor (file_xor (take (block_count * (block_size / 4 * 4)) file)))

-- run.c, with a positive block size, reads the whole file.
pub skim_loop-all :
    (block_size fuel : ℕ) (rest : File)
    → 0 < block_size
    → length rest < fuel
    → skim_loop block_size fuel rest ≡ some []
unfolding skim_loop
skim_loop-all block_size zero rest positive enough = absurd (omega arith)
skim_loop-all block_size (suc fuel) [] positive enough =
    let over : length (take block_size []) == 0 ≡ true =
      ground (arith, length-take block_size []) in
    rw over refl
skim_loop-all block_size (suc fuel) (x ∷ rest) positive enough =
    let more : length (take block_size (x ∷ rest)) == 0 ≡ false =
      ground (arith, length-take block_size (x ∷ rest)) in
    let shorter : length (drop block_size (x ∷ rest)) < fuel =
      omega (arith, length-drop block_size (x ∷ rest)) in
    rw more (skim_loop-all block_size fuel (drop block_size (x ∷ rest)) positive shorter)

seek_loop-from :
    (block_size block_count left fuel position count : ℕ)
    → 0 < block_size
    → left < fuel
    → count + left ≡ block_count
    → seek_loop block_size block_count fuel position (count * block_size)
      ≡ some (position + left * block_size)
unfolding seek_loop
seek_loop-from block_size block_count left zero position count positive enough at =
    absurd (omega arith)
seek_loop-from block_size block_count zero (suc fuel) position count positive enough at =
    let last : count ≡ block_count = omega arith in
    let over : ltb (count * block_size) (block_count * block_size) ≡ false =
      le→ltb (count * block_size) (block_count * block_size) (rw last (le_refl _)) in
    let same : position ≡ position + 0 * block_size = omega arith in rw over (ap some same)
seek_loop-from block_size block_count (suc left) (suc fuel) position count positive enough at =
    let below : (count + 1) * block_size ≤ block_count * block_size =
      mul-le-mul_right block_size (omega arith) in
    let step : (count + 1) * block_size ≡ count * block_size + block_size = grind arith in
    let more : ltb (count * block_size) (block_count * block_size) ≡ true =
      lt→ltb (count * block_size) (block_count * block_size) (omega arith) in
    let gone : position + block_size + left * block_size ≡ position + suc left * block_size =
      grind arith in
    rw (more, ← step)
      (seek_loop-from block_size block_count left fuel (position + block_size) (count + 1) positive
          (omega arith) (omega arith)
        ∙ ap some gone)

-- part_4_lseek_run.c, with a positive block size, seeks block_count blocks forward and ends.
pub seek_loop-all :
    (block_size block_count position : ℕ)
    → 0 < block_size
    → seek_loop block_size block_count (suc block_count) position 0
      ≡ some (position + block_count * block_size)
seek_loop-all block_size block_count position positive =
    let start : 0 * block_size ≡ 0 = omega arith in
    subst
      (λ z.
        seek_loop block_size block_count (suc block_count) position z
        ≡ some (position + block_count * block_size))
      start
      (seek_loop-from block_size block_count block_count (suc block_count) position 0 positive
        (omega arith) (omega arith))
