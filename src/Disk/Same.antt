-- ===== src/Disk/Same.antt =====
-- The threads of final_project/run_multithreaded.c together read what one reader reads.
use Prim.Native.Nat.{bit_xor}
use nyu_operating_systems.Base.{
  occurs, ℕ, zero, suc, ◌+◌, ◌*◌, ◌/◌, ◌<◌, ◌≤◌, ◌≡◌, arith, sym, ◌∙◌, ap, ◌^◌, some, List, length,
  get_elem?, mul-le-mul_right,
}
use native.Mathlib.Nat.{le_trans}
use nyu_operating_systems.Disk.Bits.{bit_xor-IsSum, zero-bit_xor, bit_xor-zero, bit_xor_assoc}
use nyu_operating_systems.Disk.Blocks.{
  File, take, drop, xor-split, length-take, length-drop, drop-drop,
}
use nyu_operating_systems.Disk.Whole.{file_xor, empty-file_xor}
use nyu_operating_systems.Disk.Threads.{
  Thread, whole_words, new_thread, new_threads, run_threads, join_xor, disk_read,
}
use nyu_operating_systems.Disk.Shares.{
  xor_below, block_xor, nth_block, share, turns-le, InStep-ends, new_thread-InStep,
}
use nyu_operating_systems.Base.Sums.{below-columns, below-more}
use nyu_operating_systems.Disk.Schedule.{
  length-run_threads, length-new_threads, get_elem?-new_threads, run_threads-InStep, join_xor-below,
}

-- The first n blocks and what is after them are the file.
blocks-file :
    (words n : ℕ) (xs : File)
    → bit_xor
        (xor_below n (λ b. file_xor (take (words * 4) (drop (b * (words * 4)) xs))))
        (file_xor (drop (n * (words * 4)) xs))
      ≡ file_xor xs
blocks-file words zero xs =
    let none : 0 * (words * 4) ≡ 0 = omega arith in rw none (zero-bit_xor (file_xor xs))
blocks-file words (suc n) xs =
    let block_size = words * 4 in
    let rest = drop (n * block_size) xs in
    let before = xor_below n (λ b. file_xor (take block_size (drop (b * block_size) xs))) in
    let next : suc n * block_size ≡ n * block_size + block_size = grind arith in
    ap (λ z. bit_xor (bit_xor before (file_xor (take block_size rest))) (file_xor (drop z xs))) next
    ∙ ap (λ z. bit_xor (bit_xor before (file_xor (take block_size rest))) (file_xor z))
        (sym (drop-drop block_size (n * block_size) xs))
    ∙ bit_xor_assoc before (file_xor (take block_size rest)) (file_xor (drop block_size rest))
    ∙ ap (bit_xor before) (xor-split words rest)
    ∙ blocks-file words n xs

module _ (file : File) (num_threads block_size : ℕ) (positive : 0 < block_size)
    (some_thread : 0 < num_threads) (room : length file + num_threads * block_size ≤ 2 ^ 63)
    (few : length file ≤ 2147483647 * (num_threads * block_size)) where
  -- Blocks past the end of the file are empty.
  block_xor-past :
      (b : ℕ) → length file ≤ b * block_size → block_xor file num_threads block_size b ≡ 0
  block_xor-past b past = empty-file_xor (take block_size (drop (b * block_size) file)) (
      omega (
        arith,
        length-take block_size (drop (b * block_size) file),
        length-drop (b * block_size) file,
      ))

  nth_block-le :
      (i n b : ℕ)
      → n ≤ b
      → nth_block file num_threads block_size i n ≤ nth_block file num_threads block_size i b
  nth_block-le i n b h =
      let more : n * num_threads ≤ b * num_threads = mul-le-mul_right num_threads h in grind arith

  share-past :
      (i n k : ℕ)
      → length file ≤ nth_block file num_threads block_size i n * block_size
      → share file num_threads block_size i (k + n) ≡ share file num_threads block_size i n
  share-past i n k past =
      below-more bit_xor bit_xor-IsSum n k
        (λ c. block_xor file num_threads block_size (nth_block file num_threads block_size i c))
        (λ b h.
          block_xor-past (nth_block file num_threads block_size i b)
            (le_trans past (mul-le-mul_right block_size (nth_block-le i n b h))))

  share_complete :
      (i n : ℕ)
      → length file ≤ nth_block file num_threads block_size i n * block_size
      → share file num_threads block_size i n ≡ share file num_threads block_size i (length file)
  share_complete i n past =
      let swap : length file + n ≡ n + length file = omega arith in
      sym (share-past i n (length file) past)
      ∙ ap (share file num_threads block_size i) swap
      ∙ share-past i (length file) n
          (turns-le file num_threads block_size positive some_thread room few i (length file))

  -- All shares together are all blocks.
  shares-blocks :
      xor_below num_threads (λ i. share file num_threads block_size i (length file))
      ≡ xor_below (length file * num_threads) (block_xor file num_threads block_size)
  shares-blocks =
      below-columns bit_xor bit_xor-IsSum num_threads (length file)
        (block_xor file num_threads block_size)

  run_threads-share :
      (fresh : ℕ → File) (schedule : List ℕ) (i : ℕ)
      → num_threads * block_size < 2 ^ 31
      → i < num_threads
      → length file < occurs i schedule
      → (t : Thread) × (get_elem?
            (run_threads file num_threads block_size schedule
              (new_threads fresh block_size 0 num_threads))
            i
          ≡ some t)
        × (t.xor ≡ share file num_threads block_size i (length file))
  run_threads-share fresh schedule i fits below many =
      let small : i * block_size ≤ num_threads * block_size =
        mul-le-mul_right block_size (omega arith) in
      let start = new_threads fresh block_size 0 num_threads in
      let none_before : 0 + i ≡ i = omega arith in
      let (last, at, v) =
        run_threads-InStep file num_threads block_size positive some_thread room few schedule start
          i 0 (new_thread fresh block_size i)
          (get_elem?-new_threads fresh block_size 0 num_threads i below
            ∙ ap (λ k. some (new_thread fresh block_size k)) none_before)
          (new_thread-InStep file num_threads block_size positive some_thread room few fresh i below
            (omega arith)) in
      let (n, xor, past) =
        InStep-ends file num_threads block_size positive some_thread room few i
          (0 + occurs i schedule) last v (omega arith) in
      (last, at, xor ∙ share_complete i n past)

-- Where every thread of run_multithreaded.c has one turn more than the file has bytes, in
-- whatever order their turns come, what disk_read joins is the exclusive or of the words of the
-- file. There is a thread at least, the block size holds a word, the first offsets and the number
-- of blocks that a thread reads fit an int, and the length of the file with a block of each thread
-- fits an off_t.
pub disk_read-file_xor :
    (file : File) (fresh : ℕ → File) (num_threads block_size : ℕ) (schedule : List ℕ)
    → 4 ≤ block_size
    → 0 < num_threads
    → num_threads * block_size < 2 ^ 31
    → length file + num_threads * block_size ≤ 2 ^ 63
    → length file ≤ 2147483647 * (num_threads * whole_words block_size)
    → ((i : ℕ) → i < num_threads → length file < occurs i schedule)
    → join_xor (disk_read file fresh num_threads block_size schedule) 0 ≡ file_xor file
unfolding disk_read
disk_read-file_xor file fresh num_threads block_size schedule word some_thread fits room few turns =
    let words = block_size / 4 in
    let size = words * 4 in
    let positive : 0 < size = omega arith in
    let small : size * num_threads ≤ block_size * num_threads =
      mul-le-mul_right num_threads (omega arith) in
    let start = new_threads fresh size 0 num_threads in
    let ended = run_threads file num_threads size schedule start in
    let swap : num_threads * size ≤ num_threads * block_size = grind arith in
    let all : length ended ≡ num_threads =
      length-run_threads file num_threads size schedule start
      ∙ length-new_threads fresh size 0 num_threads in
    let n = length file * num_threads in
    let g = share file num_threads size in
    let before = xor_below n (block_xor file num_threads size) in
    let rows : 1 * length file ≤ num_threads * length file =
      mul-le-mul_right {m = 1} {n = num_threads} (length file) (omega arith) in
    let bytes : 1 * n ≤ size * n = mul-le-mul_right {m = 1} {n = size} n (omega arith) in
    let covers : length file ≤ n * size = grind arith in
    join_xor-below ended (λ i. g i (length file)) 0
      (λ i h.
        run_threads-share file num_threads size positive some_thread (omega arith) few fresh
          schedule i (omega arith) (omega arith) (turns i (omega arith)))
    ∙ zero-bit_xor (xor_below (length ended) (λ i. g i (length file)))
    ∙ ap (λ z. xor_below z (λ i. g i (length file))) all
    ∙ shares-blocks file num_threads size positive some_thread (omega arith) few
    ∙ sym (bit_xor-zero before)
    ∙ ap (bit_xor before)
        (sym (empty-file_xor (drop (n * size) file) (omega (arith, length-drop (n * size) file))))
    ∙ blocks-file words n file
