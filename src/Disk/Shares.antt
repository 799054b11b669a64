-- ===== src/Disk/Shares.antt =====
-- The share of one thread of final_project/run_multithreaded.c.
use Prim.Native.Nat.{bit_xor}
use native.Mathlib.Nat.{mod-eq_of_lt}
use nyu_operating_systems.Base.Sums.{below}
use nyu_operating_systems.Base.{
  ℕ, suc, ◌+◌, ◌*◌, ◌^◌, ◌<◌, ◌≤◌, ◌≡◌, refl, arith, sym, ◌∙◌, ap, subst, true, false, Bool-cases,
  inl, inr, Option, none, some, [], ◌∷◌, length, if◌then◌else◌, some-inj, mul-le-mul_right, ltb,
}
use nyu_operating_systems.Disk.Blocks.{File, take, drop, add_block_lem, length-take, length-drop}
use nyu_operating_systems.Disk.Whole.{file_xor}
use nyu_operating_systems.Disk.Threads.{
  pread, int_product, extended, Thread, next_count, next_offset, take_block, thread_step,
  new_thread,
}

-- f 0 ^ ... ^ f (n - 1)
abbrev pub xor_below : ℕ → (ℕ → ℕ) → ℕ
xor_below n f = below bit_xor n f

module _ (file : File) (num_threads block_size : ℕ) where
  -- The words of block b.
  abbrev pub block_xor : ℕ → ℕ
  block_xor b = file_xor (take block_size (drop (b * block_size) file))

  -- The block that thread i reads as its c-th.
  abbrev pub nth_block : ℕ → ℕ → ℕ
  nth_block i c = num_threads * c + i

  abbrev pub share : ℕ → ℕ → ℕ
  share i n = xor_below n (λ c. block_xor (nth_block i c))

  -- A running thread has read its first `count` blocks, all within the file; one that ended has
  -- read all that are.
  pub record InStep (i : ℕ) (turns : ℕ) (t : Thread) : Type 0 where
    pub going :
        t.running ≡ true
        → (t.count ≡ turns)
          × (t.offset ≡ nth_block i turns * block_size)
          × (t.xor ≡ share i turns)
          × (turns ≤ length file)
          × (t.offset < length file + num_threads * block_size)
    pub over :
        t.running ≡ false
        → (n : ℕ) × (t.xor ≡ share i n) × (length file ≤ nth_block i n * block_size)

  module _ (positive : 0 < block_size) (some_thread : 0 < num_threads)
      (room : length file + num_threads * block_size ≤ 2 ^ 63)
      (few : length file ≤ 2147483647 * (num_threads * block_size)) where
    -- What pread gives at an offset that a running thread can have.
    pread-block :
        (offset : ℕ)
        → offset < length file + num_threads * block_size
        → pread file block_size offset ≡ some (take block_size (drop offset file))
    pread-block offset below = ground arith

    next-offset :
        (i turns : ℕ)
        → nth_block i (suc turns) * block_size
          ≡ nth_block i turns * block_size + num_threads * block_size
    next-offset i turns = grind arith

    pub turns-le : (i turns : ℕ) → turns ≤ nth_block i turns * block_size
    turns-le i turns =
        let a = mul-le-mul_right {m = 1} {n = num_threads} turns (omega arith) in
        let b = mul-le-mul_right {m = 1} {n = block_size} (nth_block i turns) (omega arith) in
        grind arith

    -- A thread that reads within the file has not read 2 ^ 31 - 1 blocks.
    few_turns :
        (i turns offset : ℕ)
        → offset ≡ nth_block i turns * block_size
        → offset < length file
        → turns < 2147483647
    few_turns i turns offset at inside = elim (Bool-cases (ltb turns 2147483647)) [
      | inl early ↦ ground arith
      | inr late ↦
          let more : 2147483647 * (num_threads * block_size) ≤ turns * (num_threads * block_size) =
            mul-le-mul_right (num_threads * block_size) (ground arith) in
          let same : nth_block i turns * block_size
              ≡ turns * (num_threads * block_size) + i * block_size =
            grind arith in
          absurd (omega arith)
    ]

    take_block-InStep :
        (i turns : ℕ) (t : Thread) (got : Option File)
        → t.running ≡ true
        → InStep i turns t
        → pread file block_size t.offset ≡ got
        → InStep i (suc turns) (take_block num_threads i block_size got t)
    unfolding take_block
    take_block-InStep i turns t none on v e =
        let (count, at, xor, few, below) = v.going on in
        let data_read = pread-block t.offset below in absurd (cc)
    take_block-InStep i turns t (some []) on v e =
        let (count, at, xor, few, below) = v.going on in
        let none_read : take block_size (drop t.offset file) ≡ [] =
          some-inj (sym (pread-block t.offset below) ∙ e) in
        let size = ap length none_read in
        record {
          going = λ h. cc;
          over = λ h. (
            turns,
            xor,
            omega (arith, length-take block_size (drop t.offset file), length-drop t.offset file),
          );
        }
    take_block-InStep i turns t (some (x ∷ xs)) on v e =
        let (count, at, xor, few, below) = v.going on in
        let read : take block_size (drop t.offset file) ≡ x ∷ xs =
          some-inj (sym (pread-block t.offset below) ∙ e) in
        let size = ap length read in
        let inside : t.offset < length file =
          omega (arith, length-take block_size (drop t.offset file), length-drop t.offset file) in
        let early : turns < 2147483647 = few_turns i turns t.offset at inside in
        let one_more : next_count t.count ≡ suc turns = ground arith in
        let positive_int : extended (suc turns) ≡ suc turns = ground arith in
        let next = next-offset i turns in
        let now : next_offset num_threads i block_size (next_count t.count)
            ≡ nth_block i (suc turns) * block_size =
          rw (one_more, positive_int) (mod-eq_of_lt (omega arith)) in
        let block : file_xor (x ∷ xs) ≡ block_xor (nth_block i turns) =
          sym (ap file_xor read) ∙ ap (λ o. file_xor (take block_size (drop o file))) at in
        record {
          going = λ h. (
            one_more,
            now,
            add_block_lem (x ∷ xs) t.buf t.xor
                ∙ ap (λ z. bit_xor z (file_xor (x ∷ xs))) xor
                ∙ ap (bit_xor (share i turns)) block,
            omega (arith, turns-le i turns),
            omega arith,
          );
          over = λ h. cc;
        }

    pub thread_step-InStep :
        (i turns : ℕ) (t : Thread)
        → InStep i turns t
        → InStep i (suc turns) (thread_step file num_threads block_size i t)
    unfolding thread_step
    thread_step-InStep i turns t v =
        let read = take_block num_threads i block_size (pread file block_size t.offset) t in
        elim (Bool-cases t.running) [
          | inl on ↦
              subst (λ b. InStep i (suc turns) (if b then read else t)) (sym on)
                (take_block-InStep i turns t (pread file block_size t.offset) on v refl)
          | inr off ↦
              subst (λ b. InStep i (suc turns) (if b then read else t)) (sym off)
                (record { going = λ h. cc; over = v.over })
        ]

    -- A thread ends with all its blocks after length file + 1 turns.
    pub InStep-ends :
        (i turns : ℕ) (t : Thread)
        → InStep i turns t
        → length file < turns
        → (n : ℕ) × (t.xor ≡ share i n) × (length file ≤ nth_block i n * block_size)
    InStep-ends i turns t v many = elim (Bool-cases t.running) [
      | inl on ↦ let (count, at, xor, few, below) = v.going on in absurd (omega arith)
      | inr off ↦ v.over off
    ]

    pub new_thread-InStep :
        (fresh : ℕ → File) (i : ℕ)
        → i < num_threads
        → i * block_size < 2 ^ 31
        → InStep i 0 (new_thread fresh block_size i)
    new_thread-InStep fresh i small fits =
        let within : (i + 1) * block_size ≤ num_threads * block_size =
          mul-le-mul_right block_size (omega arith) in
        let more : (i + 1) * block_size ≡ i * block_size + block_size = grind arith in
        let first : int_product i block_size ≡ i * block_size = ground arith in
        let none_before : nth_block i 0 ≡ i = omega arith in
        record {
          going = λ h. (
            refl,
            first ∙ ap (λ b. b * block_size) (sym none_before),
            refl,
            omega arith,
            omega arith,
          );
          over = λ h. cc;
        }
