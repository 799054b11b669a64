-- ===== src/Disk/Threads.antt =====
-- final_project/run_multithreaded.c: thread_read, and disk_read's threads in any order.
use Prim.Native.Nat.{bit_xor}
use nyu_operating_systems.Base.{
  ℕ, zero, suc, ◌+◌, ◌-◌, ◌*◌, ◌/◌, ◌%◌, ◌^◌, ◌<◌, ◌≤◌, ◌≡◌, refl, arith, ltb, leb, Bool, true,
  false, Option, none, some, List, [], ◌∷◌, if◌then◌else◌, modify,
}
use nyu_operating_systems.Disk.Blocks.{File, take, drop, fill, add_block}

-- pread: none where the offset, as a signed off_t, is negative; else the bytes from it on.
abbrev pub pread : File → ℕ → ℕ → Option File
pread file count offset = if leb (2 ^ 63) offset then none else some (take count (drop offset file))

-- An int, as its 32 bits, as an unsigned long: sign-extended to 64.
abbrev pub extended : ℕ → ℕ
extended p = if ltb p (2 ^ 31) then p else p + (2 ^ 64 - 2 ^ 32)

-- The product of two ints as an unsigned long.
abbrev pub int_product : ℕ → ℕ → ℕ
int_product a b = extended (a * b % 2 ^ 32)

-- thread_arg and the locals of thread_read; count is the bits of an int, and `running` is false at
-- pthread_exit.
pub record Thread : Type 0 where
  pub buf : File
  pub xor : ℕ
  pub offset : ℕ
  pub count : ℕ
  pub running : Bool

-- disk_read's block_size for the threads: whole words.
abbrev pub whole_words : ℕ → ℕ
whole_words block_size = block_size / 4 * 4

-- count++ on an int, whose overflow wraps around.
abbrev pub next_count : ℕ → ℕ
next_count count = (count + 1) % 2 ^ 32

-- The offset at a value of count, in unsigned long.
abbrev pub next_offset : ℕ → ℕ → ℕ → ℕ → ℕ
next_offset num_threads thread_num block_size count =
    (num_threads * extended count + thread_num) * block_size % 2 ^ 64

-- A round of thread_read's loop, from the result of pread.
unfoldable pub take_block : ℕ → ℕ → ℕ → Option File → Thread → Thread
unfolding add_block
take_block num_threads thread_num block_size none t = record t { running = false }
take_block num_threads thread_num block_size (some []) t = record t { running = false }
take_block num_threads thread_num block_size (some (x ∷ xs)) t = record t {
  buf = fill (x ∷ xs) t.buf;
  xor = add_block (x ∷ xs) t.buf t.xor;
  count = next_count t.count;
  offset = next_offset num_threads thread_num block_size (next_count t.count);
}

unfoldable pub thread_step : File → ℕ → ℕ → ℕ → Thread → Thread
unfolding take_block
thread_step file num_threads block_size thread_num t =
    if t.running
    then take_block num_threads thread_num block_size (pread file block_size t.offset) t
    else t

-- disk_read before the threads run; `fresh i` is what malloc gives thread i.
abbrev pub new_thread : (ℕ → File) → ℕ → ℕ → Thread
new_thread fresh block_size i = record {
  buf = fresh i;
  xor = 0;
  offset = int_product i block_size;
  count = 0;
  running = true;
}

abbrev pub new_threads : (ℕ → File) → ℕ → ℕ → ℕ → List Thread
new_threads fresh block_size i zero = []
new_threads fresh block_size i (suc n) =
    new_thread fresh block_size i ∷ new_threads fresh block_size (suc i) n

-- The turns of the machine's scheduler, each a round of the loop of the thread it names.
unfoldable pub run_threads : File → ℕ → ℕ → List ℕ → List Thread → List Thread
unfolding thread_step
run_threads file num_threads block_size [] ts = ts
run_threads file num_threads block_size (i ∷ schedule) ts =
    run_threads file num_threads block_size schedule
      (modify ts i (thread_step file num_threads block_size i))

-- disk_read's loop of pthread_join.
abbrev pub join_xor : List Thread → ℕ → ℕ
join_xor [] xor = xor
join_xor (t ∷ ts) xor = join_xor ts (bit_xor xor t.xor)

-- disk_read up to the joins, its threads in the order of the schedule; block_size is whole_words of
-- the argument.
unfoldable pub disk_read : File → (ℕ → File) → ℕ → ℕ → List ℕ → List Thread
unfolding run_threads
disk_read file fresh num_threads block_size schedule =
    run_threads file num_threads (whole_words block_size) schedule
      (new_threads fresh (whole_words block_size) 0 num_threads)

-- A thread whose number times the block size, below 2 ^ 32, is negative as an int ends in its
-- first turn: its pread fails, and none of its blocks is read.
pub thread_step-negative :
    (file : File) (fresh : ℕ → File) (num_threads block_size i : ℕ)
    → 2 ^ 31 ≤ i * block_size
    → i * block_size < 2 ^ 32
    → thread_step file num_threads block_size i (new_thread fresh block_size i)
      ≡ record (new_thread fresh block_size i) { running = false }
unfolding thread_step take_block
thread_step-negative file fresh num_threads block_size i big small =
    let product : i * block_size % 2 ^ 32 ≡ i * block_size = omega arith in
    let none_read : pread file block_size (int_product i block_size) ≡ none = ground arith in
    rw none_read refl
