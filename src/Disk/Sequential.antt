-- ===== src/Disk/Sequential.antt =====
-- disk_read of final_project/fast.c, run_blocksize.c, run.c and part_4_lseek_run.c: one reader at the
-- file's position. A file is a regular one: read gives all that there is, up to its count.
use nyu_operating_systems.Base.{
  ℕ, zero, suc, ◌+◌, ◌*◌, ◌/◌, ◌==◌, ◌&&◌, not, ltb, Option, none, some, length, if◌then◌else◌,
}
use nyu_operating_systems.Disk.Blocks.{File, take, drop, fill, add_block}

-- block_size of fast.c
abbrev pub fast_block : ℕ
fast_block = 4096

-- The loop of fast.c at the bytes from the position on; the buffer has `size` words. `fuel` bounds
-- the reads.
unfoldable pub fast_loop : ℕ → ℕ → File → File → ℕ → Option ℕ
unfolding add_block
fast_loop size zero rest buf xor = none
fast_loop size (suc fuel) rest buf xor =
    let data_read = take (size * 4) rest in
    let next =
      fast_loop size fuel (drop (size * 4) rest) (fill data_read buf)
        (add_block data_read buf xor) in
    if length data_read == 0 then some xor else next

-- The xor that fast.c prints for a file, with what its buffer holds before the first read. A read
-- that is not the last takes a byte at least.
unfoldable pub fast_read : File → File → Option ℕ
unfolding fast_loop
fast_read file buf = fast_loop (fast_block / 4) (suc (length file)) file buf 0

-- The loop of run_blocksize.c, where `count` blocks have been read.
unfoldable pub block_loop : ℕ → ℕ → ℕ → File → File → ℕ → ℕ → Option ℕ
unfolding add_block
block_loop size block_count zero rest buf xor count = none
block_loop size block_count (suc fuel) rest buf xor count =
    let data_read = take (size * 4) rest in
    let next =
      block_loop size block_count fuel (drop (size * 4) rest) (fill data_read buf)
        (add_block data_read buf xor) (count + 1) in
    if not (length data_read == 0) && ltb count block_count then next else some xor

-- The xor that run_blocksize.c prints.
unfoldable pub block_read : ℕ → ℕ → File → File → Option ℕ
unfolding block_loop
block_read block_size block_count file buf =
    block_loop (block_size / 4) block_count (suc (length file)) file buf 0 0

-- The loop of run.c; what is left to read when it ends.
unfoldable pub skim_loop : ℕ → ℕ → File → Option File
skim_loop block_size zero rest = none
skim_loop block_size (suc fuel) rest =
    let next = skim_loop block_size fuel (drop block_size rest) in
    if length (take block_size rest) == 0 then some rest else next

-- The loop of part_4_lseek_run.c: the position, and `sum`.
unfoldable pub seek_loop : ℕ → ℕ → ℕ → ℕ → ℕ → Option ℕ
seek_loop block_size block_count zero position sum = none
seek_loop block_size block_count (suc fuel) position sum =
    let next = seek_loop block_size block_count fuel (position + block_size) (sum + block_size) in
    if ltb sum (block_count * block_size) then next else some position
