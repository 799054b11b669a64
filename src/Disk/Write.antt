-- ===== src/Disk/Write.antt =====
-- disk_write, which run.c, run_blocksize.c, run_multithreaded.c and part_4_lseek_run.c of final_project
-- share, for a user whom the file's mode binds.
use nyu_operating_systems.Base.{
  ℕ, zero, suc, ◌+◌, ◌/◌, ◌%◌, ◌==◌, ◌&&◌, not, Bool, Option, none, some, [], ◌++◌, length,
  if◌then◌else◌, set,
}
use nyu_operating_systems.Disk.Blocks.{File, take, drop}

-- A file in its directory, and whether its owner may read it and write it.
pub record DirEntry : Type 0 where
  pub bytes : File
  pub readable : Bool
  pub writable : Bool

-- The owner's write bit, 0200, of a mode.
abbrev pub owner_writes : ℕ → Bool
owner_writes mode = mode / 128 % 2 == 1

-- The owner's read bit, 0400, of a mode.
abbrev pub owner_reads : ℕ → Bool
owner_reads mode = mode / 256 % 2 == 1

-- open(filename, O_RDONLY): the bytes of the open file, or none where open fails.
abbrev pub open_read : Option DirEntry → Option File
open_read none = none
open_read (some e) = if e.readable then some e.bytes else none

-- open(filename, O_WRONLY|O_CREAT, 777): the open file, or none where open fails. A new file is open
-- for writing whatever its mode.
unfoldable pub open_write : ℕ → Option DirEntry → Option DirEntry
open_write umask none = some (record {
  bytes = [];
  readable = owner_reads 777 && not (owner_reads umask);
  writable = owner_writes 777 && not (owner_writes umask);
})
open_write umask (some e) = if e.writable then some e else none

-- 't'
abbrev pub write_letter : ℕ
write_letter = 116

-- The inner loop, with j of `left + j` bytes set.
abbrev pub fill_letter : ℕ → ℕ → File → File
fill_letter zero j buf = buf
fill_letter (suc left) j buf = fill_letter left (suc j) (set buf j write_letter)

-- write at a position.
abbrev pub write_at : ℕ → File → File → File
write_at position buf bytes = take position bytes ++ buf ++ drop (position + length buf) bytes

-- The outer loop, with `left` blocks to write.
unfoldable pub write_loop : ℕ → ℕ → ℕ → File → File → File
write_loop block_size zero position buf bytes = bytes
write_loop block_size (suc left) position buf bytes =
    let filled = fill_letter block_size 0 buf in
    write_loop block_size left (position + block_size) filled (write_at position filled bytes)

-- The blocks go into the open file; where open failed, each write fails and the entry stays.
unfoldable pub write_blocks : Option DirEntry → Option DirEntry → File → ℕ → ℕ → Option DirEntry
unfolding write_loop
write_blocks old none buf block_size block_count = old
write_blocks old (some open_file) buf block_size block_count =
    some (record open_file { bytes = write_loop block_size block_count 0 buf open_file.bytes })

-- The directory's entry after disk_write, which does not look at what open returns; `buf` is what
-- the stack holds. A disk that is full is left aside.
unfoldable pub disk_write : ℕ → Option DirEntry → File → ℕ → ℕ → Option DirEntry
unfolding open_write write_blocks
disk_write umask old buf block_size block_count =
    write_blocks old (open_write umask old) buf block_size block_count
