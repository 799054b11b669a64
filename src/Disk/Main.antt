-- ===== src/Disk/Main.antt =====
-- main of the programs of final_project, with the numbers that atoi gives.
use nyu_operating_systems.Base.{
  ℕ, ◌+◌, ◌*◌, ◌/◌, ◌%◌, ◌≡◌, ◌==◌, not, refl, sym, ◌∙◌, ap, Option, none, some, true, false, List,
  [], ◌∷◌, length, if◌then◌else◌, get_or, replicate,
}
use nyu_operating_systems.Disk.Blocks.{File}
use nyu_operating_systems.Disk.Sequential.{fast_read, block_read}
use nyu_operating_systems.Disk.Write.{DirEntry, owner_reads, open_read, disk_write, write_letter}
use nyu_operating_systems.Disk.Letters.{entry_after, disk_write-entry_after, fast_read-letters}

-- The arguments of a run: argc, the characters of argv[2], and what atoi gives of the next ones.
pub record Arguments : Type 0 where
  pub argc : ℕ
  pub flag : List ℕ
  pub block_size : ℕ
  pub block_count : ℕ
  pub num_threads : ℕ

-- `mode`, with what the stack holds where the flag does not set it: usage only prints.
abbrev pub mode_of : ℕ → List ℕ → ℕ
mode_of unset flag = if length flag == 2 then get_or flag 1 0 else unset

-- How often usage is called.
abbrev pub usage_calls : ℕ → Arguments → ℕ
usage_calls wanted a = (if a.argc == wanted then 0 else 1) + (if length a.flag == 2 then 0 else 1)

-- mode == 'r', mode == 'w', neither.
abbrev pub by_mode {ℓ} : {A : Type ℓ} → ℕ → A → A → A → A
by_mode mode reads writes neither =
    if mode == 114 then reads else (if mode == 119 then writes else neither)

-- What a run leaves and prints: the calls of usage, the file, the xor.
pub record Ran : Type 0 where
  pub usages : ℕ
  pub entry : Option DirEntry
  pub printed : Option ℕ

abbrev bytes_read : Option File → File
bytes_read none = []
bytes_read (some bytes) = bytes

-- The file as a reader sees it: one that does not open gives no byte.
abbrev pub bytes_of : Option DirEntry → File
bytes_of file = bytes_read (open_read file)

-- The file and the printed xor after a run in each mode; stack is the buffer of disk_write.
abbrev pub ran_in : ℕ → ℕ → Option ℕ → ℕ → Arguments → File → Option DirEntry → Ran
ran_in umask wanted printed unset a stack old =
    by_mode (mode_of unset a.flag)
      (record { usages = usage_calls wanted a; entry = old; printed = printed })
      (record {
        usages = usage_calls wanted a;
        entry = disk_write umask old stack a.block_size a.block_count;
        printed = none;
      })
      (record { usages = usage_calls wanted a; entry = old; printed = none })

-- run.c and run_multithreaded.c print nothing of what they read.
unfoldable pub main_run : ℕ → ℕ → Arguments → File → Option DirEntry → Ran
main_run umask unset a stack old = ran_in umask 5 none unset a stack old

-- part_4_lseek_run.c seeks and prints nothing.
unfoldable main_seek : ℕ → ℕ → Arguments → File → Option DirEntry → Ran
main_seek umask unset a stack old = ran_in umask 5 none unset a stack old

unfoldable pub main_multithreaded : ℕ → ℕ → Arguments → File → Option DirEntry → Ran
main_multithreaded umask unset a stack old = ran_in umask 6 none unset a stack old

unfoldable pub main_blocksize : ℕ → ℕ → Arguments → File → File → Option DirEntry → Ran
main_blocksize umask unset a buf stack old =
    ran_in umask 5 (block_read a.block_size a.block_count (bytes_of old) buf) unset a stack old

-- fast.c on a file, with what its buffer holds first.
unfoldable pub main_fast : ℕ → File → Option DirEntry → ℕ × Option ℕ
main_fast argc buf old = (if argc == 2 then 0 else 1, fast_read (bytes_of old) buf)

-- run with -w and its other three arguments on a name that has no file, and then fast on it:
-- fast prints the word of four letters where block_size * block_count bytes have an odd number
-- of whole words, else 0, and both print no usage. The umask leaves the owner's read bit, and the
-- buffer of disk_write has block_size bytes.
pub main_fast-main_run :
    (umask unset : ℕ) (a : Arguments) (stack buf : File)
    → a.argc ≡ 5
    → a.flag ≡ 45 ∷ 119 ∷ []
    → length stack ≡ a.block_size
    → owner_reads umask ≡ false
    → ((main_run umask unset a stack none).usages ≡ 0)
      × (main_fast 2 buf (main_run umask unset a stack none).entry
          ≡ (0, some (if a.block_size * a.block_count / 4 % 2 == 1 then 0x74747474 else 0)))
unfolding main_run main_fast
main_fast-main_run umask unset a stack buf five flag size may =
    let written : disk_write umask none stack a.block_size a.block_count
        ≡ some (record {
          bytes = replicate (a.block_size * a.block_count) write_letter;
          readable = true;
          writable = false;
        }) =
      ap (λ n. disk_write umask none stack n a.block_count) (sym size)
      ∙ disk_write-entry_after umask none stack a.block_count
      ∙ ap (λ n. entry_after umask (n * a.block_count) none) size
      ∙ ap
          (λ b. some (record {
            bytes = replicate (a.block_size * a.block_count) write_letter;
            readable = not b;
            writable = false;
          }))
          may in
    (
      rw (five, flag) refl,
      rw (flag, written) (ap (λ o. (0, o)) (fast_read-letters (a.block_size * a.block_count) buf)),
    )
