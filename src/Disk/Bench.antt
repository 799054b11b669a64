-- ===== src/Disk/Bench.antt =====
-- final_project/benchmark_extra_cred.cpp: what its two benchmarks do in their iterations. Timing, and
-- how many iterations there are, is the benchmark library's.
use nyu_operating_systems.Base.{
  ℕ, zero, suc, ◌+◌, ◌*◌, ◌<◌, ◌≡◌, ◌==◌, refl, arith, ◌∙◌, ap, subst, sym, true, false, not, leb,
  Option, none, some, length, replicate, if◌then◌else◌, on_some, ◌>>=◌,
}
use nyu_operating_systems.Disk.Blocks.{File, take, drop, length-take, length-drop}
use nyu_operating_systems.Disk.Write.{
  DirEntry, owner_reads, open_read, open_write, disk_write, write_letter,
}
use nyu_operating_systems.Disk.Letters.{entry_after, disk_write-entry_after, length-replicate}
use nyu_operating_systems.Disk.Main.{bytes_of}

-- The loop of disk_read: the number of reads that give bytes. `fuel` bounds the reads.
unfoldable pub read_loop : ℕ → ℕ → File → Option ℕ
read_loop block_size zero rest = none
read_loop block_size (suc fuel) rest =
    let next = on_some suc (read_loop block_size fuel (drop block_size rest)) in
    if length (take block_size rest) == 0 then some 0 else next

-- A file that does not open gives no byte. A read that is not the last takes a byte at least.
unfoldable pub disk_read : ℕ → Option DirEntry → Option ℕ
unfolding read_loop
disk_read block_size file = read_loop block_size (suc (length (bytes_of file))) (bytes_of file)

-- block_size of both benchmarks, block_count of BM_Write
unfoldable pub bench_size : ℕ
bench_size = 512

unfoldable pub bench_count : ℕ
bench_count = 1953125

-- The descriptors that are left after an open: neither disk_read nor disk_write closes its own.
abbrev pub left_after {ℓ} : {A : Type ℓ} → Option A → ℕ → ℕ
left_after none left = suc left
left_after (some e) left = left

-- The iterations of BM_Write on the entry of benchmarktest.txt, with the descriptors that are left;
-- `stack` is disk_write's buffer. Without a descriptor open fails, and so do the writes.
unfoldable pub bm_write : ℕ → File → ℕ → ℕ → Option DirEntry → ℕ × Option DirEntry
bm_write umask stack zero left file = (left, file)
bm_write umask stack (suc iterations) zero file = bm_write umask stack iterations zero file
bm_write umask stack (suc iterations) (suc left) file =
    bm_write umask stack iterations (left_after (open_write umask file) left)
      (disk_write umask file stack bench_size bench_count)

-- The iterations of BM_Read, with the number of reads that give bytes.
unfoldable pub bm_read : ℕ → ℕ → Option DirEntry → Option ℕ
bm_read zero left file = some 0
bm_read (suc iterations) zero file = bm_read iterations zero file
bm_read (suc iterations) (suc left) file = do
  reads ← disk_read bench_size file
  rest ← bm_read iterations (left_after (open_read file) left) file
  some (reads + rest)

-- A file of whole blocks is read block by block.
read_loop-blocks :
    (block_size block_count fuel : ℕ) (rest : File)
    → 0 < block_size
    → length rest ≡ block_count * block_size
    → length rest < fuel
    → read_loop block_size fuel rest ≡ some block_count
unfolding read_loop
read_loop-blocks block_size block_count zero rest positive size enough = absurd (omega arith)
read_loop-blocks block_size zero (suc fuel) rest positive size enough =
    let none_left : length rest ≡ 0 = size ∙ omega arith in
    let over : length (take block_size rest) == 0 ≡ true =
      ground (arith, length-take block_size rest) in
    rw over refl
read_loop-blocks block_size (suc count) (suc fuel) rest positive size enough =
    let whole : length rest ≡ block_size + count * block_size = size ∙ grind arith in
    let more : length (take block_size rest) == 0 ≡ false =
      ground (arith, length-take block_size rest) in
    let left : length (drop block_size rest) ≡ count * block_size =
      omega (arith, length-drop block_size rest) in
    rw more (
      ap (on_some suc)
        (read_loop-blocks block_size count fuel (drop block_size rest) positive left (omega arith)))

-- The file that the first iteration leaves.
abbrev pub bench_file : Option DirEntry
bench_file = some (record {
  bytes = replicate (bench_size * bench_count) write_letter;
  readable = true;
  writable = false;
})

first_write :
    (umask : ℕ) (stack : File)
    → length stack ≡ bench_size
    → owner_reads umask ≡ false
    → disk_write umask none stack bench_size bench_count ≡ bench_file
first_write umask stack size may =
    let written : disk_write umask none stack bench_size bench_count
        ≡ entry_after umask (bench_size * bench_count) none =
      subst
        (λ n. disk_write umask none stack n bench_count ≡ entry_after umask (n * bench_count) none)
        size (disk_write-entry_after umask none stack bench_count) in
    written
    ∙ ap
        (λ b. some (record {
          bytes = replicate (bench_size * bench_count) write_letter;
          readable = not b;
          writable = false;
        }))
        may

-- The owner may not write it.
later_write :
    (umask : ℕ) (stack : File)
    → length stack ≡ bench_size
    → disk_write umask bench_file stack bench_size bench_count ≡ bench_file
later_write umask stack size =
    subst (λ n. disk_write umask bench_file stack n bench_count ≡ bench_file) size
      (disk_write-entry_after umask bench_file stack bench_count)

-- open fails in them, which takes no descriptor.
later_writes :
    (umask n left : ℕ) (stack : File)
    → length stack ≡ bench_size
    → bm_write umask stack n left bench_file ≡ (left, bench_file)
unfolding bm_write open_write
later_writes umask zero left stack size = refl
later_writes umask (suc n) zero stack size = later_writes umask n zero stack size
later_writes umask (suc n) (suc left) stack size =
    ap (bm_write umask stack n (suc left)) (later_write umask stack size)
    ∙ later_writes umask n (suc left) stack size

bench_reads : 0 < bench_size → disk_read bench_size bench_file ≡ some bench_count
unfolding disk_read
bench_reads positive =
    let size : length (bytes_of bench_file) ≡ bench_count * bench_size =
      length-replicate (bench_size * bench_count) write_letter ∙ grind arith in
    read_loop-blocks bench_size bench_count (suc (length (bytes_of bench_file)))
      (bytes_of bench_file) positive size (omega arith)

-- The iterations that get a descriptor.
abbrev pub smaller : ℕ → ℕ → ℕ
smaller m n = if leb m n then m else n

smaller-suc : (m n : ℕ) → smaller (suc m) (suc n) ≡ suc (smaller m n)
smaller-suc m n = ground arith

smaller-zero : (m : ℕ) → smaller m 0 ≡ 0
smaller-zero m = ground arith

zero-smaller : (n : ℕ) → smaller 0 n ≡ 0
zero-smaller n = ground arith

all_reads :
    (n left : ℕ) → 0 < bench_size → bm_read n left bench_file ≡ some (smaller n left * bench_count)
unfolding bm_read
all_reads zero left positive =
    let none_read : 0 ≡ 0 * bench_count = omega arith in
    ap some (none_read ∙ ap (λ z. z * bench_count) (sym (zero-smaller left)))
all_reads (suc n) zero positive =
    all_reads n zero positive
    ∙ ap (λ z. some (z * bench_count)) (smaller-zero n ∙ sym (smaller-zero (suc n)))
all_reads (suc n) (suc left) positive =
    let more : bench_count + smaller n left * bench_count ≡ suc (smaller n left) * bench_count =
      grind arith in
    rw (bench_reads positive, all_reads n left positive)
      (ap some (more ∙ ap (λ z. z * bench_count) (sym (smaller-suc n left))))

-- BM_Write with one iteration at least, where benchmarktest.txt does not exist and a descriptor is
-- left, ends with the file of the first iteration, block_count blocks of the letter, which keeps a
-- descriptor: the owner may not write that file, and the later iterations change nothing. Each
-- iteration of BM_Read then reads block_count blocks as long as a descriptor is left, and none
-- later on. The buffer of disk_write has block_size bytes, and the umask leaves the owner's read
-- bit.
pub bm_write-bm_read :
    (umask writes left reads : ℕ) (stack : File)
    → length stack ≡ bench_size
    → owner_reads umask ≡ false
    → (bm_write umask stack (suc writes) (suc left) none ≡ (left, bench_file))
      × (bm_read reads left (bm_write umask stack (suc writes) (suc left) none).1
          ≡ some (smaller reads left * bench_count))
unfolding bm_write open_write
bm_write-bm_read umask writes left reads stack size may =
    let written : bm_write umask stack (suc writes) (suc left) none ≡ (left, bench_file) =
      ap (bm_write umask stack writes left) (first_write umask stack size may)
      ∙ later_writes umask writes left stack size in
    (
      written,
      ap (λ w. bm_read reads left w.1) written
          ∙ all_reads reads left (unfold bench_size in omega arith),
    )
