-- ===== src/Disk/Tests.antt =====
-- A small file for the programs of final_project.
use nyu_operating_systems.Base.{
  occurs, ℕ, zero, suc, ◌^◌, ◌<◌, ◌≡◌, false, refl, arith, none, some, List, [], ◌∷◌, ◌++◌, length,
  replicate, true,
}
use nyu_operating_systems.Disk.Blocks.{File}
use nyu_operating_systems.Disk.Sequential.{fast_read, skim_loop, seek_loop}
use nyu_operating_systems.Disk.Whole.{file_xor, fast_read-xor, skim_loop-all, seek_loop-all}
use nyu_operating_systems.Disk.Threads.{
  join_xor, disk_read, new_thread, thread_step, thread_step-negative,
}
use nyu_operating_systems.Disk.Same.{disk_read-file_xor}
use nyu_operating_systems.Disk.Main.{Arguments, main_run, main_fast, main_fast-main_run}
use nyu_operating_systems.Disk.Write.{disk_write}
use nyu_operating_systems.Disk.Letters.{disk_write-entry_after, length-replicate}
use nyu_operating_systems.Disk.Bench.{
  bench_size, bench_count, bench_file, bm_write, bm_read, bm_write-bm_read,
}
use nyu_operating_systems.Base.{◌*◌}

-- Two words and a byte.
abbrev nine_bytes : File
nine_bytes = 1 ∷ 2 ∷ 3 ∷ 4 ∷ 16 ∷ 32 ∷ 48 ∷ 64 ∷ 9 ∷ []

words_of_nine : file_xor nine_bytes ≡ 0x44332211
words_of_nine = refl

fast_read-xor_example : fast_read nine_bytes [] ≡ some 0x44332211
fast_read-xor_example = fast_read-xor nine_bytes []

skims_nine_bytes : skim_loop 4 10 nine_bytes ≡ some []
skims_nine_bytes = skim_loop-all 4 10 nine_bytes (omega arith) (omega arith)

seeks_three_blocks : seek_loop 4 3 4 0 0 ≡ some 12
seeks_three_blocks = seek_loop-all 4 3 0 (omega arith)

-- Thread 1 has a turn before thread 0 has its first, and all of thread 0's are before its second.
abbrev uneven : List ℕ
uneven = 1 ∷ replicate 10 0 ++ replicate 9 1

enough_turns : (i : ℕ) → i < 2 → length nine_bytes < occurs i uneven
enough_turns zero h = omega arith
enough_turns (suc zero) h = omega arith
enough_turns (suc (suc i)) h = absurd (omega arith)

disk_read-file_xor_example : join_xor (disk_read nine_bytes (λ i. []) 2 5 uneven) 0 ≡ 0x44332211
disk_read-file_xor_example =
    disk_read-file_xor nine_bytes (λ i. []) 2 5 uneven (omega arith) (omega arith) (omega arith)
      (omega arith) (omega arith) enough_turns

disk_write-entry_after_example :
    disk_write 18 none (0 ∷ 0 ∷ []) 2 3
    ≡ some (record { bytes = replicate 6 116; readable = true; writable = false })
disk_write-entry_after_example = disk_write-entry_after 18 none (0 ∷ 0 ∷ []) 3

-- run f -w 2 3
abbrev write_six : Arguments
write_six = record {
  argc = 5;
  flag = 45 ∷ 119 ∷ [];
  block_size = 2;
  block_count = 3;
  num_threads = 0;
}

main_fast-main_run_example :
    ((main_run 18 0 write_six (0 ∷ 0 ∷ []) none).usages ≡ 0)
    × (main_fast 2 [] (main_run 18 0 write_six (0 ∷ 0 ∷ []) none).entry ≡ (0, some 0x74747474))
main_fast-main_run_example = main_fast-main_run 18 0 write_six (0 ∷ 0 ∷ []) [] refl refl refl refl

thread_step-negative_example :
    thread_step nine_bytes 3 (2 ^ 30) 2 (new_thread (λ i. []) (2 ^ 30) 2)
    ≡ record (new_thread (λ i. []) (2 ^ 30) 2) { running = false }
thread_step-negative_example =
    thread_step-negative nine_bytes (λ i. []) 3 (2 ^ 30) 2 (omega arith) (omega arith)

-- Three iterations of each benchmark, with three descriptors.
bm_write-bm_read_example :
    (bm_write 18 (replicate 512 0) 3 3 none ≡ (2, bench_file))
    × (bm_read 3 2 (bm_write 18 (replicate 512 0) 3 3 none).1 ≡ some (2 * bench_count))
unfolding bench_size
bm_write-bm_read_example = bm_write-bm_read 18 2 2 3 (replicate 512 0) (length-replicate 512 0) refl
