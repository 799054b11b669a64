-- ===== src/Lib.antt =====
-- Course work for an operating systems class: the parts of hw1 to hw4 and final_project that
-- have a state or a grammar of their own.
--
-- Proc models hw3/proc.c and hw3/proc.h, the process table of an xv6 kernel and its lottery
-- scheduler. Proc.State has struct proc, the globals and the code of other kernel files as the
-- parameter `Externals`; Proc.Alloc has pinit, allocproc, userinit, growproc and fork,
-- Proc.Sched has wakeup, kill, sched, yield, forkret and sleep, Proc.Exit has exit and wait,
-- Proc.Lottery has a round of scheduler. One CPU runs one process; what follows a switch is a
-- function of its own (yield_return, sleep_return, scheduler_return). Proc.Valid is the
-- invariant of the table, Proc.Valid.Steps the kernel as a step relation: each step is a call of
-- an operation of proc.c, by the current process, by an interrupt or by the scheduler. Proc.Life
-- follows a slot of the table, its states and pids, over these steps, and Proc.Wakeups the sleep
-- of wait and the wakeups of exit. Proc.Behave has what wait, fork and exit give their callers,
-- and in Proc.Behave.Switches the contract of spinlock.c, file.c, fs.c and log.c, `LockLaws`,
-- under which sched does not panic. Words are natural numbers with their wrap-around modulo 2 ^
-- 32. A pid is a word, and a step of fork supposes that one is left. Proc.Dump has procdump, as
-- the lines that it prints.
--
-- Lotterytest models the user program hw3/lotterytest.c: its processes step from call to call in
-- any order, with the answers that hw3/proc.c gives to fork and wait. A call is a system call or
-- a printf, whose writes, one for each character, are not told apart. The counting loops of its
-- spin are left out.
--
-- Syscall models hw3/syscall.c and hw3/sysproc.c on top of Proc. Syscall.Args fetches arguments
-- from the process's memory, a function from addresses to bytes; the loop of fetchstr is bounded
-- by the process's size. Syscall.Handlers has the handlers of sysproc.c, Syscall.Dispatch the
-- table and syscall. The handlers of sysfile.c are a parameter, as that file is empty. A handler
-- ends with a result or at the switch to the scheduler; sys_sleep is one round of its loop up to
-- its sleep (sleep_round) and the next one after it (sleep_again). Syscall.Session puts the
-- parts together: from boot on, user programs compute and call, and the kernel takes its own
-- steps.
--
-- Hashtable models the three programs of hw4 (parallel_hashtable.c, parallel_spin.c,
-- parallel_mutex.c). They differ in the lock that insert takes, which is a field of `Program`:
-- none, one for the table, one per bucket. Hashtable.Table has insert and retrieve without
-- threads; Hashtable.Threads has the threads of put_phase, which step between the accesses to
-- shared memory (take_turn), in any order; Hashtable.Phases has get_phase and main's total.
-- Hashtable.Atomic follows the threads with inserts that happen at once, and Hashtable.Contents
-- says what the table holds after the barrier. Hashtable.Ends counts the steps that the threads
-- have left, and runs them by schedules of rounds in which every thread has a turn.
-- Hashtable.Gets has the threads of get_phase, in any order. The loop of get_phase has fuel for
-- NUM_KEYS + 1 tests, and key grows by at least one in a round. Keys and indices are natural
-- numbers: random() is not negative, and key stays far below 2 ^ 31. NUM_KEYS is the length of
-- the array. Memory is sequentially consistent. Hashtable.Main has main, with a schedule for
-- each of its phases; timing and the other output are left out. Hashtable.Prints and
-- Hashtable.Losing have what it prints.
--
-- Shell models hw2/shell.c: Shell.Token has gettoken and peek, Shell.Parser the recursive
-- descent, with exit(-1) as a result. A text is what lies between *ps and es. The argument
-- pointer of parseexec, which aliases the command under the redirections, is add_arg. Each loop
-- has fuel for one round more than the characters that are left, and each round takes at least
-- one. Shell.Table has the descriptors of a process and the calls that change them, Shell.Run
-- runcmd, whose result is what becomes of each process, Shell.Main getcmd and main; the kernel's
-- answers are the parameters `System` and `Answers`, new ones for each line. The descriptor
-- table has no limit. Shell.Items and Shell.Reading read printed lines, Shell.Wiring has what
-- runcmd makes of them, Shell.Session joins the two. Shell.Lines has how main cuts its input, a
-- text without a NUL.
--
-- Uniq models hw1/uniq.c, on a file as a list of bytes. Uniq.Compare has string_compare on the
-- memory of its two arrays, which have no room for a NUL: what memory holds, where the arrays
-- begin and how far strcmp can read are the parameter `Stack`; the bytes behind the arrays are
-- taken to be in no other use. Uniq.Copies says what strcmp finds there. Uniq.Modes has the
-- loops, on any string_compare, Uniq.Alike the runs of lines that they print, Uniq.Options main.
-- A line that does not fit the buffer of 1024 bytes with its newline and a NUL is a result of
-- its own, since the program then writes past the buffer or compares past it. Each loop has fuel
-- for one round more than the bytes of the file.
--
-- Disk models final_project: Disk.Sequential has disk_read of fast.c, run_blocksize.c, run.c and
-- part_4_lseek_run.c, Disk.Threads thread_read and disk_read of run_multithreaded.c, whose
-- threads take rounds of their loops in the order of a schedule, Disk.Write the disk_write that
-- the programs share. A file is the list of its bytes, and a regular one: read and pread give
-- all there is up to their count. The loops have fuel for one read more than the file has bytes.
-- ints that cannot overflow before the file ends are natural numbers; the int products, counts
-- and offsets of the threads of run_multithreaded.c are words with their wrap-around and sign
-- extension. An entry of a directory has its owner's read and write bits. Disk.Letters says what
-- disk_write leaves, Disk.Main has main, with the numbers that atoi gives. Disk.Bench has the
-- iterations of the two benchmarks of benchmark_extra_cred.cpp, with the descriptors that they
-- leave open. A disk that is full and a read that fails are left aside.
--
-- Not modelled: headers, build files and scripts.
pub mod Base
pub mod Proc
pub mod Hashtable
pub mod Syscall
pub mod Shell
pub mod Uniq
pub mod Disk
pub mod Lotterytest
