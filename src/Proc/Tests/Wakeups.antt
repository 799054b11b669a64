-- ===== src/Proc/Tests/Wakeups.antt =====
-- init forks, and goes to sleep in wait.
use nyu_operating_systems.Base.{◌≡◌, true, false, refl, some, arith, get_or}
use nyu_operating_systems.Proc.State.{Kernel, is_zombie, zero_proc, ptable_lock}
use nyu_operating_systems.Proc.Alloc.{
  fork, fork_new, fork_copy, allocproc, claim, give_stack, lay_out_stack, find_unused, dup_files,
}
use nyu_operating_systems.Proc.Sched.{switched, sleep_on, sched}
use nyu_operating_systems.Proc.Exit.{Waited, waits, wait, wait_round, scan_children}
use nyu_operating_systems.Proc.Lottery.{
  scheduler_round, draw, sum_tickets, dispatch, scheduler_return,
}
use nyu_operating_systems.Proc.Valid.Steps.{Reach, start, later, elects, forks, others, waits_on}
use nyu_operating_systems.Proc.Wakeups.Boot.{boot-heard}
use nyu_operating_systems.Proc.Tests.Toy.{Toy, toy, zeroed}
use nyu_operating_systems.Proc.Tests.Boot.{
  elected, elected_proc, elected_lem, booted, booted_proc, booted_lem, zeroed-IsFresh,
}

abbrev of_wait : Waited Toy → Kernel Toy
of_wait (waits (switched n k)) = k
of_wait _ = zeroed

-- After its first steps in forkret the lock is free.
unfoldable parent : Kernel Toy
unfolding elected fork fork_new fork_copy allocproc claim give_stack lay_out_stack find_unused
    scheduler_round draw sum_tickets dispatch dup_files
parent = let k = (fork toy 0 elected).1 in record k { mach = toy.release ptable_lock k.mach }

asleep : Kernel Toy
unfolding parent wait wait_round scan_children sleep_on sched
asleep = of_wait (wait toy 0 parent)

asleep_lem : wait toy 0 parent ≡ waits (switched 1 asleep)
unfolding asleep
asleep_lem = refl

parent_proc : parent.proc ≡ some 0
unfolding parent
parent_proc = refl

abbrev asleep_run : Reach toy booted (scheduler_return toy asleep)
unfolding parent
asleep_run =
    later
      (later
        (later (later start (elects true 0 booted_proc elected_lem))
          (forks 0 elected_proc.0 (omega (arith, elected_proc.1))))
        (others (toy.release ptable_lock (fork toy 0 elected).1.mach)))
      (waits_on 0 1 parent_proc asleep_lem)

boot-heard_example :
    is_zombie (get_or (scheduler_return toy asleep).ptable 1 zero_proc).state ≡ false
unfolding asleep scheduler_return
boot-heard_example =
    boot-heard toy zeroed booted 3 0 1 (get_or asleep.ptable 0 zero_proc)
      (get_or asleep.ptable 1 zero_proc) asleep_run zeroed-IsFresh (omega arith) booted_lem
      ((((tt, tt), tt), tt), tt) refl (refl, refl) refl refl
