-- ===== src/Proc/Tests/Behave.antt =====
-- wait, fork, kill and exit on a small table.
use nyu_operating_systems.Base.{◌≡◌, refl, some, List, [], ◌∷◌, arith, ◌⊎◌, get_elem?}
use nyu_operating_systems.Proc.State.{
  Proc, Kernel, Chan, Lock, zero_proc, runnable, running, sleeping,
}
use nyu_operating_systems.Proc.Alloc.{fork, find_unused, claim, lay_out_stack}
use nyu_operating_systems.Proc.Sched.{
  yield, sleep, kill, find_pid, mark_killed, Outcome, switched, wakeup1, wake, sched,
}
use nyu_operating_systems.Proc.Exit.{
  wait, exit, exit_files, exit_table, close_files, abandon_children, abandon,
}
use nyu_operating_systems.Proc.Behave.Waits.{Reaps, Fails, Sleeps, wait-branches}
use nyu_operating_systems.Proc.Behave.Exits.{HandedOver, exit-HandedOver}
use nyu_operating_systems.Proc.Behave.Births.{HasRoom, IsChild, fork-IsChild, kill-zero_marks}
use nyu_operating_systems.Proc.Behave.Switches.{Switches, Proceeds, no_panic}
use nyu_operating_systems.Proc.Tests.Toy.{
  Toy, toy, toy_locks, kernel, small_table, init_proc, child_proc,
}

wait-branches_example :
    let k = kernel small_table (some 0) in
    let r = wait toy 0 k in Reaps toy k 0 r ⊎ Fails toy k 0 r ⊎ Sleeps toy k 0 r
wait-branches_example = wait-branches toy (kernel small_table (some 0)) 0

-- init runs, its child waits for the CPU, a slot is free.
abbrev free_table : List Proc
free_table = init_proc ∷ child_proc ∷ zero_proc ∷ []

abbrev free_kernel : Kernel Toy
free_kernel = kernel free_table (some 0)

free_room : HasRoom toy free_kernel 0 2
unfolding find_unused claim lay_out_stack
free_room = record { slot = refl; stack = refl; pages = refl }

fork-IsChild_example :
    (l : Kernel Toy) × (q : Proc) × (fork toy 0 free_kernel ≡ (4, l))
    × (get_elem? l.ptable 2 ≡ some q)
    × IsChild toy free_kernel 0 init_proc zero_proc q
    × (l.trapframes q.tf ≡ record (free_kernel.trapframes 0) { eax = 0 })
    × (get_elem? l.ptable 0 ≡ some init_proc)
fork-IsChild_example =
    fork-IsChild toy free_kernel 0 2 init_proc zero_proc refl (λ e. omega arith) refl free_room

killed_room : HasRoom toy (kill toy 0 free_kernel).1 0 2
unfolding find_unused claim lay_out_stack kill find_pid mark_killed
killed_room = record { slot = refl; stack = refl; pages = refl }

kill-zero_marks_example :
    ((kill toy 0 free_kernel).0 ≡ 0)
    × ((l : Kernel Toy) × (q : Proc) × (fork toy 0 (kill toy 0 free_kernel).1 ≡ (4, l))
        × (get_elem? l.ptable 2 ≡ some q)
        × (q.state ≡ runnable)
        × (q.killed ≡ 1))
unfolding find_pid
kill-zero_marks_example =
    kill-zero_marks toy free_kernel 0 2 init_proc zero_proc refl refl refl (λ e. omega arith)
      killed_room

-- The child runs and ends, while init sleeps in wait.
abbrev sleeping_init : Proc
sleeping_init = record init_proc { state = sleeping; chan = Chan.slot 0 }

abbrev running_child : Proc
running_child = record child_proc { state = running }

abbrev ending : Kernel Toy
ending = kernel (sleeping_init ∷ running_child ∷ []) (some 1)

abbrev of_outcome : Outcome Toy → Kernel Toy
of_outcome (switched n l) = l
of_outcome (Outcome.panic c) = ending

ended : Kernel Toy
unfolding exit exit_files exit_table close_files wakeup1 wake abandon_children abandon sched
ended = of_outcome (exit toy 1 ending)

ended_lem : exit toy 1 ending ≡ switched 1 ended
unfolding ended
ended_lem = refl

exit-HandedOver_example : HandedOver 1 0 running_child ended.ptable
exit-HandedOver_example =
    exit-HandedOver toy 1 0 running_child sleeping_init ending ended 1 refl refl (λ e. omega arith)
      refl refl refl ended_lem

-- The child of init, which holds no lock.
no_panic_example :
    Switches (yield toy 1 free_kernel)
    × Switches (
        sleep toy
          (some 1)
          (Chan.slot 1)
          (Lock.other 7)
          (record free_kernel { mach = toy.acquire (Lock.other 7) free_kernel.mach }))
    × Proceeds (wait toy 1 free_kernel)
    × Switches (exit toy 1 free_kernel)
no_panic_example = no_panic toy toy_locks 1 7 (Chan.slot 1) free_kernel refl refl
