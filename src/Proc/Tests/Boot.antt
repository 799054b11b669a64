-- ===== src/Proc/Tests/Boot.antt =====
-- userinit, then the scheduler and a fork.
use nyu_operating_systems.Base.{◌+◌, ◌<◌, ◌≡◌, refl, true, Option, none, some, arith}
use nyu_operating_systems.Proc.State.{Kernel}
use nyu_operating_systems.Proc.Alloc.{
  userinit, user_image, allocproc, claim, give_stack, lay_out_stack, find_unused, fork,
}
use nyu_operating_systems.Proc.Lottery.{scheduler_round, dispatch, draw, sum_tickets, Round, run}
use nyu_operating_systems.Proc.Valid.Steps.{Reach, start, later, elects, forks, Inv}
use nyu_operating_systems.Proc.Valid.Boot.{boot-Inv, IsFresh}
use nyu_operating_systems.Proc.Tests.Toy.{Toy, toy, zeroed}

abbrev of_user : Option (Kernel Toy) → Kernel Toy
of_user none = zeroed
of_user (some k) = k

abbrev of_round : Round Toy → Kernel Toy
of_round (run j k) = k
of_round (Round.idle k) = k

unfoldable pub booted : Kernel Toy
booted = of_user (userinit toy zeroed)

unfoldable pub elected : Kernel Toy
unfolding booted userinit user_image allocproc claim give_stack lay_out_stack find_unused
elected = of_round (scheduler_round toy true booted)

forked : Kernel Toy
unfolding elected scheduler_round dispatch draw sum_tickets
forked = (fork toy 0 elected).1

pub zeroed-IsFresh : IsFresh toy zeroed booted 3
zeroed-IsFresh = record { table = refl; pids = refl; cpu = refl }

pub booted_lem : userinit toy zeroed ≡ some booted
unfolding elected
booted_lem = refl

pub elected_lem : scheduler_round toy true booted ≡ run 0 elected
unfolding forked
elected_lem = refl

pub elected_proc : (elected.proc ≡ some 0) × (elected.nextpid + 1 < 100)
unfolding forked
elected_proc = (refl, omega arith)

pub booted_proc : booted.proc ≡ none
unfolding elected
booted_proc = refl

forked_run : Reach toy booted forked
unfolding forked
forked_run =
    later (later start (elects true 0 booted_proc elected_lem))
      (forks 0 elected_proc.0 (omega arith))

pub elected-Inv : Inv toy elected
elected-Inv =
    boot-Inv toy zeroed booted 3 zeroed-IsFresh (omega arith) booted_lem
      (later start (elects true 0 booted_proc elected_lem))

boot-Inv_example : Inv toy forked
boot-Inv_example = boot-Inv toy zeroed booted 3 zeroed-IsFresh (omega arith) booted_lem forked_run
