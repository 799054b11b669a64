-- ===== src/Lotterytest/Tests.antt =====
-- The processes of hw3/lotterytest.c after the first fork.
use nyu_operating_systems.Base.{◌≤◌, ◌⊎◌, [], ◌∷◌, arith}
use nyu_operating_systems.Lotterytest.{
  Family, fork_second, set_tickets, one_process, resume, CallRun, start, later, forks, parent_calls,
}
use nyu_operating_systems.Lotterytest.Ends.{IsOver, CanCall, CallRun-ends}

abbrev first_forked : Family
first_forked = record { parent = fork_second; children = set_tickets 80 ∷ [] }

first_fork : CallRun one_process 3 first_forked
unfolding resume
first_fork =
    later (later (later start (parent_calls 0 tt)) (parent_calls 0 tt)) (forks 4 tt (omega arith))

CallRun-ends_example : (3 ≤ 15) × (IsOver first_forked ⊎ CanCall first_forked)
CallRun-ends_example = CallRun-ends 3 first_forked first_fork
