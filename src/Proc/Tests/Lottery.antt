-- ===== src/Proc/Tests/Lottery.antt =====
-- The lottery on a small table.
use nyu_operating_systems.Base.{
  ℕ, ◌+◌, ◌≡◌, refl, true, none, some, arith, get_elem?, modify, if◌then◌else◌,
}
use nyu_operating_systems.Proc.State.{Proc, Kernel, is_runnable, running}
use nyu_operating_systems.Proc.Lottery.{run, scheduler_round}
use nyu_operating_systems.Proc.Lottery.Fair.{
  total, at, share, is_first, winning_draws, winning_draws-fair,
}
use nyu_operating_systems.Proc.Lottery.Elect.{scheduler_round-runs}
use nyu_operating_systems.Proc.Tests.Toy.{Toy, toy, toy_random, kernel, small_table}

winning_draws-fair_example :
    winning_draws (total small_table) 1 small_table
    ≡ share (at small_table 1) + (if is_first 1 small_table then 1 else 0)
winning_draws-fair_example = winning_draws-fair 1 small_table (unfold total in omega arith)

scheduler_round-runs_example :
    (j : ℕ) × (p : Proc) × (k' : Kernel Toy) × (scheduler_round toy true (kernel small_table none)
      ≡ run j k')
    × (get_elem? small_table j ≡ some p)
    × (is_runnable p.state ≡ true)
    × (k'.proc ≡ some j)
    × (k'.ptable ≡ modify small_table j (λ q. record q { state = running }))
scheduler_round-runs_example =
    scheduler_round-runs toy toy_random true (kernel small_table none) 1
      (unfold total in omega arith) refl
