-- ===== src/Hashtable/Tests.antt =====
-- Runs of the programs of hw4 on concrete keys.
use nyu_operating_systems.Base.{
  ℕ, ◌≡◌, ◌<◌, ◌+◌, ◌*◌, refl, none, some, Option, true, List, [], ◌∷◌, zero, suc, arith,
}
use nyu_operating_systems.Hashtable.Table.{retrieve}
use nyu_operating_systems.Hashtable.Threads.{
  Program, World, mutexes, begin, Reach, start, take_turn, advance, acquire, release, key_at,
}
use nyu_operating_systems.Hashtable.Safe.Free.{CanMove, no_deadlock}
use nyu_operating_systems.Hashtable.Threads.{waiting}
use nyu_operating_systems.Base.{get_elem?}
use nyu_operating_systems.Hashtable.Safe.{IsFound}
use nyu_operating_systems.Hashtable.Phases.{total_lost}
use nyu_operating_systems.Hashtable.Race.{run_turns, run_turns-Reach, turns, race_order}
use nyu_operating_systems.Hashtable.Losing.{get_order, main-loses}
use nyu_operating_systems.Hashtable.Phases.Kept.{IsJoined, nothing_lost}
use nyu_operating_systems.Hashtable.Atomic.{Shows, Reach-Shows}
use nyu_operating_systems.Hashtable.Contents.{entry_sum, joined-entry_sum}
use nyu_operating_systems.Hashtable.Main.{
  mutex, startup, init_loop, mutex_main, hashtable_main, main, phases, join_puts, prints,
}
use nyu_operating_systems.Hashtable.Prints.{main-prints, main-ends}
use nyu_operating_systems.Hashtable.Gets.{get_turns, get_step, join_gets}
use nyu_operating_systems.Base.{occurs, length}
use nyu_operating_systems.Hashtable.Table.{search_chain}
use nyu_operating_systems.Hashtable.Ends.Fair.{AreRounds, in_order, IsRound}
use nyu_operating_systems.Base.{replicate}
use mathlib.Core.List.{Memᴰ}

abbrev keys_of_two : List ℕ
keys_of_two = 3 ∷ 8 ∷ []

abbrev locked : Program
locked = record { keys = keys_of_two; num_threads = 2; lock_of = mutexes }

abbrev of_run : Option World → World
of_run none = begin locked
of_run (some w) = w

-- Thread 1 meets the mutex of bucket 3 locked, and takes its turns again.
abbrev order : List ℕ
order = 0 ∷ 0 ∷ 0 ∷ 1 ∷ 1 ∷ 0 ∷ 0 ∷ 0 ∷ 1 ∷ 1 ∷ 1 ∷ 1 ∷ 1 ∷ []

ended : World
unfolding run_turns take_turn advance acquire release
ended = of_run (run_turns locked (turns order) (begin locked))

ended_lem : run_turns locked (turns order) (begin locked) ≡ some ended
unfolding ended
ended_lem = refl

IsJoined-ended : IsJoined locked ended
unfolding ended
IsJoined-ended zero h = refl
IsJoined-ended (suc zero) h = refl
IsJoined-ended (suc (suc t)) h = absurd (omega arith)

ended-Reach : Reach locked (begin locked) ended
ended-Reach =
    run_turns-Reach locked (turns order) (begin locked) (begin locked) ended start ended_lem

nothing_lost_example :
    ((j : ℕ) → j < 2 → IsFound (key_at locked j) ended.table)
    × (total_lost locked ended.table 0 2 ≡ some 0)
nothing_lost_example =
    nothing_lost locked (λ i. i) (λ i. refl) ended (omega arith) ended-Reach IsJoined-ended

Reach-Shows_example : (log : List ℕ) × Shows locked (λ i. i) ended log
Reach-Shows_example = Reach-Shows locked (λ i. i) (λ i. refl) ended ended-Reach

-- The sum of key + 10 * val: 3 of thread 0 and 8 of thread 1.
joined-entry_sum_example : entry_sum (λ e. e.key + 10 * e.val) ended.table ≡ 21
joined-entry_sum_example =
    joined-entry_sum locked (λ i. i) (λ i. refl) ended (λ e. e.key + 10 * e.val) (omega arith)
      ended-Reach IsJoined-ended

main-loses_example : hashtable_main 2 2 keys_of_two true race_order get_order ≡ prints 1
main-loses_example = main-loses 3 8 (λ e. omega arith) refl

-- Thread 0 holds the mutex of bucket 3, which thread 1 waits for.
blocked : World
unfolding run_turns take_turn advance acquire release
blocked = of_run (run_turns locked (turns (0 ∷ 0 ∷ 1 ∷ 1 ∷ [])) (begin locked))

blocked_lem : run_turns locked (turns (0 ∷ 0 ∷ 1 ∷ 1 ∷ [])) (begin locked) ≡ some blocked
unfolding blocked
blocked_lem = refl

blocked_waits : get_elem? blocked.threads 1 ≡ some (waiting 1)
unfolding blocked
blocked_waits = refl

no_deadlock_example : CanMove locked blocked
no_deadlock_example =
    no_deadlock locked (λ i. i) (λ i. refl) (λ i h. h) blocked 1 (waiting 1)
      (run_turns-Reach locked (turns (0 ∷ 0 ∷ 1 ∷ 1 ∷ [])) (begin locked) (begin locked) blocked
        start blocked_lem)
      blocked_waits (λ e. cc)

-- Each thread of the get phase looks its key up and ends, thread 1 first.
abbrev two_gets : List ℕ
two_gets = 1 ∷ 1 ∷ 0 ∷ 1 ∷ 0 ∷ 0 ∷ []

order_prints : mutex_main 2 2 keys_of_two true (λ i. true) (turns order) two_gets ≡ prints 2
unfolding main phases startup init_loop join_puts run_turns take_turn advance acquire release
    get_turns get_step join_gets retrieve search_chain
order_prints = refl

main-prints_example : 2 ≡ length keys_of_two
main-prints_example =
    main-prints mutex 2 2 keys_of_two true (λ i. true) (turns order) two_gets 2 (λ e. cc)
      order_prints

-- Each thread has a turn, thread 1 first.
abbrev one_round : List ℕ
one_round = 1 ∷ 0 ∷ []

IsRound-one : IsRound locked one_round
IsRound-one zero h = Memᴰ.tail (Memᴰ.head refl)
IsRound-one (suc zero) h = Memᴰ.head refl
IsRound-one (suc (suc t)) h = absurd (omega arith)

AreRounds-replicate : (n : ℕ) → AreRounds locked (replicate n one_round)
AreRounds-replicate zero = tt
AreRounds-replicate (suc n) = (IsRound-one, AreRounds-replicate n)

gets_enough : (t : ℕ) → t < 2 → 2 < occurs t two_gets
gets_enough zero h = omega arith
gets_enough (suc zero) h = omega arith
gets_enough (suc (suc t)) h = absurd (omega arith)

main-ends_example :
    mutex_main 2 2 keys_of_two true (λ i. true) (in_order (replicate 22 one_round)) two_gets
    ≡ prints 2
unfolding startup init_loop
main-ends_example =
    main-ends mutex 2 2 keys_of_two true (λ i. true) locked (replicate 22 one_round) two_gets
      (λ e. cc) refl (AreRounds-replicate 22) (omega arith) gets_enough
