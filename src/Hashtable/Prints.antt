-- ===== src/Hashtable/Prints.antt =====
-- What main of hw4/parallel_spin.c and parallel_mutex.c prints, through both of its phases.
use nyu_operating_systems.Base.{
  ℕ, zero, suc, ◌+◌, ◌-◌, ◌*◌, ◌<◌, ◌≤◌, ◌≡◌, ◌≢◌, refl, arith, Bool, true, Option, none, some,
  List, length, get_elem?, Option-cases, Bool-cases, inl, inr, ap, ◌∙◌, sym, subst, some-inj,
  occurs,
}
use nyu_operating_systems.Hashtable.Threads.{
  Program, World, Pc, ready, waiting, linking, linked, unlocking, finished, Turn, start, begin,
}
use nyu_operating_systems.Hashtable.Phases.Kept.{IsJoined, nothing_lost}
use nyu_operating_systems.Hashtable.Gets.{
  get_turns, create_gets, join_gets, get_turns-total_lost, get_turns-ends,
}
use nyu_operating_systems.Hashtable.Race.{run_turns, run_turns-Reach}
use nyu_operating_systems.Hashtable.Ends.Fair.{AreRounds, in_order}
use nyu_operating_systems.Hashtable.Main.{
  Variant, unlocked, Startup, runs, usage, bad_threads, no_memory, init_failed, startup, joins,
  join_puts, prints, phases, main, lock_index, started, fair-retrieved,
}

joins-true :
    (o : Option Pc) (rest : Bool) → joins o rest ≡ true → (o ≡ some finished) × (rest ≡ true)
joins-true none rest e = absurd (cc)
joins-true (some (ready key)) rest e = absurd (cc)
joins-true (some (waiting key)) rest e = absurd (cc)
joins-true (some (linking key)) rest e = absurd (cc)
joins-true (some (linked key next)) rest e = absurd (cc)
joins-true (some (unlocking key)) rest e = absurd (cc)
joins-true (some finished) rest e = (refl, e)

-- A thread is at its end where join passes it.
join_puts-finished :
    (ts : List Pc) (i n j : ℕ)
    → join_puts ts i n ≡ true
    → j < n
    → get_elem? ts (i + j) ≡ some finished
unfolding join_puts
join_puts-finished ts i zero j e h = absurd (omega arith)
join_puts-finished ts i (suc n) zero e h =
    let same : i + 0 ≡ i = omega arith in
    rw same (joins-true (get_elem? ts i) (join_puts ts (suc i) n) e).0
join_puts-finished ts i (suc n) (suc j) e h =
    let next : i + suc j ≡ suc i + j = omega arith in
    let rest = (joins-true (get_elem? ts i) (join_puts ts (suc i) n) e).1 in
    rw next (join_puts-finished ts (suc i) n j rest (omega arith))

finished-join_puts :
    (ts : List Pc) (i n : ℕ)
    → ((j : ℕ) → j < n → get_elem? ts (i + j) ≡ some finished)
    → join_puts ts i n ≡ true
unfolding join_puts
finished-join_puts ts i zero at_end = refl
finished-join_puts ts i (suc n) at_end =
    let same : i + 0 ≡ i = omega arith in
    let here : get_elem? ts i ≡ some finished =
      subst (λ k. get_elem? ts k ≡ some finished) same (at_end 0 (omega arith)) in
    rw (join_puts, here)
      (finished-join_puts ts (suc i) n (λ j h.
        let next : i + suc j ≡ suc i + j = omega arith in
        subst (λ k. get_elem? ts k ≡ some finished) next (at_end (suc j) (omega arith))))

-- The phases end with the last line where the put phase has joined its threads in a world that the
-- get phase then counts.
phases-prints :
    (p : Program) (puts : List Turn) (gets : List ℕ) (n : ℕ)
    → phases p puts gets ≡ prints n
    → (w : World) × (total : ℕ) × (run_turns p puts (begin p) ≡ some w)
      × IsJoined p w
      × (join_gets (get_turns p w.table gets (create_gets 0 p.num_threads)) ≡ some total)
      × (n ≡ length p.keys - total)
unfolding phases
phases-prints p puts gets n e = elim (Option-cases (run_turns p puts (begin p))) [
  | inl stop ↦ absurd (cc (rw (phases, stop) at e))
  | inr (w, ran) ↦ elim (Bool-cases (join_puts w.threads 0 p.num_threads)) [
    | inr waits ↦ absurd (cc (rw (phases, ran, waits) at e))
    | inl joined ↦
        elim (Option-cases (join_gets (get_turns p w.table gets (create_gets 0 p.num_threads)))) [
          | inl waits ↦ absurd (cc (rw (phases, ran, joined, waits) at e))
          | inr (total, sum) ↦ (
            w,
            total,
            ran,
            λ t h.
                let same : 0 + t ≡ t = omega arith in
                subst (λ k. get_elem? w.threads k ≡ some finished) same
                  (join_puts-finished w.threads 0 p.num_threads t joined h),
            sum,
            let line : prints (length p.keys - total) ≡ prints n =
                  rw (phases, ran, joined, sum) at e in
                cc,
          )
        ]
  ]
]

module _ (v : Variant) (argc num_threads : ℕ) (keys : List ℕ) (memory : Bool) (works : ℕ → Bool)
    (puts : List Turn) (gets : List ℕ) where
  main-runs :
      (p : Program)
      → startup v argc num_threads keys memory works ≡ runs p
      → main v argc num_threads keys memory works puts gets ≡ phases p puts gets
  unfolding main
  main-runs p e = rw (main, e) refl

  main-phases :
      (n : ℕ)
      → main v argc num_threads keys memory works puts gets ≡ prints n
      → (p : Program) × (startup v argc num_threads keys memory works ≡ runs p)
        × (phases p puts gets ≡ prints n)
  unfolding main
  main-phases n e = by_start (startup v argc num_threads keys memory works) refl
    where
      by_start :
          (s : Startup)
          → startup v argc num_threads keys memory works ≡ s
          → (p : Program) × (startup v argc num_threads keys memory works ≡ runs p)
            × (phases p puts gets ≡ prints n)
      by_start (runs p) at = (p, at, sym (main-runs p at) ∙ e)
      by_start usage at = absurd (cc (rw (main, at) at e))
      by_start bad_threads at = absurd (cc (rw (main, at) at e))
      by_start no_memory at = absurd (cc (rw (main, at) at e))
      by_start init_failed at = absurd (cc (rw (main, at) at e))

  -- Whatever the orders in which the threads of the two phases of parallel_spin.c or
  -- parallel_mutex.c take their turns, if main prints its last line, this says that all NUM_KEYS
  -- keys are retrieved.
  pub main-prints :
      (n : ℕ)
      → v ≢ unlocked
      → main v argc num_threads keys memory works puts gets ≡ prints n
      → n ≡ length keys
  main-prints n locked e =
      let (p, at, e') = main-phases n e in
      let (some_thread, covers, same) = started v argc num_threads keys memory works p locked at in
      let (w, total, ran, joined, sum, line) = phases-prints p puts gets n e' in
      let r = run_turns-Reach p puts (begin p) (begin p) w start ran in
      let none_lost = (nothing_lost p (lock_index v) covers w some_thread r joined).1 in
      let counted = get_turns-total_lost p w.table some_thread gets total sum in
      let zero_lost : total ≡ 0 = some-inj (sym counted ∙ none_lost) in
      let as_long : length p.keys ≡ length keys = ap length same in omega arith

-- Whatever main of parallel_spin.c or parallel_mutex.c starts with, if the put phase is scheduled in
-- rounds in each of which every thread has a turn, with memory for malloc, at least
-- num_threads * (5 * NUM_KEYS + 1) rounds, and each thread of the get phase has more than NUM_KEYS
-- turns, in any order, main comes to its end and prints that all NUM_KEYS keys are retrieved.
pub main-ends :
    (v : Variant) (argc num_threads : ℕ) (keys : List ℕ) (memory : Bool) (works : ℕ → Bool)
    (p : Program) (rounds : List (List ℕ)) (gets : List ℕ)
    → v ≢ unlocked
    → startup v argc num_threads keys memory works ≡ runs p
    → AreRounds p rounds
    → p.num_threads * (5 * length p.keys + 1) ≤ length rounds
    → ((t : ℕ) → t < p.num_threads → length p.keys < occurs t gets)
    → main v argc num_threads keys memory works (in_order rounds) gets ≡ prints (length keys)
unfolding phases
main-ends v argc num_threads keys memory works p rounds gets locked e fair enough gets_enough =
    let puts = in_order rounds in
    let (some_thread, covers, same) = started v argc num_threads keys memory works p locked e in
    let (w, ran, joined, _) =
      fair-retrieved v argc num_threads keys memory works p rounds locked e fair enough in
    let passed : join_puts w.threads 0 p.num_threads ≡ true =
      finished-join_puts w.threads 0 p.num_threads (λ t h.
        let there : t ≡ 0 + t = omega arith in
        subst (λ k. get_elem? w.threads k ≡ some finished) there (joined t h)) in
    let (total, sum) = get_turns-ends p w.table some_thread gets gets_enough in
    let printed : phases p puts gets ≡ prints (length p.keys - total) =
      rw (phases, ran, passed, sum) refl in
    let whole = main-runs v argc num_threads keys memory works puts gets p e ∙ printed in
    let all = main-prints v argc num_threads keys memory works puts gets _ locked whole in
    whole ∙ ap prints all
