-- ===== src/Hashtable/Main.antt =====
-- main of hw4/parallel_hashtable.c, parallel_spin.c and parallel_mutex.c, around its two phases.
use nyu_operating_systems.Base.{
  ℕ, zero, suc, ◌-◌, ◌<◌, ◌≤◌, ◌*◌, ◌+◌, ◌≡◌, ◌≢◌, ◌==◌, refl, arith, Bool, true, false, Option,
  none, some, List, get_elem?, length, if◌then◌else◌, on_some, ap, ◌∙◌, subst,
}
use nyu_operating_systems.Base.Words.{int_lt}
use nyu_operating_systems.Hashtable.Table.{Table, num_buckets}
use nyu_operating_systems.Hashtable.Threads.{
  Program, World, Pc, finished, Turn, Reach, start, begin, no_lock, spinlock, mutexes,
}
use nyu_operating_systems.Hashtable.Phases.{total_lost}
use nyu_operating_systems.Hashtable.Phases.Kept.{IsJoined, nothing_lost}
use nyu_operating_systems.Hashtable.Gets.{get_turns, create_gets, join_gets}
use nyu_operating_systems.Hashtable.Race.{run_turns, run_turns-Reach}
use nyu_operating_systems.Hashtable.Ends.Fair.{AreRounds, in_order, fair-IsJoined}

-- The three programs.
pub data Variant : Type 0 where
  unlocked spin mutex : Variant

abbrev pub locks_of : Variant → ℕ → Option ℕ
locks_of unlocked = no_lock
locks_of spin = spinlock
locks_of mutex = mutexes

-- The ends of main before the threads start, and the program that runs.
pub data Startup : Type 0 where
  usage bad_threads no_memory init_failed : Startup
  runs : Program → Startup

-- The loop over pthread_mutex_init from lock i on; an init that fails ends main.
unfoldable pub init_loop : (ℕ → Bool) → ℕ → ℕ → Bool
init_loop works i zero = true
init_loop works i (suc n) = let rest = init_loop works (suc i) n in if works i then rest else false

abbrev pub init_locks : Variant → (ℕ → Bool) → Bool
init_locks unlocked works = true
init_locks spin works = works 0
init_locks mutex works = init_loop works 0 num_buckets

-- main up to the put phase: argc, the word that atoi(argv[1]) gives, the random keys, the answers of
-- malloc and of the locks' init.
unfoldable pub startup : Variant → ℕ → ℕ → List ℕ → Bool → (ℕ → Bool) → Startup
unfolding init_loop
startup v argc num_threads keys memory works =
    if argc == 2
    then (if int_lt 0 num_threads
        then (if memory
            then (if init_locks v works
                then runs (record { keys = keys; num_threads = num_threads; lock_of = locks_of v })
                else init_failed)
            else no_memory)
        else bad_threads)
    else usage

-- The count of the last line that main prints, from the table after the barrier.
abbrev pub retrieved : Program → Table → Option ℕ
retrieved p t = on_some (λ lost. length p.keys - lost) (total_lost p t 0 p.num_threads)

-- pthread_join passes a thread that is at pthread_exit.
abbrev pub joins : Option Pc → Bool → Bool
joins (some finished) rest = rest
joins _ rest = false

-- The loop of pthread_join, over the n threads from i on: whether it ends.
unfoldable pub join_puts : List Pc → ℕ → ℕ → Bool
join_puts ts i zero = true
join_puts ts i (suc n) = let rest = join_puts ts (suc i) n in joins (get_elem? ts i) rest

-- How main ends: before its threads start; in the panic of an insert; with the count of its last
-- line; `joining` where a thread never comes to its end.
pub data Outcome : Type 0 where
  stops : Startup → Outcome
  no_bucket joining : Outcome
  prints : ℕ → Outcome

-- The last line, from the sum of the threads' counts.
abbrev pub last_line : Program → Option ℕ → Outcome
last_line p none = joining
last_line p (some total) = prints (length p.keys - total)

-- main from the put phase on; `puts` and `gets` are the schedules of the two phases.
unfoldable pub phases : Program → List Turn → List ℕ → Outcome
phases p puts gets = elim (run_turns p puts (begin p)) [
  | none ↦ no_bucket
  | some w ↦
      if join_puts w.threads 0 p.num_threads
      then last_line p (join_gets (get_turns p w.table gets (create_gets 0 p.num_threads)))
      else joining
]

unfoldable pub main : Variant → ℕ → ℕ → List ℕ → Bool → (ℕ → Bool) → List Turn → List ℕ → Outcome
unfolding startup phases
main v argc num_threads keys memory works puts gets =
    elim (startup v argc num_threads keys memory works) [
      | runs p ↦ phases p puts gets
      | end ↦ stops end
    ]

-- The three programs, each with its main.
abbrev pub hashtable_main : ℕ → ℕ → List ℕ → Bool → List Turn → List ℕ → Outcome
hashtable_main argc num_threads keys memory puts gets =
    main unlocked argc num_threads keys memory (λ i. true) puts gets

abbrev pub spin_main : ℕ → ℕ → List ℕ → Bool → (ℕ → Bool) → List Turn → List ℕ → Outcome
spin_main = main spin

abbrev pub mutex_main : ℕ → ℕ → List ℕ → Bool → (ℕ → Bool) → List Turn → List ℕ → Outcome
mutex_main = main mutex

-- The lock of a bucket in the two programs that lock.
abbrev pub lock_index : Variant → ℕ → ℕ
lock_index unlocked i = i
lock_index spin i = 0
lock_index mutex i = i

locks_of-index : (v : Variant) → v ≢ unlocked → (i : ℕ) → locks_of v i ≡ some (lock_index v i)
locks_of-index unlocked locked i = absurd (locked refl)
locks_of-index spin locked i = refl
locks_of-index mutex locked i = refl

-- What runs has one thread at least, the program's locks and the keys.
abbrev IsStarted : Variant → List ℕ → Startup → Type 0
IsStarted v keys (runs p) = (0 < p.num_threads) × (p.lock_of ≡ locks_of v) × (p.keys ≡ keys)
IsStarted v keys usage = Unit
IsStarted v keys bad_threads = Unit
IsStarted v keys no_memory = Unit
IsStarted v keys init_failed = Unit

startup-IsStarted :
    (v : Variant) (argc num_threads : ℕ) (keys : List ℕ) (memory : Bool) (works : ℕ → Bool)
    → IsStarted v keys (startup v argc num_threads keys memory works)
unfolding startup
startup-IsStarted v argc num_threads keys memory works =
    by_tests (argc == 2) (int_lt 0 num_threads) memory (init_locks v works)
      (λ positive. ground arith)
  where
    by_tests :
        (two positive given inits : Bool)
        → (positive ≡ true → 0 < num_threads)
        → IsStarted v keys (
            if two
            then (if positive
                then (if given
                    then (if inits
                        then runs (record {
                          keys = keys;
                          num_threads = num_threads;
                          lock_of = locks_of v;
                        })
                        else init_failed)
                    else no_memory)
                else bad_threads)
            else usage)
    by_tests false positive given inits h = tt
    by_tests true false given inits h = tt
    by_tests true true false inits h = tt
    by_tests true true true false h = tt
    by_tests true true true true h = (h refl, refl, refl)

-- The program that main starts: its threads, the locks of its buckets and its keys.
pub started :
    (v : Variant) (argc num_threads : ℕ) (keys : List ℕ) (memory : Bool) (works : ℕ → Bool)
    (p : Program)
    → v ≢ unlocked
    → startup v argc num_threads keys memory works ≡ runs p
    → (0 < p.num_threads) × ((i : ℕ) → p.lock_of i ≡ some (lock_index v i)) × (p.keys ≡ keys)
started v argc num_threads keys memory works p locked e =
    let (some_thread, locks, same) =
      subst (IsStarted v keys) e (startup-IsStarted v argc num_threads keys memory works) in
    (some_thread, λ i. ap (λ f. f i) locks ∙ locks_of-index v locked i, same)

-- Whatever main of parallel_spin.c or parallel_mutex.c starts with, once its threads are joined,
-- after any interleaving of their steps, the get phase finds all NUM_KEYS keys.
pub joined-retrieved :
    (v : Variant) (argc num_threads : ℕ) (keys : List ℕ) (memory : Bool) (works : ℕ → Bool)
    (p : Program) (w : World)
    → v ≢ unlocked
    → startup v argc num_threads keys memory works ≡ runs p
    → Reach p (begin p) w
    → IsJoined p w
    → retrieved p w.table ≡ some (length keys)
joined-retrieved v argc num_threads keys memory works p w locked e r joined =
    let (some_thread, covers, same) = started v argc num_threads keys memory works p locked e in
    let none_lost = (nothing_lost p (lock_index v) covers w some_thread r joined).1 in
    let all : length p.keys - 0 ≡ length p.keys = omega arith in
    rw none_lost (ap some (all ∙ ap length same))

lock_index-bounded : (v : Variant) (i : ℕ) → i < num_buckets → lock_index v i < num_buckets
lock_index-bounded unlocked i h = h
lock_index-bounded spin i h = omega arith
lock_index-bounded mutex i h = h

-- Every schedule of rounds in each of which every thread has a turn, with memory for malloc, joins
-- the threads of parallel_spin.c and parallel_mutex.c, with all keys in the table.
pub fair-retrieved :
    (v : Variant) (argc num_threads : ℕ) (keys : List ℕ) (memory : Bool) (works : ℕ → Bool)
    (p : Program) (rounds : List (List ℕ))
    → v ≢ unlocked
    → startup v argc num_threads keys memory works ≡ runs p
    → AreRounds p rounds
    → p.num_threads * (5 * length p.keys + 1) ≤ length rounds
    → (w : World) × (run_turns p (in_order rounds) (begin p) ≡ some w)
      × IsJoined p w
      × (retrieved p w.table ≡ some (length keys))
fair-retrieved v argc num_threads keys memory works p rounds locked e fair enough =
    let (some_thread, covers, same) = started v argc num_threads keys memory works p locked e in
    let (w, ran, joined) =
      fair-IsJoined p some_thread (lock_index v) covers (lock_index-bounded v) rounds fair enough in
    let r = run_turns-Reach p (in_order rounds) (begin p) (begin p) w start ran in
    (w, ran, joined, joined-retrieved v argc num_threads keys memory works p w locked e r joined)
