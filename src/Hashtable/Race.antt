-- ===== src/Hashtable/Race.antt =====
-- What the threads of hw4/parallel_hashtable.c do to each other without a lock.
use nyu_operating_systems.Base.{
  get_or, replicate, length, ℕ, true, false, Option, none, some, List, [], ◌∷◌, ◌≡◌, ◌≢◌, refl,
  arith, ◌>>=◌, ◌==◌, subst, some-inj, Option-cases, inl, inr, zero, suc, ◌<◌,
}
use nyu_operating_systems.Hashtable.Table.{
  Table, bucket_of, chain, set_chain, retrieve, chain-set_chain, search_chain, empty_table, Entry,
  length-set_chain,
}
use nyu_operating_systems.Hashtable.Threads.{
  Program, World, finished, no_lock, begin, Reach, start, later, Turn, take_turn, advance, acquire,
  release,
}
use nyu_operating_systems.Hashtable.Phases.Kept.{IsJoined}

-- A schedule: the turns in their order.
unfoldable pub run_turns : Program → List Turn → World → Option World
run_turns p [] w = some w
run_turns p (u ∷ us) w = do w' ← take_turn p u w; run_turns p us w'

pub run_turns-Reach :
    (p : Program) (us : List Turn) (w0 w w' : World)
    → Reach p w0 w
    → run_turns p us w ≡ some w'
    → Reach p w0 w'
unfolding run_turns
run_turns-Reach p [] w0 w w' r e = subst (Reach p w0) (some-inj e) r
run_turns-Reach p (u ∷ us) w0 w w' r e = elim (Option-cases (take_turn p u w)) [
  | inl stop ↦ absurd (cc (rw (run_turns, stop) at e))
  | inr (w1, s) ↦ run_turns-Reach p us w0 w1 w' (later r u s) (rw (run_turns, s) at e)
]

-- A turn with memory for thread t.
abbrev pub turn : ℕ → Turn
turn t = record { tid = t; memory = true }

abbrev pub turns : List ℕ → List Turn
turns [] = []
turns (t ∷ ts) = turn t ∷ turns ts

-- Both threads read the empty chain, thread 0 links its entry, thread 1 links over it.
abbrev pub race_order : List Turn
race_order = turns (0 ∷ 0 ∷ 0 ∷ 1 ∷ 1 ∷ 1 ∷ 0 ∷ 0 ∷ 0 ∷ 1 ∷ 1 ∷ 1 ∷ [])

abbrev pub racing : ℕ → ℕ → Program
racing a b = record { keys = a ∷ b ∷ []; num_threads = 2; lock_of = no_lock }

-- Thread 1's write of table[i], after thread 0's.
abbrev pub raced_table : ℕ → ℕ → Table
raced_table a b =
    set_chain
      (set_chain empty_table (bucket_of a)
        (record { key = a; val = 0 } ∷ chain empty_table (bucket_of a)))
      (bucket_of b) (record { key = b; val = 1 } ∷ chain empty_table (bucket_of b))

abbrev pub raced : ℕ → ℕ → World
raced a b = record {
  table = raced_table a b;
  owners = (begin (racing a b)).owners;
  threads = finished ∷ finished ∷ [];
}

pub race_order-runs :
    (a b : ℕ) → run_turns (racing a b) race_order (begin (racing a b)) ≡ some (raced a b)
unfolding run_turns take_turn advance acquire release
race_order-runs a b = refl

get_or-empty : (n i : ℕ) → get_or {A = List Entry} (replicate n []) i [] ≡ []
get_or-empty zero i = refl
get_or-empty (suc n) zero = refl
get_or-empty (suc n) (suc i) = get_or-empty n i

pub raced-loses :
    (a b : ℕ) → a ≢ b → bucket_of a ≡ bucket_of b → retrieve a (raced_table a b) ≡ none
unfolding retrieve search_chain
raced-loses a b differ near =
    let t1 =
      set_chain empty_table (bucket_of a)
        (record { key = a; val = 0 } ∷ chain empty_table (bucket_of a)) in
    let here : bucket_of b == bucket_of a ≡ true = ground arith in
    let small : bucket_of b < 5 = omega arith in
    let size : length t1 ≡ 5 = length-set_chain empty_table (bucket_of a) _ in
    let other : b == a ≡ false = ground arith in
    rw
      (
        chain-set_chain t1 (bucket_of b) (bucket_of a)
            (record { key = b; val = 1 } ∷ chain empty_table (bucket_of b)) (omega arith),
        here,
        other,
        get_or-empty 5 (bucket_of b),
      )
      refl

IsJoined-two : (a b : ℕ) → IsJoined (racing a b) (raced a b)
IsJoined-two a b zero h = refl
IsJoined-two a b (suc zero) h = refl
IsJoined-two a b (suc (suc t)) h = absurd (omega arith)

-- Without a lock, two threads that insert two different keys of the same bucket can reach a world
-- in which both are joined and retrieve does not find the first key.
pub race-loses :
    (a b : ℕ)
    → a ≢ b
    → bucket_of a ≡ bucket_of b
    → (w : World) × Reach (racing a b) (begin (racing a b)) w
      × IsJoined (racing a b) w
      × (retrieve a w.table ≡ none)
race-loses a b differ near = (
  raced a b,
  run_turns-Reach (racing a b) race_order (begin (racing a b)) (begin (racing a b)) (raced a b)
      start (race_order-runs a b),
  IsJoined-two a b,
  raced-loses a b differ near,
)
