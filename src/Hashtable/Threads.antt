-- ===== src/Hashtable/Threads.antt =====
-- The threads of put_phase and their interleavings, in the programs hw4/parallel_hashtable.c,
-- parallel_spin.c and parallel_mutex.c: one model, with the lock that insert takes as a parameter.
use nyu_operating_systems.Base.{
  ℕ, ◌+◌, Bool, Option, none, some, List, length, get_or, get_elem?, set, ltb, if◌then◌else◌, ◌≡◌,
  replicate, [], ◌∷◌, zero, suc,
}
use nyu_operating_systems.Hashtable.Table.{
  Entry, Table, empty_table, bucket_of, chain, set_chain, num_buckets,
}

-- A run of the program: keys, whose length is NUM_KEYS, num_threads, and the lock of a bucket.
pub record Program : Type 0 where
  pub keys : List ℕ
  pub num_threads : ℕ
  pub lock_of : ℕ → Option ℕ

-- parallel_hashtable.c takes no lock.
abbrev pub no_lock : ℕ → Option ℕ
no_lock i = none

-- parallel_spin.c: the one spinlock.
abbrev pub spinlock : ℕ → Option ℕ
spinlock i = some 0

-- parallel_mutex.c: locks[i].
abbrev pub mutexes : ℕ → Option ℕ
mutexes i = some i

-- Where a thread of put_phase is, with its `key`: at the loop's test; after malloc, before the
-- lock; before the read of table[i]; before the write of table[i], with the e->next it has read;
-- before the unlock; at pthread_exit.
pub data Pc : Type 0 where
  ready : ℕ → Pc
  waiting : ℕ → Pc
  linking : ℕ → Pc
  linked : ℕ → List Entry → Pc
  unlocking : ℕ → Pc
  finished : Pc

-- The shared memory, with the holder of each lock, and the threads.
pub record World : Type 0 where
  pub table : Table
  pub owners : List (Option ℕ)
  pub threads : List Pc

abbrev pub goto : ℕ → Pc → World → World
goto tid pc w = record w { threads = set w.threads tid pc }

-- keys[key]
abbrev pub key_at : Program → ℕ → ℕ
key_at p key = get_or p.keys key 0

-- table[i], the lock of that entry's bucket
abbrev pub bucket : Program → ℕ → ℕ
bucket p key = bucket_of (key_at p key)

-- pthread_mutex_lock, pthread_spin_lock: the thread waits while another holds the lock.
unfoldable pub acquire : Option ℕ → ℕ → Pc → World → World
acquire none tid pc w = goto tid pc w
acquire (some l) tid pc w = elim (get_elem? w.owners l) [
  | some none ↦ goto tid pc (record w { owners = set w.owners l (some tid) })
  | some (some t) ↦ w
  | none ↦ w
]

-- pthread_mutex_unlock, pthread_spin_unlock
unfoldable pub release : Option ℕ → World → World
release none w = w
release (some l) w = record w { owners = set w.owners l none }

-- The next step of thread tid; `memory` is malloc's answer, and without it insert ends the program.
unfoldable pub advance : Program → Bool → ℕ → Pc → World → Option World
advance p memory tid (ready key) w =
    if ltb key (length p.keys)
    then (if memory then some (goto tid (waiting key) w) else none)
    else some (goto tid finished w)
advance p memory tid (waiting key) w = some (acquire (p.lock_of (bucket p key)) tid (linking key) w)
advance p memory tid (linking key) w = some (goto tid (linked key (chain w.table (bucket p key))) w)
advance p memory tid (linked key next) w = some (
    goto tid (unlocking key) (record w {
      table = set_chain w.table (bucket p key) (record { key = key_at p key; val = tid } ∷ next);
    }))
advance p memory tid (unlocking key) w =
    some (goto tid (ready (key + p.num_threads)) (release (p.lock_of (bucket p key)) w))
advance p memory tid finished w = some w

-- A turn of the machine's scheduler: the thread that steps, and what malloc answers it.
pub record Turn : Type 0 where
  pub tid : ℕ
  pub memory : Bool

unfoldable pub take_turn : Program → Turn → World → Option World
take_turn p u w = elim (get_elem? w.threads u.tid) [
  | none ↦ some w
  | some pc ↦ advance p u.memory u.tid pc w
]

-- The threads that pthread_create starts from main's loop at i, each with its i.
abbrev pub create : ℕ → ℕ → List Pc
create i zero = []
create i (suc n) = ready i ∷ create (suc i) n

-- main before the threads run: an empty table, free locks.
abbrev pub begin : Program → World
begin p = record {
  table = empty_table;
  owners = replicate num_buckets none;
  threads = create 0 p.num_threads;
}

-- The worlds that some interleaving leads to.
pub data Reach (p : Program) (w : World) : World → Type 0 where
  start : Reach p w w
  later : {w' w'' : World} → Reach p w w' → (u : Turn) → take_turn p u w' ≡ some w'' → Reach p w w''
