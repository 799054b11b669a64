-- ===== src/Hashtable/Phases.antt =====
-- get_phase of the programs of hw4, and main's count of the lost keys.
pub mod Kept
use nyu_operating_systems.Base.{
  ℕ, ◌+◌, Option, none, some, length, ltb, if◌then◌else◌, ◌>>=◌, zero, suc,
}
use nyu_operating_systems.Hashtable.Table.{Entry, Table, retrieve}
use nyu_operating_systems.Hashtable.Threads.{Program, key_at}

-- lost++ where retrieve returns NULL.
abbrev pub count_lost : Option Entry → ℕ → ℕ
count_lost none lost = lost + 1
count_lost (some b) lost = lost

-- The loop of get_phase, for at most `fuel` tests of its condition.
unfoldable pub get_loop : Program → Table → ℕ → ℕ → ℕ → Option ℕ
get_loop p t zero key lost = none
get_loop p t (suc fuel) key lost =
    let rest =
      get_loop p t fuel (key + p.num_threads) (count_lost (retrieve (key_at p key) t) lost) in
    if ltb key (length p.keys) then rest else some lost

-- A thread of get_phase; its loop tests at most NUM_KEYS + 1 times.
unfoldable pub get_phase : Program → Table → ℕ → Option ℕ
get_phase p t tid = get_loop p t (suc (length p.keys)) tid 0

-- total_lost of main's second loop of pthread_join, from i on for n threads.
unfoldable pub total_lost : Program → Table → ℕ → ℕ → Option ℕ
total_lost p t i zero = some 0
total_lost p t i (suc n) = do
  lost ← get_phase p t i
  rest ← total_lost p t (suc i) n
  some (lost + rest)
