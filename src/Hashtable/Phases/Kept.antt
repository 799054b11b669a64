-- ===== src/Hashtable/Phases/Kept.antt =====
-- With a lock per bucket no insert of the put phase is lost, and the get phase counts none.
use nyu_operating_systems.Base.{
  ℕ, ◌+◌, ◌*◌, ◌-◌, ◌<◌, ◌≤◌, ◌%◌, ◌/◌, some, length, get_elem?, ltb, ◌≡◌, zero, suc, arith, refl,
  Bool-cases, inl, inr, ltb→lt, ltb→le, mod-lt, div-add-mod', mul-le-mul_right, subst,
}
use nyu_operating_systems.Hashtable.Table.{Table, retrieve}
use nyu_operating_systems.Hashtable.Threads.{Program, World, finished, key_at, begin, Reach}
use nyu_operating_systems.Hashtable.Safe.{IsFound}
use nyu_operating_systems.Hashtable.Safe.Steps.{Run-Inv}
use nyu_operating_systems.Hashtable.Phases.{count_lost, get_loop, get_phase, total_lost}

-- The barrier is passed: each of the num_threads threads is at pthread_exit.
abbrev pub IsJoined : Program → World → Type 0
IsJoined p w = (t : ℕ) → t < p.num_threads → get_elem? w.threads t ≡ some finished

count_lost-found :
    (p : Program) (t : Table) (key lost : ℕ)
    → IsFound (key_at p key) t
    → count_lost (retrieve (key_at p key) t) lost ≡ lost
count_lost-found p t key lost (b, e) = rw e refl

-- The test fails after at most NUM_KEYS - key + 1 rounds.
get_loop-none_lost :
    (p : Program) (t : Table) (fuel key : ℕ)
    → 0 < p.num_threads
    → length p.keys - key < fuel
    → ((j : ℕ) → j < length p.keys → IsFound (key_at p j) t)
    → get_loop p t fuel key 0 ≡ some 0
unfolding get_loop
get_loop-none_lost p t zero key some_thread enough found = absurd (omega arith)
get_loop-none_lost p t (suc fuel) key some_thread enough found =
    elim (Bool-cases (ltb key (length p.keys))) [
      | inl more ↦
          rw (more, count_lost-found p t key 0 (found key (ground arith)))
            (get_loop-none_lost p t fuel (key + p.num_threads) some_thread
              (omega (arith, ltb→lt key (length p.keys) more)) found)
      | inr over ↦ rw over refl
    ]

get_phase-none_lost :
    (p : Program) (t : Table) (tid : ℕ)
    → 0 < p.num_threads
    → ((j : ℕ) → j < length p.keys → IsFound (key_at p j) t)
    → get_phase p t tid ≡ some 0
unfolding get_phase
get_phase-none_lost p t tid some_thread found =
    get_loop-none_lost p t (suc (length p.keys)) tid some_thread (omega arith) found

total_lost-none :
    (p : Program) (t : Table) (i n : ℕ)
    → 0 < p.num_threads
    → ((j : ℕ) → j < length p.keys → IsFound (key_at p j) t)
    → total_lost p t i n ≡ some 0
unfolding total_lost
total_lost-none p t i zero some_thread found = refl
total_lost-none p t i (suc n) some_thread found =
    rw
      (get_phase-none_lost p t i some_thread found, total_lost-none p t (suc i) n some_thread found)
      refl

module _ (p : Program) (lock : ℕ → ℕ) (covers : (i : ℕ) → p.lock_of i ≡ some (lock i)) where
  -- Once the threads are joined, retrieve finds every key.
  joined-IsFound :
      (w : World)
      → 0 < p.num_threads
      → Reach p (begin p) w
      → IsJoined p w
      → (j : ℕ) → j < length p.keys
      → IsFound (key_at p j) w.table
  joined-IsFound w some_thread r joined j h =
      let m = p.num_threads in
      let (_, n, last, found) =
        (Run-Inv p lock covers w r).each (j % m) finished (joined (j % m) (mod-lt j some_thread)) in
      let split : j / m * m + j % m ≡ j = div-add-mod' j m in
      let past : n ≤ j / m → n * m ≤ j / m * m = λ g. mul-le-mul_right m g in
      let before : j / m < n = elim (Bool-cases (ltb (j / m) n)) [
        | inl b ↦ ltb→lt (j / m) n b
        | inr b ↦ let over = past (ltb→le (j / m) n b) in absurd (omega arith)
      ] in
      let here : j % m + j / m * m ≡ j = omega arith in
      subst (λ z. IsFound (key_at p z) w.table) here (found (j / m) before)

  -- If insert locks every bucket i with `lock i`, then in every world that the put phase can reach,
  -- once all its num_threads > 0 threads are joined, retrieve finds each of the keys, and the get
  -- phase ends with total_lost = 0.
  pub nothing_lost :
      (w : World)
      → 0 < p.num_threads
      → Reach p (begin p) w
      → IsJoined p w
      → ((j : ℕ) → j < length p.keys → IsFound (key_at p j) w.table)
        × (total_lost p w.table 0 p.num_threads ≡ some 0)
  nothing_lost w some_thread r joined =
      let found = joined-IsFound w some_thread r joined in
      (found, total_lost-none p w.table 0 p.num_threads some_thread found)
