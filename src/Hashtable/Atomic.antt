-- ===== src/Hashtable/Atomic.antt =====
-- The put phase of hw4/parallel_spin.c and hw4/parallel_mutex.c as inserts that happen at once.
use nyu_operating_systems.Base.{
  ℕ, ◌+◌, ◌*◌, ◌<◌, ◌≤◌, Bool, none, some, List, length, get_elem?, set, ◌≡◌, ◌⊎◌, [], ◌∷◌, zero,
  suc, arith, refl, Bool-cases, inl, inr, Option-cases, ltb, sym, subst, ap, get_elem?-set_cases,
  some-inj, ◌∙◌, occurs, occurs_self, occurs_other,
}
use nyu_operating_systems.Hashtable.Table.{Entry, Table, empty_table, chain, set_chain, insert}
use nyu_operating_systems.Hashtable.Threads.{
  Program, World, Pc, ready, waiting, linking, linked, unlocking, finished, key_at, bucket, goto,
  acquire, release, advance, take_turn, create, begin, Turn, Reach, start, later,
}
use nyu_operating_systems.Hashtable.Safe.{HasPut, IsLocked, Inv}
use nyu_operating_systems.Hashtable.Safe.Steps.{Run-Inv, create-ready}

-- The next key of thread t, after n inserts.
abbrev pub position : Program → ℕ → ℕ → ℕ
position p t n = t + n * p.num_threads

-- The table after whole inserts, one after the other; the log has the threads that made them, the
-- last one first, and each thread inserts its keys in the order of its loop.
abbrev pub sequential : Program → List ℕ → Table
sequential p [] = empty_table
sequential p (t ∷ log) = insert (key_at p (position p t (occurs t log))) t (sequential p log)

-- Each insert of the log is of a key that there is.
abbrev pub IsWithin : Program → List ℕ → Type 0
IsWithin p [] = Unit
IsWithin p (t ∷ log) =
    (t < p.num_threads) × (position p t (occurs t log) < length p.keys) × IsWithin p log

-- In the body of the loop the key is one of the array.
abbrev pub HasKey : Program → Pc → Type 0
HasKey p (ready key) = Unit
HasKey p (waiting key) = key < length p.keys
HasKey p (linking key) = key < length p.keys
HasKey p (linked key next) = key < length p.keys
HasKey p (unlocking key) = key < length p.keys
HasKey p finished = Unit

module _ (p : Program) (lock : ℕ → ℕ) where
  abbrev pub IsAt : ℕ → Pc → ℕ → Type 0
  IsAt t pc n = HasPut p lock t pc n × HasKey p pc × (t < p.num_threads)

  -- The world shows the log: its table, and how far each thread is.
  pub record Shows (w : World) (log : List ℕ) : Type 0 where
    pub same : w.table ≡ sequential p log
    pub within : IsWithin p log
    pub places : (t : ℕ) (pc : Pc) → get_elem? w.threads t ≡ some pc → IsAt t pc (occurs t log)

  -- A step that leaves the table.
  Shows-goto :
      (w w' : World) (log : List ℕ) (tid : ℕ) (pc : Pc)
      → Shows w log
      → w'.table ≡ w.table
      → w'.threads ≡ set w.threads tid pc
      → IsAt tid pc (occurs tid log)
      → Shows w' log
  Shows-goto w w' log tid pc v kept moved mine = record {
    same = kept ∙ v.same;
    within = v.within;
    places = λ t q e. elim (get_elem?-set_cases w.threads tid t pc q (rw (sym moved) e)) [
      | inl (same, here) ↦
          subst (λ z. IsAt t z (occurs t log)) here
            (subst (λ z. IsAt z pc (occurs z log)) same mine)
      | inr (other, there) ↦ v.places t q there
    ];
  }

  -- The write of table[i] is the whole insert.
  Shows-put :
      (w : World) (log : List ℕ) (tid key : ℕ) (next : List Entry)
      → Shows w log
      → chain w.table (bucket p key) ≡ next
      → IsAt tid (linked key next) (occurs tid log)
      → Shows
          (goto tid (unlocking key) (record w {
            table =
                set_chain w.table (bucket p key) (record { key = key_at p key; val = tid } ∷ next);
          }))
          (tid ∷ log)
  unfolding insert
  Shows-put w log tid key next v c (at, key_there, small) = record {
    same =
        ap (λ ch. set_chain w.table (bucket p key) (record { key = key_at p key; val = tid } ∷ ch))
          (sym c)
        ∙ ap (insert (key_at p key) tid) v.same
        ∙ ap (λ k. insert (key_at p k) tid (sequential p log)) at;
    within = (small, omega arith, v.within);
    places = λ t q e. elim (get_elem?-set_cases w.threads tid t (unlocking key) q e) [
      | inl (same, here) ↦
          subst (λ z. IsAt t z (occurs t (tid ∷ log))) here
            (subst (λ z. IsAt z (unlocking key) (occurs z (tid ∷ log))) same
              (rw (occurs_self tid log) (grind arith, key_there, small)))
      | inr (other, there) ↦ rw (occurs_other t tid log other) (v.places t q there)
    ];
  }

  -- A turn shows the same log, or one insert more.
  abbrev pub Follows : World → List ℕ → ℕ → Type 0
  Follows w' log tid = Shows w' log ⊎ Shows w' (tid ∷ log)

  module _ (covers : (i : ℕ) → p.lock_of i ≡ some (lock i)) where
    acquire-Follows :
        (w : World) (log : List ℕ) (tid key : ℕ)
        → Shows w log
        → IsAt tid (waiting key) (occurs tid log)
        → Shows (acquire (some (lock (bucket p key))) tid (linking key) w) log
    unfolding acquire
    acquire-Follows w log tid key v mine =
        let l = lock (bucket p key) in
        elim (Option-cases (get_elem? w.owners l)) [
          | inl out ↦ rw (acquire, out) v
          | inr (none, there) ↦
              rw (acquire, there)
                (Shows-goto w
                  (goto tid (linking key) (record w { owners = set w.owners l (some tid) })) log tid
                  (linking key) v refl refl mine)
          | inr (some t, there) ↦ rw (acquire, there) v
        ]

    advance-Follows :
        (w w' : World) (log : List ℕ) (tid : ℕ) (memory : Bool) (pc : Pc)
        → Shows w log
        → IsLocked p lock w tid pc
        → IsAt tid pc (occurs tid log)
        → advance p memory tid pc w ≡ some w'
        → Follows w' log tid
    unfolding advance release
    advance-Follows w w' log tid memory (ready key) v h (at, t, small) e =
        elim (Bool-cases (ltb key (length p.keys))) [
          | inl more ↦ elim (Bool-cases memory) [
            | inl given ↦
                subst (λ z. Follows z log tid) (some-inj (rw (advance, more, given) at e))
                  (inl (
                    Shows-goto w (goto tid (waiting key) w) log tid (waiting key) v refl refl
                      (at, ground arith, small)))
            | inr out ↦ absurd (ground arith)
          ]
          | inr over ↦
              let last : length p.keys ≤ tid + occurs tid log * p.num_threads = ground arith in
              subst (λ z. Follows z log tid) (some-inj (rw (advance, over) at e))
                (inl (
                  Shows-goto w (goto tid finished w) log tid finished v refl refl
                    (last, tt, small)))
        ]
    advance-Follows w w' log tid memory (waiting key) v h mine e =
        subst (λ z. Follows z log tid) (some-inj (rw (covers (bucket p key)) at e))
          (inl (acquire-Follows w log tid key v mine))
    advance-Follows w w' log tid memory (linking key) v h mine e =
        subst (λ z. Follows z log tid) (some-inj e)
          (inl (
            Shows-goto w (goto tid (linked key (chain w.table (bucket p key))) w) log tid
              (linked key (chain w.table (bucket p key))) v refl refl mine))
    advance-Follows w w' log tid memory (linked key next) v (held, c) mine e =
        subst (λ z. Follows z log tid) (some-inj e) (inr (Shows-put w log tid key next v c mine))
    advance-Follows w w' log tid memory (unlocking key) v h (at, t, small) e =
        let freed : World = record w { owners = set w.owners (lock (bucket p key)) none } in
        subst (λ z. Follows z log tid) (some-inj (rw (covers (bucket p key)) at e))
          (inl (
            Shows-goto w (goto tid (ready (key + p.num_threads)) freed) log tid
              (ready (key + p.num_threads)) v refl refl (at, tt, small)))
    advance-Follows w w' log tid memory finished v h mine e =
        subst (λ z. Follows z log tid) (some-inj e) (inl v)

    -- One turn of any thread, in a world that the put phase can reach: its table stays, or is the
    -- table after one whole insert more, by this thread and of its next key.
    take_turn-Follows :
        (w w' : World) (log : List ℕ) (u : Turn)
        → Inv p lock w
        → Shows w log
        → take_turn p u w ≡ some w'
        → Follows w' log u.tid
    unfolding take_turn
    take_turn-Follows w w' log u i v e = elim (Option-cases (get_elem? w.threads u.tid)) [
      | inl none_such ↦
          subst (λ z. Follows z log u.tid) (some-inj (rw (take_turn, none_such) at e)) (inl v)
      | inr (pc, there) ↦
          advance-Follows w w' log u.tid u.memory pc v (i.each u.tid pc there).0
            (v.places u.tid pc there) (rw (take_turn, there) at e)
    ]

    create-small : (i n t : ℕ) (pc : Pc) → get_elem? (create i n) t ≡ some pc → t < n
    create-small i zero t pc e = absurd (cc)
    create-small i (suc n) zero pc e = omega arith
    create-small i (suc n) (suc t) pc e = omega (arith, create-small (suc i) n t pc e)

    begin-Shows : Shows (begin p) []
    begin-Shows = record {
      same = refl;
      within = tt;
      places = λ t pc e.
          let here : ready (t + 0) ≡ pc = sym (create-ready p lock covers 0 p.num_threads t pc e) in
          subst (λ z. IsAt t z 0) here (grind arith, tt, create-small 0 p.num_threads t pc e);
    }

    -- In every world that the put phase can reach, if insert locks every bucket, the table is that of
    -- whole inserts, one after the other, in which each thread inserts its keys in the order of its
    -- loop: as many as the place of the thread says, and none that is not in the array.
    pub Reach-Shows : (w : World) → Reach p (begin p) w → (log : List ℕ) × Shows w log
    Reach-Shows w start = ([], begin-Shows)
    Reach-Shows w (later {w'} {w''} r u e) =
        let (log, v) = Reach-Shows w' r in
        elim (take_turn-Follows w' w'' log u (Run-Inv p lock covers w' r) v e) [
          | inl same ↦ (log, same)
          | inr more ↦ (u.tid ∷ log, more)
        ]
