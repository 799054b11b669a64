-- ===== src/Hashtable/Safe.antt =====
-- What the lock buys the threads of hw4/parallel_spin.c and hw4/parallel_mutex.c.
pub mod Steps
pub mod Moves
pub mod Free
use nyu_operating_systems.Base.{
  ℕ, ◌+◌, ◌*◌, ◌<◌, ◌≤◌, Bool, true, false, Option, none, some, List, length, get_or, get_elem?,
  set, ◌≡◌, ◌≢◌, [], ◌∷◌, zero, suc, arith, refl, get_elem?-set, ◌==◌, Bool-cases, inl, inr, over,
  Option-cases, ltb, ltb→le, sym, subst, get_elem?-set_cases, get_elem?-set_self,
}
use nyu_operating_systems.Hashtable.Table.{
  Entry, Table, bucket_of, chain, set_chain, num_buckets, retrieve, insert, retrieve-insert,
  chain-set_chain, length-set_chain,
}
use nyu_operating_systems.Hashtable.Threads.{
  Program, World, Pc, ready, waiting, linking, linked, unlocking, finished, key_at, bucket, goto,
  acquire, release, advance, take_turn, Turn, Reach, start, later,
}

-- retrieve finds the key.
abbrev pub IsFound : ℕ → Table → Type 0
IsFound key t = (b : Entry) × (retrieve key t ≡ some b)

pub insert-IsFound :
    (key val other : ℕ) (t : Table)
    → length t ≡ num_buckets
    → IsFound other t
    → IsFound other (insert key val t)
insert-IsFound key val other t size (b, e) = elim (Bool-cases (key == other)) [
  | inl same ↦
      (record { key = key; val = val }, rw (retrieve-insert key val other t size, same) refl)
  | inr differ ↦ (b, rw (retrieve-insert key val other t size, differ) e)
]

pub insert-IsFound_self :
    (key val : ℕ) (t : Table) → length t ≡ num_buckets → IsFound key (insert key val t)
insert-IsFound_self key val t size =
    let same : key == key ≡ true = ground arith in
    (record { key = key; val = val }, rw (retrieve-insert key val key t size, same) refl)

module _ (p : Program) (lock : ℕ → ℕ) where
  -- Thread t holds the lock of the entry's bucket.
  abbrev pub Holds : World → ℕ → ℕ → Type 0
  Holds w t key = get_elem? w.owners (lock (bucket p key)) ≡ some (some t)

  -- From lock to unlock a thread holds the lock, and the link it has read is still the chain.
  abbrev pub IsLocked : World → ℕ → Pc → Type 0
  IsLocked w t (ready key) = Unit
  IsLocked w t (waiting key) = Unit
  IsLocked w t (linking key) = Holds w t key
  IsLocked w t (linked key next) = Holds w t key × (chain w.table (bucket p key) ≡ next)
  IsLocked w t (unlocking key) = Holds w t key
  IsLocked w t finished = Unit

  -- Thread t has n inserts behind it.
  abbrev pub HasPut : ℕ → Pc → ℕ → Type 0
  HasPut t (ready key) n = key ≡ t + n * p.num_threads
  HasPut t (waiting key) n = key ≡ t + n * p.num_threads
  HasPut t (linking key) n = key ≡ t + n * p.num_threads
  HasPut t (linked key next) n = key ≡ t + n * p.num_threads
  HasPut t (unlocking key) n = key + p.num_threads ≡ t + n * p.num_threads
  HasPut t finished n = length p.keys ≤ t + n * p.num_threads

  abbrev pub AllFound : World → ℕ → ℕ → Type 0
  AllFound w t n = (c : ℕ) → c < n → IsFound (key_at p (t + c * p.num_threads)) w.table

  abbrev pub IsSound : World → ℕ → Pc → Type 0
  IsSound w t pc = IsLocked w t pc × (n : ℕ) × HasPut t pc n × AllFound w t n

  pub record Inv (w : World) : Type 0 where
    pub size : length w.table ≡ num_buckets
    pub each : (t : ℕ) (pc : Pc) → get_elem? w.threads t ≡ some pc → IsSound w t pc

  -- A step of thread tid keeps the invariant when its own new place is sound, and the others' stay.
  pub Inv-goto :
      (w w' : World) (tid : ℕ) (pc : Pc)
      → Inv w
      → length w'.table ≡ num_buckets
      → w'.threads ≡ set w.threads tid pc
      → IsSound w' tid pc
      → ((t : ℕ) (q : Pc) → t ≢ tid → IsSound w t q → IsSound w' t q)
      → Inv w'
  Inv-goto w w' tid pc v size moved mine theirs = record {
    size = size;
    each = λ t q e. elim (get_elem?-set_cases w.threads tid t pc q (rw (sym moved) e)) [
      | inl (same, here) ↦ subst (λ z. IsSound w' t z) here (subst (λ z. IsSound w' z pc) same mine)
      | inr (other, there) ↦ theirs t q other (v.each t q there)
    ];
  }

  Holds-owners :
      (w : World) (l : ℕ) (o : Option ℕ) (t key : ℕ)
      → get_elem? w.owners l ≢ some (some t)
      → Holds w t key
      → Holds (record w { owners = set w.owners l o }) t key
  Holds-owners w l o t key d h = elim (Bool-cases (l == lock (bucket p key))) [
    | inl s ↦
        let same : l ≡ lock (bucket p key) = ground arith in
        absurd (d (subst (λ z. get_elem? w.owners z ≡ some (some t)) (sym same) h))
    | inr s ↦ rw (get_elem?-set w.owners l (lock (bucket p key)) o, s) h
  ]

  -- Steps that touch neither the table nor a lock.
  pub IsSound-goto :
      (w : World) (tid : ℕ) (pc : Pc) (t : ℕ) (q : Pc) → IsSound w t q → IsSound (goto tid pc w) t q
  IsSound-goto w tid pc t (ready key) s = s
  IsSound-goto w tid pc t (waiting key) s = s
  IsSound-goto w tid pc t (linking key) s = s
  IsSound-goto w tid pc t (linked key next) s = s
  IsSound-goto w tid pc t (unlocking key) s = s
  IsSound-goto w tid pc t finished s = s

  pub Inv-private : (w : World) (tid : ℕ) (pc : Pc) → Inv w → IsSound w tid pc → Inv (goto tid pc w)
  Inv-private w tid pc v mine =
      Inv-goto w (goto tid pc w) tid pc v v.size refl (IsSound-goto w tid pc tid pc mine)
        (λ t q other s. IsSound-goto w tid pc t q s)

  -- A write to a lock that thread t does not hold leaves what it holds.
  pub IsLocked-owners :
      (w : World) (l : ℕ) (o : Option ℕ) (t : ℕ) (q : Pc)
      → get_elem? w.owners l ≢ some (some t)
      → IsLocked w t q
      → IsLocked (record w { owners = set w.owners l o }) t q
  IsLocked-owners w l o t (ready key) d h = h
  IsLocked-owners w l o t (waiting key) d h = h
  IsLocked-owners w l o t (linking key) d h = Holds-owners w l o t key d h
  IsLocked-owners w l o t (linked key next) d (h, c) = (Holds-owners w l o t key d h, c)
  IsLocked-owners w l o t (unlocking key) d h = Holds-owners w l o t key d h
  IsLocked-owners w l o t finished d h = h

  -- Finding what was found before, under a table that finds as much.
  pub AllFound-table :
      (w w' : World) (t n : ℕ)
      → ((key : ℕ) → IsFound key w.table → IsFound key w'.table)
      → AllFound w t n
      → AllFound w' t n
  AllFound-table w w' t n more f = λ c h. more (key_at p (t + c * p.num_threads)) (f c h)

  -- Another thread's insert, at the bucket whose lock thread tid holds.
  abbrev pub put_at : World → ℕ → ℕ → World
  put_at w tid key = record w { table = insert (key_at p key) tid w.table }

  pub chain-insert :
      (w : World) (tid key t other : ℕ)
      → length w.table ≡ num_buckets
      → t ≢ tid
      → Holds w tid key
      → Holds w t other
      → chain (put_at w tid key).table (bucket p other) ≡ chain w.table (bucket p other)
  unfolding insert
  chain-insert w tid key t other size apart mine theirs =
      let far : bucket p key == bucket p other ≡ false =
        elim (Bool-cases (bucket p key == bucket p other)) [
          | inl s ↦
              let same : bucket p key ≡ bucket p other = ground arith in
              let clash : get_elem? w.owners (lock (bucket p other)) ≡ some (some tid) =
                subst (λ z. get_elem? w.owners (lock z) ≡ some (some tid)) same mine in
              absurd (apart (cc))
          | inr d ↦ d
        ] in
      rw (chain-set_chain w.table (bucket p key) (bucket p other) _ (omega arith), far) refl
