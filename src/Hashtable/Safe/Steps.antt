-- ===== src/Hashtable/Safe/Steps.antt =====
-- Every turn of a thread of put_phase keeps the invariant, in the programs with a lock per bucket.
use nyu_operating_systems.Base.{
  ℕ, ◌+◌, ◌*◌, ◌≤◌, Bool, Option, none, some, List, length, get_elem?, set, ◌≡◌, ◌≢◌, ◌∷◌, zero,
  suc, arith, refl, Bool-cases, inl, inr, Option-cases, ltb, sym, subst, get_elem?-set_self,
  some-inj, ◌∙◌,
}
use nyu_operating_systems.Hashtable.Table.{
  Entry, chain, set_chain, num_buckets, insert, length-set_chain,
}
use nyu_operating_systems.Hashtable.Threads.{
  Program, World, Pc, ready, waiting, linking, linked, unlocking, finished, key_at, bucket, goto,
  acquire, release, advance, take_turn, create, begin, Turn, Reach, start, later,
}
use nyu_operating_systems.Hashtable.Safe.{
  insert-IsFound, insert-IsFound_self, Holds, IsLocked, AllFound, IsSound, Inv, Inv-goto,
  Inv-private, IsLocked-owners, IsSound-goto, AllFound-table, chain-insert, put_at,
}

module _ (p : Program) (lock : ℕ → ℕ) (covers : (i : ℕ) → p.lock_of i ≡ some (lock i)) where
  IsSound-owners :
      (w : World) (l : ℕ) (o : Option ℕ) (t : ℕ) (q : Pc)
      → get_elem? w.owners l ≢ some (some t)
      → IsSound p lock w t q
      → IsSound p lock (record w { owners = set w.owners l o }) t q
  IsSound-owners w l o t q d (s, n, at, found) =
      (IsLocked-owners p lock w l o t q d s, n, at, found)

  acquires-Inv :
      (w w' : World) (tid key : ℕ)
      → Inv p lock w
      → IsSound p lock w tid (waiting key)
      → acquire (some (lock (bucket p key))) tid (linking key) w ≡ w'
      → Inv p lock w'
  unfolding acquire
  acquires-Inv w w' tid key v (h, n, at, found) e =
      let l = lock (bucket p key) in
      elim (Option-cases (get_elem? w.owners l)) [
        | inl out ↦ subst (Inv p lock) (rw (acquire, out) at e) v
        | inr (none, there) ↦
            let taken : World = record w { owners = set w.owners l (some tid) } in
            subst (Inv p lock) (rw (acquire, there) at e) (
              Inv-goto p lock w (goto tid (linking key) taken) tid (linking key) v v.size refl
                (get_elem?-set_self w.owners l (some tid) there, n, at, found)
                (λ t q other s. IsSound-owners w l (some tid) t q (λ held. absurd (cc)) s))
        | inr (some t, there) ↦ subst (Inv p lock) (rw (acquire, there) at e) v
      ]

  IsLocked-insert :
      (w : World) (tid key t : ℕ) (q : Pc)
      → length w.table ≡ num_buckets
      → t ≢ tid
      → Holds p lock w tid key
      → IsLocked p lock w t q
      → IsLocked p lock (put_at p lock w tid key) t q
  IsLocked-insert w tid key t (ready other) size apart mine s = s
  IsLocked-insert w tid key t (waiting other) size apart mine s = s
  IsLocked-insert w tid key t (linking other) size apart mine s = s
  IsLocked-insert w tid key t (linked other next) size apart mine (s, c) =
      (s, chain-insert p lock w tid key t other size apart mine s ∙ c)
  IsLocked-insert w tid key t (unlocking other) size apart mine s = s
  IsLocked-insert w tid key t finished size apart mine s = s

  IsSound-insert :
      (w : World) (tid key t : ℕ) (q : Pc)
      → length w.table ≡ num_buckets
      → t ≢ tid
      → Holds p lock w tid key
      → IsSound p lock w t q
      → IsSound p lock (put_at p lock w tid key) t q
  IsSound-insert w tid key t q size apart mine (s, n, at, found) = (
    IsLocked-insert w tid key t q size apart mine s,
    n,
    at,
    AllFound-table p lock w (put_at p lock w tid key) t n
        (λ k f. insert-IsFound (key_at p key) tid k w.table size f) found,
  )

  -- The insert itself: n keys of the thread were found, and now n + 1 are.
  AllFound-put :
      (w : World) (tid key n : ℕ)
      → length w.table ≡ num_buckets
      → key ≡ tid + n * p.num_threads
      → AllFound p lock w tid n
      → AllFound p lock (put_at p lock w tid key) tid (suc n)
  AllFound-put w tid key n size at found c h = elim (Bool-cases (ltb c n)) [
    | inl old ↦ insert-IsFound (key_at p key) tid _ w.table size (found c (ground arith))
    | inr new ↦
        let last : c ≡ n = ground arith in
        let this : tid + c * p.num_threads ≡ key = rw last (sym at) in
        rw this (insert-IsFound_self (key_at p key) tid w.table size)
  ]

  put-Inv :
      (w : World) (tid key : ℕ) (next : List Entry)
      → Inv p lock w
      → IsSound p lock w tid (linked key next)
      → Inv p lock (
          goto tid (unlocking key) (record w {
            table =
                set_chain w.table (bucket p key) (record { key = key_at p key; val = tid } ∷ next);
          }))
  unfolding insert
  put-Inv w tid key next v ((h, c), n, at, found) = rw (sym c) (
      Inv-goto p lock w (goto tid (unlocking key) (put_at p lock w tid key)) tid (unlocking key) v
        (length-set_chain w.table (bucket p key) _ ∙ v.size) refl
        (h, suc n, grind arith, AllFound-put w tid key n v.size at found)
        (λ t q other s.
          IsSound-goto p lock (put_at p lock w tid key) tid (unlocking key) t q
            (IsSound-insert w tid key t q v.size other h s)))

  step-Inv :
      (w w' : World) (tid : ℕ) (memory : Bool) (pc : Pc)
      → Inv p lock w
      → IsSound p lock w tid pc
      → advance p memory tid pc w ≡ some w'
      → Inv p lock w'
  unfolding advance release
  step-Inv w w' tid memory (ready key) v (h, n, at, found) e =
      elim (Bool-cases (ltb key (length p.keys))) [
        | inl more ↦ elim (Bool-cases memory) [
          | inl given ↦
              subst (Inv p lock) (some-inj (rw (advance, more, given) at e))
                (Inv-private p lock w tid (waiting key) v (h, n, at, found))
          | inr out ↦ absurd (ground arith)
        ]
        | inr over ↦
            let last : length p.keys ≤ tid + n * p.num_threads = ground arith in
            subst (Inv p lock) (some-inj (rw (advance, over) at e))
              (Inv-private p lock w tid finished v (h, n, last, found))
      ]
  step-Inv w w' tid memory (waiting key) v s e =
      acquires-Inv w w' tid key v s (some-inj (rw (covers (bucket p key)) at e))
  step-Inv w w' tid memory (linking key) v (h, n, at, found) e = subst (Inv p lock) (some-inj e) (
      Inv-private p lock w tid (linked key (chain w.table (bucket p key))) v
        ((h, refl), n, at, found))
  step-Inv w w' tid memory (linked key next) v s e =
      subst (Inv p lock) (some-inj e) (put-Inv w tid key next v s)
  step-Inv w w' tid memory (unlocking key) v (h, n, at, found) e =
      let l = lock (bucket p key) in
      let freed : World = record w { owners = set w.owners l none } in
      subst (Inv p lock) (some-inj (rw (covers (bucket p key)) at e)) (
        Inv-goto p lock w (goto tid (ready (key + p.num_threads)) freed) tid
          (ready (key + p.num_threads)) v v.size refl (tt, n, at, found)
          (λ t q other s.
            IsSound-goto p lock freed tid (ready (key + p.num_threads)) t q
              (IsSound-owners w l none t q (λ held. other (cc)) s)))
  step-Inv w w' tid memory finished v s e = subst (Inv p lock) (some-inj e) v

  turn-Inv : (w w' : World) (u : Turn) → Inv p lock w → take_turn p u w ≡ some w' → Inv p lock w'
  unfolding take_turn
  turn-Inv w w' u v e = elim (Option-cases (get_elem? w.threads u.tid)) [
    | inl none_such ↦ subst (Inv p lock) (some-inj (rw (take_turn, none_such) at e)) v
    | inr (pc, there) ↦
        step-Inv w w' u.tid u.memory pc v (v.each u.tid pc there) (rw (take_turn, there) at e)
  ]

  pub Reach-Inv : {w w' : World} → Reach p w w' → Inv p lock w → Inv p lock w'
  Reach-Inv start v = v
  Reach-Inv (later {w'} {w''} r u e) v = turn-Inv w' w'' u (Reach-Inv r v) e

  pub create-ready : (i n t : ℕ) (pc : Pc) → get_elem? (create i n) t ≡ some pc → pc ≡ ready (t + i)
  create-ready i zero t pc e = absurd (cc)
  create-ready i (suc n) zero pc e = ground arith
  create-ready i (suc n) (suc t) pc e = ground (arith, create-ready (suc i) n t pc e)

  begin-Inv : Inv p lock (begin p)
  begin-Inv = record {
    size = refl;
    each = λ t pc e.
        let here : ready (t + 0) ≡ pc = sym (create-ready 0 p.num_threads t pc e) in
        subst (IsSound p lock (begin p) t) here (tt, 0, grind arith, λ c h. absurd (omega arith));
  }

  -- The invariant holds in every world that the program can reach.
  pub Run-Inv : (w : World) → Reach p (begin p) w → Inv p lock w
  Run-Inv w r = Reach-Inv r begin-Inv
