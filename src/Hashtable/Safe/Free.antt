-- ===== src/Hashtable/Safe/Free.antt =====
-- Freedom from deadlock of the programs of hw4 that lock.
use nyu_operating_systems.Base.{
  ℕ, ◌+◌, ◌<◌, true, Option, none, some, List, length, get_elem?, set, ◌≡◌, ◌≢◌, arith, refl,
  Bool-cases, inl, inr, Option-cases, ltb, sym, [], ◌∷◌, zero, suc, subst, get_elem?-set_self,
  some-inj, ◌∙◌,
}
use nyu_operating_systems.Hashtable.Table.{chain, num_buckets}
use nyu_operating_systems.Hashtable.Threads.{
  Program, World, Pc, ready, waiting, linking, linked, unlocking, finished, bucket, goto, acquire,
  release, advance, take_turn, Turn, Reach, begin,
}
use nyu_operating_systems.Hashtable.Safe.Moves.{IsInside, Owned, Reach-Owned, begin-Owned}

out_of_owners : (os : List (Option ℕ)) (l : ℕ) → get_elem? os l ≡ none → l < length os → ⊥
out_of_owners [] l e h = absurd (omega arith)
out_of_owners (o ∷ os) zero e h = absurd (cc)
out_of_owners (o ∷ os) (suc l) e h = out_of_owners os l e (omega arith)

-- Some thread takes a step, with memory for malloc.
abbrev pub CanMove : Program → World → Type 0
CanMove p w = (u : Turn) × (w' : World) × (take_turn p u w ≡ some w') × (w'.threads ≢ w.threads)

module _ (p : Program) (lock : ℕ → ℕ) (covers : (i : ℕ) → p.lock_of i ≡ some (lock i))
    (bounded : (i : ℕ) → i < num_buckets → lock i < num_buckets) where
  -- A step to another place moves.
  moves :
      (w w' : World) (tid : ℕ) (pc pc' : Pc)
      → get_elem? w.threads tid ≡ some pc
      → advance p true tid pc w ≡ some w'
      → w'.threads ≡ set w.threads tid pc'
      → pc' ≢ pc
      → CanMove p w
  unfolding take_turn
  moves w w' tid pc pc' here e goes differ = (
    record { tid = tid; memory = true },
    w',
    rw (take_turn, here) e,
    λ same.
        let there : get_elem? w.threads tid ≡ some pc' =
          subst (λ ts. get_elem? ts tid ≡ some pc') (sym goes ∙ same)
            (get_elem?-set_self w.threads tid pc' here) in
        differ (some-inj (sym there ∙ here)),
  )

  inside-moves :
      (w : World) (tid l : ℕ) (pc : Pc)
      → get_elem? w.threads tid ≡ some pc
      → IsInside p lock covers pc l
      → CanMove p w
  unfolding advance release
  inside-moves w tid l (ready key) here h = absurd h
  inside-moves w tid l (waiting key) here h = absurd h
  inside-moves w tid l finished here h = absurd h
  inside-moves w tid l (linking key) here h =
      let next = linked key (chain w.table (bucket p key)) in
      moves w (goto tid next w) tid (linking key) next here refl refl (λ e. cc)
  inside-moves w tid l (linked key next) here h =
      moves w _ tid (linked key next) (unlocking key) here refl refl (λ e. cc)
  inside-moves w tid l (unlocking key) here h =
      let back = ready (key + p.num_threads) in
      let freed : World = record w { owners = set w.owners (lock (bucket p key)) none } in
      moves w (goto tid back freed) tid (unlocking key) back here (rw (covers (bucket p key)) refl)
        refl (λ e. cc)

  -- At the lock: it is free, or its holder moves.
  waiting-moves :
      (w : World) (tid key : ℕ)
      → Owned p lock covers w
      → get_elem? w.threads tid ≡ some (waiting key)
      → CanMove p w
  unfolding advance acquire
  waiting-moves w tid key v here =
      let l = lock (bucket p key) in
      let in_range : l < num_buckets = bounded (bucket p key) (omega arith) in
      elim (Option-cases (get_elem? w.owners l)) [
        | inl out ↦ absurd (out_of_owners w.owners l out (omega (arith, v.size)))
        | inr (none, free) ↦
            let taken : World = record w { owners = set w.owners l (some tid) } in
            moves w (goto tid (linking key) taken) tid (waiting key) (linking key) here
              (rw (covers (bucket p key), acquire, free) refl) refl (λ e. cc)
        | inr (some t, held) ↦
            let (pc, at, in_it) = v.inside l t held in inside-moves w t l pc at in_it
      ]

  -- If insert locks every bucket i with `lock i`, one of NUM_BUCKETS locks, then in every world that
  -- the put phase can reach, as long as some thread is not at pthread_exit, some thread can take a
  -- step to another place.
  pub no_deadlock :
      (w : World) (tid : ℕ) (pc : Pc)
      → Reach p (begin p) w
      → get_elem? w.threads tid ≡ some pc
      → pc ≢ finished
      → CanMove p w
  unfolding advance
  no_deadlock w tid (ready key) r here going = elim (Bool-cases (ltb key (length p.keys))) [
    | inl more ↦
        moves w (goto tid (waiting key) w) tid (ready key) (waiting key) here
          (rw (advance, more) refl) refl (λ e. cc)
    | inr over ↦
        moves w (goto tid finished w) tid (ready key) finished here (rw (advance, over) refl) refl
          (λ e. cc)
  ]
  no_deadlock w tid (waiting key) r here going =
      waiting-moves w tid key (Reach-Owned p lock covers r (begin-Owned p lock covers)) here
  no_deadlock w tid (linking key) r here going =
      inside-moves w tid (lock (bucket p key)) (linking key) here refl
  no_deadlock w tid (linked key next) r here going =
      inside-moves w tid (lock (bucket p key)) (linked key next) here refl
  no_deadlock w tid (unlocking key) r here going =
      inside-moves w tid (lock (bucket p key)) (unlocking key) here refl
  no_deadlock w tid finished r here going = absurd (going refl)
