-- ===== src/Hashtable/Safe/Moves.antt =====
-- The locks of hw4/parallel_spin.c and hw4/parallel_mutex.c do not deadlock: each lock that is taken
-- has a holder that can go on.
use nyu_operating_systems.Base.{
  ℕ, ◌+◌, Bool, none, some, length, get_elem?, set, ◌≡◌, ◌≢◌, ◌⊎◌, arith, refl, Bool-cases, inl,
  inr, Option-cases, ltb, sym, subst, ap, get_elem?-set_cases, get_elem?-set_self,
  get_elem?-replicate, some-inj, ◌∙◌, length-set, get_elem?-set_other, ℕ_discrete,
}
use nyu_operating_systems.Hashtable.Table.{chain, num_buckets}
use nyu_operating_systems.Hashtable.Threads.{
  Program, World, Pc, ready, waiting, linking, linked, unlocking, finished, bucket, goto, acquire,
  release, advance, take_turn, Turn, Reach, start, later, begin,
}

module _ (p : Program) (lock : ℕ → ℕ) (covers : (i : ℕ) → p.lock_of i ≡ some (lock i)) where
  -- The thread is between the lock and the unlock of l.
  abbrev pub IsInside : Pc → ℕ → Type 0
  IsInside (linking key) l = lock (bucket p key) ≡ l
  IsInside (linked key next) l = lock (bucket p key) ≡ l
  IsInside (unlocking key) l = lock (bucket p key) ≡ l
  IsInside _ l = ⊥

  -- There are NUM_BUCKETS locks at most that are used, and the holder of each is inside it.
  pub record Owned (w : World) : Type 0 where
    pub size : length w.owners ≡ num_buckets
    pub inside :
        (l t : ℕ)
        → get_elem? w.owners l ≡ some (some t)
        → (pc : Pc) × (get_elem? w.threads t ≡ some pc) × IsInside pc l

  -- A holder after the step of thread tid is tid, inside, or another thread that was one before.
  Owned-goto :
      (w w' : World) (tid : ℕ) (pc pc' : Pc)
      → Owned w
      → get_elem? w.threads tid ≡ some pc
      → w'.threads ≡ set w.threads tid pc'
      → length w'.owners ≡ num_buckets
      → ((l t : ℕ)
          → get_elem? w'.owners l ≡ some (some t)
          → ((t ≡ tid) × IsInside pc' l) ⊎ ((t ≢ tid) × (get_elem? w.owners l ≡ some (some t))))
      → Owned w'
  Owned-goto w w' tid pc pc' v here moved size holder = record {
    size = size;
    inside = λ l t e. elim (holder l t e) [
      | inl (same, in_it) ↦ (
        pc',
        subst (λ ts. get_elem? ts t ≡ some pc') (sym moved)
            (subst (λ z. get_elem? (set w.threads tid pc') z ≡ some pc') (sym same)
              (get_elem?-set_self w.threads tid pc' here)),
        in_it,
      )
      | inr (apart, old) ↦
          let (q, at, in_it) = v.inside l t old in
          (
            q,
            subst (λ ts. get_elem? ts t ≡ some q) (sym moved)
                (get_elem?-set_other w.threads tid t pc' apart ∙ at),
            in_it,
          )
    ];
  }

  -- A thread that is not inside any lock holds none.
  apart-outside :
      (w : World) (tid l t : ℕ) (pc : Pc)
      → Owned w
      → get_elem? w.threads tid ≡ some pc
      → (IsInside pc l → ⊥)
      → get_elem? w.owners l ≡ some (some t)
      → t ≢ tid
  apart-outside w tid l t pc v here out e same =
      let (q, at, in_it) = v.inside l t e in
      let this : q ≡ pc =
        some-inj (sym at ∙ subst (λ z. get_elem? w.threads z ≡ some pc) (sym same) here) in
      out (subst (λ z. IsInside z l) this in_it)

  -- A step that changes no lock, after which the thread is inside what it was inside.
  Owned-keep :
      (w w' : World) (tid : ℕ) (pc pc' : Pc)
      → Owned w
      → get_elem? w.threads tid ≡ some pc
      → w'.threads ≡ set w.threads tid pc'
      → w'.owners ≡ w.owners
      → ((l : ℕ) → IsInside pc l → IsInside pc' l)
      → Owned w'
  Owned-keep w w' tid pc pc' v here moved same carry =
      Owned-goto w w' tid pc pc' v here moved (ap length same ∙ v.size) (λ l t e.
        let old : get_elem? w.owners l ≡ some (some t) =
          subst (λ os. get_elem? os l ≡ some (some t)) same e in
        elim (ℕ_discrete t tid) [
          | yes s ↦
              let (q, at, in_it) = v.inside l t old in
              let this : q ≡ pc =
                some-inj (sym at ∙ subst (λ z. get_elem? w.threads z ≡ some pc) (sym s) here) in
              inl (s, carry l (subst (λ z. IsInside z l) this in_it))
          | no s ↦ inr (s, old)
        ])

  acquires-Owned :
      (w w' : World) (tid key : ℕ)
      → Owned w
      → get_elem? w.threads tid ≡ some (waiting key)
      → acquire (some (lock (bucket p key))) tid (linking key) w ≡ w'
      → Owned w'
  unfolding acquire
  acquires-Owned w w' tid key v here e =
      let l0 = lock (bucket p key) in
      elim (Option-cases (get_elem? w.owners l0)) [
        | inl out ↦ subst Owned (rw (acquire, out) at e) v
        | inr (none, free) ↦
            let taken : World = record w { owners = set w.owners l0 (some tid) } in
            subst Owned (rw (acquire, free) at e) (
              Owned-goto w (goto tid (linking key) taken) tid (waiting key) (linking key) v here
                refl (length-set w.owners l0 (some tid) ∙ v.size)
                (λ l t h. elim (get_elem?-set_cases w.owners l0 l (some tid) (some t) h) [
                  | inl (same, new) ↦ inl (sym (some-inj new), same)
                  | inr (other, old) ↦
                      inr (apart-outside w tid l t (waiting key) v here (λ z. z) old, old)
                ]))
        | inr (some t, held) ↦ subst Owned (rw (acquire, held) at e) v
      ]

  step-Owned :
      (w w' : World) (tid : ℕ) (memory : Bool) (pc : Pc)
      → Owned w
      → get_elem? w.threads tid ≡ some pc
      → advance p memory tid pc w ≡ some w'
      → Owned w'
  unfolding advance release
  step-Owned w w' tid memory (ready key) v here e = elim (Bool-cases (ltb key (length p.keys))) [
    | inl more ↦ elim (Bool-cases memory) [
      | inl given ↦ subst Owned (some-inj (rw (advance, more, given) at e)) (
          Owned-keep w (goto tid (waiting key) w) tid (ready key) (waiting key) v here refl refl
            (λ l z. z))
      | inr out ↦ absurd (ground arith)
    ]
    | inr over ↦
        subst Owned (some-inj (rw (advance, over) at e))
          (Owned-keep w (goto tid finished w) tid (ready key) finished v here refl refl (λ l z. z))
  ]
  step-Owned w w' tid memory (waiting key) v here e =
      acquires-Owned w w' tid key v here (some-inj (rw (covers (bucket p key)) at e))
  step-Owned w w' tid memory (linking key) v here e =
      Owned-keep w w' tid (linking key) (linked key (chain w.table (bucket p key))) v here
        (ap (λ z. z.threads) (sym (some-inj e))) (ap (λ z. z.owners) (sym (some-inj e))) (λ l z. z)
  step-Owned w w' tid memory (linked key next) v here e =
      Owned-keep w w' tid (linked key next) (unlocking key) v here
        (ap (λ z. z.threads) (sym (some-inj e))) (ap (λ z. z.owners) (sym (some-inj e))) (λ l z. z)
  step-Owned w w' tid memory (unlocking key) v here e =
      let l0 = lock (bucket p key) in
      let freed : World = record w { owners = set w.owners l0 none } in
      subst Owned (some-inj (rw (covers (bucket p key)) at e)) (
        Owned-goto w (goto tid (ready (key + p.num_threads)) freed) tid (unlocking key)
          (ready (key + p.num_threads)) v here refl (length-set w.owners l0 none ∙ v.size)
          (λ l t h. elim (get_elem?-set_cases w.owners l0 l none (some t) h) [
            | inl (same, new) ↦ absurd (cc)
            | inr (other, old) ↦
                inr (apart-outside w tid l t (unlocking key) v here (λ z. other (sym z)) old, old)
          ]))
  step-Owned w w' tid memory finished v here e = subst Owned (some-inj e) v

  turn-Owned : (w w' : World) (u : Turn) → Owned w → take_turn p u w ≡ some w' → Owned w'
  unfolding take_turn
  turn-Owned w w' u v e = elim (Option-cases (get_elem? w.threads u.tid)) [
    | inl none_such ↦ subst Owned (some-inj (rw (take_turn, none_such) at e)) v
    | inr (pc, there) ↦ step-Owned w w' u.tid u.memory pc v there (rw (take_turn, there) at e)
  ]

  pub Reach-Owned : {w w' : World} → Reach p w w' → Owned w → Owned w'
  Reach-Owned start v = v
  Reach-Owned (later {w'} {w''} r u e) v = turn-Owned w' w'' u (Reach-Owned r v) e

  pub begin-Owned : Owned (begin p)
  begin-Owned = record {
    size = refl;
    inside =
        λ l t e. let free : some t ≡ none = get_elem?-replicate num_buckets none l e in absurd (cc);
  }
