-- ===== src/Hashtable/Ends.antt =====
-- How long the put phase of hw4 lasts: the steps that its threads have left, and the schedules that
-- give every thread its turns.

pub mod Fair
pub mod Progress
use nyu_operating_systems.Base.{
  ℕ, ◌+◌, ◌*◌, ◌-◌, ◌<◌, ◌≤◌, true, Option, none, some, List, length, get_elem?, set, ◌≡◌, ◌≢◌, ◌⊎◌,
  [], ◌∷◌, zero, suc, arith, refl, Bool-cases, inl, inr, Option-cases, ltb, ap, ◌∙◌, length-set,
  subst, sym, some-inj,
}
use nyu_operating_systems.Hashtable.Table.{chain}
use nyu_operating_systems.Hashtable.Threads.{
  Program, World, Pc, ready, waiting, linking, linked, unlocking, finished, bucket, goto, acquire,
  release, advance, take_turn, create,
}
use nyu_operating_systems.Hashtable.Race.{turn}

-- The loop's test at a key, and five steps for each key that may follow.
abbrev pub loop_steps : Program → ℕ → ℕ
loop_steps p key = 5 * (length p.keys - key) + 1

-- A bound on the steps of a thread until pthread_exit.
abbrev pub pc_steps : Program → Pc → ℕ
pc_steps p (ready key) = loop_steps p key
pc_steps p (waiting key) = 4 + loop_steps p (key + p.num_threads)
pc_steps p (linking key) = 3 + loop_steps p (key + p.num_threads)
pc_steps p (linked key next) = 2 + loop_steps p (key + p.num_threads)
pc_steps p (unlocking key) = 1 + loop_steps p (key + p.num_threads)
pc_steps p finished = 0

abbrev pub steps_left : Program → List Pc → ℕ
steps_left p [] = 0
steps_left p (pc ∷ ts) = pc_steps p pc + steps_left p ts

steps_left-set :
    (p : Program) (ts : List Pc) (t : ℕ) (pc pc' : Pc)
    → get_elem? ts t ≡ some pc
    → pc_steps p pc' < pc_steps p pc
    → steps_left p (set ts t pc') < steps_left p ts
steps_left-set p [] t pc pc' e h = absurd (cc)
steps_left-set p (q ∷ ts) zero pc pc' e h =
    let same : q ≡ pc = some-inj e in
    let less : pc_steps p pc' < pc_steps p q =
      subst (λ z. pc_steps p pc' < pc_steps p z) (sym same) h in
    omega arith
steps_left-set p (q ∷ ts) (suc t) pc pc' e h = omega (arith, steps_left-set p ts t pc pc' e h)

no_steps-finished : (p : Program) (pc : Pc) → pc_steps p pc ≡ 0 → pc ≡ finished
no_steps-finished p (ready key) e = absurd (omega arith)
no_steps-finished p (waiting key) e = absurd (omega arith)
no_steps-finished p (linking key) e = absurd (omega arith)
no_steps-finished p (linked key next) e = absurd (omega arith)
no_steps-finished p (unlocking key) e = absurd (omega arith)
no_steps-finished p finished e = refl

-- No step is left, so each thread is at pthread_exit.
pub none_left-finished :
    (p : Program) (ts : List Pc) (t : ℕ)
    → steps_left p ts ≡ 0
    → t < length ts
    → get_elem? ts t ≡ some finished
none_left-finished p [] t e h = absurd (omega arith)
none_left-finished p (pc ∷ ts) zero e h = ap some (no_steps-finished p pc (omega arith))
none_left-finished p (pc ∷ ts) (suc t) e h = none_left-finished p ts t (omega arith) (omega arith)

-- Some step is left, so some thread is not at pthread_exit.
pub unfinished :
    (p : Program) (ts : List Pc)
    → 0 < steps_left p ts
    → (t : ℕ) × (pc : Pc) × (get_elem? ts t ≡ some pc) × (pc ≢ finished)
unfinished p [] h = absurd (omega arith)
unfinished p (pc ∷ ts) h = elim (Bool-cases (ltb 0 (pc_steps p pc))) [
  | inl more ↦
      (0, pc, refl, λ e. let over : pc_steps p pc ≡ 0 = ap (pc_steps p) e in absurd (ground arith))
  | inr over ↦ let (t, q, at, going) = unfinished p ts (ground arith) in (suc t, q, at, going)
]

steps_left-create :
    (p : Program) (i n : ℕ) → steps_left p (create i n) ≤ n * (5 * length p.keys + 1)
steps_left-create p i zero = omega arith
steps_left-create p i (suc n) = grind (arith, steps_left-create p (suc i) n)

-- A turn leaves the world, or one step less.
abbrev pub Outcome : Program → World → World → Type 0
Outcome p w w' =
    (w' ≡ w)
    ⊎ ((length w'.threads ≡ length w.threads) × (steps_left p w'.threads < steps_left p w.threads))

abbrev pub HasOutcome : Program → World → Option World → Type 0
HasOutcome p w o = (w' : World) × (o ≡ some w') × Outcome p w w'

module _ (p : Program) (some_thread : 0 < p.num_threads) where
  goes :
      (w w' : World) (tid : ℕ) (pc pc' : Pc)
      → get_elem? w.threads tid ≡ some pc
      → w'.threads ≡ set w.threads tid pc'
      → pc_steps p pc' < pc_steps p pc
      → Outcome p w w'
  goes w w' tid pc pc' here moved less = inr (
    ap length moved ∙ length-set w.threads tid pc',
    subst (λ ts. steps_left p ts < steps_left p w.threads) (sym moved)
        (steps_left-set p w.threads tid pc pc' here less),
  )

  acquire-Outcome :
      (w : World) (lk : Option ℕ) (tid key : ℕ)
      → get_elem? w.threads tid ≡ some (waiting key)
      → Outcome p w (acquire lk tid (linking key) w)
  unfolding acquire
  acquire-Outcome w none tid key here =
      goes w _ tid (waiting key) (linking key) here refl (omega arith)
  acquire-Outcome w (some l) tid key here = elim (Option-cases (get_elem? w.owners l)) [
    | inl out ↦ rw (acquire, out) (inl refl)
    | inr (none, free) ↦
        rw (acquire, free)
          (goes w (goto tid (linking key) (record w { owners = set w.owners l (some tid) })) tid
            (waiting key) (linking key) here refl (omega arith))
    | inr (some t, held) ↦ rw (acquire, held) (inl refl)
  ]

  release-threads : (lk : Option ℕ) (w : World) → (release lk w).threads ≡ w.threads
  unfolding release
  release-threads none w = refl
  release-threads (some l) w = refl

  advance-Outcome :
      (w : World) (tid : ℕ) (pc : Pc)
      → get_elem? w.threads tid ≡ some pc
      → HasOutcome p w (advance p true tid pc w)
  unfolding advance
  advance-Outcome w tid (ready key) here = elim (Bool-cases (ltb key (length p.keys))) [
    | inl more ↦ (
      goto tid (waiting key) w,
      rw (advance, more) refl,
      goes w _ tid (ready key) (waiting key) here refl (ground arith),
    )
    | inr over ↦ (
      goto tid finished w,
      rw (advance, over) refl,
      goes w _ tid (ready key) finished here refl (omega arith),
    )
  ]
  advance-Outcome w tid (waiting key) here =
      (_, refl, acquire-Outcome w (p.lock_of (bucket p key)) tid key here)
  advance-Outcome w tid (linking key) here =
      let next = linked key (chain w.table (bucket p key)) in
      (_, refl, goes w _ tid (linking key) next here refl (omega arith))
  advance-Outcome w tid (linked key next) here =
      (_, refl, goes w _ tid (linked key next) (unlocking key) here refl (omega arith))
  advance-Outcome w tid (unlocking key) here = (
    _,
    refl,
    goes w (goto tid (ready (key + p.num_threads)) (release (p.lock_of (bucket p key)) w)) tid
        (unlocking key) (ready (key + p.num_threads)) here
        (ap (λ ts. set ts tid (ready (key + p.num_threads)))
          (release-threads (p.lock_of (bucket p key)) w))
        (omega arith),
  )
  advance-Outcome w tid finished here = (w, refl, inl refl)

  pub turn-Outcome : (w : World) (t : ℕ) → HasOutcome p w (take_turn p (turn t) w)
  unfolding take_turn
  turn-Outcome w t = elim (Option-cases (get_elem? w.threads t)) [
    | inl none_such ↦ (w, rw (take_turn, none_such) refl, inl refl)
    | inr (pc, there) ↦
        let (w', e, o) = advance-Outcome w t pc there in (w', rw (take_turn, there) e, o)
  ]
