-- ===== src/Hashtable/Ends/Progress.antt =====
-- What the turns of a list of threads of hw4/parallel_spin.c and hw4/parallel_mutex.c come to.
use mathlib.Core.List.{Memᴰ}
use nyu_operating_systems.Base.{
  ℕ, ◌<◌, Bool, true, false, some, List, length, get_elem?, ◌≡◌, ◌⊎◌, [], ◌∷◌, arith, refl,
  Bool-cases, inl, inr, Option-cases, ltb, ap, ◌∙◌, subst, sym,
}
use nyu_operating_systems.Hashtable.Threads.{
  Program, World, Pc, ready, waiting, linking, linked, unlocking, finished, advance, take_turn,
  Turn,
}
use nyu_operating_systems.Hashtable.Race.{run_turns, turn, turns}
use nyu_operating_systems.Hashtable.Ends.{steps_left, Outcome, turn-Outcome}

-- With memory for malloc a turn goes where it goes without, if it does not end the program.
advance-memory :
    (p : Program) (memory : Bool) (tid : ℕ) (pc : Pc) (w w' : World)
    → advance p memory tid pc w ≡ some w'
    → advance p true tid pc w ≡ some w'
unfolding advance
advance-memory p true tid pc w w' e = e
advance-memory p false tid (ready key) w w' e = elim (Bool-cases (ltb key (length p.keys))) [
  | inl more ↦ absurd (ground arith)
  | inr over ↦ rw (advance, over) (rw (advance, over) at e)
]
advance-memory p false tid (waiting key) w w' e = e
advance-memory p false tid (linking key) w w' e = e
advance-memory p false tid (linked key next) w w' e = e
advance-memory p false tid (unlocking key) w w' e = e
advance-memory p false tid finished w w' e = e

pub turn-memory :
    (p : Program) (u : Turn) (w w' : World)
    → take_turn p u w ≡ some w'
    → take_turn p (turn u.tid) w ≡ some w'
unfolding take_turn
turn-memory p u w w' e = elim (Option-cases (get_elem? w.threads u.tid)) [
  | inl out ↦ rw (take_turn, out) (rw (take_turn, out) at e)
  | inr (pc, there) ↦
      rw (take_turn, there) (advance-memory p u.memory u.tid pc w w' (rw (take_turn, there) at e))
]

-- Every turn of the list leaves the world.
abbrev pub AreStuck : Program → List ℕ → World → Type 0
AreStuck p ts w = (t : ℕ) → Memᴰ t ts → take_turn p (turn t) w ≡ some w

-- What turns come to: every one leaves the world, or there are fewer steps left.
abbrev pub Progress : Program → List ℕ → World → World → Type 0
Progress p ts w w' =
    ((w' ≡ w) × AreStuck p ts w) ⊎ (steps_left p w'.threads < steps_left p w.threads)

Progress-later :
    (p : Program) (t : ℕ) (ts : List ℕ) (w w1 w' : World)
    → take_turn p (turn t) w ≡ some w1
    → Outcome p w w1
    → Progress p ts w1 w'
    → Progress p (t ∷ ts) w w'
Progress-later p t ts w w1 w' e (inl same) (inl (kept, stuck)) = inl (
  kept ∙ same,
  λ z m. elim m [
    | Memᴰ.head h ↦ subst (λ x. take_turn p (turn x) w ≡ some w) (sym h) (e ∙ ap some same)
    | Memᴰ.tail m' ↦ subst (λ x. take_turn p (turn z) x ≡ some x) same (stuck z m')
  ],
)
Progress-later p t ts w w1 w' e (inl same) (inr less) =
    inr (subst (λ x. steps_left p w'.threads < steps_left p x.threads) same less)
Progress-later p t ts w w1 w' e (inr (size, less)) (inl (kept, stuck)) =
    inr (subst (λ x. steps_left p x.threads < steps_left p w.threads) (sym kept) less)
Progress-later p t ts w w1 w' e (inr (size, less)) (inr fewer) = inr (omega arith)

Outcome-size : (p : Program) (w w' : World) → Outcome p w w' → length w'.threads ≡ length w.threads
Outcome-size p w w' (inl same) = ap (λ z. length z.threads) same
Outcome-size p w w' (inr (size, less)) = size

module _ (p : Program) (some_thread : 0 < p.num_threads) where
  pub turns-Progress :
      (ts : List ℕ) (w : World)
      → (w' : World) × (run_turns p (turns ts) w ≡ some w')
        × (length w'.threads ≡ length w.threads)
        × Progress p ts w w'
  unfolding run_turns
  turns-Progress [] w = (w, refl, refl, inl (refl, λ t m. elim m [ ]))
  turns-Progress (t ∷ ts) w =
      let (w1, e, o) = turn-Outcome p some_thread w t in
      let (w', es, size, prog) = turns-Progress ts w1 in
      (
        w',
        rw (run_turns, e) es,
        size ∙ Outcome-size p w w1 o,
        Progress-later p t ts w w1 w' e o prog,
      )
