-- ===== src/Proc/Life.antt =====
-- The life of a process in hw3/proc.c: which state follows which in a slot of the table.
pub mod Forked
pub mod Calls
pub mod Steps
pub mod Once
use nyu_operating_systems.Base.{
  ℕ, ◌≡◌, refl, true, List, Option, some, arith, get_elem?, modify, map, get_elem?-modify,
  get_elem?-map, Bool-cases, Option-cases, inl, inr, ◌⊎◌, ◌==◌, ◌∙◌, sym,
}
use nyu_operating_systems.Proc.State.{
  Procstate, unused, sleeping, runnable, running, zombie, is_running, Proc,
}
use nyu_operating_systems.Proc.Valid.Leave.{slot_cases}
use nyu_operating_systems.Proc.Valid.Leave.Pass.{Wakes, Passed}

-- A slot of the table before and after a step, where nextpid was n before: it keeps its state; fork
-- gives up in it; a child is born; a process is elected, preempted, goes to sleep, wakes, ends; its
-- parent has waited for it.
pub data Moves (n : ℕ) (p q : Proc) : Type 0 where
  stays : q.state ≡ p.state → q.pid ≡ p.pid → Moves n p q
  given_up : p.state ≡ unused → q.state ≡ unused → Moves n p q
  born : p.state ≡ unused → q.state ≡ runnable → q.pid ≡ n → Moves n p q
  elected : p.state ≡ runnable → q.state ≡ running → q.pid ≡ p.pid → Moves n p q
  preempted : p.state ≡ running → q.state ≡ runnable → q.pid ≡ p.pid → Moves n p q
  slept : p.state ≡ running → q.state ≡ sleeping → q.pid ≡ p.pid → Moves n p q
  woken : p.state ≡ sleeping → q.state ≡ runnable → q.pid ≡ p.pid → Moves n p q
  ended : p.state ≡ running → q.state ≡ zombie → q.pid ≡ p.pid → Moves n p q
  reaped : p.state ≡ zombie → q.state ≡ unused → Moves n p q

-- Slot by slot, the table t has moved to t'.
pub record Moved (n : ℕ) (t t' : List Proc) : Type 0 where
  pub back :
      (j : ℕ) (q : Proc)
      → get_elem? t' j ≡ some q
      → (p : Proc) × (get_elem? t j ≡ some p) × Moves n p q
  pub forth :
      (j : ℕ) (p : Proc)
      → get_elem? t j ≡ some p
      → (q : Proc) × (get_elem? t' j ≡ some q) × Moves n p q

module _ (n : ℕ) where
  pub Moved-refl : (t : List Proc) → Moved n t t
  Moved-refl t = record {
    back = λ j q e. (q, e, stays refl refl);
    forth = λ j p e. (p, e, stays refl refl);
  }

  pub Moved-modify :
      (t : List Proc) (i : ℕ) (f : Proc → Proc)
      → ((p : Proc) → get_elem? t i ≡ some p → Moves n p (f p))
      → Moved n t (modify t i f)
  Moved-modify t i f goes = record {
    back = λ j q e. elim (slot_cases t i f j q e) [
      | inl (same, (p, h, d)) ↦ (p, rw same h, rw d (goes p h))
      | inr (other, h) ↦ (q, h, stays refl refl)
    ];
    forth = λ j p e. elim (Bool-cases (i == j)) [
      | inl s ↦
          let ij : i ≡ j = ground arith in
          let at : get_elem? t i ≡ some p = rw ij e in
          (f p, ground (arith, get_elem?-modify t i j f), goes p at)
      | inr s ↦ (p, ground (arith, get_elem?-modify t i j f), stays refl refl)
    ];
  }

  pub Moved-map :
      (t : List Proc) (f : Proc → Proc) → ((p : Proc) → Moves n p (f p)) → Moved n t (map f t)
  Moved-map t f goes = record {
    back = λ j q e. elim (Option-cases (get_elem? t j)) [
      | inl none_such ↦ absurd (ground (arith, get_elem?-map f t j))
      | inr (p, h) ↦ let d : q ≡ f p = ground (arith, get_elem?-map f t j) in (p, h, rw d (goes p))
    ];
    forth = λ j p e. (f p, ground (arith, get_elem?-map f t j), goes p);
  }

  pub Wakes-Moves : (p q : Proc) → q.pid ≡ p.pid → Wakes p q → Moves n p q
  Wakes-Moves p q same (inl kept, chan) = stays kept same
  Wakes-Moves p q same (inr (was, is), chan) = woken was is same

  -- The children are passed on and the parents woken, then the process in slot i, which runs, ends.
  pub Moved-ended :
      (t t' : List Proc) (i : ℕ) (init : Option ℕ) (f : Proc → Proc)
      → Passed i init t t'
      → ((p : Proc) → get_elem? t i ≡ some p → is_running p.state ≡ true)
      → ((p : Proc) → ((f p).state ≡ zombie) × ((f p).pid ≡ p.pid))
      → Moved n t (modify t' i f)
  Moved-ended t t' i init f pass runs facts = record {
    back = λ j q e. elim (slot_cases t' i f j q e) [
      | inl (same, (p, h, d)) ↦
          let (o, at, (pid, used, lives, run, up, wakes)) = pass.back i p h in
          let was : o.state ≡ running = ground (arith, runs o at) in
          let (is, kept) = facts p in (o, rw same at, rw d (ended was is (kept ∙ pid)))
      | inr (other, h) ↦
          let (o, at, (pid, used, lives, run, up, wakes)) = pass.back j q h in
          (o, at, Wakes-Moves o q pid wakes)
    ];
    forth = λ j o e.
        let (p, h, (pid, used, lives, run, up, wakes)) = pass.forth j o e in
        elim (Bool-cases (i == j)) [
          | inl s ↦
              let ij : i ≡ j = ground arith in
              let here : get_elem? t i ≡ some o = rw ij e in
              let was : o.state ≡ running = ground (arith, runs o here) in
              let (is, kept) = facts p in
              (f p, ground (arith, get_elem?-modify t' i j f), ended was is (kept ∙ pid))
          | inr s ↦ (p, ground (arith, get_elem?-modify t' i j f), Wakes-Moves o p pid wakes)
        ];
  }
