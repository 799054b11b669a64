-- ===== src/Proc/Wakeups.antt =====
-- wait and exit of hw3/proc.c as sleep and wakeup: who waits for a child, and which steps could make
-- it miss one.
pub mod Rounds
pub mod Leave
pub mod Calls
pub mod Steps
pub mod Boot
use nyu_operating_systems.Base.{
  ℕ, ◌≡◌, ◌≢◌, refl, true, false, List, Option, some, none, arith, get_elem?, modify, map,
  get_elem?-map, Bool-cases, Option-cases, inl, inr, sym, ◌∙◌,
}
use nyu_operating_systems.Proc.State.{sleeping, is_zombie, Chan, Proc}
use nyu_operating_systems.Proc.Valid.Leave.{slot_cases}

-- The process p of slot i sleeps in wait.
abbrev pub IsWaiting : ℕ → Proc → Type 0
IsWaiting i p = (p.state ≡ sleeping) × (p.chan ≡ Chan.slot i)

pub record Served (init : Option ℕ) (t : List Proc) : Type 0 where
  -- no process is its own parent
  pub apart : (i : ℕ) (p : Proc) → get_elem? t i ≡ some p → p.parent ≢ some i
  -- init has no parent
  pub orphan : (i : ℕ) (p : Proc) → init ≡ some i → get_elem? t i ≡ some p → p.parent ≡ none
  -- no child of a process that sleeps in wait is a zombie
  pub heard :
      (i j : ℕ) (p q : Proc)
      → get_elem? t i ≡ some p
      → IsWaiting i p
      → get_elem? t j ≡ some q
      → q.parent ≡ some i
      → is_zombie q.state ≡ false

-- A slot before and after: nobody starts to wait, and no process ends.
pub record Calm (init : Option ℕ) (j : ℕ) (p q : Proc) : Type 0 where
  pub own : p.parent ≢ some j → q.parent ≢ some j
  pub orphan : init ≡ some j → p.parent ≡ none → q.parent ≡ none
  pub waits : IsWaiting j q → IsWaiting j p
  pub dead : is_zombie q.state ≡ true → (is_zombie p.state ≡ true) × (q.parent ≡ p.parent)

module _ (init : Option ℕ) where
  pub Calm-refl : (j : ℕ) (p : Proc) → Calm init j p p
  Calm-refl j p = record { own = λ h. h; orphan = λ e h. h; waits = λ w. w; dead = λ z. (z, refl) }

  -- The parent stays.
  pub Calm-state :
      (j : ℕ) (p q : Proc)
      → q.parent ≡ p.parent
      → (IsWaiting j q → IsWaiting j p)
      → (is_zombie q.state ≡ true → is_zombie p.state ≡ true)
      → Calm init j p q
  Calm-state j p q up waits dead = record {
    own = λ h e. h (sym up ∙ e);
    orphan = λ e h. up ∙ h;
    waits = waits;
    dead = λ z. (dead z, up);
  }

  pub Served-back :
      (t t' : List Proc)
      → Served init t
      → ((j : ℕ) (q : Proc)
          → get_elem? t' j ≡ some q
          → (p : Proc) × (get_elem? t j ≡ some p) × Calm init j p q)
      → Served init t'
  Served-back t t' s back = record {
    apart = λ j q e. let (p, h, c) = back j q e in c.own (s.apart j p h);
    orphan = λ j q i e. let (p, h, c) = back j q e in c.orphan i (s.orphan j p i h);
    heard = λ i j p q e w e' up. elim (Bool-cases (is_zombie q.state)) [
      | inr alive ↦ alive
      | inl z ↦
          let (p0, h, c) = back i p e in
          let (q0, h', c') = back j q e' in
          let (z0, same) = c'.dead z in
          let alive = s.heard i j p0 q0 h (c.waits w) h' (sym same ∙ up) in cc
    ];
  }

  pub Served-modify :
      (t : List Proc) (i : ℕ) (f : Proc → Proc)
      → Served init t
      → ((p : Proc) → get_elem? t i ≡ some p → Calm init i p (f p))
      → Served init (modify t i f)
  Served-modify t i f s calm = Served-back t (modify t i f) s (λ j q e.
      elim (slot_cases t i f j q e) [
        | inl (same, (p, h, d)) ↦ (p, rw same h, rw (same, d) (calm p h))
        | inr (other, h) ↦ (q, h, Calm-refl j q)
      ])

  pub Served-map :
      (t : List Proc) (f : Proc → Proc)
      → Served init t
      → ((j : ℕ) (p : Proc) → Calm init j p (f p))
      → Served init (map f t)
  Served-map t f s calm = Served-back t (map f t) s (λ j q e. elim (Option-cases (get_elem? t j)) [
    | inl none_such ↦ absurd (ground (arith, get_elem?-map f t j))
    | inr (p, h) ↦ let d : q ≡ f p = ground (arith, get_elem?-map f t j) in (p, h, rw d (calm j p))
  ])
