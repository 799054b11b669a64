-- ===== src/Proc/Lottery/Winner.antt =====
-- A draw of the lottery of hw3/proc.c elects a runnable process.
use nyu_operating_systems.Base.{
  ℕ, zero, suc, ◌+◌, ◌^◌, ◌≤◌, ◌<◌, ◌≡◌, refl, true, List, [], ◌∷◌, some, arith, if◌then◌else◌, ltb,
  get_elem?, Bool-cases, inl, inr,
}
use nyu_operating_systems.Base.Words.{add32}
use nyu_operating_systems.Proc.State.{Proc, is_runnable}
use nyu_operating_systems.Proc.Lottery.{draw}
use nyu_operating_systems.Proc.Lottery.Fair.{at, draw-skip, draw-take, total}

-- A draw above the counter and up to the total elects a process.
draw-some_above :
    (c w : ℕ) (ps : List Proc)
    → c + total ps < 2 ^ 31
    → c < w
    → w ≤ c + total ps
    → (j : ℕ) × (draw c w ps ≡ some j)
unfolding total
draw-some_above c w [] h k l = absurd (omega arith)
draw-some_above c w (p ∷ ps) h k l = elim (Bool-cases (is_runnable p.state)) [
  | inl r ↦ elim (Bool-cases (ltb (c + p.tickets) w)) [
    | inl t ↦
        let (j, e) =
          draw-some_above (c + p.tickets) w ps (ground arith) (ground arith) (ground arith) in
        (suc j, ground (arith, draw-take c w p ps r))
    | inr t ↦ (0, ground (arith, draw-take c w p ps r))
  ]
  | inr r ↦
      let (j, e) = draw-some_above c w ps (ground arith) k (ground arith) in
      (suc j, ground (arith, draw-skip c w p ps r))
]

-- If some process is runnable, every draw up to the total elects one.
pub draw-some :
    (c w i : ℕ) (ps : List Proc)
    → c + total ps < 2 ^ 31
    → w ≤ c + total ps
    → is_runnable (at ps i).state ≡ true
    → (j : ℕ) × (draw c w ps ≡ some j)
unfolding total
draw-some c w i [] h k r = cc
draw-some c w zero (p ∷ ps) h k r = elim (Bool-cases (ltb (c + p.tickets) w)) [
  | inl t ↦
      let (j, e) =
        draw-some_above (c + p.tickets) w ps (ground arith) (ground arith) (ground arith) in
      (suc j, ground (arith, draw-take c w p ps r))
  | inr t ↦ (0, ground (arith, draw-take c w p ps r))
]
draw-some c w (suc i) (p ∷ ps) h k r = elim (Bool-cases (is_runnable p.state)) [
  | inl q ↦ elim (Bool-cases (ltb (c + p.tickets) w)) [
    | inl t ↦
        let (j, e) = draw-some (c + p.tickets) w i ps (ground arith) (ground arith) r in
        (suc j, ground (arith, draw-take c w p ps q))
    | inr t ↦ (0, ground (arith, draw-take c w p ps q))
  ]
  | inr q ↦
      let (j, e) = draw-some c w i ps (ground arith) (ground arith) r in
      (suc j, ground (arith, draw-skip c w p ps q))
]

-- The slot that is elected is in the table and runnable.
pub draw-runnable :
    (c w j : ℕ) (ps : List Proc)
    → draw c w ps ≡ some j
    → (p : Proc) × (get_elem? ps j ≡ some p) × (is_runnable p.state ≡ true)
unfolding draw
draw-runnable c w j [] e = cc
draw-runnable c w zero (p ∷ ps) e = (p, refl, ground arith)
draw-runnable c w (suc j) (p ∷ ps) e =
    draw-runnable (if is_runnable p.state then add32 c p.tickets else c) w j ps (ground arith)
