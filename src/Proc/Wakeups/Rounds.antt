-- ===== src/Proc/Wakeups/Rounds.antt =====
-- The loop of exit (hw3/proc.c) wakes init for each zombie child that it passes on.
use native.Mathlib.Decide.{ℕ_discrete}
use nyu_operating_systems.Base.{
  ℕ, zero, suc, ◌+◌, ◌≤◌, ◌<◌, ◌≡◌, ◌≢◌, refl, true, List, Option, some, arith, get_elem?, modify,
  get_elem?-map, Bool-cases, Option-cases, inl, inr, sym, ◌∙◌, subst,
}
use nyu_operating_systems.Proc.State.{is_zombie, same_proc, Chan, chan_of, Proc}
use nyu_operating_systems.Proc.Sched.{wake, wakeup1}
use nyu_operating_systems.Proc.Exit.{abandon, abandon_children}
use nyu_operating_systems.Proc.Valid.Leave.Pass.{Wakes, abandon_children-Passed}
use nyu_operating_systems.Proc.Behave.Births.{modify-other}
use nyu_operating_systems.Proc.Wakeups.{IsWaiting}

-- A process that waits in the end has waited all along.
pub waits-back : (i : ℕ) (p q : Proc) → Wakes p q → IsWaiting i q → IsWaiting i p
waits-back i p q (inl same, chan) (s, c) = (sym same ∙ s, sym chan ∙ c)
waits-back i p q (inr (was, is), chan) (s, c) = absurd (cc)

-- After the wakeup of slot i nobody waits there.
pub wakeup1-none_waits :
    (i : ℕ) (t : List Proc) (q : Proc)
    → get_elem? (wakeup1 (Chan.slot i) t) i ≡ some q
    → IsWaiting i q
    → ⊥
unfolding wakeup1 wake
wakeup1-none_waits i t q e (s, c) = elim (Option-cases (get_elem? t i)) [
  | inl none_such ↦ absurd (ground (arith, get_elem?-map (wake (Chan.slot i)) t i))
  | inr (p, h) ↦
      let d : q ≡ wake (Chan.slot i) p = ground (arith, get_elem?-map (wake (Chan.slot i)) t i) in
      absurd (ground arith)
]

module _ (me : ℕ) (init : Option ℕ) where
  adopted : Proc → Proc
  adopted q = record q { parent = init }

  -- A round at the slot of a zombie child wakes init.
  abandon-none_waits :
      (s i : ℕ) (t : List Proc) (o q : Proc)
      → get_elem? t s ≡ some o
      → is_zombie o.state ≡ true
      → o.parent ≡ some me
      → init ≡ some i
      → get_elem? (abandon me init s t) i ≡ some q
      → IsWaiting i q
      → ⊥
  unfolding abandon adopted
  abandon-none_waits s i t o q h z up is_init e w =
      let mine : same_proc o.parent (some me) ≡ true = ground arith in
      let e' : get_elem? (wakeup1 (chan_of init) (modify t s adopted)) i ≡ some q =
        rw (abandon, h, mine, z) at e in
      wakeup1-none_waits i (modify t s adopted) q
        (subst (λ c. get_elem? (wakeup1 (chan_of c) (modify t s adopted)) i ≡ some q) is_init e') w

  -- A round at another slot leaves a zombie and its parent.
  abandon-other :
      (s j : ℕ) (t : List Proc) (o : Proc)
      → j ≢ s
      → get_elem? t j ≡ some o
      → is_zombie o.state ≡ true
      → (q : Proc) × (get_elem? (abandon me init s t) j ≡ some q)
        × (is_zombie q.state ≡ true)
        × (q.parent ≡ o.parent)
  unfolding abandon adopted
  abandon-other s j t o apart h z = elim (Option-cases (get_elem? t s)) [
    | inl out ↦ rw (abandon, out) (o, h, z, refl)
    | inr (p, e) ↦ elim (Bool-cases (same_proc p.parent (some me))) [
      | inr other ↦ rw (abandon, e, other) (o, h, z, refl)
      | inl mine ↦
          let there = modify-other t s j adopted apart ∙ h in
          elim (Bool-cases (is_zombie p.state)) [
            | inr alive ↦ rw (abandon, e, mine, alive) (o, there, z, refl)
            | inl dead ↦
                rw (abandon, e, mine, dead)
                  (
                    wake (chan_of init) o,
                    ground (arith, get_elem?-map (wake (chan_of init)) (modify t s adopted) j),
                    unfold wake in ground arith,
                    unfold wake in ground arith,
                  )
          ]
    ]
  ]

  -- After the rounds that reach a zombie child of `me`, init does not wait.
  pub abandon_children-none_waits :
      (n s i j : ℕ) (t : List Proc) (o q : Proc)
      → s ≤ j
      → j < s + n
      → get_elem? t j ≡ some o
      → is_zombie o.state ≡ true
      → o.parent ≡ some me
      → init ≡ some i
      → get_elem? (abandon_children me init n s t) i ≡ some q
      → IsWaiting i q
      → ⊥
  unfolding abandon_children
  abandon_children-none_waits zero s i j t o q lo hi h z up is_init e w = absurd (omega arith)
  abandon_children-none_waits (suc n) s i j t o q lo hi h z up is_init e w = elim (ℕ_discrete s j) [
    | yes same ↦
        let (r, hr, (pid, used, lives, run, kin, wakes)) =
          (abandon_children-Passed me init n (suc s) (abandon me init s t)).back i q e in
        abandon-none_waits s i t o r (rw same h) z up is_init hr (waits-back i r q wakes w)
    | no apart ↦
        let (o', h', z', up') = abandon-other s j t o (λ d. apart (sym d)) h z in
        abandon_children-none_waits n (suc s) i j (abandon me init s t) o' q (omega arith)
          (omega arith) h' z' (up' ∙ up) is_init e w
  ]
