-- ===== src/Proc/Wakeups/Leave.antt =====
-- exit of hw3/proc.c leaves no zombie child to a process that sleeps in wait.
use nyu_operating_systems.Base.{
  ℕ, ◌≡◌, ◌≢◌, ◌⊎◌, refl, true, List, Option, some, none, arith, get_elem?, modify, get_elem?-map,
  get_elem?-lt, length, Bool-cases, inl, inr, sym, ◌∙◌, subst, ap, some-inj,
}
use nyu_operating_systems.Proc.State.{zombie, is_zombie, Chan, chan_of, Proc}
use nyu_operating_systems.Proc.Sched.{wake, wakeup1}
use nyu_operating_systems.Proc.Exit.{abandon_children}
use nyu_operating_systems.Proc.Valid.Leave.{slot_cases}
use nyu_operating_systems.Proc.Valid.Leave.Pass.{
  Wakes, Passed, Passed-trans, wakeup1-Passed, abandon_children-Passed,
}
use nyu_operating_systems.Proc.Wakeups.{IsWaiting, Served}
use nyu_operating_systems.Proc.Wakeups.Rounds.{
  waits-back, wakeup1-none_waits, abandon_children-none_waits,
}

-- The process p in slot `me` ends in the table t, whose processes have been passed on.
module _ (me : ℕ) (init : Option ℕ) (t passed : List Proc) (p : Proc) (s : Served init t)
    (at : get_elem? t me ≡ some p) (pass : Passed me init t passed)
    (parent_awake : (i : ℕ) (q : Proc)
      → p.parent ≡ some i
      → get_elem? passed i ≡ some q
      → IsWaiting i q
      → ⊥)
    (init_awake : (i j : ℕ) (o q : Proc)
      → get_elem? t j ≡ some o
      → is_zombie o.state ≡ true
      → o.parent ≡ some me
      → init ≡ some i
      → get_elem? passed i ≡ some q
      → IsWaiting i q
      → ⊥) where
  abbrev pub end : Proc → Proc
  end q = record q { state = zombie }

  -- What stood in a slot that is passed on.
  Was : ℕ → Proc → Type 0
  Was j q =
      (o : Proc) × (get_elem? t j ≡ some o)
      × ((q.parent ≡ o.parent) ⊎ ((o.parent ≡ some me) × (q.parent ≡ init)))
      × Wakes o q

  was : (j : ℕ) (q : Proc) → get_elem? passed j ≡ some q → Was j q
  unfolding Was
  was j q e = let (o, h, (pid, used, lives, run, up, wakes)) = pass.back j q e in (o, h, up, wakes)

  zombie-before : (o q : Proc) → Wakes o q → is_zombie q.state ≡ true → is_zombie o.state ≡ true
  zombie-before o q (inl same, chan) z = ground arith
  zombie-before o q (inr (asleep, awake), chan) z = absurd (ground arith)

  passed-apart : (j : ℕ) (q : Proc) → get_elem? passed j ≡ some q → q.parent ≢ some j
  unfolding Was
  passed-apart j q e own =
      let (o, h, up, wakes) = was j q e in
      elim up [
        | inl same ↦ s.apart j o h (sym same ∙ own)
        | inr (mine, to_init) ↦ let orphan = s.orphan j o (sym to_init ∙ own) h in cc
      ]

  passed-orphan : (j : ℕ) (q : Proc) → init ≡ some j → get_elem? passed j ≡ some q → q.parent ≡ none
  unfolding Was
  passed-orphan j q is_init e =
      let (o, h, up, wakes) = was j q e in
      let orphan = s.orphan j o is_init h in
      elim up [ inl same ↦ same ∙ orphan | inr (mine, to_init) ↦ cc ]

  -- A zombie child of a process that waits would have been one before, or wakes its parent.
  passed-heard :
      (i j : ℕ) (a q : Proc)
      → get_elem? passed i ≡ some a
      → IsWaiting i a
      → get_elem? passed j ≡ some q
      → q.parent ≡ some i
      → (is_zombie q.state ≡ true) ⊎ (j ≡ me)
      → ⊥
  unfolding Was
  passed-heard i j a q e w e' up (inr ended) =
      let (o, h, kin, wakes) = was j q e' in
      let same_one : o ≡ p =
        some-inj (sym h ∙ subst (λ z. get_elem? t z ≡ some p) (sym ended) at) in
      elim kin [
        | inl same ↦ parent_awake i a (ap (λ z. z.parent) (sym same_one) ∙ sym same ∙ up) e w
        | inr (mine, to_init) ↦ s.apart me p at (ap (λ z. z.parent) (sym same_one) ∙ mine)
      ]
  passed-heard i j a q e w e' up (inl z) =
      let (o, h, kin, wakes) = was j q e' in
      let (b, hb, kin_b, wakes_b) = was i a e in
      let dead = zombie-before o q wakes z in
      elim kin [
        | inl same ↦
            let alive = s.heard i j b o hb (waits-back i b a wakes_b w) h (sym same ∙ up) in cc
        | inr (mine, to_init) ↦ init_awake i j o a h dead mine (sym to_init ∙ up) e w
      ]

  pub leave-Served : Served init (modify passed me end)
  leave-Served = record {
    apart = λ j q e. elim (slot_cases passed me end j q e) [
      | inl (same, (o, h, d)) ↦
          let fine = passed-apart me o h in
          λ own. fine (ap (λ z. z.parent) (sym d) ∙ own ∙ ap some same)
      | inr (other, h) ↦ passed-apart j q h
    ];
    orphan = λ j q is_init e. elim (slot_cases passed me end j q e) [
      | inl (same, (o, h, d)) ↦ ap (λ z. z.parent) d ∙ passed-orphan me o (is_init ∙ ap some same) h
      | inr (other, h) ↦ passed-orphan j q is_init h
    ];
    heard = λ i j a q e w e' up. elim (slot_cases passed me end i a e) [
      | inl (same, (o, h, d)) ↦ absurd (cc)
      | inr (other, h) ↦ elim (slot_cases passed me end j q e') [
        | inl (same, (o, ho, d)) ↦
            absurd (passed-heard i me a o h w ho (ap (λ z. z.parent) (sym d) ∙ up) (inr refl))
        | inr (apart, hq) ↦ elim (Bool-cases (is_zombie q.state)) [
          | inr alive ↦ alive
          | inl z ↦ absurd (passed-heard i j a q h w hq up (inl z))
        ]
      ]
    ];
  }

-- exit with the lock held, on the channel c of the parent of the process p in slot `me`.
pub exit_table-Served :
    (me : ℕ) (init : Option ℕ) (t : List Proc) (p : Proc) (c : Chan)
    → Served init t
    → get_elem? t me ≡ some p
    → c ≡ chan_of p.parent
    → let woken = wakeup1 c t in
      Served init (
        modify
          (abandon_children me init (length woken) 0 woken)
          me
          (λ q. record q { state = zombie }))
exit_table-Served me init t p c s at channel =
    let woken = wakeup1 c t in
    let second = abandon_children-Passed me init (length woken) 0 woken in
    let passed = abandon_children me init (length woken) 0 woken in
    leave-Served me init t passed p s at (Passed-trans me init (wakeup1-Passed me init c t) second)
      (λ i q up e w.
        let (r, hr, (pid, used, lives, run, kin, wakes)) = second.back i q e in
        let own : c ≡ Chan.slot i = channel ∙ ap chan_of up in
        wakeup1-none_waits i t r (subst (λ d. get_elem? (wakeup1 d t) i ≡ some r) own hr)
          (waits-back i r q wakes w))
      (λ i j o q h z up is_init e w.
        let there : get_elem? woken j ≡ some (wake c o) =
          unfold wakeup1 in ground (arith, get_elem?-map (wake c) t j) in
        let dead : is_zombie (wake c o).state ≡ true = unfold wake in ground arith in
        let kin : (wake c o).parent ≡ some me = unfold wake in ground arith in
        abandon_children-none_waits me init (length woken) 0 i j woken (wake c o) q (omega arith)
          (omega (arith, get_elem?-lt woken j there)) there dead kin is_init e w)
