-- ===== src/Proc/Lottery/Fair.antt =====
-- Which draw elects which process in hw3/proc.c's scheduler, and how many do.
use nyu_operating_systems.Base.{
  ℕ, zero, suc, ◌+◌, ◌-◌, ◌^◌, ◌≤◌, ◌<◌, ◌≡◌, refl, ◌∙◌, Bool, true, false, ◌&&◌, ◌||◌, not, List,
  [], ◌∷◌, Option, none, some, on_some, arith, if◌then◌else◌, min, ltb, leb, get_or, Bool-cases,
  inl, inr,
}
use nyu_operating_systems.Base.Words.{add32, int_lt}
use nyu_operating_systems.Proc.State.{Proc, is_runnable, same_proc, zero_proc}
use nyu_operating_systems.Proc.Lottery.{sum_tickets, draw}

-- What a process holds in the lottery.
abbrev pub share : Proc → ℕ
share p = if is_runnable p.state then p.tickets else 0

unfoldable pub total : List Proc → ℕ
total [] = 0
total (p ∷ ps) = share p + total ps

-- The tickets of the runnable processes in the slots below `i`.
unfoldable pub before : ℕ → List Proc → ℕ
before zero ps = 0
before (suc i) [] = 0
before (suc i) (p ∷ ps) = share p + before i ps

unfoldable pub none_before : ℕ → List Proc → Bool
none_before zero ps = true
none_before (suc i) [] = true
none_before (suc i) (p ∷ ps) = not (is_runnable p.state) && none_before i ps

unfoldable pub count_below : ℕ → (ℕ → Bool) → ℕ
count_below zero f = 0
count_below (suc n) f = count_below n f + (if f n then 1 else 0)

abbrev pub at : List Proc → ℕ → Proc
at ps i = get_or ps i zero_proc

-- The slot is the first runnable one.
abbrev pub is_first : ℕ → List Proc → Bool
is_first i ps = is_runnable (at ps i).state && none_before i ps

-- The loop's sum is the sum of the shares, if that is an int.
pub sum_tickets-eq-total :
    (acc : ℕ) (ps : List Proc) → acc + total ps < 2 ^ 32 → sum_tickets acc ps ≡ acc + total ps
unfolding sum_tickets total
sum_tickets-eq-total acc [] h = omega arith
sum_tickets-eq-total acc (p ∷ ps) h = elim (Bool-cases (is_runnable p.state)) [
  | inl r ↦ rw r (
      let e : add32 acc p.tickets ≡ acc + p.tickets = ground arith in
      rw e (ground (arith, sum_tickets-eq-total (acc + p.tickets) ps)))
  | inr r ↦ rw r (ground (arith, sum_tickets-eq-total acc ps))
]

-- The draws that elect slot `i`, from a counter at `c`.
abbrev elects : ℕ → ℕ → ℕ → List Proc → Bool
elects c w i ps =
    is_runnable (at ps i).state
    && (leb w (c + before i ps + (at ps i).tickets)
        && (none_before i ps || ltb (c + before i ps) w))

none_before-before : (i : ℕ) (ps : List Proc) → none_before i ps ≡ true → before i ps ≡ 0
unfolding before none_before
none_before-before zero ps h = refl
none_before-before (suc i) [] h = refl
none_before-before (suc i) (p ∷ ps) h = ground (arith, none_before-before i ps)

pub draw-skip :
    (c w : ℕ) (p : Proc) (ps : List Proc)
    → is_runnable p.state ≡ false
    → draw c w (p ∷ ps) ≡ on_some suc (draw c w ps)
unfolding draw
draw-skip c w p ps r = ground arith

draw-step :
    (c w : ℕ) (p : Proc) (ps : List Proc)
    → is_runnable p.state ≡ true
    → draw c w (p ∷ ps) ≡ (
        if int_lt (add32 c p.tickets) w
        then on_some suc (draw (add32 c p.tickets) w ps)
        else some 0)
unfolding draw
draw-step c w p ps r = ground arith

-- Where the counter stays an int the loop's tests are those of numbers.
pub draw-take :
    (c w : ℕ) (p : Proc) (ps : List Proc)
    → is_runnable p.state ≡ true
    → c + p.tickets < 2 ^ 31
    → w < 2 ^ 31
    → draw c w (p ∷ ps)
      ≡ (if ltb (c + p.tickets) w then on_some suc (draw (c + p.tickets) w ps) else some 0)
draw-take c w p ps r h k =
    let e : add32 c p.tickets ≡ c + p.tickets = ground arith in
    let t : int_lt (c + p.tickets) w ≡ ltb (c + p.tickets) w = ground arith in
    rw (draw-step c w p ps r, e, t)

same_proc-suc :
    (o : Option ℕ) (i : ℕ) → same_proc (on_some suc o) (some (suc i)) ≡ same_proc o (some i)
same_proc-suc none i = refl
same_proc-suc (some j) i = ground arith

draw-elects :
    (c w i : ℕ) (ps : List Proc)
    → c + total ps < 2 ^ 31
    → w < 2 ^ 31
    → same_proc (draw c w ps) (some i) ≡ elects c w i ps
unfolding total before none_before
draw-elects c w i [] h k = unfold draw in refl
draw-elects c w zero (p ∷ ps) h k = unfold draw in ground arith
draw-elects c w (suc i) (p ∷ ps) h k = elim (Bool-cases (is_runnable p.state)) [
  | inl r ↦ ground (
    arith,
    draw-take c w p ps r,
    same_proc-suc (draw (c + p.tickets) w ps) i,
    draw-elects (c + p.tickets) w i ps,
    none_before-before i ps,
  )
  | inr r ↦
      ground (arith, draw-skip c w p ps r, same_proc-suc (draw c w ps) i, draw-elects c w i ps)
]

count_above :
    (m a b : ℕ) → a ≤ b → count_below m (λ w. leb w b && ltb a w) ≡ min m (b + 1) - (a + 1)
unfolding count_below
count_above zero a b p = omega arith
count_above (suc m) a b p = ground (arith, count_above m a b p)

count_upto : (m b : ℕ) → count_below m (λ w. leb w b) ≡ min m (b + 1)
unfolding count_below
count_upto zero b = omega arith
count_upto (suc m) b = ground (arith, count_upto m b)

count_none : (m : ℕ) → count_below m (λ w. false) ≡ 0
unfolding count_below
count_none zero = refl
count_none (suc m) = omega (arith, count_none m)

count-ext :
    (m : ℕ) (f g : ℕ → Bool) → ((w : ℕ) → w < m → f w ≡ g w) → count_below m f ≡ count_below m g
unfolding count_below
count-ext zero f g h = refl
count-ext (suc m) f g h =
    let e : f m ≡ g m = h m (omega arith) in
    rw e (omega (arith, count-ext m f g (λ w lt. h w (omega arith))))

-- The tickets below slot `i` and its own are part of the total.
before-le-total : (i : ℕ) (ps : List Proc) → before i ps + share (at ps i) ≤ total ps
unfolding before total
before-le-total zero [] = omega arith
before-le-total (suc i) [] = omega arith
before-le-total zero (p ∷ ps) = omega arith
before-le-total (suc i) (p ∷ ps) = omega (arith, before-le-total i ps)

-- How many of the draws 0, …, n elect slot `i`.
abbrev pub winning_draws : ℕ → ℕ → List Proc → ℕ
winning_draws n i ps = count_below (n + 1) (λ w. same_proc (draw 0 w ps) (some i))

-- Among the draws 0, …, total, a slot is elected by as many draws as it has tickets in the lottery,
-- and the first runnable slot by one more, if the runnable tickets add up to less than 2 ^ 31.
pub winning_draws-fair :
    (i : ℕ) (ps : List Proc)
    → total ps < 2 ^ 31
    → winning_draws (total ps) i ps ≡ share (at ps i) + (if is_first i ps then 1 else 0)
winning_draws-fair i ps h =
    let e =
      count-ext (total ps + 1) (λ w. same_proc (draw 0 w ps) (some i)) (λ w. elects 0 w i ps)
        (λ w lt. draw-elects 0 w i ps (omega arith) (omega arith)) in
    rw e (elim (Bool-cases (is_runnable (at ps i).state)) [
      | inl r ↦ elim (Bool-cases (none_before i ps)) [
        | inl f ↦
            rw (r, f)
              (count-ext (total ps + 1) _ (λ w. leb w (at ps i).tickets)
                  (λ w lt. ground (arith, none_before-before i ps f))
                ∙ omega (
                  arith,
                  count_upto (total ps + 1) (at ps i).tickets,
                  rw r at (before-le-total i ps),
                ))
        | inr f ↦
            rw (r, f)
              (count-ext (total ps + 1) _
                  (λ w. leb w (before i ps + (at ps i).tickets) && ltb (before i ps) w)
                  (λ w lt. ground arith)
                ∙ omega (
                  arith,
                  count_above (total ps + 1) (before i ps) (before i ps + (at ps i).tickets)
                      (omega arith),
                  rw r at (before-le-total i ps),
                ))
      ]
      | inr r ↦ rw r (count_none (total ps + 1))
    ])
