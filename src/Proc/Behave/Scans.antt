-- ===== src/Proc/Behave/Scans.antt =====
-- What the scan of wait (hw3/proc.c) says of the children of a process.
use nyu_operating_systems.Base.{
  ℕ, zero, suc, ◌≡◌, refl, Bool, true, false, some, List, [], ◌∷◌, arith, get_elem?, Bool-cases,
  inl, inr, if◌then◌else◌,
}
use nyu_operating_systems.Proc.State.{is_zombie, same_proc, Proc}
use nyu_operating_systems.Proc.Exit.{finished, scan_children}

-- A child of `me` in slot i.
abbrev pub ChildAt : List Proc → ℕ → ℕ → Proc → Type 0
ChildAt t me i p = (get_elem? t i ≡ some p) × (p.parent ≡ some me)

-- No child of `me` is a zombie.
abbrev pub NoZombie : List Proc → ℕ → Type 0
NoZombie t me = (i : ℕ) (p : Proc) → ChildAt t me i p → is_zombie p.state ≡ false

-- The answer of the scan after the first slot.
abbrev seen : ℕ → Bool → Proc → Bool
seen me kids q = if same_proc q.parent (some me) then true else kids

pub finished-NoZombie :
    (me : ℕ) (kids b : Bool) (t : List Proc) → scan_children me kids t ≡ finished b → NoZombie t me
unfolding scan_children
finished-NoZombie me kids b [] e i p (h, up) = absurd (cc)
finished-NoZombie me kids b (q ∷ t) e zero p (h, up) = ground arith
finished-NoZombie me kids b (q ∷ t) e (suc i) p (h, up) =
    finished-NoZombie me (seen me kids q) b t (ground arith) i p (h, up)

finished-kids :
    (me : ℕ) (b : Bool) (t : List Proc) → scan_children me true t ≡ finished b → b ≡ true
unfolding scan_children
finished-kids me b [] e = ground arith
finished-kids me b (q ∷ t) e = finished-kids me b t (ground arith)

pub finished-child :
    (me : ℕ) (kids b : Bool) (t : List Proc)
    → scan_children me kids t ≡ finished b
    → (i : ℕ) (p : Proc) → ChildAt t me i p
    → b ≡ true
unfolding scan_children
finished-child me kids b [] e i p (h, up) = absurd (cc)
finished-child me kids b (q ∷ t) e zero p (h, up) = finished-kids me b t (ground arith)
finished-child me kids b (q ∷ t) e (suc i) p (h, up) =
    finished-child me (seen me kids q) b t (ground arith) i p (h, up)

pub scan_children-none :
    (me : ℕ) (t : List Proc)
    → ((i : ℕ) (p : Proc) → get_elem? t i ≡ some p → same_proc p.parent (some me) ≡ false)
    → scan_children me false t ≡ finished false
unfolding scan_children
scan_children-none me [] h = refl
scan_children-none me (q ∷ t) h =
    let rest = scan_children-none me t (λ i p e. h (suc i) p e) in
    rw (scan_children, h 0 q refl, rest) refl

-- The scan that has seen a child from the beginning on, or finds one.
pub finished-some_child :
    (me : ℕ) (t : List Proc)
    → scan_children me false t ≡ finished true
    → (i : ℕ) × (p : Proc) × ChildAt t me i p
unfolding scan_children
finished-some_child me [] e = absurd (cc)
finished-some_child me (q ∷ t) e = elim (Bool-cases (same_proc q.parent (some me))) [
  | inl child ↦ (0, q, (refl, ground arith))
  | inr other ↦ let (i, p, child) = finished-some_child me t (ground arith) in (suc i, p, child)
]

-- No process has `me` as its parent.
abbrev pub Childless : List Proc → ℕ → Type 0
Childless t me = (i : ℕ) (p : Proc) → get_elem? t i ≡ some p → same_proc p.parent (some me) ≡ false

pub finished-Childless :
    (me : ℕ) (t : List Proc) → scan_children me false t ≡ finished false → Childless t me
finished-Childless me t e i p h = elim (Bool-cases (same_proc p.parent (some me))) [
  | inr other ↦ other
  | inl child ↦ let seen_it = finished-child me false false t e i p (h, ground arith) in cc
]
