-- ===== src/Base/Lists.antt =====
-- Lists measured and indexed by native numbers, under the library's names.
use Prim.Native.Nat.{ℕ, zero, suc, ◌+◌, ◌<◌}
use mathlib.Core.Path.{◌≡◌, refl, ap}
use mathlib.Core.Logic.{◌≢◌, ◌⊎◌, inl, inr}
use mathlib.Core.List.{List, [], ◌∷◌, ◌++◌, map}
use mathlib.Core.Bool.{true, false}
use mathlib.Core.Option.{Option, none, some}
use native.Mathlib.Omega.{arith}
use nyu_operating_systems.Base.Tests.{◌==◌, if◌then◌else◌}

module _ {ℓ} {A : Type ℓ} where
  abbrev pub length : List A → ℕ
  length [] = 0
  length (x ∷ xs) = suc (length xs)

  abbrev pub get_elem? : List A → ℕ → Option A
  get_elem? [] i = none
  get_elem? (x ∷ xs) zero = some x
  get_elem? (x ∷ xs) (suc i) = get_elem? xs i

  -- A write out of bounds changes nothing.
  abbrev pub set : List A → ℕ → A → List A
  set [] i v = []
  set (x ∷ xs) zero v = v ∷ xs
  set (x ∷ xs) (suc i) v = x ∷ set xs i v

  abbrev pub replicate : ℕ → A → List A
  replicate zero a = []
  replicate (suc n) a = a ∷ replicate n a

  -- A predicate on every element.
  abbrev pub All {κ} : (A → Type κ) → List A → Type κ
  All P [] = Unit
  All P (x ∷ xs) = P x × All P xs

  pub length-append : (xs ys : List A) → length (xs ++ ys) ≡ length xs + length ys
  length-append [] ys = omega arith
  length-append (x ∷ xs) ys = omega (arith, length-append xs ys)

-- `some v` at a place that is there.
abbrev pub over {ℓ} : {A : Type ℓ} → Option A → A → Option A
over none v = none
over (some x) v = some v

-- The proofs of `All`, one after the other.
infixr 40 ◌&◌
abbrev pub ◌&◌ {ℓ κ} : {A : Type ℓ} {B : Type κ} → A → B → A × B
a & b = (a, b)

module _ {ℓ} {A : Type ℓ} where
  pub length-set : (xs : List A) (i : ℕ) (v : A) → length (set xs i v) ≡ length xs
  length-set [] i v = refl
  length-set (x ∷ xs) zero v = refl
  length-set (x ∷ xs) (suc i) v = ap suc (length-set xs i v)

  pub get_elem?-set :
      (xs : List A) (i j : ℕ) (v : A)
      → get_elem? (set xs i v) j ≡ (if i == j then over (get_elem? xs j) v else get_elem? xs j)
  get_elem?-set [] i j v = ground arith
  get_elem?-set (x ∷ xs) zero zero v = refl
  get_elem?-set (x ∷ xs) zero (suc j) v = ground arith
  get_elem?-set (x ∷ xs) (suc i) zero v = ground arith
  get_elem?-set (x ∷ xs) (suc i) (suc j) v = ground (arith, get_elem?-set xs i j v)

-- `xs[i] = f(xs[i])`, nothing out of bounds.
abbrev pub modify {ℓ} : {A : Type ℓ} → List A → ℕ → (A → A) → List A
modify [] i f = []
modify (x ∷ xs) zero f = f x ∷ xs
modify (x ∷ xs) (suc i) f = x ∷ modify xs i f

abbrev pub get_or {ℓ} : {A : Type ℓ} → List A → ℕ → A → A
get_or [] i d = d
get_or (x ∷ xs) zero d = x
get_or (x ∷ xs) (suc i) d = get_or xs i d

-- `f` on what is there.
abbrev pub on_some {ℓ κ} : {A : Type ℓ} {B : Type κ} → (A → B) → Option A → Option B
on_some f none = none
on_some f (some a) = some (f a)

module _ {ℓ} {A : Type ℓ} where
  pub get_elem?-modify :
      (xs : List A) (i j : ℕ) (f : A → A)
      → get_elem? (modify xs i f) j
        ≡ (if i == j then on_some f (get_elem? xs j) else get_elem? xs j)
  get_elem?-modify [] i j f = ground arith
  get_elem?-modify (x ∷ xs) zero zero f = refl
  get_elem?-modify (x ∷ xs) zero (suc j) f = ground arith
  get_elem?-modify (x ∷ xs) (suc i) zero f = ground arith
  get_elem?-modify (x ∷ xs) (suc i) (suc j) f = ground (arith, get_elem?-modify xs i j f)

  pub get_elem?-map {κ} :
      {B : Type κ} (f : A → B) (xs : List A) (j : ℕ)
      → get_elem? (map f xs) j ≡ on_some f (get_elem? xs j)
  get_elem?-map f [] j = refl
  get_elem?-map f (x ∷ xs) zero = refl
  get_elem?-map f (x ∷ xs) (suc j) = get_elem?-map f xs j

  pub get_or-get_elem? :
      (xs : List A) (i : ℕ) (d x : A) → get_elem? xs i ≡ some x → get_or xs i d ≡ x
  get_or-get_elem? [] i d x h = cc
  get_or-get_elem? (y ∷ xs) zero d x h = ground arith
  get_or-get_elem? (y ∷ xs) (suc i) d x h = get_or-get_elem? xs i d x h

  pub modify-modify :
      (xs : List A) (i : ℕ) (f g : A → A) → modify (modify xs i f) i g ≡ modify xs i (λ x. g (f x))
  modify-modify [] i f g = refl
  modify-modify (x ∷ xs) zero f g = refl
  modify-modify (x ∷ xs) (suc i) f g = ap (λ ys. x ∷ ys) (modify-modify xs i f g)

  pub get_elem?-lt : (xs : List A) (i : ℕ) {x : A} → get_elem? xs i ≡ some x → i < length xs
  get_elem?-lt [] i e = absurd (cc)
  get_elem?-lt (y ∷ xs) zero e = omega arith
  get_elem?-lt (y ∷ xs) (suc i) e = omega (arith, get_elem?-lt xs i e)

  pub get_elem?-modify_self :
      (xs : List A) (i : ℕ) (f : A → A) {x : A}
      → get_elem? xs i ≡ some x
      → get_elem? (modify xs i f) i ≡ some (f x)
  get_elem?-modify_self xs i f e = ground (arith, get_elem?-modify xs i i f)

  pub get_elem?-replicate :
      (n : ℕ) (a : A) (i : ℕ) {x : A} → get_elem? (replicate n a) i ≡ some x → x ≡ a
  get_elem?-replicate zero a i e = cc
  get_elem?-replicate (suc n) a zero e = ground arith
  get_elem?-replicate (suc n) a (suc i) e = get_elem?-replicate n a i e

  -- An entry after a write is the written one or an old one from another place.
  pub get_elem?-set_cases :
      (xs : List A) (i j : ℕ) (v y : A)
      → get_elem? (set xs i v) j ≡ some y
      → ((i ≡ j) × (v ≡ y)) ⊎ ((j ≢ i) × (get_elem? xs j ≡ some y))
  get_elem?-set_cases [] i j v y e = absurd (cc)
  get_elem?-set_cases (x ∷ xs) zero zero v y e = inl (refl, cc)
  get_elem?-set_cases (x ∷ xs) zero (suc j) v y e = inr (λ h. omega arith, e)
  get_elem?-set_cases (x ∷ xs) (suc i) zero v y e = inr (λ h. omega arith, e)
  get_elem?-set_cases (x ∷ xs) (suc i) (suc j) v y e = elim (get_elem?-set_cases xs i j v y e) [
    | inl (s, h) ↦ inl (ap suc s, h)
    | inr (d, h) ↦ inr (λ s. d (omega arith), h)
  ]

  pub get_elem?-set_self :
      (xs : List A) (i : ℕ) (v : A) {x : A}
      → get_elem? xs i ≡ some x
      → get_elem? (set xs i v) i ≡ some v
  get_elem?-set_self [] i v e = absurd (cc)
  get_elem?-set_self (y ∷ xs) zero v e = refl
  get_elem?-set_self (y ∷ xs) (suc i) v e = get_elem?-set_self xs i v e

  -- What holds of every element and of the default holds of the entry.
  pub get_or-All {κ} :
      (P : A → Type κ) (xs : List A) (i : ℕ) (d : A) → All P xs → P d → P (get_or xs i d)
  get_or-All P [] i d h e = e
  get_or-All P (x ∷ xs) zero d (h, hs) e = h
  get_or-All P (x ∷ xs) (suc i) d (h, hs) e = get_or-All P xs i d hs e

  pub get_elem?-set_other :
      (xs : List A) (i j : ℕ) (v : A) → j ≢ i → get_elem? (set xs i v) j ≡ get_elem? xs j
  get_elem?-set_other xs i j v apart = ground (arith, get_elem?-set xs i j v)

-- How often a number stands in a list.
abbrev pub occurs : ℕ → List ℕ → ℕ
occurs i [] = 0
occurs i (j ∷ js) = let rest = occurs i js in if j == i then suc rest else rest

pub occurs_self : (i : ℕ) (js : List ℕ) → occurs i (i ∷ js) ≡ suc (occurs i js)
occurs_self i js = let same : i == i ≡ true = ground arith in rw same refl

pub occurs_other : (i j : ℕ) (js : List ℕ) → i ≢ j → occurs i (j ∷ js) ≡ occurs i js
occurs_other i j js apart = let differ : j == i ≡ false = ground arith in rw differ refl
