-- ===== src/Base/Sums.antt =====
-- A commutative operation on numbers, and the values of a function below a bound under it.
use Prim.Native.Nat.{ℕ, zero, suc, ◌+◌, ◌*◌, ◌≤◌, ◌<◌}
use mathlib.Core.Path.{◌≡◌, refl, sym, ◌∙◌, ap, subst}
use mathlib.Core.Logic.{◌≢◌, inl, inr}
use native.Mathlib.Omega.{arith}
use nyu_operating_systems.Base.Tests.{ltb, Bool-cases}

pub record IsSum (op : ℕ → ℕ → ℕ) : Type 0 where
  pub left_zero : (a : ℕ) → op 0 a ≡ a
  pub comm : (a b : ℕ) → op a b ≡ op b a
  pub assoc : (a b c : ℕ) → op (op a b) c ≡ op a (op b c)

-- The values f 0 to f (n - 1) under op.
abbrev pub below : (ℕ → ℕ → ℕ) → ℕ → (ℕ → ℕ) → ℕ
below op zero f = 0
below op (suc n) f = op (below op n f) (f n)

module _ (op : ℕ → ℕ → ℕ) (laws : IsSum op) where
  right_zero : (a : ℕ) → op a 0 ≡ a
  right_zero a = laws.comm a 0 ∙ laws.left_zero a

  -- The middle two of four change places.
  middle : (a b c d : ℕ) → op (op a b) (op c d) ≡ op (op a c) (op b d)
  middle a b c d =
      laws.assoc a b (op c d)
      ∙ ap (op a) (sym (laws.assoc b c d) ∙ ap (λ z. op z d) (laws.comm b c) ∙ laws.assoc c b d)
      ∙ sym (laws.assoc a c (op b d))

  pub below-ext :
      (n : ℕ) (f g : ℕ → ℕ) → ((b : ℕ) → b < n → f b ≡ g b) → below op n f ≡ below op n g
  below-ext zero f g h = refl
  below-ext (suc n) f g h = rw (below-ext n f g (λ b k. h b (omega arith)), h n (omega arith)) refl

  -- One value more at one place.
  pub below-bump :
      (n i a : ℕ) (f g : ℕ → ℕ)
      → i < n
      → g i ≡ op a (f i)
      → ((b : ℕ) → b ≢ i → g b ≡ f b)
      → below op n g ≡ op a (below op n f)
  below-bump zero i a f g h here others = absurd (omega arith)
  below-bump (suc n) i a f g h here others = elim (Bool-cases (ltb i n)) [
    | inl before ↦
        ap (λ z. op z (g n)) (below-bump n i a f g (ground arith) here others)
        ∙ laws.assoc a (below op n f) (g n)
        ∙ ap (λ z. op a (op (below op n f) z)) (others n (ground arith))
    | inr last ↦
        let same : i ≡ n = ground arith in
        let here_last : g n ≡ op a (f n) = subst (λ z. g z ≡ op a (f z)) same here in
        ap (λ z. op z (g n)) (below-ext n g f (λ b k. others b (ground arith)))
        ∙ ap (op (below op n f)) here_last
        ∙ sym (laws.assoc (below op n f) a (f n))
        ∙ ap (λ z. op z (f n)) (laws.comm (below op n f) a)
        ∙ laws.assoc a (below op n f) (f n)
  ]

  -- Zeros at the end change nothing.
  pub below-more :
      (n k : ℕ) (f : ℕ → ℕ) → ((b : ℕ) → n ≤ b → f b ≡ 0) → below op (k + n) f ≡ below op n f
  below-more n zero f h = let same : 0 + n ≡ n = omega arith in ap (λ m. below op m f) same
  below-more n (suc k) f h =
      let same : suc k + n ≡ suc (k + n) = omega arith in
      rw (same, h (k + n) (omega arith), right_zero (below op (k + n) f)) (below-more n k f h)

  below-both :
      (n : ℕ) (f g : ℕ → ℕ) → below op n (λ b. op (f b) (g b)) ≡ op (below op n f) (below op n g)
  below-both zero f g = sym (laws.left_zero 0)
  below-both (suc n) f g =
      ap (λ z. op z (op (f n) (g n))) (below-both n f g)
      ∙ middle (below op n f) (below op n g) (f n) (g n)

  below-append :
      (m n : ℕ) (f : ℕ → ℕ) → below op (m + n) f ≡ op (below op m f) (below op n (λ b. f (m + b)))
  below-append m zero f =
      let same : m + 0 ≡ m = omega arith in rw (same, right_zero (below op m f)) refl
  below-append m (suc n) f =
      let same : m + suc n ≡ suc (m + n) = omega arith in
      rw (same, below-append m n f)
        (laws.assoc (below op m f) (below op n (λ b. f (m + b))) (f (m + n)))

  pub below-front :
      (n : ℕ) (f : ℕ → ℕ) → below op (suc n) f ≡ op (f 0) (below op n (λ b. f (suc b)))
  below-front zero f = laws.comm 0 (f 0)
  below-front (suc n) f =
      ap (λ z. op z (f (suc n))) (below-front n f)
      ∙ laws.assoc (f 0) (below op n (λ b. f (suc b))) (f (suc n))

  below-zero : (n : ℕ) → below op n (λ i. 0) ≡ 0
  below-zero zero = refl
  below-zero (suc n) = rw (below-zero n, laws.left_zero 0) refl

  -- Rows of `width` blocks, by columns.
  pub below-columns :
      (width rows : ℕ) (f : ℕ → ℕ)
      → below op width (λ i. below op rows (λ c. f (width * c + i))) ≡ below op (rows * width) f
  below-columns width zero f =
      let none_left : 0 * width ≡ 0 = omega arith in rw none_left (below-zero width)
  below-columns width (suc rows) f =
      let next : rows * width + width ≡ suc rows * width = grind arith in
      let swap : width * rows ≡ rows * width = grind arith in
      below-both width (λ i. below op rows (λ c. f (width * c + i))) (λ i. f (width * rows + i))
      ∙ ap (λ z. op z (below op width (λ i. f (width * rows + i)))) (below-columns width rows f)
      ∙ ap (λ z. op (below op (rows * width) f) (below op width (λ i. f (z + i)))) swap
      ∙ sym (below-append (rows * width) width f)
      ∙ ap (λ z. below op z f) next
