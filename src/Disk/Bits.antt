-- ===== src/Disk/Bits.antt =====
-- Exclusive or on native numbers is commutative and associative, by recursion on binary digits.
use Prim.Native.Nat.{bit_xor, differ, digits, bitwise, bit_xor-bitwise}
use native.Mathlib.Nat.{le_refl}
use nyu_operating_systems.Base.Sums.{IsSum}
use nyu_operating_systems.Base.{ℕ, zero, suc, ◌+◌, ◌*◌, ◌/◌, ◌%◌, ◌≤◌, ◌≡◌, refl, arith, ◌∙◌, subst}

xor_digits_fuel :
    (n m a b : ℕ) → a ≤ n → a ≤ m → digits (λ y. y) differ n a b ≡ digits (λ y. y) differ m a b
xor_digits_fuel zero zero a b p q = refl
xor_digits_fuel zero (suc m) zero b p q = refl
xor_digits_fuel zero (suc m) (suc a) b p q = absurd (omega arith)
xor_digits_fuel (suc n) zero zero b p q = refl
xor_digits_fuel (suc n) zero (suc a) b p q = absurd (omega arith)
xor_digits_fuel (suc n) (suc m) zero b p q = refl
xor_digits_fuel (suc n) (suc m) (suc a) b p q =
    rw (xor_digits_fuel n m (suc a / 2) (b / 2) (omega arith) (omega arith))

bitwise_xor-suc :
    (a b : ℕ)
    → bitwise (λ y. y) differ (suc a) b
      ≡ bitwise (λ y. y) differ (suc a / 2) (b / 2) * 2 + differ (suc a % 2) (b % 2)
bitwise_xor-suc a b =
    omega (arith, xor_digits_fuel a (suc a / 2) (suc a / 2) (b / 2) (omega arith) (le_refl _))

xor_digit : (x y : ℕ) → differ (x % 2) (y % 2) ≡ (x + y) % 2
xor_digit x y = small (x % 2) (y % 2) (omega arith) (omega arith) ∙ omega arith
  where
    small : (u v : ℕ) → u ≤ 1 → v ≤ 1 → differ u v ≡ (u + v) % 2
    small zero zero h k = refl
    small zero (suc zero) h k = refl
    small (suc zero) zero h k = refl
    small (suc zero) (suc zero) h k = refl
    small zero (suc (suc v)) h k = absurd (omega arith)
    small (suc zero) (suc (suc v)) h k = absurd (omega arith)
    small (suc (suc u)) v h k = absurd (omega arith)

-- One equation for the lowest digit.
bit_xor_step : (a b : ℕ) → bit_xor a b ≡ bit_xor (a / 2) (b / 2) * 2 + (a + b) % 2
bit_xor_step zero b = simp bit_xor-bitwise (omega arith)
bit_xor_step (suc a) b = omega (
  arith,
  bit_xor-bitwise (suc a) b,
  bit_xor-bitwise (suc a / 2) (b / 2),
  bitwise_xor-suc a b,
  xor_digit (suc a) b,
)

pub zero-bit_xor : (b : ℕ) → bit_xor 0 b ≡ b
zero-bit_xor b = bit_xor-bitwise 0 b

bit_xor_comm_fuel : (n a b : ℕ) → a + b ≤ n → bit_xor a b ≡ bit_xor b a
bit_xor_comm_fuel n zero zero h = refl
bit_xor_comm_fuel zero a (suc b) h = absurd (omega arith)
bit_xor_comm_fuel zero (suc a) b h = absurd (omega arith)
bit_xor_comm_fuel (suc n) zero (suc b) h = omega (
  arith,
  bit_xor_step 0 (suc b),
  bit_xor_step (suc b) 0,
  bit_xor_comm_fuel n 0 (suc b / 2) (omega arith),
)
bit_xor_comm_fuel (suc n) (suc a) b h = omega (
  arith,
  bit_xor_step (suc a) b,
  bit_xor_step b (suc a),
  bit_xor_comm_fuel n (suc a / 2) (b / 2) (omega arith),
)

bit_xor_comm : (a b : ℕ) → bit_xor a b ≡ bit_xor b a
bit_xor_comm a b = bit_xor_comm_fuel (a + b) a b (le_refl _)

pub bit_xor-zero : (a : ℕ) → bit_xor a 0 ≡ a
bit_xor-zero a = bit_xor_comm a 0 ∙ zero-bit_xor a

-- Half of an exclusive or, and its lowest digit.
bit_xor_half : (a b : ℕ) → bit_xor a b / 2 ≡ bit_xor (a / 2) (b / 2)
bit_xor_half a b = omega (arith, bit_xor_step a b)

bit_xor_left :
    (a b c : ℕ)
    → bit_xor (bit_xor a b) c ≡ bit_xor (bit_xor (a / 2) (b / 2)) (c / 2) * 2 + (a + b + c) % 2
bit_xor_left a b c =
    let step : bit_xor (bit_xor a b) c
        ≡ bit_xor (bit_xor (a / 2) (b / 2)) (c / 2) * 2 + (bit_xor a b + c) % 2 =
      subst (λ z. bit_xor (bit_xor a b) c ≡ bit_xor z (c / 2) * 2 + (bit_xor a b + c) % 2)
        (bit_xor_half a b) (bit_xor_step (bit_xor a b) c) in
    omega (arith, bit_xor_step a b)

bit_xor_right :
    (a b c : ℕ)
    → bit_xor a (bit_xor b c) ≡ bit_xor (a / 2) (bit_xor (b / 2) (c / 2)) * 2 + (a + b + c) % 2
bit_xor_right a b c =
    let step : bit_xor a (bit_xor b c)
        ≡ bit_xor (a / 2) (bit_xor (b / 2) (c / 2)) * 2 + (a + bit_xor b c) % 2 =
      subst (λ z. bit_xor a (bit_xor b c) ≡ bit_xor (a / 2) z * 2 + (a + bit_xor b c) % 2)
        (bit_xor_half b c) (bit_xor_step a (bit_xor b c)) in
    omega (arith, bit_xor_step b c)

bit_xor_assoc_fuel :
    (n a b c : ℕ) → a + b + c ≤ n → bit_xor (bit_xor a b) c ≡ bit_xor a (bit_xor b c)
bit_xor_assoc_fuel n zero b c h = rw (zero-bit_xor b, zero-bit_xor (bit_xor b c)) refl
bit_xor_assoc_fuel zero (suc a) b c h = absurd (omega arith)
bit_xor_assoc_fuel (suc n) (suc a) b c h = omega (
  arith,
  bit_xor_left (suc a) b c,
  bit_xor_right (suc a) b c,
  bit_xor_assoc_fuel n (suc a / 2) (b / 2) (c / 2) (omega arith),
)

pub bit_xor_assoc : (a b c : ℕ) → bit_xor (bit_xor a b) c ≡ bit_xor a (bit_xor b c)
bit_xor_assoc a b c = bit_xor_assoc_fuel (a + b + c) a b c (le_refl _)

pub bit_xor-IsSum : IsSum bit_xor
bit_xor-IsSum = record { left_zero = zero-bit_xor; comm = bit_xor_comm; assoc = bit_xor_assoc }
