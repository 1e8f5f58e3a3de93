-- ===== src/Base/Bits.antt =====
-- `x<<k | r` as arithmetic.
use Prim.Native.Nat.{
  ℕ, zero, suc, ◌+◌, ◌*◌, ◌/◌, ◌%◌, ◌^◌, ◌≤◌, ◌<◌, max, bit_or, digits, bitwise, bit_or-bitwise,
}
use mathlib.Core.Path.{◌≡◌, refl, ap}
use native.Mathlib.Nat.{
  pow-suc, le_refl, mul_comm, div-div-eq-div-mul, div-eq_of_lt, div-mul-le_self, mod-eq-sub-div-mul,
  mod-eq_of_lt,
}
use native.Mathlib.Omega.{arith}

-- The fuel of the native recursion on binary digits does not matter, once it is enough.
or_fuel : (n m a b : ℕ) → a ≤ n → a ≤ m → digits (λ y. y) max n a b ≡ digits (λ y. y) max m a b
or_fuel zero zero a b p q = refl
or_fuel zero (suc m) zero b p q = refl
or_fuel zero (suc m) (suc a) b p q = absurd (omega arith)
or_fuel (suc n) zero zero b p q = refl
or_fuel (suc n) zero (suc a) b p q = absurd (omega arith)
or_fuel (suc n) (suc m) zero b p q = refl
or_fuel (suc n) (suc m) (suc a) b p q =
    rw (or_fuel n m (suc a / 2) (b / 2) (omega arith) (omega arith))

or_bitwise :
    (a b : ℕ)
    → bitwise (λ y. y) max (suc a) b
      ≡ bitwise (λ y. y) max (suc a / 2) (b / 2) * 2 + max (suc a % 2) (b % 2)
or_bitwise a b = omega (arith, or_fuel a (suc a / 2) (suc a / 2) (b / 2) (omega arith) (le_refl _))

-- One equation for the lowest binary digit.
bit_or_digit : (a b : ℕ) → bit_or a b ≡ bit_or (a / 2) (b / 2) * 2 + max (a % 2) (b % 2)
bit_or_digit zero b = simp bit_or-bitwise (omega arith)
bit_or_digit (suc a) b = simp bit_or-bitwise (or_bitwise a b)

or_zero_below : (n a : ℕ) → a ≤ n → bit_or a 0 ≡ a
or_zero_below n zero h = refl
or_zero_below zero (suc a) h = absurd (omega arith)
or_zero_below (suc n) (suc a) h =
    omega (arith, bit_or_digit (suc a) 0, or_zero_below n (suc a / 2) (omega arith))

double_shift : (q k : ℕ) → q * 2 ^ suc k ≡ 2 * (q * 2 ^ k)
double_shift q k = omega (arith, ap (λ (t : ℕ). q * t) (pow-suc 2 k))

halved_twice : (r k : ℕ) → r / 2 / 2 ^ k ≡ r / 2 ^ suc k
halved_twice r k = rw (div-div-eq-div-mul r 2 (2 ^ k)) (rw (mul_comm 2 (2 ^ k)) (rw (pow-suc 2 k)))

halved : (q k : ℕ) → q * 2 ^ suc k / 2 ≡ q * 2 ^ k
halved q k = omega (arith, double_shift q k)

-- `(q << k) | r`, whatever `r` is: its low `k` bits stay, and the others meet those of `q`.
pub bit_or-shift : (k q r : ℕ) → bit_or (q * 2 ^ k) r ≡ bit_or q (r / 2 ^ k) * 2 ^ k + r % 2 ^ k
bit_or-shift zero q r = ground arith
bit_or-shift (suc k) q r =
    rw (bit_or_digit (q * 2 ^ suc k) r, halved q k, bit_or-shift k q (r / 2), halved_twice r k)
      (omega (
        arith,
        double_shift q k,
        double_shift (bit_or q (r / 2 ^ suc k)) k,
        double_shift (r / 2 ^ suc k) k,
        mod-eq-sub-div-mul r (2 ^ suc k),
        div-mul-le_self r (2 ^ suc k),
        mod-eq-sub-div-mul (r / 2) (2 ^ k),
        div-mul-le_self (r / 2) (2 ^ k),
        ap (λ (t : ℕ). t * 2 ^ k) (halved_twice r k),
      ))

-- It is a sum when `r` fits into `k` bits.
pub bit_or-shift_fits : (k q r : ℕ) → r < 2 ^ k → bit_or (q * 2 ^ k) r ≡ q * 2 ^ k + r
bit_or-shift_fits k q r fits =
    rw (bit_or-shift k q r, div-eq_of_lt fits, or_zero_below q q (le_refl q), mod-eq_of_lt fits)
