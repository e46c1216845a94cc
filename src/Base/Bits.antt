-- ===== src/Base/Bits.antt =====
-- The laws of `&`, `|` and `^` that the code relies on, at every width.
mod Step
pub use Step.{low_digit_or, low_digit_and, low_digit_xor}
use Prim.Native.Nat.{ℕ, zero, suc, ◌+◌, ◌-◌, ◌*◌, ◌/◌, ◌%◌, ◌^◌, ◌≤◌, ◌<◌, bit_and, bit_or, bit_xor}
use Prim.Native.Nat.{bit_or-bitwise, differ}
use mathlib.Core.Path.{◌≡◌, refl, ap, ◌∙◌}
use native.Mathlib.Omega.{arith}
use native.Mathlib.Nat.{pow-suc, one-le-pow, div-div-eq-div-mul}

pub double_pow : (q k : ℕ) → q * 2 ^ suc k ≡ 2 * (q * 2 ^ k)
double_pow q k = ap (λ (t : ℕ). q * t) (pow-suc 2 k) ∙ omega arith

differ_self : (a : ℕ) → differ a a ≡ 0
differ_self zero = refl
differ_self (suc a) = differ_self a

lt_pow : (a : ℕ) → a < 2 ^ a
lt_pow zero = omega arith
lt_pow (suc a) = omega (arith, lt_pow a, pow-suc 2 a)

-- Zero on the right, for numbers of k bits.
with_zero : (k a : ℕ) → a < 2 ^ k → (bit_or a 0 ≡ a) × (bit_and a 0 ≡ 0) × (bit_xor a a ≡ 0)
with_zero zero a h = let none : a ≡ 0 = omega arith in rw none (refl, refl, refl)
with_zero (suc k) a h =
    let (por, pand, pxor) = with_zero k (a / 2) (omega (arith, pow-suc 2 k)) in
    (
      omega (arith, por, low_digit_or a 0),
      omega (arith, pand, low_digit_and a 0),
      omega (arith, pxor, low_digit_xor a a, differ_self (a % 2)),
    )

pub bit_or-zero : (a : ℕ) → bit_or a 0 ≡ a
bit_or-zero a = (with_zero a a (lt_pow a)).0

pub bit_and-zero : (a : ℕ) → bit_and a 0 ≡ 0
bit_and-zero a = (with_zero a a (lt_pow a)).1

pub bit_xor_self : (a : ℕ) → bit_xor a a ≡ 0
bit_xor_self a = (with_zero a a (lt_pow a)).2

-- The digits of the second number are kept where the first has none.
pub zero-bit_or : (b : ℕ) → bit_or 0 b ≡ b
zero-bit_or b = bit_or-bitwise 0 b

-- `|` of a multiple of 2 ^ k and a number of k bits is their sum, on either side.
or_parts :
    (k q r : ℕ)
    → r < 2 ^ k
    → (bit_or (q * 2 ^ k) r ≡ q * 2 ^ k + r) × (bit_or r (q * 2 ^ k) ≡ q * 2 ^ k + r)
or_parts zero q r h =
    let none : r ≡ 0 = omega arith in
    rw none (omega (arith, bit_or-zero (q * 1)), omega (arith, zero-bit_or (q * 1)))
or_parts (suc k) q r h =
    let ih = or_parts k q (r / 2) (omega (arith, pow-suc 2 k)) in
    let twice = double_pow q k in
    (
      ground (arith, ih.0, twice, low_digit_or (q * 2 ^ suc k) r),
      ground (arith, ih.1, twice, low_digit_or r (q * 2 ^ suc k)),
    )

pub bit_or-high_low : (k q r : ℕ) → r < 2 ^ k → bit_or (q * 2 ^ k) r ≡ q * 2 ^ k + r
bit_or-high_low k q r h = (or_parts k q r h).0

pub bit_or-low_high : (k q r : ℕ) → r < 2 ^ k → bit_or r (q * 2 ^ k) ≡ q * 2 ^ k + r
bit_or-low_high k q r h = (or_parts k q r h).1

and_low : (k q r : ℕ) → r < 2 ^ k → bit_and (q * 2 ^ k + r) (2 ^ k - 1) ≡ r
and_low zero q r h = omega (arith, bit_and-zero (q * 1 + r))
and_low (suc k) q r h =
    let ih = and_low k q (r / 2) (omega (arith, pow-suc 2 k)) in
    ground
      (arith, ih, double_pow q k, pow-suc 2 k, low_digit_and (q * 2 ^ suc k + r) (2 ^ suc k - 1))

-- `&` with k ones is the remainder by 2 ^ k.
pub bit_and-ones : (k a : ℕ) → bit_and a (2 ^ k - 1) ≡ a % 2 ^ k
bit_and-ones k a =
    let pos = one-le-pow k 2 (omega arith) in ground (arith, pos, and_low k (a / 2 ^ k) (a % 2 ^ k))

-- `|` is zero only on zeros.
or_eq_zero_fuel : (n a b : ℕ) → a ≤ n → b ≤ n → bit_or a b ≡ 0 → (a ≡ 0) × (b ≡ 0)
or_eq_zero_fuel zero a b p q e = omega arith
or_eq_zero_fuel (suc n) a b p q e =
    ground (arith, low_digit_or a b, or_eq_zero_fuel n (a / 2) (b / 2) (omega arith) (omega arith))

pub bit_or-eq-zero : (a b : ℕ) → bit_or a b ≡ 0 → (a ≡ 0) × (b ≡ 0)
bit_or-eq-zero a b e = or_eq_zero_fuel (a + b) a b (omega arith) (omega arith) e

-- `^` is zero only on equal numbers.
xor_eq_zero_fuel : (n a b : ℕ) → a ≤ n → b ≤ n → bit_xor a b ≡ 0 → a ≡ b
xor_eq_zero_fuel zero a b p q e = omega arith
xor_eq_zero_fuel (suc n) a b p q e =
    ground
      (arith, low_digit_xor a b, xor_eq_zero_fuel n (a / 2) (b / 2) (omega arith) (omega arith))

pub bit_xor-eq-zero : (a b : ℕ) → bit_xor a b ≡ 0 → a ≡ b
bit_xor-eq-zero a b e = xor_eq_zero_fuel (a + b) a b (omega arith) (omega arith) e

pub two_pow : (k : ℕ) → 2 * 2 ^ k ≡ 2 ^ suc k
two_pow k = omega (arith, pow-suc 2 k)

-- `&` with a power of two is the digit at its place.
pub bit_and-pow : (k a : ℕ) → bit_and a (2 ^ k) ≡ a / 2 ^ k % 2 * 2 ^ k
bit_and-pow zero a = omega (arith, bit_and-ones 1 a)
bit_and-pow (suc k) a =
    let half : 2 ^ suc k / 2 ≡ 2 ^ k = omega (arith, pow-suc 2 k) in
    let quotient : a / 2 ^ suc k ≡ a / 2 / 2 ^ k = rw (div-div-eq-div-mul, ← two_pow k) in
    omega (
      arith,
      low_digit_and a (2 ^ suc k),
      pow-suc 2 k,
      ap (bit_and (a / 2)) half,
      bit_and-pow k (a / 2),
      ap (λ (t : ℕ). t % 2) quotient,
      double_pow (a / 2 / 2 ^ k % 2) k,
      ap (λ (t : ℕ). t % 2 * 2 ^ suc k) quotient,
    )

-- `&` with the word -o, for o zero or one, keeps all or nothing.
pub bit_and-minus_flag :
    (a o : ℕ) → a < 2 ^ 32 → o ≤ 1 → bit_and a ((0 + 2 ^ 32 - o) % 2 ^ 32) ≡ o * a
bit_and-minus_flag a zero h k = omega (arith, bit_and-zero a)
bit_and-minus_flag a (suc zero) h k = omega (arith, bit_and-ones 32 a)
bit_and-minus_flag a (suc (suc o)) h k = absurd (omega arith)
