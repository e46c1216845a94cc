-- ===== src/Base/Fields.antt =====
-- `^`, `|` and `&` on numbers made of a high part and k low bits.
use Prim.Native.Nat.{ℕ, zero, suc, ◌+◌, ◌*◌, ◌/◌, ◌%◌, ◌^◌, ◌<◌, bit_and, bit_or, bit_xor}
use Prim.Native.Nat.{differ, min, max}
use mathlib.Core.Path.{◌≡◌, ap₂, refl}
use native.Mathlib.Omega.{arith}
use native.Mathlib.Nat.{pow-suc}
use flutter_sdk.Base.Bits.{double_pow, low_digit_xor, low_digit_and, low_digit_or}

-- An operation that works digit by digit.
module _ (op digit : ℕ → ℕ → ℕ) (nothing : op 0 0 ≡ 0)
    (low : (m n : ℕ) → op m n ≡ digit (m % 2) (n % 2) + 2 * op (m / 2) (n / 2)) where
  parts :
      (k a b r s : ℕ)
      → r < 2 ^ k
      → s < 2 ^ k
      → op (a * 2 ^ k + r) (b * 2 ^ k + s) ≡ op a b * 2 ^ k + op r s
  parts zero a b r s h l =
      let er : r ≡ 0 = omega arith in
      let es : s ≡ 0 = omega arith in
      let ea : a * 1 + r ≡ a = omega arith in
      let eb : b * 1 + s ≡ b = omega arith in omega (arith, ap₂ op ea eb, ap₂ op er es, nothing)
  parts (suc k) a b r s h l =
      let ha : (a * 2 ^ suc k + r) / 2 ≡ a * 2 ^ k + r / 2 = omega (arith, double_pow a k) in
      let hb : (b * 2 ^ suc k + s) / 2 ≡ b * 2 ^ k + s / 2 = omega (arith, double_pow b k) in
      let la : (a * 2 ^ suc k + r) % 2 ≡ r % 2 = omega (arith, double_pow a k) in
      let lb : (b * 2 ^ suc k + s) % 2 ≡ s % 2 = omega (arith, double_pow b k) in
      omega (
        arith,
        low (a * 2 ^ suc k + r) (b * 2 ^ suc k + s),
        ap₂ op ha hb,
        ap₂ digit la lb,
        parts k a b (r / 2) (s / 2) (omega (arith, pow-suc 2 k)) (omega (arith, pow-suc 2 k)),
        low r s,
        double_pow (op a b) k,
      )

pub bit_xor-parts :
    (k a b r s : ℕ)
    → r < 2 ^ k
    → s < 2 ^ k
    → bit_xor (a * 2 ^ k + r) (b * 2 ^ k + s) ≡ bit_xor a b * 2 ^ k + bit_xor r s
bit_xor-parts = parts bit_xor differ refl low_digit_xor

pub bit_and-parts :
    (k a b r s : ℕ)
    → r < 2 ^ k
    → s < 2 ^ k
    → bit_and (a * 2 ^ k + r) (b * 2 ^ k + s) ≡ bit_and a b * 2 ^ k + bit_and r s
bit_and-parts = parts bit_and min refl low_digit_and

pub bit_or-parts :
    (k a b r s : ℕ)
    → r < 2 ^ k
    → s < 2 ^ k
    → bit_or (a * 2 ^ k + r) (b * 2 ^ k + s) ≡ bit_or a b * 2 ^ k + bit_or r s
bit_or-parts = parts bit_or max refl low_digit_or

differ-lt : (x y : ℕ) → x < 2 → y < 2 → differ x y < 2
differ-lt zero y p q = q
differ-lt (suc zero) zero p q = omega arith
differ-lt (suc zero) (suc y) p q = omega arith
differ-lt (suc (suc x)) y p q = absurd (omega arith)

-- Two numbers of k bits differ in k bits.
pub bit_xor-lt : (k a b : ℕ) → a < 2 ^ k → b < 2 ^ k → bit_xor a b < 2 ^ k
bit_xor-lt zero a b h l =
    let ea : a ≡ 0 = omega arith in let eb : b ≡ 0 = omega arith in omega (arith, ap₂ bit_xor ea eb)
bit_xor-lt (suc k) a b h l = omega (
  arith,
  low_digit_xor a b,
  differ-lt (a % 2) (b % 2) (omega arith) (omega arith),
  bit_xor-lt k (a / 2) (b / 2) (omega (arith, pow-suc 2 k)) (omega (arith, pow-suc 2 k)),
  pow-suc 2 k,
)
