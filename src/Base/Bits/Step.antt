-- ===== src/Base/Bits/Step.antt =====
-- The bit operations by their lowest digit. The native operations mean `digits`, a recursion whose
-- fuel is the first number; here it is shown to be more than enough.
use Prim.Native.Nat.{ℕ, zero, suc, ◌+◌, ◌*◌, ◌/◌, ◌%◌, ◌≤◌, min, max, differ, digits, bitwise}
use Prim.Native.Nat.{bit_and, bit_or, bit_xor, bit_and-bitwise, bit_or-bitwise, bit_xor-bitwise}
use mathlib.Core.Path.{◌≡◌, refl, ◌∙◌, ap}
use native.Mathlib.Decide.{dec_le}
use native.Mathlib.Omega.{arith}

-- `rest` is what becomes of the second number when the first has run out, and `digit` joins two
-- digits.
module _ (rest : ℕ → ℕ) (digit : ℕ → ℕ → ℕ) where
  one_more :
      (fuel a b : ℕ) → a ≤ fuel → digits rest digit (suc fuel) a b ≡ digits rest digit fuel a b
  one_more zero zero b h = refl
  one_more zero (suc a) b h = elim h [ ]
  one_more (suc fuel) zero b h = refl
  one_more (suc fuel) (suc a) b h =
      ap (λ (t : ℕ). t * 2 + digit (suc a % 2) (b % 2))
        (one_more fuel (suc a / 2) (b / 2) (omega arith))

  trim : (fuel a b : ℕ) → a ≤ fuel → digits rest digit fuel a b ≡ bitwise rest digit a b
  trim zero zero b h = refl
  trim zero (suc a) b h = elim h [ ]
  trim (suc fuel) a b h = elim (dec_le a fuel) [
    | yes less ↦ one_more fuel a b less ∙ trim fuel a b less
    | no more ↦
        let full : suc fuel ≡ a = omega arith in ap (λ (t : ℕ). digits rest digit t a b) full
  ]

  pub bitwise_step :
      (a b : ℕ)
      → bitwise rest digit (suc a) b
        ≡ bitwise rest digit (suc a / 2) (b / 2) * 2 + digit (suc a % 2) (b % 2)
  bitwise_step a b =
      ap (λ (t : ℕ). t * 2 + digit (suc a % 2) (b % 2)) (trim a (suc a / 2) (b / 2) (omega arith))

-- The lowest digit of `xor`, and the others.
pub low_digit_xor : (m n : ℕ) → bit_xor m n ≡ differ (m % 2) (n % 2) + 2 * bit_xor (m / 2) (n / 2)
low_digit_xor zero n = rw (bit_xor-bitwise 0 n, bit_xor-bitwise (0 / 2) (n / 2)) (omega arith)
low_digit_xor (suc m) n =
    let step = bitwise_step (λ rest. rest) differ m n in
    rw (bit_xor-bitwise (suc m) n, bit_xor-bitwise (suc m / 2) (n / 2)) (omega (arith, step))

-- The lowest digit of `and`, and the others.
pub low_digit_and : (m n : ℕ) → bit_and m n ≡ min (m % 2) (n % 2) + 2 * bit_and (m / 2) (n / 2)
low_digit_and zero n = rw (bit_and-bitwise 0 n, bit_and-bitwise (0 / 2) (n / 2)) (omega arith)
low_digit_and (suc m) n =
    let step = bitwise_step (λ rest. zero) min m n in
    rw (bit_and-bitwise (suc m) n, bit_and-bitwise (suc m / 2) (n / 2)) (omega (arith, step))

-- The lowest digit of `or`, and the others.
pub low_digit_or : (m n : ℕ) → bit_or m n ≡ max (m % 2) (n % 2) + 2 * bit_or (m / 2) (n / 2)
low_digit_or zero n = rw (bit_or-bitwise 0 n, bit_or-bitwise (0 / 2) (n / 2)) (omega arith)
low_digit_or (suc m) n =
    let step = bitwise_step (λ rest. rest) max m n in
    rw (bit_or-bitwise (suc m) n, bit_or-bitwise (suc m / 2) (n / 2)) (omega (arith, step))
