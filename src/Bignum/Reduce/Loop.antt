-- ===== src/Bignum/Reduce/Loop.antt =====
-- Taking a multiple of the prime off, limb by limb.
use flutter_sdk.Base.{ℕ, zero, suc, ◌+◌, ◌-◌, ◌*◌, ◌/◌, ◌^◌, ◌≤◌, ◌<◌, ◌≡◌, arith}
use flutter_sdk.Base.{List, [], ◌∷◌, length, AllBelow, get_or, take, u64, sub64}
use flutter_sdk.Bignum.Limbs.{value, value_onto, weight, IsOutput}
use flutter_sdk.Bignum.Reduce.{fast_mod_loop}
use native.Mathlib.Nat.{mul-le-mul}

-- One round: nothing wraps, because 0x1FFFFFFF80000000 is at least the product. `carry` is the
-- temp of the round before, shifted, and `offset` is what the round adds.
pub take_off :
    (offset coef carry x p : ℕ)
    → coef < 2 ^ 31
    → carry < 2 ^ 34
    → x < 2 ^ 32
    → p < 2 ^ 30
    → 0x1FFFFFFF80000000 ≤ offset
    → offset ≤ 0x2000000000000000
    → (sub64 (carry + offset + x) (u64 (p * coef)) + p * coef ≡ carry + offset + x)
      × (sub64 (carry + offset + x) (u64 (p * coef)) < 2 ^ 62)
take_off offset coef carry x p hc ht hx hp lo hi =
    let product : p * coef ≤ (2 ^ 30 - 1) * (2 ^ 31 - 1) =
      mul-le-mul {n₂ = 2 ^ 30 - 1} {m₂ = 2 ^ 31 - 1} (omega arith) (omega arith) in
    (omega (arith, product), omega (arith, product))

-- The carry between two limbs is 2^31 and a signed rest, so 2^31 stands above the limbs.
pub fast_mod_loop-value :
    (coef temp : ℕ) (xs ps : List ℕ)
    → coef < 2 ^ 31
    → temp < 2 ^ 64
    → length xs ≡ length ps
    → AllBelow (2 ^ 32) xs
    → AllBelow (2 ^ 30) ps
    → (value_onto (fast_mod_loop coef temp xs ps).0 ((fast_mod_loop coef temp xs ps).1 / 2 ^ 30)
          + coef * value ps
          + 2 ^ 31
        ≡ value_onto xs (2 ^ 31) + temp / 2 ^ 30)
      × IsOutput (length xs) (fast_mod_loop coef temp xs ps)
unfolding fast_mod_loop value value_onto
fast_mod_loop-value coef temp [] [] hc ht e h k = omega arith
fast_mod_loop-value coef temp [] (p ∷ ps) hc ht e h k = absurd (omega arith)
fast_mod_loop-value coef temp (x ∷ xs) [] hc ht e h k = absurd (omega arith)
fast_mod_loop-value coef temp (x ∷ xs) (p ∷ ps) hc ht e h k =
    let r =
      take_off 0x1FFFFFFF80000000 coef (temp / 2 ^ 30) x p hc (omega arith) h.0 k.0 (omega arith)
        (omega arith) in
    let sum = sub64 (temp / 2 ^ 30 + 0x1FFFFFFF80000000 + x) (u64 (p * coef)) in
    let ih = fast_mod_loop-value coef sum xs ps hc (omega (arith, r.1)) (omega arith) h.1 k.1 in
    (omega (arith, r.0, ih.0), (omega (arith, ih.1.0), (omega arith, ih.1.1)))

-- Limbs of 32 bits stay below five times their weight.
pub value-lt-words : (xs : List ℕ) → AllBelow (2 ^ 32) xs → value xs + 5 ≤ 5 * weight (length xs)
unfolding value weight
value-lt-words [] h = omega arith
value-lt-words (x ∷ xs) h = omega (arith, value-lt-words xs h.1)

pub value-split :
    (n : ℕ) (xs : List ℕ)
    → length xs ≡ suc n
    → value xs ≡ value (take n xs) + weight n * get_or xs n 0
unfolding value weight
value-split n [] e = absurd (omega arith)
value-split zero (x ∷ []) e = omega arith
value-split zero (x ∷ y ∷ xs) e = absurd (omega arith)
value-split (suc n) (x ∷ xs) e = omega (arith, value-split n xs (omega arith))
