-- ===== src/Bignum/Add/Value.antt =====
-- Sums and differences of bignums as operations on the numbers that they stand for.
use flutter_sdk.Base.{ℕ, ◌+◌, ◌-◌, ◌*◌, ◌/◌, ◌%◌, ◌^◌, ◌≤◌, ◌<◌, ◌≡◌, arith, [], ◌∷◌}
use flutter_sdk.Base.{length, get_or, AllBelow, sub32}
use flutter_sdk.Bignum.Limbs.{Bignum256, IsNormalized, value, value_onto, weight}
use flutter_sdk.Bignum.Limbs.{nine}
use flutter_sdk.Bignum.Add.{bn_add, bn_addi, bn_normalize, bn_subi, bn_subtractmod, bn_subtract}
use flutter_sdk.Bignum.Add.{add_loop, addi_loop, subtractmod_loop, subtract_loop}
use flutter_sdk.Bignum.Add.Loops.{add_loop-value, addi_loop-value}
use flutter_sdk.Bignum.Add.Loops.{subtractmod_loop-value, subtract_loop-value}

-- For normalized bignums, bn_add returns a normalized bignum: the sum modulo 2^270.
pub bn_add-value :
    {a b : Bignum256}
    → IsNormalized a
    → IsNormalized b
    → IsNormalized (bn_add a b) × (value (bn_add a b) ≡ (value a + value b) % 2 ^ 270)
unfolding bn_add
bn_add-value {a} {b} n m =
    let l = add_loop-value 0 a b (omega arith) (omega arith) n.digits m.digits in
    let r = nine (add_loop 0 a b) n.size l.1 in (r.normal, omega (arith, l.0, r.onto, r.below))

-- For limbs with room for a carry, bn_normalize returns a normalized bignum of the same value
-- modulo 2^270.
pub bn_normalize-value :
    (a : Bignum256)
    → length a ≡ 9
    → AllBelow (2 ^ 32 - 3) a
    → IsNormalized (bn_normalize a) × (value (bn_normalize a) ≡ value a % 2 ^ 270)
unfolding bn_normalize bn_addi
bn_normalize-value a e h =
    let l = addi_loop-value (2 ^ 32 - 3) 0 a (omega arith) (omega arith) h in
    let r = nine (addi_loop 0 a) e l.1 in (r.normal, omega (arith, l.0, r.onto, r.below))

-- For a normalized a and b up to 3 * 2^30, bn_addi returns a normalized bignum: the sum modulo
-- 2^270.
pub bn_addi-value :
    {a : Bignum256} (b : ℕ)
    → IsNormalized a
    → b ≤ 3 * 2 ^ 30
    → IsNormalized (bn_addi a b) × (value (bn_addi a b) ≡ (value a + b) % 2 ^ 270)
unfolding bn_addi
bn_addi-value {a} b n h =
    let l = addi_loop-value (2 ^ 30) b a (omega arith) (omega arith) n.digits in
    let r = nine (addi_loop b a) n.size l.1 in (r.normal, omega (arith, l.0, r.onto, r.below))

-- For normalized bignums, bn_subtractmod returns a normalized bignum. Where b is at most
-- a + 2 * prime and a + 2 * prime fits, that is a + 2 * prime - b exactly.
pub bn_subtractmod-value :
    {a b prime : Bignum256}
    → IsNormalized a
    → IsNormalized b
    → IsNormalized prime
    → value b ≤ value a + 2 * value prime
    → value a + 2 * value prime < 2 ^ 270
    → IsNormalized (bn_subtractmod a b prime)
      × (value (bn_subtractmod a b prime) + value b ≡ value a + 2 * value prime)
unfolding bn_subtractmod weight
bn_subtractmod-value {a} {b} {prime} n m k lo hi =
    let l =
      subtractmod_loop-value 1 a b prime (omega arith) (omega arith) (omega arith) n.digits m.digits
        k.digits in
    let r = nine (subtractmod_loop 1 a b prime) n.size l.1 in
    (r.normal, omega (arith, rw n.size at l.0, r.onto, r.below))

-- For normalized bignums, bn_subtract returns a normalized bignum: the difference modulo 2^270,
-- so a - b where b is at most a.
pub bn_subtract-value :
    {a b : Bignum256}
    → IsNormalized a
    → IsNormalized b
    → IsNormalized (bn_subtract a b)
      × (value (bn_subtract a b) ≡ (value a + 2 ^ 270 - value b) % 2 ^ 270)
unfolding bn_subtract weight
bn_subtract-value {a} {b} n m =
    let l = subtract_loop-value 1 a b (omega arith) (omega arith) n.digits m.digits in
    let r = nine (subtract_loop 1 a b) n.size l.1 in
    (r.normal, omega (arith, rw n.size at l.0, r.onto, r.below))

-- For normalized a and prime, and b at most the prime's lowest limb, bn_subi returns a normalized
-- bignum: a + prime - b modulo 2^270. The lowest limb wraps below zero and back.
pub bn_subi-value :
    (a : Bignum256) (b : ℕ) (prime : Bignum256)
    → IsNormalized a
    → IsNormalized prime
    → b ≤ get_or prime 0 0
    → IsNormalized (bn_subi a b prime)
      × (value (bn_subi a b prime) ≡ (value a + value prime - b) % 2 ^ 270)
unfolding bn_subi bn_add add_loop value value_onto
bn_subi-value [] b prime n m h = absurd (omega (arith, n.size))
bn_subi-value (x ∷ xs) b [] n m h = absurd (omega (arith, m.size))
bn_subi-value (x ∷ xs) b (p ∷ ps) n m h =
    let head = sub32 x b in
    let l =
      add_loop-value ((0 + (head + p)) % 2 ^ 32 / 2 ^ 30) xs ps (omega arith)
        (omega (arith, n.size, m.size)) n.digits.1 m.digits.1 in
    let size : length (x ∷ xs) ≡ 9 = n.size in
    let r =
      nine (add_loop 0 (head ∷ xs) (p ∷ ps)) size (omega (arith, l.1.0), (omega arith, l.1.1)) in
    (r.normal, omega (arith, l.0, r.onto, r.below, n.digits.0, m.digits.0))
