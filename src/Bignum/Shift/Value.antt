-- ===== src/Bignum/Shift/Value.antt =====
-- The shifts as multiplication by two and division by two.
use flutter_sdk.Base.{ℕ, ◌+◌, ◌*◌, ◌/◌, ◌%◌, ◌^◌, ◌<◌, ◌≡◌, ap₂, arith}
use flutter_sdk.Base.{List, [], ◌∷◌, length, AllBelow, bit_and, bit_or, ◌∙◌}
use flutter_sdk.Base.{bit_and-pow, bit_and-ones, bit_or-high_low, bit_or-low_high}
use flutter_sdk.Bignum.Limbs.{Bignum256, IsNormalized, value, value_onto}
use flutter_sdk.Bignum.Limbs.{IsOutput, nine}
use flutter_sdk.Bignum.Shift.{bn_lshift, bn_rshift, lshift_loop}

-- One limb of bn_lshift, without bit operations.
lshift_limb :
    (below a : ℕ)
    → below < 2 ^ 30
    → bit_or (a * 2 ^ 1 % 2 ^ 32 % 2 ^ 30) (bit_and below 0x20000000 / 2 ^ 29)
      ≡ a % 2 ^ 29 * 2 + below / 2 ^ 29
lshift_limb below a h =
    let high : a * 2 ^ 1 % 2 ^ 32 % 2 ^ 30 ≡ a % 2 ^ 29 * 2 ^ 1 = omega arith in
    let low : bit_and below 0x20000000 / 2 ^ 29 ≡ below / 2 ^ 29 =
      omega (arith, bit_and-pow 29 below) in
    ap₂ bit_or high low ∙ bit_or-high_low 1 (a % 2 ^ 29) (below / 2 ^ 29) (omega arith)

-- The bit that the top limb loses.
abbrev lost_bit : ℕ → List ℕ → ℕ
lost_bit below [] = below / 2 ^ 29
lost_bit below (x ∷ xs) = lost_bit x xs

lshift_loop-value :
    (below : ℕ) (xs : List ℕ)
    → below < 2 ^ 30
    → AllBelow (2 ^ 30) xs
    → (value_onto (lshift_loop below xs) (lost_bit below xs) ≡ 2 * value xs + below / 2 ^ 29)
      × IsOutput (length xs) (lshift_loop below xs, 0)
unfolding lshift_loop value value_onto
lshift_loop-value below [] b h = omega arith
lshift_loop-value below (x ∷ xs) b h =
    let ih = lshift_loop-value x xs h.0 h.1 in
    let limb = lshift_limb below x b in
    (omega (arith, ih.0, limb), (omega (arith, ih.1.0), (omega (arith, limb), ih.1.1)))

-- On a normalized bignum, bn_lshift gives the normalized double modulo 2^270.
pub bn_lshift-value :
    (a : Bignum256)
    → IsNormalized a
    → IsNormalized (bn_lshift a) × (value (bn_lshift a) ≡ 2 * value a % 2 ^ 270)
unfolding bn_lshift value value_onto
bn_lshift-value [] n = absurd (omega (arith, n.size))
bn_lshift-value (x ∷ xs) n =
    let l = lshift_loop-value x xs n.digits.0 n.digits.1 in
    let size : length (x ∷ xs) ≡ 9 = n.size in
    let r =
      nine (bn_lshift (x ∷ xs), lost_bit x xs) size (omega (arith, l.1.0), (omega arith, l.1.1)) in
    (r.normal, omega (arith, l.0, r.onto, r.below))

rshift_limb :
    (a b : ℕ) → a < 2 ^ 30 → bit_or (a / 2 ^ 1) (bit_and b 1 * 2 ^ 29) ≡ a / 2 + b % 2 * 2 ^ 29
rshift_limb a b h =
    omega (arith, bit_or-low_high 29 (bit_and b 1) (a / 2 ^ 1) (omega arith), bit_and-ones 1 b)

rshift_limbs :
    (xs : List ℕ)
    → AllBelow (2 ^ 30) xs
    → (value (bn_rshift xs) ≡ value xs / 2) × IsOutput (length xs) (bn_rshift xs, 0)
unfolding bn_rshift value
rshift_limbs [] h = omega arith
rshift_limbs (x ∷ []) h = omega arith
rshift_limbs (x ∷ y ∷ xs) h =
    let ih = rshift_limbs (y ∷ xs) h.1 in
    let limb = rshift_limb x y h.0 in
    (omega (arith, ih.0, limb), (omega (arith, ih.1.0), (omega (arith, limb), ih.1.1)))

-- On a normalized bignum, bn_rshift gives the normalized half, rounded down.
pub bn_rshift-value :
    {a : Bignum256}
    → IsNormalized a
    → IsNormalized (bn_rshift a) × (value (bn_rshift a) ≡ value a / 2)
bn_rshift-value {a} n =
    let l = rshift_limbs a n.digits in
    (record { size = omega (arith, n.size, l.1.0); digits = l.1.1 }, l.0)
