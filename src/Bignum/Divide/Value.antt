-- ===== src/Bignum/Divide/Value.antt =====
-- Quotient and remainder as numbers.
use flutter_sdk.Base.{ℕ, ◌+◌, ◌*◌, ◌/◌, ◌%◌, ◌^◌, ◌<◌, ◌≡◌, arith, List, [], ◌∷◌}
use flutter_sdk.Base.{length, AllBelow}
use flutter_sdk.Bignum.Limbs.{Bignum256, IsNormalized, value}
use flutter_sdk.Bignum.Divide.{bn_divmod58, bn_divmod1000}

-- What the limbs of a division by d give.
abbrev Divides : ℕ → List ℕ → Bignum256 × ℕ → Type 0
Divides d xs r =
    (value r.0 * d + r.1 ≡ value xs) × (r.1 < d) × (length r.0 ≡ length xs) × AllBelow (2 ^ 30) r.0

divmod58_limbs : (xs : List ℕ) → AllBelow (2 ^ 30) xs → Divides 58 xs (bn_divmod58 xs)
unfolding bn_divmod58 value
divmod58_limbs [] h = omega arith
divmod58_limbs (x ∷ []) h = omega arith
divmod58_limbs (x ∷ y ∷ xs) h =
    let ih = divmod58_limbs (y ∷ xs) h.1 in
    (omega (arith, ih.0, ih.1), omega arith, omega (arith, ih.2), (omega (arith, ih.1), ih.3))

divmod1000_limbs : (xs : List ℕ) → AllBelow (2 ^ 30) xs → Divides 1000 xs (bn_divmod1000 xs)
unfolding bn_divmod1000 value
divmod1000_limbs [] h = omega arith
divmod1000_limbs (x ∷ []) h = omega arith
divmod1000_limbs (x ∷ y ∷ xs) h =
    let ih = divmod1000_limbs (y ∷ xs) h.1 in
    (omega (arith, ih.0, ih.1), omega arith, omega (arith, ih.2), (omega (arith, ih.1), ih.3))

-- On a normalized bignum, bn_divmod58 leaves the normalized quotient by 58 and the remainder.
pub bn_divmod58-value :
    {a : Bignum256}
    → IsNormalized a
    → IsNormalized (bn_divmod58 a).0
      × (value (bn_divmod58 a).0 ≡ value a / 58)
      × ((bn_divmod58 a).1 ≡ value a % 58)
bn_divmod58-value {a} n =
    let l = divmod58_limbs a n.digits in
    (
      record { size = omega (arith, n.size, l.2); digits = l.3 },
      omega (arith, l.0, l.1),
      omega (arith, l.0, l.1),
    )

-- On a normalized bignum, bn_divmod1000 leaves the normalized quotient by 1000 and the remainder.
pub bn_divmod1000-value :
    {a : Bignum256}
    → IsNormalized a
    → IsNormalized (bn_divmod1000 a).0
      × (value (bn_divmod1000 a).0 ≡ value a / 1000)
      × ((bn_divmod1000 a).1 ≡ value a % 1000)
bn_divmod1000-value {a} n =
    let l = divmod1000_limbs a n.digits in
    (
      record { size = omega (arith, n.size, l.2); digits = l.3 },
      omega (arith, l.0, l.1),
      omega (arith, l.0, l.1),
    )
