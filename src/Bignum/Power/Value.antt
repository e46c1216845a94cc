-- ===== src/Bignum/Power/Value.antt =====
-- The functions of Power compute powers modulo the prime.
use flutter_sdk.Base.{ℕ, ◌+◌, ◌-◌, ◌*◌, ◌/◌, ◌%◌, ◌^◌, ◌≤◌, ◌<◌, ◌≡◌, refl, arith}
use flutter_sdk.Base.{List, [], ◌∷◌, get_or, AllBelow, ap, ◌∙◌, sub32}
use flutter_sdk.Bignum.Limbs.{Bignum256, IsNormalized, IsModulus, value}
use flutter_sdk.Bignum.Add.{bn_addi}
use flutter_sdk.Bignum.Add.Value.{bn_addi-value}
use flutter_sdk.Bignum.Compare.{bn_one}
use flutter_sdk.Bignum.Shift.{bn_rshift}
use flutter_sdk.Bignum.Shift.Value.{bn_rshift-value}
use flutter_sdk.Bignum.Reduce.Value.{bn_mod-value}
use flutter_sdk.Bignum.Power.{bn_sqrt, bn_inverse, limbs_loop, minus_two}
use flutter_sdk.Bignum.Power.Ladder.{IsReady, limbs_loop-power}

one_IsNormalized : IsNormalized bn_one
one_IsNormalized = record { size = refl; digits = omega arith }

one_value : value bn_one ≡ 1
unfolding value
one_value = refl

power :
    {x prime : Bignum256} (exponent : List ℕ) (e : ℕ)
    → AllBelow (2 ^ 30) exponent
    → value exponent ≡ e
    → IsReady prime x
    → IsModulus prime
    → IsReady prime (limbs_loop prime exponent x bn_one)
      × (value (limbs_loop prime exponent x bn_one) % value prime ≡ value x ^ e % value prime)
power {x} {prime} exponent e digits same h m =
    let big : 1 < 2 * value prime = omega (arith, m.low) in
    let start : IsReady prime bn_one = record {
      normal = one_IsNormalized;
      below = rw one_value big;
    } in
    let r = limbs_loop-power prime m exponent x bn_one digits h start in
    let unit : value bn_one * value x ^ value exponent ≡ value x ^ e =
      ap (λ (t : ℕ). t * value x ^ value exponent) one_value
      ∙ omega (arith, ap (λ (t : ℕ). value x ^ t) same) in
    (r.0, r.1 ∙ ap (λ (t : ℕ). t % value prime) unit)

-- For a partly reduced x, bn_sqrt gives the power (prime + 1) / 4 of x, fully reduced.
pub bn_sqrt-value :
    {x prime : Bignum256}
    → IsNormalized x
    → value x < 2 * value prime
    → IsModulus prime
    → IsNormalized (bn_sqrt x prime)
      × (value (bn_sqrt x prime) ≡ value x ^ ((value prime + 1) / 4) % value prime)
unfolding bn_sqrt
bn_sqrt-value {x} {prime} n below m =
    let more = bn_addi-value 1 m.normal (omega arith) in
    let half = bn_rshift-value more.0 in
    let quarter = bn_rshift-value half.0 in
    let e : value (bn_rshift (bn_rshift (bn_addi prime 1))) ≡ (value prime + 1) / 4 =
      omega (arith, more.1, half.1, quarter.1, m.high) in
    let r = power _ _ quarter.0.digits e (record { normal = n; below = below }) m in
    let reduced = bn_mod-value r.0.normal m.normal r.0.below in (reduced.0, reduced.1 ∙ r.1)

minus_two-value :
    (prime : List ℕ)
    → 2 ≤ get_or prime 0 0
    → AllBelow (2 ^ 30) prime
    → AllBelow (2 ^ 30) (minus_two prime) × (value (minus_two prime) ≡ value prime - 2)
unfolding minus_two value
minus_two-value [] h d = absurd (omega arith)
minus_two-value (limb ∷ limbs) h d =
    let less : sub32 limb 2 ≡ limb - 2 = omega (arith, d.0) in
    ((omega (arith, less, d.0), d.1), omega (arith, less))

-- For a partly reduced x and a prime whose lowest limb is at least 2, the bn_inverse of builds
-- without USE_INVERSE_FAST gives the power prime - 2 of x, fully reduced.
pub bn_inverse-value :
    {x prime : Bignum256}
    → IsNormalized x
    → value x < 2 * value prime
    → IsModulus prime
    → 2 ≤ get_or prime 0 0
    → IsNormalized (bn_inverse x prime)
      × (value (bn_inverse x prime) ≡ value x ^ (value prime - 2) % value prime)
unfolding bn_inverse
bn_inverse-value {x} {prime} n below m low =
    let exponent = minus_two-value prime low m.normal.digits in
    let r = power _ _ exponent.0 exponent.1 (record { normal = n; below = below }) m in
    let reduced = bn_mod-value r.0.normal m.normal r.0.below in (reduced.0, reduced.1 ∙ r.1)
