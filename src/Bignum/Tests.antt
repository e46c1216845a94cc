-- ===== src/Bignum/Tests.antt =====
-- The theorems on bignums at concrete inputs: the prime of ios/Classes/secp256k1.c and small numbers.
use flutter_sdk.Base.{ℕ, ◌<◌, ◌+◌, ◌-◌, ◌*◌, ◌/◌, ◌%◌, ◌^◌, ◌≡◌, refl, arith, List, [], ◌∷◌}
use flutter_sdk.Bignum.Limbs.{Bignum256, IsNormalized, IsBignum, IsModulus, IsPartlyReduced, value}
use flutter_sdk.Bignum.Shift.{bn_mult_half}
use flutter_sdk.Bignum.Shift.Half.{bn_mult_half-value}
use flutter_sdk.Bignum.Reduce.{bn_fast_mod, bn_mod, bn_mult_k}
use flutter_sdk.Bignum.Reduce.Value.{bn_fast_mod-IsPartlyReduced, bn_mod-value}
use flutter_sdk.Bignum.Reduce.Value.{bn_mult_k-IsPartlyReduced}
use flutter_sdk.Bignum.Multiply.{bn_multiply_reduce, bn_multiply}
use flutter_sdk.Bignum.Multiply.Value.{bn_multiply-IsPartlyReduced}
use flutter_sdk.Bignum.Multiply.Value.{bn_multiply_reduce-IsPartlyReduced}
use flutter_sdk.Bignum.Power.{bn_sqrt, bn_inverse}
use flutter_sdk.Bignum.Power.Value.{bn_sqrt-value, bn_inverse-value}
use flutter_sdk.Bignum.Bytes.{bn_read_be, bn_read_le, bn_write_be, bn_write_le}
use flutter_sdk.Bignum.Bytes.{bn_read_uint64, bn_write_uint64}
use flutter_sdk.Bignum.Bytes.Words.{bn_read_uint64-value}
use flutter_sdk.Bignum.Bytes.RoundTrip.{bn_read_be-bn_write_be, bn_read_le-bn_write_le}

abbrev prime : Bignum256
prime =
    0x3ffffc2f ∷ 0x3ffffffb ∷ 0x3fffffff ∷ 0x3fffffff ∷ 0x3fffffff ∷ 0x3fffffff ∷ 0x3fffffff
    ∷ 0x3fffffff ∷ 0xffff ∷ []

abbrev seven : Bignum256
seven = 7 ∷ 0 ∷ 0 ∷ 0 ∷ 0 ∷ 0 ∷ 0 ∷ 0 ∷ 0 ∷ []

-- 2^255 + 5
abbrev wide : Bignum256
wide = 5 ∷ 0 ∷ 0 ∷ 0 ∷ 0 ∷ 0 ∷ 0 ∷ 0 ∷ 0x8000 ∷ []

prime-IsNormalized : IsNormalized prime
prime-IsNormalized = record { size = refl; digits = omega arith }

prime-IsModulus : IsModulus prime
unfolding value
prime-IsModulus = record { normal = prime-IsNormalized; low = omega arith; high = omega arith }

wide_below : value wide < 2 * value prime
unfolding value
wide_below = omega arith

seven-IsNormalized : IsNormalized seven
seven-IsNormalized = record { size = refl; digits = omega arith }

wide-IsNormalized : IsNormalized wide
wide-IsNormalized = record { size = refl; digits = omega arith }

wide-IsBignum : IsBignum wide
wide-IsBignum = record { size = refl; words = omega arith }

seven-IsBignum : IsBignum seven
seven-IsBignum = record { size = refl; words = omega arith }

-- Runs.
bytes : List ℕ
bytes =
    1 ∷ 2 ∷ 3 ∷ 4 ∷ 5 ∷ 6 ∷ 7 ∷ 8 ∷ 9 ∷ 10 ∷ 11 ∷ 12 ∷ 13 ∷ 14 ∷ 15 ∷ 16 ∷ 17 ∷ 18 ∷ 19 ∷ 20 ∷ 21
    ∷ 22 ∷ 23 ∷ 24 ∷ 25 ∷ 26 ∷ 27 ∷ 28 ∷ 29 ∷ 30 ∷ 31 ∷ 255 ∷ []

bn_multiply-IsPartlyReduced_example :
    IsPartlyReduced (value wide * value seven) prime (bn_multiply wide seven prime)
unfolding value
bn_multiply-IsPartlyReduced_example =
    bn_multiply-IsPartlyReduced prime prime-IsModulus wide-IsNormalized seven-IsNormalized
      (omega arith) (omega arith)

long_limbs : List ℕ
long_limbs = 3 ∷ 0 ∷ 0 ∷ 0 ∷ 0 ∷ 0 ∷ 0 ∷ 0 ∷ 0 ∷ 0 ∷ 0 ∷ 0 ∷ 0 ∷ 0 ∷ 0 ∷ 0 ∷ 0 ∷ 1 ∷ []

bn_multiply_reduce-IsPartlyReduced_example :
    IsPartlyReduced (value long_limbs) prime (bn_multiply_reduce long_limbs prime)
unfolding value long_limbs
bn_multiply_reduce-IsPartlyReduced_example =
    bn_multiply_reduce-IsPartlyReduced prime prime-IsModulus long_limbs refl (omega arith)
      (omega arith)

bn_fast_mod-IsPartlyReduced_example : IsPartlyReduced (value wide) prime (bn_fast_mod wide prime)
bn_fast_mod-IsPartlyReduced_example = bn_fast_mod-IsPartlyReduced wide-IsBignum prime-IsModulus

bn_mod-value_example :
    IsNormalized (bn_mod wide prime) × (value (bn_mod wide prime) ≡ value wide % value prime)
unfolding value
bn_mod-value_example = bn_mod-value wide-IsNormalized prime-IsNormalized (omega arith)

bn_mult_k-IsPartlyReduced_example : IsPartlyReduced (3 * value wide) prime (bn_mult_k wide 3 prime)
bn_mult_k-IsPartlyReduced_example =
    bn_mult_k-IsPartlyReduced 3 (omega arith) wide-IsNormalized prime-IsModulus

bn_mult_half-value_example :
    IsNormalized (bn_mult_half wide prime)
    × (2 * value (bn_mult_half wide prime) ≡ value wide + value wide % 2 * value prime)
unfolding value
bn_mult_half-value_example =
    bn_mult_half-value wide prime wide-IsNormalized prime-IsNormalized (omega arith) (omega arith)

bn_read_be-bn_write_be_example : bn_read_be (bn_write_be wide) ≡ wide
unfolding value
bn_read_be-bn_write_be_example = bn_read_be-bn_write_be wide-IsNormalized (omega arith)

bn_read_le-bn_write_le_example : bn_read_le (bn_write_le wide) ≡ wide
unfolding value
bn_read_le-bn_write_le_example = bn_read_le-bn_write_le wide-IsNormalized (omega arith)

bn_read_uint64-value_example :
    IsNormalized (bn_read_uint64 (2 ^ 63 + 9))
    × (value (bn_read_uint64 (2 ^ 63 + 9)) ≡ 2 ^ 63 + 9)
    × (bn_write_uint64 (bn_read_uint64 (2 ^ 63 + 9)) ≡ 2 ^ 63 + 9)
bn_read_uint64-value_example = bn_read_uint64-value (2 ^ 63 + 9) (omega arith)

bn_sqrt-value_example :
    IsNormalized (bn_sqrt wide prime)
    × (value (bn_sqrt wide prime) ≡ value wide ^ ((value prime + 1) / 4) % value prime)
bn_sqrt-value_example = bn_sqrt-value wide-IsNormalized wide_below prime-IsModulus

bn_inverse-value_example :
    IsNormalized (bn_inverse wide prime)
    × (value (bn_inverse wide prime) ≡ value wide ^ (value prime - 2) % value prime)
bn_inverse-value_example =
    bn_inverse-value wide-IsNormalized wide_below prime-IsModulus (omega arith)
