-- ===== src/Bignum/Shift.antt =====
-- Shifts by one bit: bn_lshift, bn_rshift and bn_mult_half of ios/Classes/bignum.c.
pub mod Value
pub mod Half
use flutter_sdk.Base.{ℕ, ◌+◌, ◌*◌, ◌/◌, ◌%◌, ◌^◌, List, [], ◌∷◌, u32, sub32, ◌<<<◌, ◌>>>◌}
use flutter_sdk.Base.{bit_and, bit_or}
use flutter_sdk.Bignum.Limbs.{Bignum256}

-- From i = 8 down: a[i] = ((a[i] << 1) & 0x3FFFFFFF) | ((a[i - 1] & 0x20000000) >> 29). `below` is
-- a[i - 1], which the loop has not yet changed.
pub lshift_loop : ℕ → List ℕ → List ℕ
lshift_loop below [] = []
lshift_loop below (a ∷ xs) =
    bit_or (u32 (a <<< 1) % 2 ^ 30) (bit_and below 0x20000000 >>> 29) ∷ lshift_loop a xs

pub bn_lshift : Bignum256 → Bignum256
unfolding lshift_loop
bn_lshift [] = []
bn_lshift (a ∷ xs) = u32 (a <<< 1) % 2 ^ 30 ∷ lshift_loop a xs

-- a[i] = (a[i] >> 1) | ((a[i + 1] & 1) << 29), and a[8] >>= 1
pub bn_rshift : Bignum256 → Bignum256
bn_rshift [] = []
bn_rshift (a ∷ []) = a >>> 1 ∷ []
bn_rshift (a ∷ b ∷ xs) = bit_or (a >>> 1) (bit_and b 1 <<< 29) ∷ bn_rshift (b ∷ xs)

-- For j from 0: tmp2 = x[j + 1] + (prime[j + 1] & xodd); tmp1 += (tmp2 & 1) << 29;
-- x[j] = tmp1 & 0x3fffffff; tmp1 >>= 30; tmp1 += tmp2 >> 1. At the end x[8] = tmp1.
pub half_loop : ℕ → ℕ → List ℕ → List ℕ → List ℕ
half_loop xodd tmp1 (x ∷ xs) (p ∷ ps) =
    let tmp2 = u32 (x + bit_and p xodd) in
    let sum = u32 (tmp1 + (bit_and tmp2 1 <<< 29)) in
    sum % 2 ^ 30 ∷ half_loop xodd (u32 ((sum >>> 30) + (tmp2 >>> 1))) xs ps
half_loop xodd tmp1 _ _ = tmp1 ∷ []

-- xodd = -(x[0] & 1); tmp1 = (x[0] + (prime[0] & xodd)) >> 1
pub bn_mult_half : Bignum256 → Bignum256 → Bignum256
unfolding half_loop
bn_mult_half (x ∷ xs) (p ∷ ps) =
    let xodd = sub32 0 (bit_and x 1) in half_loop xodd (u32 (x + bit_and p xodd) >>> 1) xs ps
bn_mult_half x _ = x
