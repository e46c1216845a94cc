-- ===== src/Bignum/Reduce.antt =====
-- Reduction modulo a prime: bn_fast_mod, bn_mod, bn_mult_k and bn_addmod of ios/Classes/bignum.c.
pub mod Loop
pub mod Value
use flutter_sdk.Base.{ℕ, ◌+◌, ◌*◌, ◌%◌, ◌^◌, List, [], ◌∷◌, u32, u64, sub64, ◌>>>◌, get_or}
use flutter_sdk.Bignum.Limbs.{Bignum256}
use flutter_sdk.Bignum.Compare.{bn_is_less, bn_cmov}
use flutter_sdk.Bignum.Add.{bn_subtract}

-- for j from 1: temp >>= 30; temp += 0x1FFFFFFF80000000 + x[j] - prime[j] * (uint64_t) coef;
-- x[j] = temp & 0x3FFFFFFF. Returns the limbs and the last temp.
pub fast_mod_loop : ℕ → ℕ → List ℕ → List ℕ → List ℕ × ℕ
fast_mod_loop coef temp (x ∷ xs) (p ∷ ps) =
    let sum = sub64 ((temp >>> 30) + 0x1FFFFFFF80000000 + x) (u64 (p * coef)) in
    let rest = fast_mod_loop coef sum xs ps in (sum % 2 ^ 30 ∷ rest.0, rest.1)
fast_mod_loop coef temp _ _ = ([], temp)

-- coef = x[8] >> 16; temp = 0x2000000000000000 + x[0] - prime[0] * (uint64_t) coef
pub bn_fast_mod : Bignum256 → Bignum256 → Bignum256
unfolding fast_mod_loop
bn_fast_mod (x ∷ xs) (p ∷ ps) =
    let coef = get_or (x ∷ xs) 8 0 >>> 16 in
    let temp = sub64 (0x2000000000000000 + x) (u64 (p * coef)) in
    temp % 2 ^ 30 ∷ (fast_mod_loop coef temp xs ps).0
bn_fast_mod x _ = x

-- flag = bn_is_less(x, prime); temp = x - prime; x = flag ? x : temp
pub bn_mod : Bignum256 → Bignum256 → Bignum256
bn_mod x prime = let temp = bn_subtract x prime in bn_cmov (bn_is_less x prime) x temp

-- for j: x[j] = k * x[j], on words
pub scale_loop : ℕ → List ℕ → List ℕ
scale_loop k [] = []
scale_loop k (x ∷ xs) = u32 (k * x) ∷ scale_loop k xs

pub bn_mult_k : Bignum256 → ℕ → Bignum256 → Bignum256
bn_mult_k x k prime = bn_fast_mod (scale_loop k x) prime

-- for i: a[i] += b[i], on words
pub sum_loop : List ℕ → List ℕ → List ℕ
sum_loop (a ∷ xs) (b ∷ ys) = u32 (a + b) ∷ sum_loop xs ys
sum_loop _ _ = []

pub bn_addmod : Bignum256 → Bignum256 → Bignum256 → Bignum256
bn_addmod a b prime = bn_fast_mod (sum_loop a b) prime
