-- ===== src/Bignum/Compare.antt =====
-- Tests and selection of ios/Classes/bignum.c and bignum.h: bn_zero, bn_one, bn_is_zero, bn_is_even,
-- bn_is_odd, bn_is_less, bn_is_equal, bn_cmov. An int that is a truth value is 0 or 1.
pub mod Value
use flutter_sdk.Base.{ℕ, ◌-◌, ◌^◌, List, [], ◌∷◌, u32, sub32, ◌<<<◌, ltb, ◌==◌, flag}
use flutter_sdk.Base.{bit_and, bit_or, bit_xor}
use flutter_sdk.Bignum.Limbs.{Bignum256}

abbrev pub bn_zero : Bignum256
bn_zero = 0 ∷ 0 ∷ 0 ∷ 0 ∷ 0 ∷ 0 ∷ 0 ∷ 0 ∷ 0 ∷ []

abbrev pub bn_one : Bignum256
bn_one = 1 ∷ 0 ∷ 0 ∷ 0 ∷ 0 ∷ 0 ∷ 0 ∷ 0 ∷ 0 ∷ []

-- for i: result |= a[i]
pub or_loop : ℕ → List ℕ → ℕ
or_loop result [] = result
or_loop result (a ∷ xs) = or_loop (bit_or result a) xs

pub bn_is_zero : Bignum256 → ℕ
unfolding or_loop
bn_is_zero a = flag (or_loop 0 a == 0)

pub bn_is_even : Bignum256 → ℕ
bn_is_even [] = 1
bn_is_even (a ∷ xs) = flag (bit_and a 1 == 0)

pub bn_is_odd : Bignum256 → ℕ
bn_is_odd [] = 0
bn_is_odd (a ∷ xs) = flag (bit_and a 1 == 1)

-- From i = 8 down: res1 = (res1 << 1) | (a[i] < b[i]); res2 = (res2 << 1) | (a[i] > b[i]). The limbs
-- above the head come first.
pub less_loop : List ℕ → List ℕ → ℕ × ℕ
less_loop (a ∷ xs) (b ∷ ys) =
    let high = less_loop xs ys in
    (bit_or (u32 (high.0 <<< 1)) (flag (ltb a b)), bit_or (u32 (high.1 <<< 1)) (flag (ltb b a)))
less_loop _ _ = (0, 0)

pub bn_is_less : Bignum256 → Bignum256 → ℕ
unfolding less_loop
bn_is_less a b = let res = less_loop a b in flag (ltb res.1 res.0)

-- for i: result |= a[i] ^ b[i]
pub differ_loop : ℕ → List ℕ → List ℕ → ℕ
differ_loop result (a ∷ xs) (b ∷ ys) = differ_loop (bit_or result (bit_xor a b)) xs ys
differ_loop result _ _ = result

pub bn_is_equal : Bignum256 → Bignum256 → ℕ
unfolding differ_loop
bn_is_equal a b = flag (differ_loop 0 a b == 0)

-- for i: res[i] = (truecase[i] & tmask) | (falsecase[i] & fmask)
pub cmov_loop : ℕ → ℕ → List ℕ → List ℕ → List ℕ
cmov_loop tmask fmask (t ∷ ts) (f ∷ fs) =
    bit_or (bit_and t tmask) (bit_and f fmask) ∷ cmov_loop tmask fmask ts fs
cmov_loop tmask fmask _ _ = []

-- tmask = (uint32_t) -cond; fmask = ~tmask. The code asserts that cond is 0 or 1.
pub bn_cmov : ℕ → Bignum256 → Bignum256 → Bignum256
unfolding cmov_loop
bn_cmov cond truecase falsecase =
    let tmask = sub32 0 cond in cmov_loop tmask (2 ^ 32 - 1 - tmask) truecase falsecase
