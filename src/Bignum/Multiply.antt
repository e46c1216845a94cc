-- ===== src/Bignum/Multiply.antt =====
-- Multiplication: bn_multiply_long, bn_multiply_reduce_step, bn_multiply_reduce and bn_multiply of
-- ios/Classes/bignum.c. `res` is a list of 18 limbs. Clearing the local array afterwards has no
-- result.
pub mod Long
pub mod Convolution
pub mod Product
pub mod Step
pub mod Value
use flutter_sdk.Base.{ℕ, zero, suc, ◌+◌, ◌-◌, ◌*◌, ◌%◌, ◌^◌, List, [], ◌∷◌, ◌++◌}
use flutter_sdk.Base.{u32, u64, sub64, ◌<<<◌, ◌>>>◌, get_or, take, drop}
use flutter_sdk.Bignum.Limbs.{Bignum256}

-- n rounds of: temp += k[j] * (uint64_t) x[i - j]; j++
pub column_loop : List ℕ → List ℕ → ℕ → ℕ → ℕ → ℕ → ℕ
column_loop k x i temp j zero = temp
column_loop k x i temp j (suc n) =
    column_loop k x i (u64 (temp + u64 (get_or k j 0 * get_or x (i - j) 0))) (j + 1) n

-- n rounds from i, of: the column; res[i] = temp & 0x3FFFFFFF; temp >>= 30. A column begins at
-- `first i` and has `count i` products. Returns the limbs and the last temp.
pub columns_loop : (ℕ → ℕ) → (ℕ → ℕ) → List ℕ → List ℕ → ℕ → ℕ → ℕ → List ℕ × ℕ
columns_loop first count k x i temp zero = ([], temp)
columns_loop first count k x i temp (suc n) =
    let sum = column_loop k x i temp (first i) (count i) in
    let rest = columns_loop first count k x (i + 1) (sum >>> 30) n in
    (sum % 2 ^ 30 ∷ rest.0, rest.1)

-- The lower half has j = 0 .. i for i = 0 .. 8, the upper half j = i - 8 .. 8 for i = 9 .. 16.
pub bn_multiply_long : Bignum256 → Bignum256 → List ℕ
bn_multiply_long k x =
    let lower = columns_loop (λ i. 0) (λ i. i + 1) k x 0 0 9 in
    let upper = columns_loop (λ i. i - 8) (λ i. 17 - i) k x 9 lower.1 8 in
    lower.0 ++ (upper.0 ++ (upper.1 % 2 ^ 30 ∷ []))

-- The loop of a step over res[i - 8 ..] and the prime's limbs from j = 1, and behind it the limb at
-- j = 9, which has no product. Returns the limbs and the last temp.
pub reduce_loop : ℕ → ℕ → List ℕ → List ℕ → List ℕ × ℕ
reduce_loop coef temp [] ps = ([], temp)
reduce_loop coef temp (r ∷ rs) [] =
    let sum = u64 ((temp >>> 30) + 0x1FFFFFFF80000000 + r) in (sum % 2 ^ 30 ∷ rs, sum)
reduce_loop coef temp (r ∷ rs) (p ∷ ps) =
    let sum = sub64 ((temp >>> 30) + 0x1FFFFFFF80000000 + r) (u64 (p * coef)) in
    let rest = reduce_loop coef sum rs ps in (sum % 2 ^ 30 ∷ rest.0, rest.1)

-- coef = (res[i] >> 16) + (res[i + 1] << 14), of the window that begins at i - 8
pub reduce_coef : List ℕ → ℕ
reduce_coef window = u32 ((get_or window 8 0 >>> 16) + u32 (get_or window 9 0 <<< 14))

-- A step on the ten limbs res[i - 8 .. i + 1].
pub reduce_window : List ℕ → Bignum256 → List ℕ
reduce_window (r ∷ rs) (p ∷ ps) =
    let coef = reduce_coef (r ∷ rs) in
    let temp = sub64 (0x2000000000000000 + r) (u64 (p * coef)) in
    temp % 2 ^ 30 ∷ (reduce_loop coef temp rs ps).0
reduce_window window _ = window

pub bn_multiply_reduce_step : List ℕ → Bignum256 → ℕ → List ℕ
bn_multiply_reduce_step res prime i =
    take (i - 8) res
    ++ (reduce_window (take 10 (drop (i - 8) res)) prime ++ drop 10 (drop (i - 8) res))

-- for i = k + 8 down to 8
pub reduce_rounds : ℕ → List ℕ → Bignum256 → List ℕ
reduce_rounds zero res prime = bn_multiply_reduce_step res prime 8
reduce_rounds (suc k) res prime = reduce_rounds k (bn_multiply_reduce_step res prime (k + 9)) prime

pub bn_multiply_reduce : List ℕ → Bignum256 → Bignum256
bn_multiply_reduce res prime = take 9 (reduce_rounds 8 res prime)

-- x := k * x
pub bn_multiply : Bignum256 → Bignum256 → Bignum256 → Bignum256
bn_multiply k x prime = bn_multiply_reduce (bn_multiply_long k x) prime
