-- ===== src/Bignum/Reduce/Value.antt =====
-- Reduction as arithmetic: each function takes a multiple of the prime off.
use flutter_sdk.Base.{ℕ, ◌+◌, ◌-◌, ◌*◌, ◌/◌, ◌%◌, ◌^◌, ◌≤◌, ◌<◌, ◌≡◌, arith}
use flutter_sdk.Base.{List, [], ◌∷◌, length, AllBelow, get_or, take, u64, sub64}
use flutter_sdk.Base.{ltb, ltb→lt, sym, ◌∙◌, Bool-cases, inl, inr}
use flutter_sdk.Bignum.Limbs.{Bignum256, IsBignum, IsNormalized, value, value_onto, weight}
use flutter_sdk.Bignum.Limbs.{
  nine, value_lt, value_onto-nine, IsNormalized-IsBignum, IsModulus, IsPartlyReduced,
}
use flutter_sdk.Bignum.Reduce.{bn_fast_mod, bn_mod, bn_mult_k, bn_addmod, fast_mod_loop}
use flutter_sdk.Bignum.Reduce.{scale_loop, sum_loop}
use flutter_sdk.Bignum.Reduce.Loop.{take_off, fast_mod_loop-value, value-lt-words, value-split}
use flutter_sdk.Base.{take-AllBelow, length-take, get_or-AllBelow}
use flutter_sdk.Bignum.Add.Value.{bn_subtract-value}
use flutter_sdk.Bignum.Compare.Value.{bn_is_less-value, bn_cmov-select}
use native.Mathlib.Nat.{mul-le-mul_left, mul-le-mul_right, mod-eq_of_lt, mod-eq-sub-mod}

-- If coef * prime fits below x, and no more than 2^270 is left, the difference is what is stored.
fast_mod-equation :
    (x prime : Bignum256)
    → IsBignum x
    → IsNormalized prime
    → let coef = get_or x 8 0 / 2 ^ 16 in
      coef * value prime ≤ value x
      → value x < coef * value prime + 2 ^ 270
      → IsNormalized (bn_fast_mod x prime)
        × (value (bn_fast_mod x prime) + coef * value prime ≡ value x)
unfolding bn_fast_mod value value_onto
fast_mod-equation [] prime n m lo hi = absurd (omega (arith, n.size))
fast_mod-equation (x ∷ xs) [] n m lo hi = absurd (omega (arith, m.size))
fast_mod-equation (x ∷ xs) (p ∷ ps) n m lo hi =
    let coef = get_or (x ∷ xs) 8 0 / 2 ^ 16 in
    let word = get_or-AllBelow (2 ^ 32) 8 (x ∷ xs) (omega arith) n.words in
    let small : coef < 2 ^ 31 = omega (arith, word) in
    let t =
      take_off 0x2000000000000000 coef 0 x p small (omega arith) n.words.0 m.digits.0 (omega arith)
        (omega arith) in
    let temp = sub64 (0x2000000000000000 + x) (u64 (p * coef)) in
    let l =
      fast_mod_loop-value coef temp xs ps small (omega (arith, t.1)) (omega (arith, n.size, m.size))
        n.words.1 m.digits.1 in
    let rest = fast_mod_loop coef temp xs ps in
    let size : length (x ∷ xs) ≡ 9 = n.size in
    let out : List ℕ × ℕ = (temp % 2 ^ 30 ∷ rest.0, rest.1 / 2 ^ 30) in
    let r = nine out size (omega (arith, l.1.0), (omega arith, l.1.1)) in
    let above = value_onto-nine (x ∷ xs) (2 ^ 31) size in
    (r.normal, omega (arith, t.0, l.0, r.onto, r.below, above, lo, hi))

-- The product of the prime and coef, between the product of 2^256 and coef and 2^240 less.
coef_bounds :
    {prime : Bignum256} (coef : ℕ)
    → IsModulus prime
    → coef < 2 ^ 16
    → (coef * value prime ≤ coef * 2 ^ 256) × (coef * 2 ^ 256 ≤ coef * value prime + 2 ^ 240)
coef_bounds {prime} coef m h =
    let up = mul-le-mul_left {m = value prime} {n = 2 ^ 256} coef (omega (arith, m.high)) in
    let down : coef * 2 ^ 256 ≤ coef * (value prime + 2 ^ 224) = mul-le-mul_left coef m.low in
    (up, omega (arith, down))

fast_mod_parts :
    {x prime : Bignum256}
    → IsBignum x
    → IsModulus prime
    → let coef = get_or x 8 0 / 2 ^ 16 in
      IsNormalized (bn_fast_mod x prime)
      × (value x ≡ value (bn_fast_mod x prime) + coef * value prime)
      × (value (bn_fast_mod x prime) < 2 * value prime)
      × (coef * 2 ^ 256 ≤ value x)
unfolding weight
fast_mod_parts {x} {prime} n m =
    let coef = get_or x 8 0 / 2 ^ 16 in
    let word = get_or-AllBelow (2 ^ 32) 8 x (omega arith) n.words in
    let bounds = coef_bounds coef m (omega (arith, word)) in
    let size = length-take 8 1 x n.size in
    let rest = rw size at (value-lt-words (take 8 x) (take-AllBelow (2 ^ 32) 8 x n.words)) in
    let split = value-split 8 x n.size in
    let e =
      fast_mod-equation x prime n m.normal (omega (arith, bounds.0, split))
        (omega (arith, bounds.1, split, rest)) in
    (
      e.0,
      omega (arith, e.1),
      omega (arith, e.1, bounds.1, split, rest, m.low),
      omega (arith, split),
    )

-- For any nine words and a prime in range, bn_fast_mod leaves a partly reduced number, congruent
-- to the one that it was given.
pub bn_fast_mod-IsPartlyReduced :
    {x prime : Bignum256}
    → IsBignum x
    → IsModulus prime
    → IsPartlyReduced (value x) prime (bn_fast_mod x prime)
bn_fast_mod-IsPartlyReduced {x} n m =
    let (normal, equation, below, _) = fast_mod_parts n m in
    record { normal = normal; below = below; multiple = get_or x 8 0 / 2 ^ 16; equation = equation }

-- "h never normalizes to zero": for nine words that stand for a positive number and a prime in
-- range, bn_fast_mod leaves a positive number.
pub bn_fast_mod-positive :
    {x prime : Bignum256}
    → IsBignum x
    → IsModulus prime
    → 0 < value x
    → 0 < value (bn_fast_mod x prime)
bn_fast_mod-positive {x} {prime} n m positive =
    let (_, equation, _, high) = fast_mod_parts n m in
    let coef = get_or x 8 0 / 2 ^ 16 in
    let less : coef * (value prime + 1) ≤ coef * 2 ^ 256 =
      mul-le-mul_left coef (omega (arith, m.high)) in
    omega (arith, equation, less, high)

mod_once : (v p : ℕ) → p ≤ v → v < 2 * p → v - p ≡ v % p
mod_once v p lo hi = sym (mod-eq-sub-mod lo ∙ mod-eq_of_lt (omega arith))

-- For a partly reduced x, bn_mod leaves the remainder by the prime.
pub bn_mod-value :
    {x prime : Bignum256}
    → IsNormalized x
    → IsNormalized prime
    → value x < 2 * value prime
    → IsNormalized (bn_mod x prime) × (value (bn_mod x prime) ≡ value x % value prime)
unfolding bn_mod
bn_mod-value {x} {prime} n m below =
    let d = bn_subtract-value n m in
    let select =
      bn_cmov-select (ltb (value x) (value prime)) (IsNormalized-IsBignum n)
        (IsNormalized-IsBignum d.0) in
    rw (bn_is_less-value n m, select)
      (elim (Bool-cases (ltb (value x) (value prime))) [
        | inl less ↦ rw less (n, sym (mod-eq_of_lt (ltb→lt _ _ less)))
        | inr more ↦
            rw more
              let above : value prime ≤ value x = ground arith in
                let once = mod_once (value x) (value prime) above below in
                (d.0, omega (arith, d.1, once, value_lt n))
      ])

scale_loop-value :
    (k : ℕ) (xs : List ℕ)
    → k ≤ 4
    → AllBelow (2 ^ 30) xs
    → (value (scale_loop k xs) ≡ k * value xs)
      × (length (scale_loop k xs) ≡ length xs)
      × AllBelow (2 ^ 32) (scale_loop k xs)
unfolding scale_loop value
scale_loop-value k [] e h = omega arith
scale_loop-value k (x ∷ xs) e h =
    let ih = scale_loop-value k xs e h.1 in
    let product : k * x ≤ 4 * x = mul-le-mul_right x e in
    (omega (arith, product, ih.0, h.0), omega (arith, ih.1), (omega arith, ih.2))

-- For a normalized x and k up to 4, bn_mult_k leaves a partly reduced number, congruent to k * x.
pub bn_mult_k-IsPartlyReduced :
    {x prime : Bignum256} (k : ℕ)
    → k ≤ 4
    → IsNormalized x
    → IsModulus prime
    → IsPartlyReduced (k * value x) prime (bn_mult_k x k prime)
unfolding bn_mult_k
bn_mult_k-IsPartlyReduced {x} {prime} k e n m =
    let l = scale_loop-value k x e n.digits in
    let bignum : IsBignum (scale_loop k x) = record {
      size = omega (arith, l.1, n.size);
      words = l.2;
    } in
    rw l.0 at (bn_fast_mod-IsPartlyReduced bignum m)

sum_loop-value :
    (xs ys : List ℕ)
    → length xs ≡ length ys
    → AllBelow (2 ^ 30) xs
    → AllBelow (2 ^ 30) ys
    → (value (sum_loop xs ys) ≡ value xs + value ys)
      × (length (sum_loop xs ys) ≡ length xs)
      × AllBelow (2 ^ 32) (sum_loop xs ys)
unfolding sum_loop value
sum_loop-value [] [] e h k = omega arith
sum_loop-value [] (y ∷ ys) e h k = absurd (omega arith)
sum_loop-value (x ∷ xs) [] e h k = absurd (omega arith)
sum_loop-value (x ∷ xs) (y ∷ ys) e h k =
    let ih = sum_loop-value xs ys (omega arith) h.1 k.1 in
    (omega (arith, ih.0, h.0, k.0), omega (arith, ih.1), (omega arith, ih.2))

-- For normalized bignums, bn_addmod leaves a partly reduced number, congruent to the sum.
pub bn_addmod-IsPartlyReduced :
    {a b prime : Bignum256}
    → IsNormalized a
    → IsNormalized b
    → IsModulus prime
    → IsPartlyReduced (value a + value b) prime (bn_addmod a b prime)
unfolding bn_addmod
bn_addmod-IsPartlyReduced {a} {b} {prime} n k m =
    let l = sum_loop-value a b (omega (arith, n.size, k.size)) n.digits k.digits in
    let bignum : IsBignum (sum_loop a b) = record {
      size = omega (arith, l.1, n.size);
      words = l.2;
    } in
    rw l.0 at (bn_fast_mod-IsPartlyReduced bignum m)
