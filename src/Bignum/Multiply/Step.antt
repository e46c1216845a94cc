-- ===== src/Bignum/Multiply/Step.antt =====
-- One step of the reduction: the window of ten limbs loses coef times the prime, and what is left
-- is less than twice the prime.
use flutter_sdk.Base.{ℕ, zero, suc, ◌+◌, ◌*◌, ◌/◌, ◌%◌, ◌^◌, ◌≤◌, ◌<◌, ◌≡◌, arith}
use flutter_sdk.Base.{List, [], ◌∷◌, length, AllBelow, get_or, take}
use flutter_sdk.Base.{u64, sub64}
use flutter_sdk.Bignum.Limbs.{IsNormalized, IsModulus, IsOutput}
use flutter_sdk.Bignum.Limbs.{value, value_onto, weight, value_lt_weight}
use flutter_sdk.Bignum.Reduce.Loop.{take_off}
use flutter_sdk.Base.{take-AllBelow, length-take, get_or-AllBelow}
use flutter_sdk.Bignum.Multiply.{reduce_loop, reduce_coef, reduce_window}
use flutter_sdk.Bignum.Multiply.Product.{onto_weight}
use native.Mathlib.Nat.{mul-le-mul_left}

reduce_loop-value :
    (coef temp : ℕ) (rs ps : List ℕ)
    → coef < 2 ^ 31
    → temp < 2 ^ 64
    → length rs ≡ length ps + 1
    → AllBelow (2 ^ 30) rs
    → AllBelow (2 ^ 30) ps
    → (value_onto (reduce_loop coef temp rs ps).0 ((reduce_loop coef temp rs ps).1 / 2 ^ 30)
          + coef * value ps
          + 2 ^ 31
        ≡ value_onto rs (2 ^ 31) + temp / 2 ^ 30)
      × IsOutput (length rs) (reduce_loop coef temp rs ps)
unfolding reduce_loop value value_onto
reduce_loop-value coef temp [] ps hc ht e h k = absurd (omega arith)
reduce_loop-value coef temp (r ∷ []) [] hc ht e h k = omega arith
reduce_loop-value coef temp (r ∷ r' ∷ rs) [] hc ht e h k = absurd (omega arith)
reduce_loop-value coef temp (r ∷ rs) (p ∷ ps) hc ht e h k =
    let t =
      take_off 0x1FFFFFFF80000000 coef (temp / 2 ^ 30) r p hc (omega arith) (omega arith) k.0
        (omega arith) (omega arith) in
    let sum = sub64 (temp / 2 ^ 30 + 0x1FFFFFFF80000000 + r) (u64 (p * coef)) in
    let ih = reduce_loop-value coef sum rs ps hc (omega (arith, t.1)) (omega arith) h.1 k.1 in
    (omega (arith, t.0, ih.0), (omega (arith, ih.1.0), (omega arith, ih.1.1)))

-- Limbs below the last two, and the last two.
split_two :
    (n : ℕ) (xs : List ℕ)
    → length xs ≡ suc (suc n)
    → value xs ≡ value (take n xs) + weight n * (get_or xs n 0 + 2 ^ 30 * get_or xs (suc n) 0)
unfolding value weight
split_two n [] e = absurd (omega arith)
split_two zero (x ∷ []) e = absurd (omega arith)
split_two zero (x ∷ y ∷ []) e = omega arith
split_two zero (x ∷ y ∷ z ∷ xs) e = absurd (omega arith)
split_two (suc n) (x ∷ xs) e = omega (arith, split_two n xs (omega arith))

-- The window is a multiple of 2^256, times coef, and less than 2^256 more.
reduce_coef-value :
    (w : List ℕ)
    → length w ≡ 10
    → AllBelow (2 ^ 30) w
    → value w < 2 ^ 287
    → (reduce_coef w * 2 ^ 256 ≤ value w)
      × (value w < reduce_coef w * 2 ^ 256 + 2 ^ 256)
      × (reduce_coef w < 2 ^ 31)
unfolding reduce_coef weight
reduce_coef-value w e h small =
    let limb8 = get_or-AllBelow (2 ^ 30) 8 w (omega arith) h in
    let parts = split_two 8 w e in
    let size = length-take 8 2 w e in
    let low = value_lt_weight (take 8 w) size (take-AllBelow (2 ^ 30) 8 w h) in
    (
      omega (arith, parts, small, limb8),
      omega (arith, parts, low, small, limb8),
      omega (arith, parts, small, limb8),
    )

-- A step on a window below 2^31 times the prime leaves less than twice the prime, coef times the
-- prime fewer.
pub record IsStep (w prime r : List ℕ) : Type 0 where
  pub size : length r ≡ 10
  pub digits : AllBelow (2 ^ 30) r
  pub below : value r < 2 * value prime
  pub coef : ℕ
  pub equation : value r + coef * value prime ≡ value w

reduce_window-equation :
    (w prime : List ℕ)
    → length w ≡ 10
    → AllBelow (2 ^ 30) w
    → IsNormalized prime
    → reduce_coef w < 2 ^ 31
    → reduce_coef w * value prime ≤ value w
    → (length (reduce_window w prime) ≡ 10)
      × AllBelow (2 ^ 30) (reduce_window w prime)
      × (value (reduce_window w prime) + reduce_coef w * value prime ≡ value w)
unfolding reduce_window value value_onto weight
reduce_window-equation [] prime e h m small lo = absurd (omega arith)
reduce_window-equation (r ∷ rs) [] e h m small lo = absurd (omega (arith, m.size))
reduce_window-equation (r ∷ rs) (p ∷ ps) e h m small lo =
    let coef = reduce_coef (r ∷ rs) in
    let t =
      take_off 0x2000000000000000 coef 0 r p small (omega arith) (omega arith) m.digits.0
        (omega arith) (omega arith) in
    let temp = sub64 (0x2000000000000000 + r) (u64 (p * coef)) in
    let l =
      reduce_loop-value coef temp rs ps small (omega (arith, t.1)) (omega (arith, e, m.size)) h.1
        m.digits.1 in
    let rest = reduce_loop coef temp rs ps in
    let size : length (temp % 2 ^ 30 ∷ rest.0) ≡ 10 = omega (arith, l.1.0) in
    let digits : AllBelow (2 ^ 30) (temp % 2 ^ 30 ∷ rest.0) = (omega arith, l.1.1) in
    let out = onto_weight 10 (temp % 2 ^ 30 ∷ rest.0) (rest.1 / 2 ^ 30) size in
    let start = onto_weight 10 (r ∷ rs) (2 ^ 31) e in
    let below = value_lt_weight (temp % 2 ^ 30 ∷ rest.0) size digits in
    let below' = value_lt_weight (r ∷ rs) e h in
    (size, digits, omega (arith, t.0, l.0, out, start, below, below', lo))

pub reduce_window-IsStep :
    (w prime : List ℕ)
    → length w ≡ 10
    → AllBelow (2 ^ 30) w
    → IsModulus prime
    → value w < 2 ^ 31 * value prime
    → IsStep w prime (reduce_window w prime)
reduce_window-IsStep w prime e h m fits =
    let c = reduce_coef-value w e h (omega (arith, m.high)) in
    let up =
      mul-le-mul_left {m = value prime} {n = 2 ^ 256} (reduce_coef w) (omega (arith, m.high)) in
    let down : reduce_coef w * 2 ^ 256 ≤ reduce_coef w * (value prime + 2 ^ 224) =
      mul-le-mul_left (reduce_coef w) m.low in
    let q = reduce_window-equation w prime e h m.normal c.2 (omega (arith, up, c.0)) in
    record {
      size = q.0;
      digits = q.1;
      below = omega (arith, q.2, down, c.1, c.2, m.low);
      coef = reduce_coef w;
      equation = q.2;
    }
