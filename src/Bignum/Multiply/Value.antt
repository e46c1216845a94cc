-- ===== src/Bignum/Multiply/Value.antt =====
-- bn_multiply: the product, partly reduced.
use flutter_sdk.Base.{ℕ, zero, suc, ◌+◌, ◌-◌, ◌*◌, ◌^◌, ◌≤◌, ◌<◌, ◌≡◌, arith, ap}
use flutter_sdk.Base.{List, ◌++◌, length, AllBelow, take, drop, length-append, sym, ◌∙◌}
use flutter_sdk.Base.{take-append-drop, length-take, length-drop, drop-append}
use flutter_sdk.Base.{take-AllBelow, drop-AllBelow, get_or-AllBelow}
use native.Mathlib.Nat.{mul-le-mul, mul-le-mul_right}
use flutter_sdk.Base.{AllBelow-append}
use flutter_sdk.Bignum.Limbs.{value-drop}
use flutter_sdk.Bignum.Limbs.{Bignum256, IsNormalized, IsModulus, IsPartlyReduced}
use flutter_sdk.Bignum.Limbs.{value, weight, value-append}
use flutter_sdk.Bignum.Multiply.{bn_multiply_reduce_step, reduce_rounds, bn_multiply_reduce}
use flutter_sdk.Bignum.Multiply.{bn_multiply, bn_multiply_long, reduce_window}
use flutter_sdk.Bignum.Multiply.Product.{onto_weight, bn_multiply_long-value}
use flutter_sdk.Bignum.Multiply.Step.{reduce_window-IsStep}

-- 18 limbs before the step at i = k + 8.
pub record IsReady (k : ℕ) (prime res : List ℕ) : Type 0 where
  pub size : length res ≡ 18
  pub digits : AllBelow (2 ^ 30) res
  pub fits : value (drop k res) < 2 ^ 31 * value prime

-- And after it: a multiple of prime has gone, and limbs k and above stand for less than 2 * prime.
pub record IsReduced (k : ℕ) (prime res r : List ℕ) : Type 0 where
  pub size : length r ≡ 18
  pub digits : AllBelow (2 ^ 30) r
  pub below : value (drop k r) < 2 * value prime
  pub multiple : ℕ
  pub equation : value r + multiple * value prime ≡ value res

value-parts :
    (n : ℕ) (xs : List ℕ)
    → n ≤ length xs
    → value xs ≡ value (take n xs) + weight n * value (drop n xs)
value-parts n xs h =
    ap value (sym (take-append-drop n xs))
    ∙ value-append (take n xs) (drop n xs)
    ∙ onto_weight n (take n xs) (value (drop n xs)) (length-take n (length xs - n) xs (omega arith))

module _ (prime : Bignum256) (m : IsModulus prime) where
  step-IsReduced :
      (k i : ℕ) (res : List ℕ)
      → i - 8 ≡ k
      → k ≤ 8
      → IsReady k prime res
      → IsReduced k prime res (bn_multiply_reduce_step res prime i)
  unfolding bn_multiply_reduce_step weight
  step-IsReduced k i res e le ready =
      let d = drop k res in
      let rest = drop 10 d in
      let w = take 10 d in
      let long : length d ≡ 18 - k = omega (arith, length-drop {0} k res, ready.size) in
      let parts = value-parts 10 d (omega (arith, long)) in
      let low : value w ≡ value d = omega (arith, parts, ready.fits, m.high) in
      let start = value-parts k res (omega (arith, ready.size)) in
      let digits_d = drop-AllBelow (2 ^ 30) k res ready.digits in
      let size_w = length-take 10 (8 - k) d (omega (arith, long)) in
      let s =
        reduce_window-IsStep w prime size_w (take-AllBelow (2 ^ 30) 10 d digits_d) m
          (omega (arith, ready.fits, m.high, parts)) in
      let size_front = length-take k (18 - k) res (omega (arith, ready.size)) in
      let front = take k res in
      let new = reduce_window w prime in
      let window : value (new ++ rest) ≡ value new =
        value-append new rest
        ∙ omega (arith, onto_weight 10 new (value rest) s.size, parts, ready.fits, m.high) in
      let whole : value (front ++ (new ++ rest)) ≡ value front + weight k * value new =
        value-append front (new ++ rest) ∙ rw window (onto_weight k front (value new) size_front) in
      rw e (record {
        size = omega (
          arith,
          length-append {0} front (new ++ rest),
          length-append {0} new rest,
          length-drop {0} 10 d,
          long,
          size_front,
          s.size,
        );
        digits =
            AllBelow-append (2 ^ 30) front _ (take-AllBelow (2 ^ 30) k res ready.digits)
              (AllBelow-append (2 ^ 30) new rest s.digits (drop-AllBelow (2 ^ 30) 10 d digits_d));
        below = rw (drop-append k front (new ++ rest) size_front, window) s.below;
        multiple = s.coef * weight k;
        equation = omega (
          arith,
          whole,
          start,
          ap (λ (t : ℕ). weight k * t) s.equation,
          ap (λ (t : ℕ). weight k * t) low,
        );
      })

  next-IsReady :
      {k : ℕ} {res r : List ℕ} → k ≤ 8 → IsReduced (suc k) prime res r → IsReady k prime r
  next-IsReady {k} {r} le s =
      let split = value-drop k r (omega (arith, s.size)) in
      let limb = get_or-AllBelow (2 ^ 30) k r (omega arith) s.digits in
      record { size = s.size; digits = s.digits; fits = omega (arith, split, limb, s.below) }

  rounds-IsReduced :
      (k : ℕ) (res : List ℕ)
      → k ≤ 8
      → IsReady k prime res
      → IsReduced 0 prime res (reduce_rounds k res prime)
  unfolding reduce_rounds
  rounds-IsReduced zero res le ready = step-IsReduced 0 8 res (omega arith) le ready
  rounds-IsReduced (suc k) res le ready =
      let s = step-IsReduced (suc k) (k + 9) res (omega arith) le ready in
      let r = rounds-IsReduced k _ (omega arith) (next-IsReady (omega arith) s) in
      record {
        size = r.size;
        digits = r.digits;
        below = r.below;
        multiple = r.multiple + s.multiple;
        equation = omega (arith, r.equation, s.equation);
      }

  -- For 18 normalized limbs that stand for less than 2^270 * 2 * prime, bn_multiply_reduce leaves a
  -- partly reduced number, congruent to theirs.
  pub bn_multiply_reduce-IsPartlyReduced :
      (res : List ℕ)
      → length res ≡ 18
      → AllBelow (2 ^ 30) res
      → value res < 2 ^ 271 * value prime
      → IsPartlyReduced (value res) prime (bn_multiply_reduce res prime)
  unfolding bn_multiply_reduce weight
  bn_multiply_reduce-IsPartlyReduced res e h fits =
      let ready : IsReady 8 prime res = record {
        size = e;
        digits = h;
        fits = omega (arith, value-parts 8 res (omega arith), fits);
      } in
      let r = rounds-IsReduced 8 res (omega arith) ready in
      let out = reduce_rounds 8 res prime in
      let parts = value-parts 9 out (omega (arith, r.size)) in
      let low : value (take 9 out) ≡ value out = omega (arith, parts, r.below, m.high) in
      record {
        normal = record {
          size = length-take 9 9 out r.size;
          digits = take-AllBelow (2 ^ 30) 9 out r.digits;
        };
        below = omega (arith, low, r.below);
        multiple = r.multiple;
        equation = omega (arith, low, r.equation);
      }

  product_fits :
      (k x : ℕ) → k < 180 * value prime → x < 180 * value prime → k * x < 2 ^ 271 * value prime
  product_fits k x hk hx =
      let p = value prime in
      let product : k * x ≤ 180 * p * (180 * p) =
        mul-le-mul {n₂ = 180 * p} {m₂ = 180 * p} (omega arith) (omega arith) in
      let square : p * p ≤ 2 ^ 256 * p = mul-le-mul_right p (omega (arith, m.high)) in
      omega (arith, product, square, m.low)

  -- For normalized bignums below 180 * prime, bn_multiply leaves a partly reduced number, congruent
  -- to the product.
  pub bn_multiply-IsPartlyReduced :
      {k x : Bignum256}
      → IsNormalized k
      → IsNormalized x
      → value k < 180 * value prime
      → value x < 180 * value prime
      → IsPartlyReduced (value k * value x) prime (bn_multiply k x prime)
  unfolding bn_multiply
  bn_multiply-IsPartlyReduced {k} {x} nk nx hk hx =
      let l = bn_multiply_long-value nk nx in
      rw l.0 at (
        bn_multiply_reduce-IsPartlyReduced (bn_multiply_long k x) l.1 l.2
          (rw l.0 (product_fits (value k) (value x) hk hx)))
