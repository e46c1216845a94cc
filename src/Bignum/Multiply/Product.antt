-- ===== src/Bignum/Multiply/Product.antt =====
-- bn_multiply_long computes the product.
use flutter_sdk.Base.{ℕ, zero, suc, ◌+◌, ◌-◌, ◌*◌, ◌%◌, ◌^◌, ◌≤◌, ◌≡◌, refl, arith, ap, ◌∙◌}
use flutter_sdk.Base.{List, [], ◌∷◌, ◌++◌, length, AllBelow, length-append}
use flutter_sdk.Base.{AllBelow-append}
use flutter_sdk.Bignum.Limbs.{Bignum256, IsNormalized, value, value_onto, weight, value_lt}
use flutter_sdk.Bignum.Limbs.{value_onto-split, value-append}
use flutter_sdk.Bignum.Multiply.{bn_multiply_long, columns_loop}
use flutter_sdk.Bignum.Multiply.Long.{columns, columns_loop-value}
use flutter_sdk.Bignum.Multiply.Convolution.{all_columns-value}
use native.Mathlib.Nat.{mul-le-mul}

length-columns :
    (first count : ℕ → ℕ) (k x : List ℕ) (i n : ℕ) → length (columns first count k x i n) ≡ n
unfolding columns
length-columns first count k x i zero = refl
length-columns first count k x i (suc n) = ap suc (length-columns first count k x (i + 1) n)

-- The value of limbs of a known number, with a number above.
pub onto_weight :
    (n : ℕ) (xs : List ℕ) (top : ℕ) → length xs ≡ n → value_onto xs top ≡ value xs + weight n * top
onto_weight n xs top e = rw e at (value_onto-split xs top)

-- For normalized bignums, bn_multiply_long gives 18 normalized limbs that stand for the product.
pub bn_multiply_long-value :
    {k x : Bignum256}
    → IsNormalized k
    → IsNormalized x
    → (value (bn_multiply_long k x) ≡ value k * value x)
      × (length (bn_multiply_long k x) ≡ 18)
      × AllBelow (2 ^ 30) (bn_multiply_long k x)
unfolding bn_multiply_long weight value
bn_multiply_long-value {k} {x} n m =
    let low_columns = columns (λ i. 0) (λ i. i + 1) k x 0 9 in
    let high_columns = columns (λ i. i - 8) (λ i. 17 - i) k x 9 8 in
    let low = columns_loop (λ i. 0) (λ i. i + 1) k x 0 0 9 in
    let high = columns_loop (λ i. i - 8) (λ i. 17 - i) k x 9 low.1 8 in
    let l =
      columns_loop-value k x n.digits m.digits (λ i. 0) (λ i. i + 1) 0 0 9 (λ i lo hi. omega arith)
        (omega arith) in
    let h =
      columns_loop-value k x n.digits m.digits (λ i. i - 8) (λ i. 17 - i) 9 low.1 8
        (λ i lo hi. omega arith) l.1 in
    let total = all_columns-value k x n.size m.size in
    let size = length-columns (λ i. 0) (λ i. i + 1) k x 0 9 in
    let e0 = onto_weight 9 low_columns 0 size in
    let e1 = onto_weight 9 low_columns (value_onto high_columns 0) size in
    let e2 = onto_weight 9 low.0 low.1 l.2.0 in
    let e3 = onto_weight 9 low.0 (value_onto high.0 high.1) l.2.0 in
    let e4 = onto_weight 8 high.0 high.1 h.2.0 in
    let bound : value k * value x ≤ (2 ^ 270 - 1) * (2 ^ 270 - 1) =
      mul-le-mul {n₂ = 2 ^ 270 - 1} {m₂ = 2 ^ 270 - 1} (omega (arith, value_lt n))
        (omega (arith, value_lt m)) in
    let product : value_onto low.0 (value_onto high.0 high.1) ≡ value k * value x =
      omega (arith, l.0, h.0, total, e0, e1, e2, e3) in
    let last : high.1 % 2 ^ 30 ≡ high.1 = omega (arith, product, e3, e4, bound) in
    let tail : List ℕ = high.1 % 2 ^ 30 ∷ [] in
    let inner : value (high.0 ++ tail) ≡ value_onto high.0 high.1 =
      value-append high.0 tail ∙ ap (value_onto high.0) (omega (arith, last)) in
    (
      value-append low.0 (high.0 ++ tail) ∙ ap (value_onto low.0) inner ∙ product,
      omega (
        arith,
        length-append {0} low.0 (high.0 ++ tail),
        length-append {0} high.0 tail,
        l.2.0,
        h.2.0,
      ),
      AllBelow-append (2 ^ 30) low.0 _ l.2.1
          (AllBelow-append (2 ^ 30) high.0 tail h.2.1 (omega arith, tt)),
    )
