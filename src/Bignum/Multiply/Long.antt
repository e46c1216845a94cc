-- ===== src/Bignum/Multiply/Long.antt =====
-- The long multiplication writes out the columns of the product, carry by carry.
use flutter_sdk.Base.{ℕ, zero, suc, ◌+◌, ◌-◌, ◌*◌, ◌/◌, ◌^◌, ◌≤◌, ◌<◌, ◌≡◌, arith}
use flutter_sdk.Base.{List, [], ◌∷◌, AllBelow, get_or, u64}
use flutter_sdk.Bignum.Limbs.{value_onto, IsOutput}
use flutter_sdk.Base.{get_or-AllBelow}
use flutter_sdk.Bignum.Multiply.{column_loop, columns_loop}
use native.Mathlib.Nat.{mul-le-mul}

-- The exact sum of n products of a column.
unfoldable pub column : List ℕ → List ℕ → ℕ → ℕ → ℕ → ℕ
column k x i j zero = 0
column k x i j (suc n) = get_or k j 0 * get_or x (i - j) 0 + column k x i (j + 1) n

-- n columns from i, as limbs that are not yet carried.
unfoldable pub columns : (ℕ → ℕ) → (ℕ → ℕ) → List ℕ → List ℕ → ℕ → ℕ → List ℕ
columns first count k x i zero = []
columns first count k x i (suc n) =
    column k x i (first i) (count i) ∷ columns first count k x (i + 1) n

module _ (k x : List ℕ) (hk : AllBelow (2 ^ 30) k) (hx : AllBelow (2 ^ 30) x) where
  product_bound : (i j : ℕ) → get_or k j 0 * get_or x (i - j) 0 ≤ (2 ^ 30 - 1) * (2 ^ 30 - 1)
  product_bound i j =
      mul-le-mul {n₂ = 2 ^ 30 - 1} {m₂ = 2 ^ 30 - 1}
        (omega (arith, get_or-AllBelow (2 ^ 30) j k (omega arith) hk))
        (omega (arith, get_or-AllBelow (2 ^ 30) (i - j) x (omega arith) hx))

  -- "no overflow, since 9*2^60 < 2^64"
  column_loop-value :
      (i temp j n : ℕ)
      → temp + n * 2 ^ 60 < 2 ^ 64
      → (column_loop k x i temp j n ≡ temp + column k x i j n) × (column k x i j n ≤ n * 2 ^ 60)
  unfolding column_loop column
  column_loop-value i temp j zero h = omega arith
  column_loop-value i temp j (suc n) h =
      let product = product_bound i j in
      let exact : u64 (temp + u64 (get_or k j 0 * get_or x (i - j) 0))
          ≡ temp + get_or k j 0 * get_or x (i - j) 0 =
        omega (arith, product) in
      let ih =
        column_loop-value i (temp + get_or k j 0 * get_or x (i - j) 0) (j + 1) n
          (omega (arith, product)) in
      (rw exact (omega (arith, ih.0)), omega (arith, ih.1, product))

  pub columns_loop-value :
      (first count : ℕ → ℕ) (i temp n : ℕ)
      → ((m : ℕ) → i ≤ m → m < i + n → count m ≤ 9)
      → temp < 2 ^ 36
      → (value_onto
            (columns_loop first count k x i temp n).0
            (columns_loop first count k x i temp n).1
          ≡ value_onto (columns first count k x i n) 0 + temp)
        × ((columns_loop first count k x i temp n).1 < 2 ^ 36)
        × IsOutput n (columns_loop first count k x i temp n)
  unfolding columns_loop columns value_onto
  columns_loop-value first count i temp zero few h = omega arith
  columns_loop-value first count i temp (suc n) few h =
      let c =
        column_loop-value i temp (first i) (count i)
          (omega (arith, few i (omega arith) (omega arith))) in
      let sum = column_loop k x i temp (first i) (count i) in
      let ih =
        columns_loop-value first count (i + 1) (sum / 2 ^ 30) n
          (λ m lo hi. few m (omega arith) (omega arith))
          (omega (arith, c.0, c.1, few i (omega arith) (omega arith))) in
      (omega (arith, c.0, ih.0), ih.1, (omega (arith, ih.2.0), (omega arith, ih.2.1)))
