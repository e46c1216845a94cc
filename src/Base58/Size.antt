-- ===== src/Base58/Size.antt =====
-- The size of the buffer of b58enc (ios/Classes/base58.c): 138 digits for 100 bytes, and one more.
use flutter_sdk.Base.{ℕ, zero, suc, ◌+◌, ◌*◌, ◌/◌, ◌%◌, ◌^◌, ◌<◌, ◌≤◌, ◌≡◌, refl, arith, ap}
use flutter_sdk.Base.{ltb, true}
use flutter_sdk.Base.{try_all, try_all-lt, ltb→lt}
use native.Mathlib.Nat.{pow-suc, pow-zero, zero-add, mul-le-mul_right}

pow-add : (b m n : ℕ) → b ^ (m + n) ≡ b ^ m * b ^ n
pow-add b zero n =
    omega (arith, ap (λ (t : ℕ). b ^ t) (zero-add n), ap (λ (t : ℕ). t * b ^ n) (pow-zero b))
pow-add b (suc m) n =
    let moved : suc m + n ≡ suc (m + n) = omega arith in
    omega (
      arith,
      ap (λ (t : ℕ). b ^ t) moved,
      pow-suc b (m + n),
      ap (λ (t : ℕ). t * b) (pow-add b m n),
      ap (λ (t : ℕ). t * b ^ n) (pow-suc b m),
    )

size_table : try_all (λ r. ltb (256 ^ r) (58 ^ (r * 138 / 100 + 1))) 50 ≡ true
unfolding try_all
size_table = refl

size_step : (r q : ℕ) → r < 50 → 256 ^ (r + q * 50) < 58 ^ ((r + q * 50) * 138 / 100 + 1)
size_step r zero small =
    let start : r + zero * 50 ≡ r = omega arith in
    rw start (ltb→lt (256 ^ r) (58 ^ (r * 138 / 100 + 1)) (try_all-lt _ small size_table))
size_step r (suc q) small =
    let n = r + q * 50 in
    let m = n * 138 / 100 + 1 in
    let more : r + suc q * 50 ≡ n + 50 = omega arith in
    let digits : (n + 50) * 138 / 100 + 1 ≡ m + 69 = omega arith in
    let scale : 256 ^ 50 * 256 ^ n ≤ 58 ^ 69 * 256 ^ n = mul-le-mul_right (256 ^ n) (omega arith) in
    rw (more, digits) (omega (arith, pow-add 256 n 50, pow-add 58 m 69, size_step r q small, scale))

-- size digits are enough.
pub enough_digits : (n : ℕ) → 256 ^ n < 58 ^ (n * 138 / 100 + 1)
enough_digits n =
    let split : n % 50 + n / 50 * 50 ≡ n = omega arith in
    rw split at (size_step (n % 50) (n / 50) (omega arith))
