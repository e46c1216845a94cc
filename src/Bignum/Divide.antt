-- ===== src/Bignum/Divide.antt =====
-- Division by a digit base: bn_divmod58 and bn_divmod1000 of ios/Classes/bignum.c.
pub mod Value
use flutter_sdk.Base.{ℕ, ◌+◌, ◌*◌, ◌/◌, ◌%◌, ◌^◌, List, [], ◌∷◌, u32}
use flutter_sdk.Bignum.Limbs.{Bignum256}

-- The quotient's limbs and the remainder. The top limb is divided first:
-- tmp = rem * 4 + a[i]; a[i] = rem * 18512790 + tmp / 58; rem = tmp % 58
pub bn_divmod58 : Bignum256 → Bignum256 × ℕ
bn_divmod58 [] = ([], 0)
bn_divmod58 (a ∷ []) = (a / 58 ∷ [], a % 58)
bn_divmod58 (a ∷ b ∷ xs) =
    let high = bn_divmod58 (b ∷ xs) in
    let tmp = u32 (high.1 * 4 + a) in (u32 (high.1 * 18512790 + tmp / 58) ∷ high.0, tmp % 58)

-- tmp = rem * 824 + a[i]; a[i] = rem * 1073741 + tmp / 1000; rem = tmp % 1000
pub bn_divmod1000 : Bignum256 → Bignum256 × ℕ
bn_divmod1000 [] = ([], 0)
bn_divmod1000 (a ∷ []) = (a / 1000 ∷ [], a % 1000)
bn_divmod1000 (a ∷ b ∷ xs) =
    let high = bn_divmod1000 (b ∷ xs) in
    let tmp = u32 (high.1 * 824 + a) in (u32 (high.1 * 1073741 + tmp / 1000) ∷ high.0, tmp % 1000)
