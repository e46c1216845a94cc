-- ===== src/Bignum/Add.antt =====
-- Sums and differences of bignums: bn_normalize, bn_add, bn_addi, bn_subi, bn_subtractmod and
-- bn_subtract of ios/Classes/bignum.c. Each loop returns the limbs that it stores and its last `tmp`.
pub mod Loops
pub mod Value
use flutter_sdk.Base.{ℕ, ◌+◌, ◌*◌, ◌%◌, ◌^◌, List, [], ◌∷◌, u32, sub32, ◌>>>◌}
use flutter_sdk.Bignum.Limbs.{Bignum256}

-- for i: tmp += a[i] + b[i]; a[i] = tmp & 0x3FFFFFFF; tmp >>= 30
pub add_loop : ℕ → List ℕ → List ℕ → List ℕ × ℕ
add_loop tmp (a ∷ xs) (b ∷ ys) =
    let sum = u32 (tmp + (a + b)) in
    let rest = add_loop (sum >>> 30) xs ys in (sum % 2 ^ 30 ∷ rest.0, rest.1)
add_loop tmp _ _ = ([], tmp)

pub bn_add : Bignum256 → Bignum256 → Bignum256
bn_add a b = (add_loop 0 a b).0

-- for i: tmp += a[i]; a[i] = tmp & 0x3FFFFFFF; tmp >>= 30
pub addi_loop : ℕ → List ℕ → List ℕ × ℕ
addi_loop tmp [] = ([], tmp)
addi_loop tmp (a ∷ xs) =
    let sum = u32 (tmp + a) in
    let rest = addi_loop (sum >>> 30) xs in (sum % 2 ^ 30 ∷ rest.0, rest.1)

pub bn_addi : Bignum256 → ℕ → Bignum256
bn_addi a b = (addi_loop b a).0

pub bn_normalize : Bignum256 → Bignum256
bn_normalize a = bn_addi a 0

-- a[0] -= b, on words; then the prime is added.
pub bn_subi : Bignum256 → ℕ → Bignum256 → Bignum256
bn_subi [] b prime = []
bn_subi (a ∷ xs) b prime = bn_add (sub32 a b ∷ xs) prime

-- for i: temp += 0x3FFFFFFF + a[i] + 2 * prime[i] - b[i]; res[i] = temp & 0x3FFFFFFF; temp >>= 30
unfoldable pub subtractmod_loop : ℕ → List ℕ → List ℕ → List ℕ → List ℕ × ℕ
subtractmod_loop temp (a ∷ xs) (b ∷ ys) (p ∷ ps) =
    let sum = sub32 (temp + 0x3FFFFFFF + a + 2 * p) b in
    let rest = subtractmod_loop (sum >>> 30) xs ys ps in (sum % 2 ^ 30 ∷ rest.0, rest.1)
subtractmod_loop temp _ _ _ = ([], temp)

unfoldable pub bn_subtractmod : Bignum256 → Bignum256 → Bignum256 → Bignum256
bn_subtractmod a b prime = (subtractmod_loop 1 a b prime).0

-- for i: tmp += 0x3FFFFFFF + a[i] - b[i]; res[i] = tmp & 0x3FFFFFFF; tmp >>= 30
pub subtract_loop : ℕ → List ℕ → List ℕ → List ℕ × ℕ
subtract_loop tmp (a ∷ xs) (b ∷ ys) =
    let sum = sub32 (tmp + 0x3FFFFFFF + a) b in
    let rest = subtract_loop (sum >>> 30) xs ys in (sum % 2 ^ 30 ∷ rest.0, rest.1)
subtract_loop tmp _ _ = ([], tmp)

pub bn_subtract : Bignum256 → Bignum256 → Bignum256
bn_subtract a b = (subtract_loop 1 a b).0
