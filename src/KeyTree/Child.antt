-- ===== src/KeyTree/Child.antt =====
-- hdnode_private_ckd of ios/Classes/bip32.c against the derivation of BIP 32.
pub use flutter_sdk.Base.{take-all}
use flutter_sdk.Base.{ℕ, ◌+◌, ◌%◌, ◌<◌, ◌≡◌, ◌≢◌, arith, ap, ◌∙◌, sym}
use flutter_sdk.Base.{List, none, some, ltb, flag}
use flutter_sdk.Base.{take, length, length-take, AllBelow, take-AllBelow}
use native.Mathlib.Nat.{mod-lt}
use flutter_sdk.Bignum.Limbs.{Bignum256, value, IsNormalized, IsModulus}
use flutter_sdk.Bignum.Compare.{bn_is_less}
use flutter_sdk.Bignum.Compare.Value.{bn_is_less-value, bn_is_zero-value}
use flutter_sdk.Bignum.Reduce.{bn_addmod, bn_mod}
use flutter_sdk.Bignum.Reduce.Value.{bn_addmod-IsPartlyReduced, bn_mod-value}
use flutter_sdk.Bignum.Bytes.{bn_read_be, bn_write_be}
use flutter_sdk.Bignum.Bytes.Words.{big_endian}
use flutter_sdk.Bignum.Bytes.Read.{bn_read_be-value}
use flutter_sdk.Bignum.Bytes.Write.{bn_write_be-value}
use flutter_sdk.Bignum.Congruence.{Congruent-multiple}
use flutter_sdk.KeyTree.{ckd_try}

-- The number that the first 32 bytes stand for.
abbrev pub number : List ℕ → ℕ
number bytes = big_endian 256 0 (take 32 bytes)

-- 32 bytes that stand for a private key of the curve.
pub record IsPrivateKey (order : Bignum256) (key : List ℕ) : Type 0 where
  pub size : length key ≡ 32
  pub bytes : AllBelow 256 key
  pub positive : 0 < number key
  pub below : number key < value order

-- A hash gives a child of the key k: its left half is below the order, and the sum is not 0.
abbrev pub GivesChild : Bignum256 → ℕ → List ℕ → Type 0
GivesChild order k i = (number i < value order) × ((number i + k) % value order ≢ 0)

-- The sum that a try writes.
abbrev pub ckd_sum : Bignum256 → Bignum256 → List ℕ → Bignum256
ckd_sum order a i = bn_mod (bn_addmod (bn_read_be (take 32 i)) a order) order

module _ (order a : Bignum256) (modulus : IsModulus order) (normal : IsNormalized a) (i : List ℕ)
    (size : length i ≡ 64) (bytes : AllBelow 256 i) where
  read_left : IsNormalized (bn_read_be (take 32 i)) × (value (bn_read_be (take 32 i)) ≡ number i)
  read_left = bn_read_be-value (take 32 i) (length-take 32 32 i size) (take-AllBelow 256 32 i bytes)

  sum-value :
      IsNormalized (ckd_sum order a i)
      × (value (ckd_sum order a i) ≡ (number i + value a) % value order)
  sum-value =
      let left = read_left in
      let added = bn_addmod-IsPartlyReduced left.0 normal modulus in
      let (reduced, remainder) = bn_mod-value added.normal modulus.normal added.below in
      (
        reduced,
        remainder
            ∙ sym (
                ap (λ (t : ℕ). t % value order) added.equation
                ∙ Congruent-multiple (value order)
                    (value (bn_addmod (bn_read_be (take 32 i)) a order)) added.multiple)
            ∙ ap (λ (t : ℕ). (t + value a) % value order) left.1,
      )

  less_test : bn_is_less (bn_read_be (take 32 i)) order ≡ flag (ltb (number i) (value order))
  less_test =
      let left = read_left in
      bn_is_less-value left.0 modulus.normal ∙ ap (λ (t : ℕ). flag (ltb t (value order))) left.1

  sum-lt : value (ckd_sum order a i) < value order
  sum-lt = rw sum-value.1 (mod-lt (number i + value a) (omega (arith, modulus.low)))

  -- A try that gives a child writes the sum.
  pub ckd_try-child :
      GivesChild order (value a) i
      → (ckd_try order a i ≡ some (bn_write_be (ckd_sum order a i)))
        × IsPrivateKey order (bn_write_be (ckd_sum order a i))
        × (number (bn_write_be (ckd_sum order a i)) ≡ (number i + value a) % value order)
  unfolding ckd_try
  ckd_try-child gives =
      let (same, size, all) = bn_write_be-value sum-value.0 (omega (arith, modulus.high, sum-lt)) in
      let read =
        ap (big_endian 256 0) (take-all 32 (bn_write_be (ckd_sum order a i)) size) ∙ same in
      (
        ground
            (arith, less_test, bn_is_zero-value (ckd_sum order a i), sum-value.1, gives.0, gives.1),
        record {
          size = size;
          bytes = all;
          positive = omega (arith, read, sum-value.1, gives.1);
          below = omega (arith, read, sum-lt);
        },
        read ∙ sum-value.1,
      )

  -- Any other try fails.
  pub ckd_try-none : ¬ GivesChild order (value a) i → ckd_try order a i ≡ none
  unfolding ckd_try
  ckd_try-none fails =
      ground (arith, less_test, bn_is_zero-value (ckd_sum order a i), sum-value.1, fails)
