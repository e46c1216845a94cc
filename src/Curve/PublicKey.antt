-- ===== src/Curve/PublicKey.antt =====
-- The public keys of ios/Classes/ecdsa.c: reading them, and the test that they are on the curve. A
-- key is the list of its bytes; bytes behind its end are not read. bn_sqrt is the one of bignum.c.
pub mod Validate
use flutter_sdk.Base.{
  ℕ, ◌%◌, List, [], ◌∷◌, ◌++◌, Bool, true, false, not, ◌&&◌, ◌||◌, Option, none, some, ◌==◌, flag,
}
use flutter_sdk.Base.{if◌then◌else◌, take, drop, get_or, bit_and}
use flutter_sdk.Bignum.Limbs.{Bignum256}
use flutter_sdk.Bignum.Compare.{bn_is_equal, bn_is_less}
use flutter_sdk.Bignum.Add.{bn_add, bn_subi, bn_subtract}
use flutter_sdk.Bignum.Reduce.{bn_mod, bn_addmod}
use flutter_sdk.Bignum.Multiply.{bn_multiply}
use flutter_sdk.Bignum.Power.{bn_sqrt}
use flutter_sdk.Bignum.Bytes.{bn_read_be, bn_write_be}
use flutter_sdk.Curve.{CurvePoint, point_is_infinity}

-- "x^3 + ax + b", less b, as both functions below compute it.
pub cubic : Bignum256 → ℕ → Bignum256 → Bignum256
cubic prime minus_a x = bn_multiply x (bn_subi (bn_multiply x x prime) minus_a prime) prime

module _ (prime : Bignum256) (minus_a : ℕ) (b : Bignum256) where
  pub uncompress_coords : ℕ → Bignum256 → Bignum256
  unfolding cubic
  uncompress_coords odd x =
      let y = bn_sqrt (bn_add (cubic prime minus_a x) b) prime in
      if bit_and odd 0x01 == bit_and (get_or y 0 0) 1 then y else bn_subtract prime y

  pub ecdsa_validate_pubkey : CurvePoint → Bool
  unfolding cubic
  ecdsa_validate_pubkey pub_key =
      if point_is_infinity pub_key
      then false
      else if bn_is_less pub_key.x prime == 0 || bn_is_less pub_key.y prime == 0
      then false
      else let y_2 = bn_mod (bn_multiply pub_key.y pub_key.y prime) prime in
        let x3_ax_b = bn_mod (bn_addmod (cubic prime minus_a pub_key.x) b prime) prime in
        not (bn_is_equal x3_ax_b y_2 == 0)

  -- The point if the result is 1. The default of a null curve is left to the caller.
  pub ecdsa_read_pubkey : List ℕ → Option CurvePoint
  unfolding uncompress_coords ecdsa_validate_pubkey
  ecdsa_read_pubkey pub_key =
      let head = get_or pub_key 0 0 in
      let x = bn_read_be (take 32 (drop 1 pub_key)) in
      let full : CurvePoint = record { x = x; y = bn_read_be (take 32 (drop 33 pub_key)) } in
      let computed : CurvePoint = record { x = x; y = uncompress_coords head x } in
      if head == 0x04
      then if ecdsa_validate_pubkey full then some full else none
      else if head == 0x02 || head == 0x03
      then if ecdsa_validate_pubkey computed then some computed else none
      else none

  -- The 65 bytes if the result is 1.
  pub ecdsa_uncompress_pubkey : List ℕ → Option (List ℕ)
  unfolding ecdsa_read_pubkey
  ecdsa_uncompress_pubkey pub_key = elim (ecdsa_read_pubkey pub_key) [
    | none ↦ none
    | some p ↦ some (4 ∷ bn_write_be p.x ++ bn_write_be p.y)
  ]
