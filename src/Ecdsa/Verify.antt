-- ===== src/Ecdsa/Verify.antt =====
-- ecdsa_verify_digest of ios/Classes/ecdsa.c. A signature is 64 bytes and a digest 32. The multiples
-- of points and bn_inverse are parameters.
pub mod Ranges
use flutter_sdk.Base.{ℕ, List, Bool, not, ◌||◌, Option, none, some, ◌==◌, if◌then◌else◌, take, drop}
use flutter_sdk.Bignum.Limbs.{Bignum256}
use flutter_sdk.Bignum.Compare.{bn_is_zero, bn_is_less, bn_is_equal}
use flutter_sdk.Bignum.Reduce.{bn_mod}
use flutter_sdk.Bignum.Multiply.{bn_multiply}
use flutter_sdk.Bignum.Bytes.{bn_read_be}
use flutter_sdk.Curve.{CurvePoint, point_add}
use flutter_sdk.Curve.PublicKey.{ecdsa_read_pubkey}

-- What verifying takes of the curve.
pub record Verifier : Type 0 where
  pub prime : Bignum256
  pub minus_a : ℕ
  pub b : Bignum256
  pub order : Bignum256
  pub scalar_multiply : Bignum256 → CurvePoint
  pub point_multiply : Bignum256 → CurvePoint → CurvePoint
  pub inverse : Bignum256 → Bignum256 → Bignum256

-- From "s^-1" on: 0, 3 or 5.
pub verify_point : Verifier → CurvePoint → Bignum256 → Bignum256 → Bignum256 → ℕ
verify_point c key r s z =
    let inv = c.inverse s c.order in
    let u = bn_mod (bn_multiply inv z c.order) c.order in
    let w = bn_mod (bn_multiply r inv c.order) c.order in
    let sum =
      point_add c.inverse c.prime c.minus_a (c.point_multiply w key) (c.scalar_multiply u) in
    if not (bn_is_zero u == 0)
    then 3
    else if bn_is_equal (bn_mod sum.x c.order) r == 0
    then 5
    else 0

pub ecdsa_verify_digest : Verifier → List ℕ → List ℕ → List ℕ → ℕ
unfolding verify_point
ecdsa_verify_digest c pub_key sig digest =
    let r = bn_read_be (take 32 sig) in
    let s = bn_read_be (take 32 (drop 32 sig)) in
    let z = bn_read_be (take 32 digest) in
    elim (ecdsa_read_pubkey c.prime c.minus_a c.b pub_key) [
      | none ↦ 1
      | some key ↦
          if not (bn_is_zero r == 0)
            || not (bn_is_zero s == 0)
            || bn_is_less r c.order == 0
            || bn_is_less s c.order == 0
          then 2
          else verify_point c key r s z
    ]

pub ecdsa_verify : (List ℕ → List ℕ) → Verifier → List ℕ → List ℕ → List ℕ → ℕ
unfolding ecdsa_verify_digest
ecdsa_verify sha256_raw c pub_key sig msg = ecdsa_verify_digest c pub_key sig (sha256_raw msg)

pub ecdsa_verify_double : (List ℕ → List ℕ) → Verifier → List ℕ → List ℕ → List ℕ → ℕ
unfolding ecdsa_verify_digest
ecdsa_verify_double sha256_raw c pub_key sig msg =
    ecdsa_verify_digest c pub_key sig (sha256_raw (sha256_raw msg))
