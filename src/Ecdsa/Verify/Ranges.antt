-- ===== src/Ecdsa/Verify/Ranges.antt =====
-- What ecdsa_verify_digest of ios/Classes/ecdsa.c refuses.
use flutter_sdk.Base.{
  ℕ, ◌≡◌, refl, arith, ap₂, ◌∙◌, List, Bool, true, false, not, ◌&&◌, ◌||◌, Option, none, some,
}
use flutter_sdk.Base.{
  ◌==◌, ltb, if◌then◌else◌, take, drop, length, AllBelow, length-take, take-all, length-drop,
  take-AllBelow, drop-AllBelow, inl, inr, Option-cases,
}
use flutter_sdk.Bignum.Limbs.{Bignum256, value, IsNormalized}
use flutter_sdk.Bignum.Compare.{bn_is_zero, bn_is_less}
use flutter_sdk.Bignum.Compare.Value.{bn_is_zero-value, bn_is_less-value}
use flutter_sdk.Bignum.Bytes.{bn_read_be}
use flutter_sdk.Bignum.Bytes.Words.{big_endian}
use flutter_sdk.Bignum.Bytes.Read.{bn_read_be-value}
use flutter_sdk.Curve.{CurvePoint}
use flutter_sdk.Curve.PublicKey.{ecdsa_read_pubkey}
use flutter_sdk.Ecdsa.Verify.{Verifier, verify_point, ecdsa_verify_digest}

-- Is a number from 1 to one less than the order?
pub in_range : ℕ → ℕ → Bool
in_range order v = not (v == 0) && ltb v order

range_test :
    (r s order : Bignum256)
    → IsNormalized r
    → IsNormalized s
    → IsNormalized order
    → (not (bn_is_zero r == 0)
        || not (bn_is_zero s == 0)
        || bn_is_less r order == 0
        || bn_is_less s order == 0)
      ≡ not (in_range (value order) (value r) && in_range (value order) (value s))
unfolding in_range
range_test r s order nr ns n =
    let zero_r = bn_is_zero-value r in
    let zero_s = bn_is_zero-value s in
    let less_r = bn_is_less-value nr n in
    let less_s = bn_is_less-value ns n in ground (arith, zero_r, zero_s, less_r, less_s)

verify_point-results :
    (c : Verifier) (key : CurvePoint) (r s z : Bignum256)
    → ((verify_point c key r s z == 1) ≡ false) × ((verify_point c key r s z == 2) ≡ false)
unfolding verify_point
verify_point-results c key r s z = (ground arith, ground arith)

refuses_other : (test : Bool) (v : ℕ) → (v == 1) ≡ false → ((if test then 2 else v) == 1) ≡ false
refuses_other true v other = refl
refuses_other false v other = other

refuses : (test : Bool) (v : ℕ) → (v == 2) ≡ false → ((if test then 2 else v) == 2) ≡ test
refuses true v other = refl
refuses false v other = other

pub is_some : Option CurvePoint → Bool
is_some none = false
is_some (some key) = true

-- For a normalized order and a signature of 64 bytes: ecdsa_verify_digest gives 1 exactly if the
-- public key cannot be read, and 2 exactly if it can, and r or s, read from the two halves, is not
-- between 1 and the order less one.
pub ecdsa_verify_digest-ranges :
    (c : Verifier) (pub_key sig digest : List ℕ)
    → IsNormalized c.order
    → length sig ≡ 64
    → AllBelow 256 sig
    → let readable = is_some (ecdsa_read_pubkey c.prime c.minus_a c.b pub_key) in
      ((ecdsa_verify_digest c pub_key sig digest == 1) ≡ not readable)
      × ((ecdsa_verify_digest c pub_key sig digest == 2) ≡ (
          readable
          && not (
              in_range (value c.order) (big_endian 256 0 (take 32 sig))
              && in_range (value c.order) (big_endian 256 0 (drop 32 sig)))))
unfolding ecdsa_verify_digest is_some
ecdsa_verify_digest-ranges c pub_key sig digest n long all =
    let halves : length (drop 32 sig) ≡ 32 = omega (arith, length-drop 32 sig) in
    let back : take 32 (drop 32 sig) ≡ drop 32 sig = take-all 32 (drop 32 sig) halves in
    let (nr, r_value) =
      bn_read_be-value (take 32 sig) (length-take 32 32 sig long) (take-AllBelow 256 32 sig all) in
    let (ns, s_value) = bn_read_be-value (drop 32 sig) halves (drop-AllBelow 256 32 sig all) in
    let r = bn_read_be (take 32 sig) in
    let s = bn_read_be (drop 32 sig) in
    let z = bn_read_be (take 32 digest) in
    elim (Option-cases (ecdsa_read_pubkey c.prime c.minus_a c.b pub_key)) [
      | inl failed ↦ rw (ecdsa_verify_digest, failed) (refl, refl)
      | inr (key, read) ↦
          let (not_one, not_two) = verify_point-results c key r s z in
          let ranges =
            range_test r s c.order nr ns n
            ∙ ap₂ (λ (v w : ℕ). not (in_range (value c.order) v && in_range (value c.order) w))
                r_value s_value in
          rw (ecdsa_verify_digest, read, back)
            (
              refuses_other _ (verify_point c key r s z) not_one,
              refuses _ (verify_point c key r s z) not_two ∙ ranges,
            )
    ]
