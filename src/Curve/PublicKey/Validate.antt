-- ===== src/Curve/PublicKey/Validate.antt =====
-- ecdsa_validate_pubkey of ios/Classes/ecdsa.c takes the points of the curve.
use flutter_sdk.Base.{
  ℕ, ◌+◌, ◌*◌, ◌%◌, ◌<◌, ◌≤◌, ◌≡◌, refl, arith, ap, ap₂, ◌∙◌, Bool, true, false, not, ◌&&◌,
}
use flutter_sdk.Base.{◌==◌, flag, ltb, ltb→lt, get_or, Bool-cases, inl, inr}
use flutter_sdk.Bignum.Limbs.{Bignum256, value, IsModulus, IsNormalized}
use flutter_sdk.Bignum.Compare.{bn_is_equal, bn_is_less}
use flutter_sdk.Bignum.Compare.Value.{bn_is_equal-value, bn_is_less-value, bn_is_zero-value}
use flutter_sdk.Bignum.Reduce.{bn_mod, bn_addmod}
use flutter_sdk.Bignum.Multiply.{bn_multiply}
use flutter_sdk.Curve.{CurvePoint, point_is_infinity}
use flutter_sdk.Curve.PublicKey.{cubic, ecdsa_validate_pubkey}
use flutter_sdk.Curve.Residue.{
  minus, bn_multiply-IsResidue, bn_subi-IsResidue, bn_addmod-IsResidue, bn_mod-IsResidue,
  value-IsResidue,
}

truth_flag : (c : Bool) → not (flag c == 0) ≡ c
truth_flag true = refl
truth_flag false = refl

false_flag : (c : Bool) → (flag c == 0) ≡ not c
false_flag true = refl
false_flag false = refl

infinity_value :
    (point : CurvePoint) → point_is_infinity point ≡ (value point.x == 0 && value point.y == 0)
unfolding point_is_infinity
infinity_value point =
    rw
      (
        bn_is_zero-value point.x,
        bn_is_zero-value point.y,
        truth_flag (value point.x == 0),
        truth_flag (value point.y == 0),
      )
      refl

module _ (prime : Bignum256) (minus_a : ℕ) (b : Bignum256) (point : CurvePoint)
    (is : IsModulus prime) (few : minus_a ≤ get_or prime 0 0) (low : minus_a ≤ value prime)
    (nb : IsNormalized b) (hb : value b < 2 * value prime) (nx : IsNormalized point.x)
    (ny : IsNormalized point.y) where
  abbrev p : ℕ
  p = value prime

  abbrev right : ℕ
  right = value point.x * minus p (value point.x * value point.x) minus_a + value b

  below_value : {a : Bignum256} → IsNormalized a → (bn_is_less a prime == 0) ≡ not (ltb (value a) p)
  below_value {a} n =
      ap (λ (t : ℕ). t == 0) (bn_is_less-value n is.normal) ∙ false_flag (ltb (value a) p)

  equation_value :
      value point.x < p
      → value point.y < p
      → not (
          bn_is_equal
            (bn_mod (bn_addmod (cubic prime minus_a point.x) b prime) prime)
            (bn_mod (bn_multiply point.y point.y prime) prime)
          == 0)
        ≡ (right % p == value point.y * value point.y % p)
  unfolding cubic
  equation_value hx hy =
      let x = value-IsResidue is {c = 1} nx (omega arith) in
      let y = value-IsResidue is {c = 1} ny (omega arith) in
      let square = bn_multiply-IsResidue is (omega arith) (omega arith) x x in
      let with_a = bn_subi-IsResidue is minus_a (omega arith) few low square in
      let cube = bn_multiply-IsResidue is (omega arith) (omega arith) x with_a in
      let sum = bn_addmod-IsResidue is cube (value-IsResidue is {c = 2} nb hb) in
      let (normal, equal) = bn_mod-IsResidue is sum in
      let (normal', equal') =
        bn_mod-IsResidue is (bn_multiply-IsResidue is (omega arith) (omega arith) y y) in
      ap (λ (t : ℕ). not (t == 0)) (bn_is_equal-value normal normal')
      ∙ truth_flag _
      ∙ ap₂ (λ (s t : ℕ). s == t) equal equal'

  -- Where the prime is in range, -a is at most its lowest limb and itself, b is normalized and less
  -- than twice the prime, and the coordinates are normalized: ecdsa_validate_pubkey accepts exactly
  -- the points other than (0, 0) with coordinates less than the prime and y^2 equal to x^3 + ax + b
  -- modulo the prime.
  pub ecdsa_validate_pubkey-on_curve : ecdsa_validate_pubkey prime minus_a b point ≡ (
      not (value point.x == 0 && value point.y == 0)
      && ltb (value point.x) p
      && ltb (value point.y) p
      && (right % p == value point.y * value point.y % p))
  unfolding ecdsa_validate_pubkey
  ecdsa_validate_pubkey-on_curve = elim (Bool-cases (value point.x == 0 && value point.y == 0)) [
    | inl zeros ↦ rw (infinity_value point, zeros) refl
    | inr some_point ↦ elim (Bool-cases (ltb (value point.x) p)) [
      | inr high ↦ rw (infinity_value point, some_point, below_value nx, high) refl
      | inl x_below ↦ elim (Bool-cases (ltb (value point.y) p)) [
        | inr high ↦
            rw (infinity_value point, some_point, below_value nx, below_value ny, x_below, high)
              refl
        | inl y_below ↦
            rw (infinity_value point, some_point, below_value nx, below_value ny, x_below, y_below)
              (equation_value (ltb→lt _ _ x_below) (ltb→lt _ _ y_below))
      ]
    ]
  ]
