-- ===== src/Curve/Double.antt =====
-- point_jacobian_double of ios/Classes/ecdsa.c does its formulas.
use flutter_sdk.Base.{ℕ, ◌%◌, ◌≤◌, ◌≡◌, arith}
use flutter_sdk.Bignum.Limbs.{Bignum256, value, IsModulus}
use flutter_sdk.Curve.{JacobianCurvePoint, point_jacobian_double}
use flutter_sdk.Curve.Formulas.{Coordinates, IsPoint, double, slope}
use flutter_sdk.Curve.Residue.{
  bn_multiply-IsResidue, bn_mult_k-IsResidue, bn_subtractmod-IsResidue, bn_mult_half-IsResidue,
  bn_lshift-IsResidue, bn_fast_mod-IsResidue,
}

-- For an odd prime in range and -a at most 3: where the coordinates of the point are normalized,
-- less than twice the prime, and stand for numbers modulo the prime, so are those that
-- point_jacobian_double leaves, and they stand for x3 = m^2 - 2xy^2, y3 = m * (xy^2 - x3) - y^4 and
-- z3 = yz with m = (3x^2 + az^4) / 2.
pub point_jacobian_double-IsPoint :
    (prime : Bignum256) (minus_a : ℕ) (c : Coordinates) (jp : JacobianCurvePoint)
    → IsModulus prime
    → value prime % 2 ≡ 1
    → minus_a ≤ 3
    → IsPoint prime c jp
    → IsPoint prime (double (value prime) minus_a c) (point_jacobian_double prime minus_a jp)
unfolding point_jacobian_double double slope
point_jacobian_double-IsPoint prime minus_a c jp is odd few at =
    let square = bn_multiply-IsResidue is (omega arith) (omega arith) at.x_residue at.x_residue in
    let x2 = bn_mult_k-IsResidue is 3 (omega arith) square in
    let z2 = bn_multiply-IsResidue is (omega arith) (omega arith) at.z_residue at.z_residue in
    let z4 = bn_multiply-IsResidue is (omega arith) (omega arith) z2 z2 in
    let az4 = bn_mult_k-IsResidue is minus_a (omega arith) z4 in
    let m = bn_mult_half-IsResidue is odd (bn_subtractmod-IsResidue is (omega arith) x2 az4) in
    let msq = bn_multiply-IsResidue is (omega arith) (omega arith) m m in
    let ysq = bn_multiply-IsResidue is (omega arith) (omega arith) at.y_residue at.y_residue in
    let xysq = bn_multiply-IsResidue is (omega arith) (omega arith) ysq at.x_residue in
    let twice = bn_fast_mod-IsResidue is (bn_lshift-IsResidue is (omega arith) xysq) in
    let x3 = bn_fast_mod-IsResidue is (bn_subtractmod-IsResidue is (omega arith) msq twice) in
    let y4 = bn_multiply-IsResidue is (omega arith) (omega arith) ysq ysq in
    let difference = bn_subtractmod-IsResidue is (omega arith) xysq x3 in
    let y = bn_multiply-IsResidue is (omega arith) (omega arith) m difference in
    record {
      x_residue = x3;
      y_residue = bn_fast_mod-IsResidue is (bn_subtractmod-IsResidue is (omega arith) y y4);
      z_residue = bn_multiply-IsResidue is (omega arith) (omega arith) at.y_residue at.z_residue;
    }
