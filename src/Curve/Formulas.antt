-- ===== src/Curve/Formulas.antt =====
-- The formulas for points in ios/Classes/ecdsa.c on numbers modulo the prime: those of the
-- statements and of the comments beside them. The summaries above the statements differ from
-- them: in double by 8y^4 for y^4 (line 374), in add by 3/2 x2^2 in r (line 256) and by the sign of y3
-- (lines 248 and 262).
use flutter_sdk.Base.{ℕ, ◌+◌, ◌*◌, Bool, if◌then◌else◌}
use flutter_sdk.Bignum.Limbs.{Bignum256}
use flutter_sdk.Curve.{JacobianCurvePoint}
use flutter_sdk.Curve.Residue.{minus, half, IsResidue}

pub record Coordinates : Type 0 where
  pub x : ℕ
  pub y : ℕ
  pub z : ℕ

-- Each coordinate of the point is normalized, less than twice the prime, and stands for the number.
pub record IsPoint (prime : Bignum256) (c : Coordinates) (jp : JacobianCurvePoint) : Type 0 where
  pub x_residue : IsResidue prime 2 c.x jp.x
  pub y_residue : IsResidue prime 2 c.y jp.y
  pub z_residue : IsResidue prime 2 c.z jp.z

-- "m = (3 x^2 + az^4) / 2"
unfoldable pub slope : ℕ → ℕ → Coordinates → ℕ
slope p minus_a c = half p (minus p (3 * (c.x * c.x)) (minus_a * (c.z * c.z * (c.z * c.z))))

-- "x3 = m^2 - 2*xy^2", "z3 = yz", and y3 = m * (xy^2 - x3) - y^4.
unfoldable pub double : ℕ → ℕ → Coordinates → Coordinates
unfolding slope
double p minus_a c =
    let m = slope p minus_a c in
    let xysq = c.y * c.y * c.x in
    let x3 = minus p (m * m) (2 * xysq) in
    record { x = x3; y = minus p (m * minus p xysq x3) (c.y * c.y * (c.y * c.y)); z = c.y * c.z }

-- "x3 = r^2 - h^2 (x1 + x2)", "y3 = 1/2 (r*(h^2 (x1 + x2) - 2x3) - h^3 (y1 + y2))" and "z3 = h*z2",
-- the comments at the statements, where x1 and y1 stand for x1' and y1'.
unfoldable pub third : ℕ → ℕ → ℕ → ℕ → ℕ → ℕ → Coordinates
third p r h both_x both_y z =
    let hsqx = both_x * (h * h) in
    let x3 = minus p (r * r) hsqx in
    record {
      x = x3;
      y = half p (minus p (r * minus p (minus p hsqx x3) x3) (both_y * (h * h * h)));
      z = h * z;
    }

-- "h = x1' - x2", "r = y1' - y2", where x1' = x1 z2^2 and y1' = y1 z2^3. For a doubling h = y1' + y2
-- and r = 3 x2^2 + a z2^4, which bn_mult_k by 3 and "subtract -a z2^4, i.e, add a z2^4" make; that is
-- twice the numerator of the slope over twice y2.
unfoldable pub add : Bool → ℕ → ℕ → ℕ → ℕ → Coordinates → Coordinates
unfolding third
add is_doubling p minus_a x1 y1 c =
    let zsq = c.z * c.z in
    let zcb = zsq * c.z in
    let r2 = minus p (3 * (c.x * c.x)) (minus_a * (zsq * zsq)) in
    let r = if is_doubling then r2 else minus p (y1 * zcb) c.y in
    let h = if is_doubling then y1 * zcb + c.y else minus p (x1 * zsq) c.x in
    third p r h (x1 * zsq + c.x) (y1 * zcb + c.y) c.z
