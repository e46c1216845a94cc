-- ===== src/Curve/Add.antt =====
-- point_jacobian_add of ios/Classes/ecdsa.c does the formulas of Curve/Formulas.
use flutter_sdk.Base.{
  ℕ, zero, suc, ◌-◌, ◌*◌, ◌%◌, ◌<◌, ◌≤◌, ◌≡◌, arith, ap, ◌∙◌, Bool, true, false, ◌==◌, flag,
}
use flutter_sdk.Base.{if◌then◌else◌}
use native.Mathlib.Decide.{dec_lt}
use native.Mathlib.Nat.{mod-eq_of_lt, mod-eq-sub-mod, mul-zero}
use flutter_sdk.Bignum.Limbs.{Bignum256, value, IsModulus, IsNormalized-IsBignum}
use flutter_sdk.Bignum.Compare.{bn_is_equal, bn_cmov}
use flutter_sdk.Bignum.Compare.Value.{bn_is_equal-value, bn_cmov-select}
use flutter_sdk.Bignum.Add.{bn_subtractmod}
use flutter_sdk.Bignum.Add.Value.{bn_subtractmod-value}
use flutter_sdk.Bignum.Reduce.{bn_fast_mod}
use flutter_sdk.Bignum.Reduce.Value.{bn_fast_mod-positive}
use flutter_sdk.Curve.{CurvePoint, JacobianCurvePoint, point_jacobian_add, jacobian_third}
use flutter_sdk.Curve.Formulas.{Coordinates, IsPoint, add, third}
use flutter_sdk.Curve.Residue.{
  minus, IsResidue, bn_multiply-IsResidue, bn_mult_k-IsResidue, bn_subtractmod-IsResidue,
  bn_mult_half-IsResidue, bn_add-IsResidue, bn_fast_mod-IsResidue,
}

module _ {prime : Bignum256} (is : IsModulus prime) where
  jacobian_third-IsPoint :
      {r h both_x both_y z : Bignum256} {c d u v s t w : ℕ}
      → value prime % 2 ≡ 1
      → c ≤ 100
      → d ≤ 100
      → IsResidue prime c u r
      → IsResidue prime d v h
      → IsResidue prime 4 s both_x
      → IsResidue prime 4 t both_y
      → IsResidue prime 2 w z
      → IsPoint prime (third (value prime) u v s t w) (jacobian_third prime r h both_x both_y z)
  unfolding jacobian_third third
  jacobian_third-IsPoint odd hc hd r h both_x both_y z =
      let h2 = bn_multiply-IsResidue is (omega arith) (omega arith) h h in
      let h3 = bn_multiply-IsResidue is (omega arith) (omega arith) h2 h in
      let hsqx = bn_multiply-IsResidue is (omega arith) (omega arith) both_x h2 in
      let hcby = bn_multiply-IsResidue is (omega arith) (omega arith) both_y h3 in
      let rsq = bn_multiply-IsResidue is (omega arith) (omega arith) r r in
      let x3 = bn_fast_mod-IsResidue is (bn_subtractmod-IsResidue is (omega arith) rsq hsqx) in
      let once = bn_subtractmod-IsResidue is (omega arith) hsqx x3 in
      let twice = bn_subtractmod-IsResidue is (omega arith) once x3 in
      let ry = bn_multiply-IsResidue is (omega arith) (omega arith) r twice in
      let y3 = bn_mult_half-IsResidue is odd (bn_subtractmod-IsResidue is (omega arith) ry hcby) in
      record {
        x_residue = x3;
        y_residue = bn_fast_mod-IsResidue is y3;
        z_residue = bn_multiply-IsResidue is (omega arith) (omega arith) h z;
      }

  -- A positive number below twice the prime is a multiple of it just if it is the prime.
  is_prime_only :
      (h u : ℕ)
      → 0 < h
      → h < 2 * value prime
      → h % value prime ≡ u % value prime
      → (h == value prime) ≡ (u % value prime == 0)
  is_prime_only h u positive below same = elim (dec_lt h (value prime)) [
    | yes less ↦ let small = mod-eq_of_lt less in ground (arith, same, small)
    | no more ↦
        let once = mod-eq-sub-mod {n = h} {m = value prime} (omega arith) in
        let small = mod-eq_of_lt {n = h - value prime} {m = value prime} (omega arith) in
        ground (arith, same, once, small)
  ]

  doubling_test :
      {a b : Bignum256} {u v : ℕ}
      → IsResidue prime 2 u a
      → IsResidue prime 2 v b
      → bn_is_equal (bn_fast_mod (bn_subtractmod a b prime) prime) prime
        ≡ flag (minus (value prime) u v % value prime == 0)
  doubling_test {a} {b} {u} {v} ra rb =
      let p = value prime in
      let difference = bn_subtractmod-IsResidue is (omega arith) ra rb in
      let (_, equation) =
        bn_subtractmod-value ra.normal rb.normal is.normal (omega (arith, rb.below))
          (omega (arith, ra.below, is.high)) in
      let positive : 0 < value (bn_subtractmod a b prime) = omega (arith, equation, rb.below) in
      let h = bn_fast_mod-IsResidue is difference in
      bn_is_equal-value h.normal is.normal
      ∙ ap flag (
          is_prime_only (value (bn_fast_mod (bn_subtractmod a b prime) prime)) (minus p u v)
            (bn_fast_mod-positive (IsNormalized-IsBignum difference.normal) is positive) h.below
            h.same)

  widen : {r : Bignum256} {u : ℕ} → IsResidue prime 2 u r → IsResidue prime 4 u r
  widen h = record { normal = h.normal; below = omega (arith, h.below); same = h.same }

  -- bn_cmov of two residues, on a test.
  bn_cmov-IsResidue :
      {x y : Bignum256} {s t c : ℕ} (d : Bool)
      → c ≡ flag d
      → IsResidue prime 4 s x
      → IsResidue prime 4 t y
      → IsResidue prime 4 (if d then s else t) (bn_cmov c x y)
  bn_cmov-IsResidue {x} {y} true e rx ry =
      rw
        (e, bn_cmov-select true (IsNormalized-IsBignum rx.normal) (IsNormalized-IsBignum ry.normal))
        rx
  bn_cmov-IsResidue {x} {y} false e rx ry =
      rw
        (
          e,
          bn_cmov-select false (IsNormalized-IsBignum rx.normal) (IsNormalized-IsBignum ry.normal),
        )
        ry

  -- "subtract -a z2^4" where a is not 0.
  less_az :
      {x y : Bignum256} {w : ℕ} (k z : ℕ)
      → IsResidue prime 2 w x
      → IsResidue prime 2 (k * z) y
      → IsResidue prime 4
          (minus (value prime) w (k * z))
          (if k == 0 then x else bn_subtractmod x y prime)
  less_az {w} zero z rx ry =
      let none_off : w ≡ minus (value prime) w (zero * z) =
        omega (arith, mul-zero (value prime - 1)) in
      rw none_off at (widen rx)
  less_az (suc k) z rx ry =
      let other : (suc k == 0) ≡ false = ground arith in
      let difference = bn_subtractmod-IsResidue is (omega arith) rx ry in rw other difference

  -- For an odd prime in range and -a at most 3: where the coordinates of both points are
  -- normalized, less than twice the prime, and stand for numbers modulo the prime, so are those
  -- that point_jacobian_add leaves. With x1' = x1 * z2^2 and y1' = y1 * z2^3 they stand for x3 =
  -- r^2 - h^2 * (x1' + x2), y3 = (r * (h^2 * (x1' + x2) - 2 * x3) - h^3 * (y1' + y2)) / 2 and z3 =
  -- h * z2. Where x1' and x2 are the same modulo the prime, whatever y1 and y2 are, h = y1' + y2
  -- and r = 3 * x2^2 + a * z2^4, and otherwise h = x1' - x2 and r = y1' - y2.
  pub point_jacobian_add-IsPoint :
      (minus_a u v : ℕ) (p1 : CurvePoint) (c : Coordinates) (p2 : JacobianCurvePoint)
      → value prime % 2 ≡ 1
      → minus_a ≤ 3
      → IsResidue prime 2 u p1.x
      → IsResidue prime 2 v p1.y
      → IsPoint prime c p2
      → let is_doubling = minus (value prime) (u * (c.z * c.z)) c.x % value prime == 0 in
        IsPoint prime
          (add is_doubling (value prime) minus_a u v c)
          (point_jacobian_add prime minus_a p1 p2)
  unfolding point_jacobian_add add
  point_jacobian_add-IsPoint minus_a u v p1 c p2 odd few rx ry at =
      let xz = bn_multiply-IsResidue is (omega arith) (omega arith) at.z_residue at.z_residue in
      let yz = bn_multiply-IsResidue is (omega arith) (omega arith) xz at.z_residue in
      let z4 = bn_multiply-IsResidue is (omega arith) (omega arith) xz xz in
      let az = bn_mult_k-IsResidue is minus_a (omega arith) z4 in
      let x1 = bn_multiply-IsResidue is (omega arith) (omega arith) rx xz in
      let h =
        bn_fast_mod-IsResidue is (bn_subtractmod-IsResidue is (omega arith) x1 at.x_residue) in
      let y1 = bn_multiply-IsResidue is (omega arith) (omega arith) ry yz in
      let both_x = bn_add-IsResidue is (omega arith) x1 at.x_residue in
      let both_y = bn_add-IsResidue is (omega arith) y1 at.y_residue in
      let square = bn_multiply-IsResidue is (omega arith) (omega arith) at.x_residue at.x_residue in
      let r2 = bn_mult_k-IsResidue is 3 (omega arith) square in
      let r = bn_subtractmod-IsResidue is (omega arith) y1 at.y_residue in
      let test = doubling_test x1 at.x_residue in
      jacobian_third-IsPoint odd (omega arith) (omega arith)
        (bn_cmov-IsResidue _ test (less_az minus_a _ r2 az) r)
        (bn_cmov-IsResidue _ test both_y (widen h)) both_x both_y at.z_residue
