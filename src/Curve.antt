-- ===== src/Curve.antt =====
-- The points of a curve in ios/Classes/ecdsa.c. A function gives the point that it writes. bn_inverse
-- is a parameter, since bignum.c has two, of which the build takes one; `minus_a` is -a, which lies
-- between 0 and 3, and `words` is what random32 gives.
pub mod Residue
pub mod Formulas
pub mod Double
pub mod Add
pub mod Negate
pub mod PublicKey
mod Tests
use flutter_sdk.Base.{
  ℕ, zero, suc, ◌+◌, ◌-◌, ◌*◌, ◌%◌, ◌^◌, List, [], ◌∷◌, Bool, true, false, not, ◌&&◌, ◌==◌, flag,
}
use flutter_sdk.Base.{if◌then◌else◌, u32, sub32, ◌>>>◌, bit_and, bit_or, bit_xor}
use flutter_sdk.Bignum.Limbs.{Bignum256}
use flutter_sdk.Bignum.Compare.{bn_zero, bn_is_zero, bn_is_equal, bn_cmov}
use flutter_sdk.Bignum.Add.{bn_add, bn_subi, bn_subtractmod}
use flutter_sdk.Bignum.Shift.{bn_lshift, bn_mult_half}
use flutter_sdk.Bignum.Reduce.{bn_fast_mod, bn_mod, bn_mult_k, bn_addmod}
use flutter_sdk.Bignum.Multiply.{bn_multiply}

pub record CurvePoint : Type 0 where
  pub x : Bignum256
  pub y : Bignum256

pub record JacobianCurvePoint : Type 0 where
  pub x : Bignum256
  pub y : Bignum256
  pub z : Bignum256

abbrev pub point_set_infinity : CurvePoint
point_set_infinity = record { x = bn_zero; y = bn_zero }

abbrev pub truth : ℕ → Bool
truth n = not (n == 0)

pub point_is_infinity : CurvePoint → Bool
point_is_infinity p = truth (bn_is_zero p.x) && truth (bn_is_zero p.y)

pub point_is_equal : CurvePoint → CurvePoint → Bool
point_is_equal p q = truth (bn_is_equal p.x q.x) && truth (bn_is_equal p.y q.y)

pub point_is_negative_of : CurvePoint → CurvePoint → Bool
point_is_negative_of p q =
    if bn_is_equal p.x q.x == 0
    then false
    else if truth (bn_is_zero p.y)
    then false
    else bn_is_equal p.y q.y == 0

-- "xr = lambda^2 - x1 - x2" and "yr = lambda (x1 - xr) - y1", `both` being x1 + x2.
pub third_point : Bignum256 → Bignum256 → Bignum256 → CurvePoint → CurvePoint
third_point prime lambda both cp1 =
    let xr =
      bn_mod (bn_fast_mod (bn_subtractmod (bn_multiply lambda lambda prime) both prime) prime)
        prime in
    let yr = bn_multiply lambda (bn_subtractmod cp1.x xr prime) prime in
    record { x = xr; y = bn_mod (bn_fast_mod (bn_subtractmod yr cp1.y prime) prime) prime }

module _ (inverse : Bignum256 → Bignum256 → Bignum256) (prime : Bignum256) (minus_a : ℕ) where
  pub point_double : CurvePoint → CurvePoint
  unfolding point_is_infinity third_point
  point_double cp =
      if point_is_infinity cp
      then cp
      else if truth (bn_is_zero cp.y)
      then point_set_infinity
      else let inv = inverse (bn_mult_k cp.y 2 prime) prime in
        let xr = bn_subi (bn_mult_k (bn_multiply cp.x cp.x prime) 3 prime) minus_a prime in
        third_point prime (bn_multiply xr inv prime) (bn_lshift cp.x) cp

  -- cp2 = cp1 + cp2
  pub point_add : CurvePoint → CurvePoint → CurvePoint
  unfolding point_is_infinity point_is_equal point_is_negative_of point_double third_point
  point_add cp1 cp2 =
      if point_is_infinity cp1
      then cp2
      else if point_is_infinity cp2
      then cp1
      else if point_is_equal cp1 cp2
      then point_double cp2
      else if point_is_negative_of cp1 cp2
      then point_set_infinity
      else let inv = inverse (bn_subtractmod cp2.x cp1.x prime) prime in
        let lambda = bn_multiply inv (bn_subtractmod cp2.y cp1.y prime) prime in
        third_point prime lambda (bn_addmod cp1.x cp2.x prime) cp1

-- for j: tmp += 0x3fffffff + 2*prime[j] - a[j]; a[j] = ((tmp & 0x3fffffff) & cond) | (a[j] & ~cond);
-- tmp >>= 30
pub negate_loop : ℕ → ℕ → List ℕ → List ℕ → List ℕ
negate_loop cond tmp (a ∷ xs) (p ∷ ps) =
    let sum = sub32 (tmp + 0x3fffffff + 2 * p) a in
    bit_or (bit_and (sum % 2 ^ 30) cond) (bit_and a (0xffffffff - cond))
    ∷ negate_loop cond (sum >>> 30) xs ps
negate_loop cond tmp _ _ = []

pub conditional_negate : ℕ → Bignum256 → Bignum256 → Bignum256
unfolding negate_loop
conditional_negate cond a prime = negate_loop cond 1 a prime

-- The nine random limbs of z.
pub random_z : List ℕ → Bignum256
random_z [] = []
random_z (w ∷ []) = (bit_and w 0x7fff + 1) ∷ []
random_z (w ∷ ws) = (w % 2 ^ 30) ∷ random_z ws

pub curve_to_jacobian : List ℕ → CurvePoint → Bignum256 → JacobianCurvePoint
unfolding random_z
curve_to_jacobian words p prime =
    let z = random_z words in
    let zsq = bn_multiply z z prime in
    let zcb = bn_multiply z zsq prime in
    record { x = bn_multiply p.x zsq prime; y = bn_multiply p.y zcb prime; z = z }

pub jacobian_to_curve :
    (Bignum256 → Bignum256 → Bignum256) → JacobianCurvePoint → Bignum256 → CurvePoint
jacobian_to_curve inverse jp prime =
    let inv = inverse jp.z prime in
    let inv2 = bn_multiply inv inv prime in
    let inv3 = bn_multiply inv2 inv prime in
    record {
      x = bn_mod (bn_multiply jp.x inv2 prime) prime;
      y = bn_mod (bn_multiply jp.y inv3 prime) prime;
    }

-- The end of point_jacobian_add, from "hsqx = h^2" on: both_x is x1' + x2, both_y is y1' + y2.
pub jacobian_third :
    Bignum256 → Bignum256 → Bignum256 → Bignum256 → Bignum256 → Bignum256 → JacobianCurvePoint
jacobian_third prime r h both_x both_y z =
    let h2 = bn_multiply h h prime in
    let h3 = bn_multiply h2 h prime in
    let hsqx = bn_multiply both_x h2 prime in
    let hcby = bn_multiply both_y h3 prime in
    let x3 = bn_fast_mod (bn_subtractmod (bn_multiply r r prime) hsqx prime) prime in
    let y = bn_subtractmod (bn_subtractmod hsqx x3 prime) x3 prime in
    let y3 = bn_subtractmod (bn_multiply r y prime) hcby prime in
    record { x = x3; y = bn_fast_mod (bn_mult_half y3 prime) prime; z = bn_multiply h z prime }

-- p2 = p1 + p2
pub point_jacobian_add : Bignum256 → ℕ → CurvePoint → JacobianCurvePoint → JacobianCurvePoint
unfolding jacobian_third
point_jacobian_add prime minus_a p1 p2 =
    let xz = bn_multiply p2.z p2.z prime in
    let yz = bn_multiply xz p2.z prime in
    let az = bn_mult_k (bn_multiply xz xz prime) minus_a prime in
    let x1 = bn_multiply p1.x xz prime in
    let h = bn_fast_mod (bn_subtractmod x1 p2.x prime) prime in
    let is_doubling = bn_is_equal h prime in
    let y1 = bn_multiply p1.y yz prime in
    let both_x = bn_add x1 p2.x in
    let both_y = bn_add y1 p2.y in
    let r2 = bn_mult_k (bn_multiply p2.x p2.x prime) 3 prime in
    let r2a = if minus_a == 0 then r2 else bn_subtractmod r2 az prime in
    jacobian_third prime (bn_cmov is_doubling r2a (bn_subtractmod y1 p2.y prime))
      (bn_cmov is_doubling both_y h) both_x both_y p2.z

pub point_jacobian_double : Bignum256 → ℕ → JacobianCurvePoint → JacobianCurvePoint
point_jacobian_double prime minus_a p =
    let x2 = bn_mult_k (bn_multiply p.x p.x prime) 3 prime in
    let z2 = bn_multiply p.z p.z prime in
    let az4 = bn_mult_k (bn_multiply z2 z2 prime) minus_a prime in
    let m = bn_mult_half (bn_subtractmod x2 az4 prime) prime in
    let msq = bn_multiply m m prime in
    let ysq = bn_multiply p.y p.y prime in
    let xysq = bn_multiply ysq p.x prime in
    let twice = bn_fast_mod (bn_lshift xysq) prime in
    let x3 = bn_fast_mod (bn_subtractmod msq twice prime) prime in
    let y = bn_multiply m (bn_subtractmod xysq x3 prime) prime in
    let y3 = bn_fast_mod (bn_subtractmod y (bn_multiply ysq ysq prime) prime) prime in
    record { x = x3; y = y3; z = bn_multiply p.y p.z prime }
