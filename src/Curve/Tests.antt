-- ===== src/Curve/Tests.antt =====
-- The theorems on the points of ios/Classes/ecdsa.c at the generator of secp256k1.
use flutter_sdk.Base.{◌+◌, ◌*◌, ◌%◌, ◌≡◌, refl, arith, not, ◌&&◌, ◌==◌, ltb}
use flutter_sdk.Bignum.Limbs.{Bignum256, value, IsModulus, IsNormalized}
use flutter_sdk.Bignum.Compare.{bn_one}
use flutter_sdk.KeyTree.{secp256k1}
use flutter_sdk.Curve.{
  CurvePoint, JacobianCurvePoint, point_jacobian_add, point_jacobian_double, conditional_negate,
}
use flutter_sdk.Curve.Residue.{minus, IsResidue, value-IsResidue}
use flutter_sdk.Curve.Formulas.{Coordinates, IsPoint, double, add}
use flutter_sdk.Curve.Double.{point_jacobian_double-IsPoint}
use flutter_sdk.Curve.Add.{point_jacobian_add-IsPoint}
use flutter_sdk.Curve.Negate.{conditional_negate-value}
use flutter_sdk.Curve.PublicKey.{ecdsa_validate_pubkey}
use flutter_sdk.Curve.PublicKey.Validate.{ecdsa_validate_pubkey-on_curve}

abbrev prime : Bignum256
prime = secp256k1.prime

abbrev generator : CurvePoint
generator = record { x = secp256k1.gx; y = secp256k1.gy }

abbrev start : JacobianCurvePoint
start = record { x = secp256k1.gx; y = secp256k1.gy; z = bn_one }

abbrev numbers : Coordinates
numbers = record { x = value secp256k1.gx; y = value secp256k1.gy; z = value bn_one }

prime-IsModulus : IsModulus prime
unfolding value
prime-IsModulus = record {
  normal = record { size = refl; digits = omega arith };
  low = omega arith;
  high = omega arith;
}

gx-IsNormalized : IsNormalized secp256k1.gx
gx-IsNormalized = record { size = refl; digits = omega arith }

gy-IsNormalized : IsNormalized secp256k1.gy
gy-IsNormalized = record { size = refl; digits = omega arith }

b-IsNormalized : IsNormalized secp256k1.b
b-IsNormalized = record { size = refl; digits = omega arith }

one-IsNormalized : IsNormalized bn_one
one-IsNormalized = record { size = refl; digits = omega arith }

x-IsResidue : IsResidue prime 2 (value secp256k1.gx) secp256k1.gx
unfolding value
x-IsResidue = value-IsResidue prime-IsModulus gx-IsNormalized (omega arith)

y-IsResidue : IsResidue prime 2 (value secp256k1.gy) secp256k1.gy
unfolding value
y-IsResidue = value-IsResidue prime-IsModulus gy-IsNormalized (omega arith)

one-IsResidue : IsResidue prime 2 (value bn_one) bn_one
unfolding value
one-IsResidue = value-IsResidue prime-IsModulus one-IsNormalized (omega arith)

start-IsPoint : IsPoint prime numbers start
start-IsPoint = record {
  x_residue = x-IsResidue;
  y_residue = y-IsResidue;
  z_residue = one-IsResidue;
}

point_jacobian_double-IsPoint_example :
    IsPoint prime (double (value prime) 0 numbers) (point_jacobian_double prime 0 start)
unfolding value
point_jacobian_double-IsPoint_example =
    point_jacobian_double-IsPoint prime 0 numbers start prime-IsModulus (omega arith) (omega arith)
      start-IsPoint

point_jacobian_add-IsPoint_example :
    let is_doubling =
      minus (value prime) (value secp256k1.gx * (value bn_one * value bn_one)) (value secp256k1.gx)
        % value prime
      == 0 in
    IsPoint prime
      (add is_doubling (value prime) 0 (value secp256k1.gx) (value secp256k1.gy) numbers)
      (point_jacobian_add prime 0 generator start)
unfolding value
point_jacobian_add-IsPoint_example =
    point_jacobian_add-IsPoint prime-IsModulus 0 (value secp256k1.gx) (value secp256k1.gy) generator
      numbers start (omega arith) (omega arith) x-IsResidue y-IsResidue start-IsPoint

conditional_negate-value_example :
    (conditional_negate 0 secp256k1.gx prime ≡ secp256k1.gx)
    × IsNormalized (conditional_negate 0xffffffff secp256k1.gx prime)
    × (value (conditional_negate 0xffffffff secp256k1.gx prime) + value secp256k1.gx
        ≡ 2 * value prime)
unfolding value
conditional_negate-value_example =
    conditional_negate-value secp256k1.gx prime gx-IsNormalized prime-IsModulus (omega arith)

ecdsa_validate_pubkey-on_curve_example : ecdsa_validate_pubkey prime 0 secp256k1.b generator ≡ (
    not (value secp256k1.gx == 0 && value secp256k1.gy == 0)
    && ltb (value secp256k1.gx) (value prime)
    && ltb (value secp256k1.gy) (value prime)
    && ((value secp256k1.gx * minus (value prime) (value secp256k1.gx * value secp256k1.gx) 0
            + value secp256k1.b)
          % value prime
        == value secp256k1.gy * value secp256k1.gy % value prime))
unfolding value
ecdsa_validate_pubkey-on_curve_example =
    ecdsa_validate_pubkey-on_curve prime 0 secp256k1.b generator prime-IsModulus (omega arith)
      (omega arith) b-IsNormalized (omega arith) gx-IsNormalized gy-IsNormalized
