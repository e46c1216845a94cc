-- ===== src/Bignum/Bytes/RoundTrip.antt =====
-- What is written is read back.
use flutter_sdk.Base.{◌^◌, ◌<◌, ◌≡◌, ◌∙◌, sym}
use flutter_sdk.Bignum.Limbs.{Bignum256, value, IsNormalized, value-injective}
use flutter_sdk.Bignum.Bytes.{bn_read_be, bn_read_le, bn_write_be, bn_write_le}
use flutter_sdk.Bignum.Bytes.Read.{bn_read_be-value, bn_read_le-value}
use flutter_sdk.Bignum.Bytes.Write.{bn_write_be-value, bn_write_le-value}

same_number : {x y : Bignum256} → IsNormalized x → IsNormalized y → value x ≡ value y → x ≡ y
same_number {x} {y} n m e = value-injective x y (n.size ∙ sym m.size) n.digits m.digits e

-- For a normalized bignum below 2^256, reading the big-endian bytes that bn_write_be writes gives
-- the bignum back.
pub bn_read_be-bn_write_be :
    {x : Bignum256} → IsNormalized x → value x < 2 ^ 256 → bn_read_be (bn_write_be x) ≡ x
bn_read_be-bn_write_be {x} n small =
    let w = bn_write_be-value n small in
    let r = bn_read_be-value (bn_write_be x) w.1 w.2 in same_number r.0 n (r.1 ∙ w.0)

-- For a normalized bignum below 2^256, reading the little-endian bytes that bn_write_le writes
-- gives the bignum back.
pub bn_read_le-bn_write_le :
    {x : Bignum256} → IsNormalized x → value x < 2 ^ 256 → bn_read_le (bn_write_le x) ≡ x
bn_read_le-bn_write_le {x} n small =
    let w = bn_write_le-value n small in
    let r = bn_read_le-value (bn_write_le x) w.1 w.2 in same_number r.0 n (r.1 ∙ w.0)
