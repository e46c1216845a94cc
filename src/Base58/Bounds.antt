-- ===== src/Base58/Bounds.antt =====
-- The read in front of d in base58_decode_check (ios/Classes/base58.c).
use flutter_sdk.Base.{ℕ, ◌+◌, ◌-◌, ◌^◌, ◌<◌, ◌≤◌, ◌≡◌, arith, refl, List, true, false, ltb}
use flutter_sdk.Bignum.Bytes.Words.{big_endian}
use flutter_sdk.Base58.Mask.{AreDigits}
use flutter_sdk.Base58.Decode.{b58tobin-value}
use flutter_sdk.Base58.{skip_ones, leading_zeros, base58_decode_check, out_of_bounds}

-- For datalen up to 128 and a text with more than datalen + 4 leading '1', then digits of a number
-- below 256 ^ (datalen + 4): base58_decode_check reads in front of its array d, for every sum.
pub base58_decode_check-out_of_bounds :
    (sum : List ℕ → List ℕ) (datalen : ℕ) (text ds : List ℕ)
    → datalen ≤ 128
    → AreDigits (skip_ones text).1 ds
    → big_endian 58 0 ds < 256 ^ (datalen + 4)
    → datalen + 4 < (skip_ones text).0
    → base58_decode_check sum datalen text ≡ out_of_bounds
unfolding base58_decode_check
base58_decode_check-out_of_bounds sum datalen text ds few digits below ones =
    let (bin, read, number, long, all) =
      b58tobin-value (datalen + 4) (omega arith) text ds digits below in
    let short : ltb 128 datalen ≡ false = ground arith in
    let outside : ltb (datalen + 4) (datalen + 4 - leading_zeros bin + (skip_ones text).0) ≡ true =
      ground arith in
    rw (short, read, outside) refl
