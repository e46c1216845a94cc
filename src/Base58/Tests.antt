-- ===== src/Base58/Tests.antt =====
-- Runs of ios/Classes/base58.c, and its theorems at concrete inputs.
use flutter_sdk.Base.{
  ℕ, ◌+◌, ◌-◌, ◌*◌, ◌/◌, ◌≤◌, ◌≡◌, refl, arith, List, [], ◌∷◌, ◌++◌, none, some, codes,
}
use flutter_sdk.Base.{length, replicate, AllBelow, leb, if◌then◌else◌}
use flutter_sdk.Bignum.Bytes.Words.{big_endian}
use flutter_sdk.Mnemonic.{str_eq}
use flutter_sdk.Base58.Mask.{AreDigits}
use flutter_sdk.Base58.Decode.{b58tobin-value, b58tobin-result}
use flutter_sdk.Base58.Encode.{b58enc-text, text_of}
use flutter_sdk.Base58.RoundTrip.{b58tobin-b58enc}
use flutter_sdk.Base58.Check.{base58_decode_check-base58_encode_check}
use flutter_sdk.Base58.Taken.{base58_encode_check-base58_decode_check}
use flutter_sdk.Base58.Bounds.{base58_decode_check-out_of_bounds}
use flutter_sdk.Base58.{b58digits_map, skip_ones, leading_zeros, b58tobin, b58enc, b58check, accept}
use flutter_sdk.Base58.{base58_encode_check, base58_decode_check, decoded, rejected, out_of_bounds}

abbrev sum4 : List ℕ → List ℕ
sum4 bytes = 5 ∷ 7 ∷ 8 ∷ 9 ∷ []

abbrev some_bytes : List ℕ
some_bytes = 0 ∷ 0 ∷ 1 ∷ 255 ∷ 32 ∷ []

abbrev some_text : List ℕ
some_text = codes "11fu1"

abbrev check_text : List ℕ
check_text = codes "115PXUK3Cji"

written : b58enc 6 some_bytes ≡ (some some_text, 6)
unfolding b58enc
written = refl

no_room : b58enc 5 some_bytes ≡ (none, 6)
unfolding b58enc
no_room = refl

read_back : b58tobin 7 some_text ≡ some (0 ∷ 0 ∷ some_bytes, 5)
unfolding b58tobin
read_back = refl

no_digit : b58tobin 7 (codes "1O") ≡ none
unfolding b58tobin
no_digit = refl

too_big : b58tobin 1 (codes "zz") ≡ none
unfolding b58tobin
too_big = refl

check_read : base58_decode_check sum4 10 check_text ≡ decoded some_bytes
unfolding base58_decode_check b58tobin b58check accept str_eq
check_read = refl

check_differs : base58_decode_check sum4 10 (codes "115PXUK3Cjj") ≡ rejected
unfolding base58_decode_check b58tobin b58check accept str_eq
check_differs = refl

b58tobin-value_example :
    (bin : List ℕ) × (b58tobin 7 some_text
      ≡ some (bin, 7 - leading_zeros bin + (skip_ones some_text).0))
    × (big_endian 256 0 bin ≡ big_endian 58 0 (38 ∷ 52 ∷ 0 ∷ []))
    × (length bin ≡ 7)
    × AllBelow 256 bin
unfolding skip_ones b58digits_map big_endian
b58tobin-value_example =
    b58tobin-value 7 (omega arith) some_text (38 ∷ 52 ∷ 0 ∷ [])
      (omega arith, refl, (omega arith, refl, (omega arith, refl, tt))) (omega arith)

b58tobin-result_example :
    (ds : List ℕ) × AreDigits (skip_ones some_text).1 ds
    × (5 ≡ 7 - leading_zeros (0 ∷ 0 ∷ some_bytes) + (skip_ones some_text).0)
    × (big_endian 256 0 (0 ∷ 0 ∷ some_bytes) ≡ big_endian 58 0 ds)
    × (length {A = ℕ} (0 ∷ 0 ∷ some_bytes) ≡ 7)
    × AllBelow 256 (0 ∷ 0 ∷ some_bytes)
b58tobin-result_example =
    b58tobin-result 7 (omega arith) some_text (0 ∷ 0 ∷ some_bytes) 5
      (omega arith, (omega arith, (omega arith, (omega arith, (omega arith, tt))))) read_back

b58enc-text_example :
    (ds : List ℕ) × AllBelow 58 ds
    × (leading_zeros ds ≡ 0)
    × (big_endian 58 0 ds ≡ big_endian 256 0 some_bytes)
    × (b58enc 100 some_bytes ≡ (
        if leb 100 (leading_zeros some_bytes + length ds)
        then (none, leading_zeros some_bytes + length ds + 1)
        else (
          some (text_of (leading_zeros some_bytes) ds),
          leading_zeros some_bytes + length ds + 1,
        )))
    × (leading_zeros some_bytes + length ds ≤ length some_bytes * 138 / 100 + 1)
b58enc-text_example =
    b58enc-text 100 some_bytes
      (omega arith, (omega arith, (omega arith, (omega arith, (omega arith, tt)))))

b58tobin-b58enc_example :
    (text : List ℕ) × (bin : List ℕ) × (b58enc 100 some_bytes ≡ (some text, length text + 1))
    × (b58tobin 7 text ≡ some (bin, length some_bytes))
    × (bin ≡ replicate (7 - length some_bytes) 0 ++ some_bytes)
    × ((skip_ones text).0 ≡ leading_zeros some_bytes)
b58tobin-b58enc_example =
    b58tobin-b58enc 100 7 some_bytes
      (omega arith, (omega arith, (omega arith, (omega arith, (omega arith, tt))))) (omega arith)
      (omega arith) (omega arith)

base58_decode_check-base58_encode_check_example :
    (text : List ℕ) × (base58_encode_check sum4 some_bytes 100 ≡ (some text, length text + 1))
    × (base58_decode_check sum4 10 text ≡ decoded some_bytes)
unfolding leading_zeros
base58_decode_check-base58_encode_check_example =
    base58_decode_check-base58_encode_check sum4 some_bytes 10 100
      (omega arith, (omega arith, (omega arith, (omega arith, (omega arith, tt)))))
      (omega arith, (omega arith, (omega arith, (omega arith, tt)))) (omega arith) (omega arith)
      (omega arith) (omega arith) (omega arith)

base58_encode_check-base58_decode_check_example :
    base58_encode_check sum4 some_bytes 100 ≡ (some check_text, length check_text + 1)
base58_encode_check-base58_decode_check_example =
    base58_encode_check-base58_decode_check sum4 10 100 check_text some_bytes
      (
        omega arith,
        (
          omega arith,
          (
            omega arith,
            (
              omega arith,
              (
                omega arith,
                (
                  omega arith,
                  (omega arith, (omega arith, (omega arith, (omega arith, (omega arith, tt))))),
                ),
              ),
            ),
          ),
        ),
      )
      (omega arith) check_read

base58_decode_check-out_of_bounds_example :
    base58_decode_check sum4 1 (codes "11111111") ≡ out_of_bounds
unfolding skip_ones big_endian
base58_decode_check-out_of_bounds_example =
    base58_decode_check-out_of_bounds sum4 1 (codes "11111111") [] (omega arith) tt (omega arith)
      (omega arith)
