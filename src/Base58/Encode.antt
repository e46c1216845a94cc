-- ===== src/Base58/Encode.antt =====
-- The text that b58enc (ios/Classes/base58.c) makes.
use flutter_sdk.Base.{ℕ, zero, suc, ◌+◌, ◌-◌, ◌*◌, ◌/◌, ◌^◌, ◌<◌, ◌≤◌, ◌≡◌, refl, arith, ap, ◌∙◌}
use flutter_sdk.Base.{
  List, [], ◌∷◌, ◌++◌, none, some, length, AllBelow, replicate, length-replicate,
}
use flutter_sdk.Base.{
  replicate-AllBelow, leb, if◌then◌else◌, drop, drop-AllBelow, reverse, get_or, map, length-drop,
  length-append,
}
use flutter_sdk.Bignum.Bytes.Words.{big_endian, little_endian}
use flutter_sdk.Base58.Words.{big_endian-lt, big_endian-reverse}
use flutter_sdk.Base58.Size.{enough_digits}
use flutter_sdk.Base58.Digits.{add_bytes-value}
use flutter_sdk.Base58.Zeros.{
  length-reverse, reverse-AllBelow, leading_zeros-split, leading_zeros-value, leading_zeros-le,
}
use flutter_sdk.Base58.{add_bytes, leading_zeros, b58enc, b58digits_ordered}

zeros_value : (n : ℕ) → little_endian 58 (replicate n 0) ≡ 0
unfolding little_endian
zeros_value zero = refl
zeros_value (suc n) = omega (arith, zeros_value n)

-- The text of zeros and digits.
abbrev pub text_of : ℕ → List ℕ → List ℕ
text_of zeros ds = replicate zeros b'1' ++ map (λ d. get_or b58digits_ordered d 0) ds

pub length-map : (f : ℕ → ℕ) (xs : List ℕ) → length (map f xs) ≡ length xs
length-map f [] = refl
length-map f (x ∷ xs) = omega (arith, length-map f xs)

pub length-text_of : (z : ℕ) (ds : List ℕ) → length (text_of z ds) ≡ z + length ds
length-text_of z ds =
    length-append (replicate z b'1') (map (λ d. get_or b58digits_ordered d 0) ds)
    ∙ omega
        (arith, length-replicate {A = ℕ} z b'1', length-map (λ d. get_or b58digits_ordered d 0) ds)

-- For bytes, with their leading zeros counted: there are digits, the first of which is not 0, for
-- the number of the bytes, together no more than n * 138 / 100 + 1 for n bytes, and b58enc writes a
-- '1' for each leading zero and then the digits, and says the length with the terminator; where
-- b58sz has no room for one more it writes nothing and says the same length.
pub b58enc-text :
    (b58sz : ℕ) (bin : List ℕ)
    → AllBelow 256 bin
    → (ds : List ℕ) × AllBelow 58 ds
      × (leading_zeros ds ≡ 0)
      × (big_endian 58 0 ds ≡ big_endian 256 0 bin)
      × (b58enc b58sz bin ≡ (
          if leb b58sz (leading_zeros bin + length ds)
          then (none, leading_zeros bin + length ds + 1)
          else (some (text_of (leading_zeros bin) ds), leading_zeros bin + length ds + 1)))
      × (leading_zeros bin + length ds ≤ length bin * 138 / 100 + 1)
unfolding b58enc
b58enc-text b58sz bin all =
    let z = leading_zeros bin in
    let rest = drop z bin in
    let size = (length bin - z) * 138 / 100 + 1 in
    let start = replicate {A = ℕ} size 0 in
    let zeros = zeros_value size in
    let bytes = drop-AllBelow 256 z bin all in
    let from = ap (λ (t : ℕ). big_endian 256 t rest) zeros in
    let long_rest = length-drop z bin in
    let long = length-replicate {A = ℕ} size 0 in
    let fits : big_endian 256 (little_endian 58 start) rest < 58 ^ length start = omega (
      arith,
      from,
      big_endian-lt 256 rest bytes,
      ap (λ (t : ℕ). 256 ^ t) long_rest,
      enough_digits (length bin - z),
      ap (λ (t : ℕ). 58 ^ t) long,
    ) in
    let (number, kept, small) =
      add_bytes-value 0 start rest (replicate-AllBelow 58 size 0 (omega arith)) zeros fits in
    let buf = reverse (add_bytes 0 start rest) in
    let j = leading_zeros buf in
    let needed : z + size - j ≡ z + length (drop j buf) =
      omega (arith, leading_zeros-le buf, length-reverse (add_bytes 0 start rest), kept, long) in
    (
      drop j buf,
      drop-AllBelow 58 j buf (reverse-AllBelow 58 (add_bytes 0 start rest) small),
      (leading_zeros-split buf).1,
      leading_zeros-value 58 buf
          ∙ big_endian-reverse 58 (add_bytes 0 start rest)
          ∙ number
          ∙ from
          ∙ leading_zeros-value 256 bin,
      rw needed refl,
      omega (
        arith,
        leading_zeros-le buf,
        length-reverse (add_bytes 0 start rest),
        kept,
        long,
        leading_zeros-le bin,
        long_rest,
      ),
    )
