-- ===== src/Base58/RoundTrip.antt =====
-- b58tobin of ios/Classes/base58.c reads back what b58enc writes.
use flutter_sdk.Base.{
  ℕ, zero, suc, ◌+◌, ◌-◌, ◌*◌, ◌/◌, ◌^◌, ◌<◌, ◌≤◌, ◌≡◌, ◌≢◌, refl, arith, ap, ap₂, ◌∙◌, sym,
}
use flutter_sdk.Base.{
  List, [], ◌∷◌, ◌++◌, Option, none, some, Bool, true, false, not, ◌&&◌, ◌||◌, ◌==◌, ltb, leb,
  length, AllBelow,
}
use flutter_sdk.Base.{
  replicate, length-replicate, replicate-AllBelow, AllBelow-append, length-append, get_or, map,
}
use flutter_sdk.Base.{try_all, try_all-lt}
use native.Mathlib.Decide.{dec_lt}
use native.Mathlib.Nat.{mul-le-mul_right, pow-le-pow_right}
use flutter_sdk.Bignum.Bytes.Words.{big_endian}
use flutter_sdk.Base58.Words.{big_endian-cons, big_endian-lt, big_endian-zeros}
use flutter_sdk.Base58.Mask.{AreDigits}
use flutter_sdk.Base58.Decode.{b58tobin-value}
use flutter_sdk.Base58.Zeros.{leading_zeros-le}
use flutter_sdk.Base58.Encode.{b58enc-text, text_of, length-text_of}
use flutter_sdk.Base58.{
  b58digits_map, b58digits_ordered, skip_ones, leading_zeros, b58tobin, b58enc,
}

digit_eq : (p x y r s : ℕ) → x * p + r ≡ y * p + s → r < p → s < p → x ≡ y
digit_eq p x y r s e h k = elim (dec_lt x y) [
  | yes less ↦
      let up : (x + 1) * p ≤ y * p = mul-le-mul_right p (omega arith) in absurd (omega (arith, up))
  | no not_less ↦ elim (dec_lt y x) [
    | yes more ↦
        let up : (y + 1) * p ≤ x * p = mul-le-mul_right p (omega arith) in
        absurd (omega (arith, up))
    | no not_more ↦ omega arith
  ]
]

-- Digits of one length that stand for one number are the same.
pub big_endian-injective :
    (base : ℕ) (xs ys : List ℕ)
    → length xs ≡ length ys
    → AllBelow base xs
    → AllBelow base ys
    → big_endian base 0 xs ≡ big_endian base 0 ys
    → xs ≡ ys
big_endian-injective base [] [] e h k same = refl
big_endian-injective base [] (y ∷ ys) e h k same = absurd (omega arith)
big_endian-injective base (x ∷ xs) [] e h k same = absurd (omega arith)
big_endian-injective base (x ∷ xs) (y ∷ ys) e h k same =
    let long : length xs ≡ length ys = omega arith in
    let weights = ap (λ (t : ℕ). y * base ^ t) long in
    let lower = big_endian-lt base ys k.1 in
    let first : x ≡ y =
      digit_eq (base ^ length xs) x y (big_endian base 0 xs) (big_endian base 0 ys)
        (omega (arith, big_endian-cons base x xs, big_endian-cons base y ys, same, weights))
        (big_endian-lt base xs h.1) (omega (arith, lower, ap (λ (t : ℕ). base ^ t) long)) in
    let others : big_endian base 0 xs ≡ big_endian base 0 ys = omega (
      arith,
      big_endian-cons base x xs,
      big_endian-cons base y ys,
      same,
      weights,
      ap (λ (t : ℕ). t * base ^ length xs) first,
    ) in
    ap₂ ◌∷◌ first (big_endian-injective base xs ys long h.1 k.1 others)

-- The character of every digit is read as that digit, and is '1' only for 0.
reads : ℕ → Option ℕ → Bool
reads d none = false
reads d (some e) = e == d

digit_table :
    try_all
      (λ d.
        ltb (get_or b58digits_ordered d 0) 128
        && reads d (get_or b58digits_map (get_or b58digits_ordered d 0) none)
        && (d == 0 || not (get_or b58digits_ordered d 0 == b'1')))
      58
    ≡ true
unfolding try_all b58digits_map reads
digit_table = refl

read_parts :
    (d ch : ℕ) (o : Option ℕ)
    → (ltb ch 128 && reads d o && (d == 0 || not (ch == b'1'))) ≡ true
    → (ch < 128) × (o ≡ some d) × (d ≢ 0 → (ch == b'1') ≡ false)
unfolding reads
read_parts d ch none test = ground arith
read_parts d ch (some e) test = (ground arith, ground arith, λ other. ground arith)

digit-read :
    (d : ℕ)
    → d < 58
    → (get_or b58digits_ordered d 0 < 128)
      × (get_or b58digits_map (get_or b58digits_ordered d 0) none ≡ some d)
      × (d ≢ 0 → (get_or b58digits_ordered d 0 == b'1') ≡ false)
digit-read d small =
    read_parts d (get_or b58digits_ordered d 0)
      (get_or b58digits_map (get_or b58digits_ordered d 0) none) (try_all-lt _ small digit_table)

map-AreDigits :
    (ds : List ℕ) → AllBelow 58 ds → AreDigits (map (λ d. get_or b58digits_ordered d 0) ds) ds
map-AreDigits [] all = tt
map-AreDigits (d ∷ ds) all =
    let (ascii, read, _) = digit-read d all.0 in (ascii, read, map-AreDigits ds all.1)

skip_ones-text_of :
    (zeros : ℕ) (ds : List ℕ)
    → AllBelow 58 ds
    → leading_zeros ds ≡ 0
    → skip_ones (text_of zeros ds) ≡ (zeros, map (λ d. get_or b58digits_ordered d 0) ds)
unfolding skip_ones leading_zeros
skip_ones-text_of zero [] all start = refl
skip_ones-text_of zero (d ∷ ds) all start =
    let other : d ≢ 0 = ground arith in rw ((digit-read d all.0).2 other) refl
skip_ones-text_of (suc n) ds all start =
    rw (skip_ones-text_of n ds all start) (ap₂ (λ a b. (a, b)) (omega arith) refl)

leading_zeros-append :
    (n : ℕ) (xs : List ℕ) → leading_zeros (replicate n 0 ++ xs) ≡ n + leading_zeros xs
unfolding leading_zeros
leading_zeros-append zero xs = omega arith
leading_zeros-append (suc n) xs = omega (arith, leading_zeros-append n xs)

-- For bytes, at most binsz of them, binsz being above 0, and a b58sz above n * 138 / 100 + 1 for n
-- bytes: b58enc makes a text, and says its length with the terminator; b58tobin reads it, gives the
-- number of the bytes, and leaves the bytes at the end of bin, with zeros before them. The text has
-- as many leading '1' as the bytes have leading zeros.
pub b58tobin-b58enc :
    (b58sz binsz : ℕ) (bytes : List ℕ)
    → AllBelow 256 bytes
    → 0 < binsz
    → length bytes ≤ binsz
    → length bytes * 138 / 100 + 1 < b58sz
    → (text : List ℕ) × (bin : List ℕ) × (b58enc b58sz bytes ≡ (some text, length text + 1))
      × (b58tobin binsz text ≡ some (bin, length bytes))
      × (bin ≡ replicate (binsz - length bytes) 0 ++ bytes)
      × ((skip_ones text).0 ≡ leading_zeros bytes)
b58tobin-b58enc b58sz binsz bytes all positive fits room =
    let (ds, small, canonical, number, encoded, short) = b58enc-text b58sz bytes all in
    let z = leading_zeros bytes in
    let text = text_of z ds in
    let n = length bytes in
    let size : length text ≡ z + length ds = length-text_of z ds in
    let enough : leb b58sz (z + length ds) ≡ false = ground arith in
    let parsed = skip_ones-text_of z ds small canonical in
    let weight = pow-le-pow_right {n = 256} (omega arith) fits in
    let (bin, read, same, long, bytes') =
      b58tobin-value binsz positive text ds (rw parsed (map-AreDigits ds small))
        (omega (arith, number, big_endian-lt 256 bytes all, weight)) in
    let padded = length-append (replicate (binsz - n) 0) bytes in
    let equal : bin ≡ replicate (binsz - n) 0 ++ bytes =
      big_endian-injective 256 bin (replicate (binsz - n) 0 ++ bytes)
        (omega (arith, long, padded, length-replicate {A = ℕ} (binsz - n) 0)) bytes'
        (AllBelow-append 256 (replicate (binsz - n) 0) bytes
          (replicate-AllBelow 256 (binsz - n) 0 (omega arith)) all)
        (same ∙ number ∙ sym (big_endian-zeros 256 (binsz - n) bytes)) in
    let count : binsz - leading_zeros bin + (skip_ones text).0 ≡ n = omega (
      arith,
      ap leading_zeros equal,
      leading_zeros-append (binsz - n) bytes,
      leading_zeros-le bytes,
      ap (λ (t : ℕ × List ℕ). t.0) parsed,
    ) in
    (
      text,
      bin,
      encoded ∙ rw (enough, size) refl,
      read ∙ ap (λ (t : ℕ). some (bin, t)) count,
      equal,
      ap (λ (t : ℕ × List ℕ). t.0) parsed,
    )
