-- ===== src/Base58/Canonical.antt =====
-- One text stands for one list of bytes (ios/Classes/base58.c).
use flutter_sdk.Base.{
  ℕ, zero, suc, ◌+◌, ◌*◌, ◌/◌, ◌^◌, ◌<◌, ◌≤◌, ◌≡◌, refl, arith, ap, ap₂, ◌∙◌, sym, List, [], ◌∷◌,
}
use flutter_sdk.Base.{
  ◌++◌, Option, none, some, Bool, true, false, not, ◌&&◌, ◌||◌, ◌==◌, length, AllBelow, replicate,
  drop,
}
use flutter_sdk.Base.{get_or, map, leb, try_all, try_all-lt, Bool-cases, inl, inr}
use native.Mathlib.Decide.{dec_lt}
use native.Mathlib.Nat.{pow-le-pow_right, mul-le-mul_right}
use flutter_sdk.Bignum.Bytes.Words.{big_endian}
use flutter_sdk.Base58.Words.{big_endian-cons, big_endian-lt}
use flutter_sdk.Base58.Mask.{AreDigits, digit-lt}
use flutter_sdk.Base58.RoundTrip.{big_endian-injective}
use flutter_sdk.Base58.Encode.{b58enc-text, text_of, length-text_of}
use flutter_sdk.Base58.{
  b58digits_map, b58digits_ordered, skip_ones, leading_zeros, zeros_differ, b58enc,
}

pub zeros_differ-ones :
    (bin text : List ℕ) → zeros_differ bin text ≡ false → (skip_ones text).0 ≡ leading_zeros bin
unfolding zeros_differ leading_zeros skip_ones
zeros_differ-ones [] [] same = refl
zeros_differ-ones [] (ch ∷ chs) same = ground arith
zeros_differ-ones (b ∷ bs) [] same = ground arith
zeros_differ-ones (b ∷ bs) (ch ∷ chs) same = ground (arith, zeros_differ-ones bs chs)

-- Every character that is read as a digit is the one that is written for it, and only '1' for 0.
writes : ℕ → Option ℕ → Bool
writes ch none = true
writes ch (some d) = get_or b58digits_ordered d 0 == ch && (ch == b'1' || not (d == 0))

char_table : try_all (λ ch. writes ch (get_or b58digits_map ch none)) 128 ≡ true
unfolding try_all b58digits_map writes
char_table = refl

char-written :
    (ch d : ℕ)
    → ch < 128
    → get_or b58digits_map ch none ≡ some d
    → (get_or b58digits_ordered d 0 ≡ ch) × ((ch == b'1') ≡ false → (d == 0) ≡ false)
unfolding writes
char-written ch d ascii here =
    let test : writes ch (some d) ≡ true =
      ap (writes ch) (sym here)
      ∙ try_all-lt (λ ch. writes ch (get_or b58digits_map ch none)) ascii char_table in
    (ground arith, λ other. ground arith)

pub AreDigits-map :
    (text ds : List ℕ) → AreDigits text ds → map (λ d. get_or b58digits_ordered d 0) ds ≡ text
AreDigits-map [] [] digits = refl
AreDigits-map [] (d ∷ ds) digits = elim digits [ ]
AreDigits-map (ch ∷ chs) [] digits = elim digits [ ]
AreDigits-map (ch ∷ chs) (d ∷ ds) digits =
    ap₂ ◌∷◌ (char-written ch d digits.0 digits.1).0 (AreDigits-map chs ds digits.2)

pub AreDigits-AllBelow : (text ds : List ℕ) → AreDigits text ds → AllBelow 58 ds
AreDigits-AllBelow [] [] digits = tt
AreDigits-AllBelow [] (d ∷ ds) digits = elim digits [ ]
AreDigits-AllBelow (ch ∷ chs) [] digits = tt
AreDigits-AllBelow (ch ∷ chs) (d ∷ ds) digits =
    (digit-lt ch d digits.0 digits.1, AreDigits-AllBelow chs ds digits.2)

first_digit :
    (ch : ℕ) (chs ds : List ℕ)
    → (ch == b'1') ≡ false
    → AreDigits (ch ∷ chs) ds
    → leading_zeros ds ≡ 0
unfolding leading_zeros
first_digit ch chs [] other all = elim all [ ]
first_digit ch chs (d ∷ ds) other all = rw ((char-written ch d all.0 all.1).1 other) refl

pub skip_ones-canonical :
    (text ds : List ℕ) → AreDigits (skip_ones text).1 ds → leading_zeros ds ≡ 0
unfolding skip_ones leading_zeros
skip_ones-canonical [] [] digits = refl
skip_ones-canonical [] (d ∷ ds) digits = elim digits [ ]
skip_ones-canonical (ch ∷ chs) ds digits = elim (Bool-cases (ch == b'1')) [
  | inl one ↦ skip_ones-canonical chs ds (rw one at digits)
  | inr other ↦ first_digit ch chs ds other (rw other at digits)
]

pub skip_ones-split :
    (text : List ℕ) → replicate (skip_ones text).0 b'1' ++ (skip_ones text).1 ≡ text
unfolding skip_ones
skip_ones-split [] = refl
skip_ones-split (ch ∷ chs) = elim (Bool-cases (ch == b'1')) [
  | inl one ↦
      let more : (skip_ones chs).0 + 1 ≡ suc (skip_ones chs).0 = omega arith in
      let first : b'1' ≡ ch = ground arith in rw (one, more) (ap₂ ◌∷◌ first (skip_ones-split chs))
  | inr other ↦ rw other refl
]

-- Digits without leading zeros are at least the power of their length.
canonical-le :
    (d : ℕ) (ds : List ℕ) → leading_zeros (d ∷ ds) ≡ 0 → 58 ^ length ds ≤ big_endian 58 0 (d ∷ ds)
unfolding leading_zeros
canonical-le d ds start =
    let some_digit : 1 ≤ d = ground arith in
    let weight : 1 * 58 ^ length ds ≤ d * 58 ^ length ds =
      mul-le-mul_right (58 ^ length ds) some_digit in
    omega (arith, big_endian-cons 58 d ds, weight)

canonical-length :
    (xs ys : List ℕ)
    → leading_zeros xs ≡ 0
    → AllBelow 58 ys
    → big_endian 58 0 xs ≡ big_endian 58 0 ys
    → length xs ≤ length ys
canonical-length [] ys start small same = omega arith
canonical-length (x ∷ xs) ys start small same = elim (dec_lt (length xs) (length ys)) [
  | yes less ↦ omega arith
  | no more ↦
      let fewer : length ys ≤ length xs = omega arith in
      let weight = pow-le-pow_right {n = 58} (omega arith) fewer in
      absurd (omega (arith, canonical-le x xs start, big_endian-lt 58 ys small, same, weight))
]

-- Digits without leading zeros are determined by their number.
pub canonical-injective :
    (xs ys : List ℕ)
    → AllBelow 58 xs
    → AllBelow 58 ys
    → leading_zeros xs ≡ 0
    → leading_zeros ys ≡ 0
    → big_endian 58 0 xs ≡ big_endian 58 0 ys
    → xs ≡ ys
canonical-injective xs ys h k start start' same =
    big_endian-injective 58 xs ys
      (omega
        (arith, canonical-length xs ys start k same, canonical-length ys xs start' h (sym same)))
      h k same

-- Dropping some of the leading zeros keeps the number.
pub drop_zeros-value :
    (base k : ℕ) (xs : List ℕ)
    → k ≤ leading_zeros xs
    → big_endian base 0 (drop k xs) ≡ big_endian base 0 xs
unfolding leading_zeros
drop_zeros-value base zero xs fits = refl
drop_zeros-value base (suc k) [] fits = refl
drop_zeros-value base (suc k) (x ∷ xs) fits =
    let first : x ≡ 0 = ground arith in
    drop_zeros-value base k xs (ground arith)
    ∙ omega (arith, big_endian-cons base x xs, ap (λ (t : ℕ). t * base ^ length xs) first)

-- The text of the bytes that have the same leading zeros and stand for the same number.
pub b58enc-canonical :
    (b58sz : ℕ) (bytes text ds : List ℕ)
    → AllBelow 256 bytes
    → AreDigits (skip_ones text).1 ds
    → (skip_ones text).0 ≡ leading_zeros bytes
    → big_endian 256 0 bytes ≡ big_endian 58 0 ds
    → length bytes * 138 / 100 + 1 < b58sz
    → b58enc b58sz bytes ≡ (some text, length text + 1)
b58enc-canonical b58sz bytes text ds all digits ones number room =
    let (ds', small, start, number', made, short) = b58enc-text b58sz bytes all in
    let z = leading_zeros bytes in
    let same : ds' ≡ ds =
      canonical-injective ds' ds small (AreDigits-AllBelow (skip_ones text).1 ds digits) start
        (skip_ones-canonical text ds digits) (number' ∙ number) in
    let enough : leb b58sz (z + length ds') ≡ false = ground arith in
    let text' : text_of z ds' ≡ text =
      ap₂ text_of (sym ones) same
      ∙ ap (λ t. replicate (skip_ones text).0 b'1' ++ t)
          (AreDigits-map (skip_ones text).1 ds digits)
      ∙ skip_ones-split text in
    let size : z + length ds' ≡ length text = sym (length-text_of z ds') ∙ ap length text' in
    made ∙ rw (enough, text', size) refl
