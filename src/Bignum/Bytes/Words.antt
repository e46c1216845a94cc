-- ===== src/Bignum/Bytes/Words.antt =====
-- Words and bytes as numbers.
use flutter_sdk.Base.{ℕ, ◌+◌, ◌*◌, ◌/◌, ◌%◌, ◌^◌, ◌<◌, ◌≡◌, refl, arith}
use flutter_sdk.Base.{List, [], ◌∷◌, AllBelow, bit_or, u32, ◌∙◌}
use flutter_sdk.Base.{bit_or-high_low, bit_or-low_high}
use flutter_sdk.Bignum.Limbs.{value, IsNormalized}
use flutter_sdk.Bignum.Bytes.{read_be, write_be, read_le, write_le}
use flutter_sdk.Bignum.Bytes.{bn_read_uint32, bn_read_uint64, bn_write_uint32, bn_write_uint64}

-- The number that big-endian digits of `base` stand for, and little-endian ones.
unfoldable pub big_endian : ℕ → ℕ → List ℕ → ℕ
big_endian base acc [] = acc
big_endian base acc (x ∷ xs) = big_endian base (acc * base + x) xs

unfoldable pub little_endian : ℕ → List ℕ → ℕ
little_endian base [] = 0
little_endian base (x ∷ xs) = x + base * little_endian base xs

-- `|` of a number w that is a multiple of 2 ^ k, and of k bits.
pub or_field : (k q w r : ℕ) → w ≡ q * 2 ^ k → r < 2 ^ k → bit_or w r ≡ q * 2 ^ k + r
or_field k q w r e h = rw e (bit_or-high_low k q r h)

pub or_field_low : (k q w r : ℕ) → w ≡ q * 2 ^ k → r < 2 ^ k → bit_or r w ≡ q * 2 ^ k + r
or_field_low k q w r e h = rw e (bit_or-low_high k q r h)

four_fields :
    (a b c d : ℕ)
    → a < 256
    → b < 256
    → c < 256
    → d < 256
    → bit_or (bit_or (bit_or (u32 (a * 2 ^ 24)) (u32 (b * 2 ^ 16))) (u32 (c * 2 ^ 8))) d
      ≡ ((a * 256 + b) * 256 + c) * 256 + d
four_fields a b c d ha hb hc hd =
    let ab = bit_or (u32 (a * 2 ^ 24)) (u32 (b * 2 ^ 16)) in
    let abc = bit_or ab (u32 (c * 2 ^ 8)) in
    let e1 : ab ≡ a * 2 ^ 24 + u32 (b * 2 ^ 16) =
      or_field 24 a (u32 (a * 2 ^ 24)) (u32 (b * 2 ^ 16)) (omega arith) (omega arith) in
    let e2 : abc ≡ (a * 256 + b) * 2 ^ 16 + u32 (c * 2 ^ 8) =
      or_field 16 (a * 256 + b) ab (u32 (c * 2 ^ 8)) (omega (arith, e1)) (omega arith) in
    let e3 = or_field 8 ((a * 256 + b) * 256 + c) abc d (omega (arith, e2)) (omega arith) in
    omega (arith, e3)

pub read_be-value :
    (a b c d : ℕ) (xs : List ℕ)
    → AllBelow 256 (a ∷ b ∷ c ∷ d ∷ xs)
    → read_be (a ∷ b ∷ c ∷ d ∷ xs) ≡ ((a * 256 + b) * 256 + c) * 256 + d
unfolding read_be
read_be-value a b c d xs (ha, (hb, (hc, (hd, _)))) = four_fields a b c d ha hb hc hd

pub read_le-value :
    (a b c d : ℕ) (xs : List ℕ)
    → AllBelow 256 (a ∷ b ∷ c ∷ d ∷ xs)
    → read_le (a ∷ b ∷ c ∷ d ∷ xs) ≡ ((d * 256 + c) * 256 + b) * 256 + a
unfolding read_le
read_le-value a b c d xs (ha, (hb, (hc, (hd, _)))) = four_fields d c b a hd hc hb ha

-- Reading gives back the word that was written, in either order.
pub read_be-write_be : (x : ℕ) → x < 2 ^ 32 → read_be (write_be x) ≡ x
unfolding write_be
read_be-write_be x h =
    read_be-value (x / 2 ^ 24 % 2 ^ 8) (x / 2 ^ 16 % 2 ^ 8) (x / 2 ^ 8 % 2 ^ 8) (x % 2 ^ 8) []
      (omega arith)
    ∙ omega arith

pub read_le-write_le : (x : ℕ) → x < 2 ^ 32 → read_le (write_le x) ≡ x
unfolding write_le
read_le-write_le x h =
    read_le-value (x % 2 ^ 8) (x / 2 ^ 8 % 2 ^ 8) (x / 2 ^ 16 % 2 ^ 8) (x / 2 ^ 24 % 2 ^ 8) []
      (omega arith)
    ∙ omega arith

-- bn_read_uint32 gives a normalized bignum of the same value, and bn_write_uint32 gives the word
-- back.
pub bn_read_uint32-value :
    (x : ℕ)
    → x < 2 ^ 32
    → IsNormalized (bn_read_uint32 x)
      × (value (bn_read_uint32 x) ≡ x)
      × (bn_write_uint32 (bn_read_uint32 x) ≡ x)
unfolding bn_read_uint32 bn_write_uint32 value
bn_read_uint32-value x h =
    let low =
      or_field_low 30 (x / 2 ^ 30) (u32 (x / 2 ^ 30 * 2 ^ 30)) (x % 2 ^ 30) (omega arith)
        (omega arith) in
    (record { size = refl; digits = omega arith }, omega arith, omega (arith, low))

-- The same for 64 bits.
pub bn_read_uint64-value :
    (x : ℕ)
    → x < 2 ^ 64
    → IsNormalized (bn_read_uint64 x)
      × (value (bn_read_uint64 x) ≡ x)
      × (bn_write_uint64 (bn_read_uint64 x) ≡ x)
unfolding bn_read_uint64 bn_write_uint64 value
bn_read_uint64-value x h =
    let limb1 = x / 2 ^ 30 % 2 ^ 30 in
    let limb2 = x / 2 ^ 30 / 2 ^ 30 % 2 ^ 30 in
    let high = bit_or (limb2 * 2 ^ 30 % 2 ^ 64) limb1 in
    let e1 = or_field 30 limb2 (limb2 * 2 ^ 30 % 2 ^ 64) limb1 (omega arith) (omega arith) in
    let e2 =
      or_field 30 high (high * 2 ^ 30 % 2 ^ 64) (x % 2 ^ 30) (omega (arith, e1)) (omega arith) in
    (record { size = refl; digits = omega arith }, omega arith, omega (arith, e1, e2))
