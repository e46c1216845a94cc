-- ===== src/Base58/Words.antt =====
-- Words and digits as numbers, for ios/Classes/base58.c.
use flutter_sdk.Base.{
  ℕ, zero, suc, ◌+◌, ◌*◌, ◌/◌, ◌%◌, ◌^◌, ◌<◌, ◌≤◌, ◌≡◌, refl, arith, ap, ◌∙◌, sym,
}
use flutter_sdk.Base.{List, [], ◌∷◌, ◌++◌, length, AllBelow, reverse, u64, ◌>>>◌}
use flutter_sdk.Base.{bit_and, bit_and-parts, bit_and-ones, bit_and-zero, replicate}
use native.Mathlib.Nat.{pow-suc, pow-zero, mul-le-mul_right}
use mathlib.Core.List.{reverse-cons}
use flutter_sdk.Bignum.Bytes.Words.{big_endian, little_endian}
use flutter_sdk.Base58.{times58}

-- The number of digits put behind others.
pub big_endian-acc :
    (base acc : ℕ) (xs : List ℕ)
    → big_endian base acc xs ≡ acc * base ^ length xs + big_endian base 0 xs
unfolding big_endian
big_endian-acc base acc [] = omega (arith, ap (λ (t : ℕ). acc * t) (pow-zero base))
big_endian-acc base acc (x ∷ xs) =
    let start : 0 * base + x ≡ x = omega arith in
    omega (
      arith,
      big_endian-acc base (acc * base + x) xs,
      big_endian-acc base x xs,
      ap (λ (t : ℕ). big_endian base t xs) start,
      ap (λ (t : ℕ). acc * t) (pow-suc base (length xs)),
    )

pub big_endian-cons :
    (base x : ℕ) (xs : List ℕ)
    → big_endian base 0 (x ∷ xs) ≡ x * base ^ length xs + big_endian base 0 xs
unfolding big_endian
big_endian-cons base x xs =
    let start : 0 * base + x ≡ x = omega arith in
    ap (λ (t : ℕ). big_endian base t xs) start ∙ big_endian-acc base x xs

pub big_endian-append :
    (base acc : ℕ) (xs ys : List ℕ)
    → big_endian base acc (xs ++ ys) ≡ big_endian base (big_endian base acc xs) ys
unfolding big_endian
big_endian-append base acc [] ys = refl
big_endian-append base acc (x ∷ xs) ys = big_endian-append base (acc * base + x) xs ys

pub big_endian-lt :
    (base : ℕ) (xs : List ℕ) → AllBelow base xs → big_endian base 0 xs < base ^ length xs
unfolding big_endian
big_endian-lt base [] all = omega (arith, pow-zero base)
big_endian-lt base (x ∷ xs) all =
    let room : (x + 1) * base ^ length xs ≤ base * base ^ length xs =
      mul-le-mul_right (base ^ length xs) (omega arith) in
    omega (
      arith,
      big_endian-cons base x xs,
      big_endian-lt base xs all.1,
      pow-suc base (length xs),
      room,
    )

pub big_endian-zeros :
    (base n : ℕ) (xs : List ℕ) → big_endian base 0 (replicate n 0 ++ xs) ≡ big_endian base 0 xs
unfolding big_endian
big_endian-zeros base zero xs = refl
big_endian-zeros base (suc n) xs =
    big_endian-cons base 0 (replicate n 0 ++ xs) ∙ omega (arith, big_endian-zeros base n xs)

pub big_endian-reverse :
    (base : ℕ) (xs : List ℕ) → big_endian base 0 (reverse xs) ≡ little_endian base xs
unfolding big_endian little_endian
big_endian-reverse base [] = refl
big_endian-reverse base (x ∷ xs) =
    ap (big_endian base 0) (reverse-cons x xs)
    ∙ big_endian-append base 0 (reverse xs) (x ∷ [])
    ∙ omega (arith, ap (λ (t : ℕ). t * base) (big_endian-reverse base xs))

carry_mask : (t : ℕ) → t < 58 * 2 ^ 32 → bit_and t 0x3f00000000 ≡ t / 2 ^ 32 * 2 ^ 32
carry_mask t small =
    let q = t / 2 ^ 32 in
    let r = t % 2 ^ 32 in
    let parts = bit_and-parts 32 q 0x3f r 0 (omega arith) (omega arith) in
    let split : q * 2 ^ 32 + r ≡ t = omega arith in
    ap (λ (v : ℕ). bit_and v 0x3f00000000) (sym split)
    ∙ parts
    ∙ omega (arith, bit_and-ones 6 q, bit_and-zero r)

-- The carry and the words of one round.
pub times58-value :
    (c : ℕ) (ws : List ℕ)
    → c < 58
    → AllBelow (2 ^ 32) ws
    → (big_endian (2 ^ 32) (times58 c ws).0 (times58 c ws).1 ≡ big_endian (2 ^ 32) 0 ws * 58 + c)
      × ((times58 c ws).0 < 58)
      × AllBelow (2 ^ 32) (times58 c ws).1
      × (length (times58 c ws).1 ≡ length ws)
unfolding times58 big_endian
times58-value c [] small all = (omega arith, small, tt, refl)
times58-value c (w ∷ ws) small all =
    let (same, less, words, long) = times58-value c ws small all.1 in
    let low = times58 c ws in
    let t = u64 (u64 (w * 58) + low.0) in
    let whole : t ≡ w * 58 + low.0 = omega (arith, all.0, less) in
    let carry : bit_and t 0x3f00000000 >>> 32 ≡ t / 2 ^ 32 =
      omega (arith, carry_mask t (omega (arith, whole, all.0, less))) in
    let high = bit_and t 0x3f00000000 >>> 32 in
    let front : high * 2 ^ 32 + t % 2 ^ 32 ≡ w * 58 + low.0 = omega (arith, carry, whole) in
    (
      big_endian-acc (2 ^ 32) (high * 2 ^ 32 + t % 2 ^ 32) low.1
          ∙ omega (
            arith,
            ap (λ (v : ℕ). v * (2 ^ 32) ^ length low.1) front,
            big_endian-acc (2 ^ 32) low.0 low.1,
            same,
            big_endian-cons (2 ^ 32) w ws,
            ap (λ (v : ℕ). w * (2 ^ 32) ^ v) long,
          ),
      omega (arith, carry, whole, all.0, less),
      (omega arith, words),
      omega (arith, long),
    )
