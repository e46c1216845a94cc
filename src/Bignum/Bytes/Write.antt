-- ===== src/Bignum/Bytes/Write.antt =====
-- bn_write_be and bn_write_le write the bytes that stand for the number.
use flutter_sdk.Base.{ℕ, zero, suc, ◌+◌, ◌-◌, ◌*◌, ◌/◌, ◌%◌, ◌^◌, ◌≤◌, ◌<◌, ◌≡◌, refl, ap, arith}
use flutter_sdk.Base.{List, [], ◌∷◌, ◌++◌, length, AllBelow, bit_or, u32, get_or, ◌∙◌, sym}
use flutter_sdk.Base.{get_or-AllBelow, length-append}
use flutter_sdk.Base.{drop, length-drop}
use flutter_sdk.Bignum.Reduce.Loop.{value-split}
use flutter_sdk.Base.{AllBelow-append}
use flutter_sdk.Bignum.Limbs.{value-drop, value-nil, weight}
use flutter_sdk.Bignum.Limbs.{Bignum256, value, IsNormalized}
use flutter_sdk.Bignum.Bytes.{write_be, write_le, write_loop, write_words, bytes_be, bytes_le}
use flutter_sdk.Bignum.Bytes.{bn_write_be, bn_write_le}
use flutter_sdk.Bignum.Bytes.Words.{big_endian, little_endian, or_field}
use native.Mathlib.Nat.{one-le-pow, mul-le-mul_left, mod-lt, lt_of_mul-lt-mul_left}

-- Limbs i, i + 1, .. behind acc, the first highest.
limbs_after : (ℕ → ℕ) → ℕ → ℕ → ℕ → ℕ
limbs_after limb acc i zero = acc
limbs_after limb acc i (suc n) = limbs_after limb (acc * 2 ^ 30 + limb i) (i + 1) n

-- The shifts of round i.
powers :
    (i : ℕ)
    → i < 8
    → (2 ^ (14 - 2 * i) * 2 ^ (16 + 2 * i) ≡ 2 ^ 30)
      × (2 ^ (14 - 2 * i) * 2 ^ (18 + 2 * i) ≡ 2 ^ 32)
      × (2 ^ (16 - 2 * i) ≡ 4 * 2 ^ (14 - 2 * i))
powers zero h = (refl, refl, refl)
powers (suc zero) h = (refl, refl, refl)
powers (suc (suc zero)) h = (refl, refl, refl)
powers (suc (suc (suc zero))) h = (refl, refl, refl)
powers (suc (suc (suc (suc zero)))) h = (refl, refl, refl)
powers (suc (suc (suc (suc (suc zero))))) h = (refl, refl, refl)
powers (suc (suc (suc (suc (suc (suc zero)))))) h = (refl, refl, refl)
powers (suc (suc (suc (suc (suc (suc (suc zero))))))) h = (refl, refl, refl)
powers (suc (suc (suc (suc (suc (suc (suc (suc i)))))))) h = absurd (omega arith)

-- Round i writes the high part of a limb l, of 16 + 2 i bits, behind the rest that the round before
-- has left, and leaves the low part, at the top of a word.
round_value :
    (i rest l : ℕ)
    → i < 8
    → rest < 2 ^ (16 - 2 * i)
    → l < 2 ^ 30
    → (bit_or (rest * 2 ^ (16 + 2 * i)) (l / 2 ^ (14 - 2 * i))
        ≡ rest * 2 ^ (16 + 2 * i) + l / 2 ^ (14 - 2 * i))
      × (rest * 2 ^ (16 + 2 * i) + l / 2 ^ (14 - 2 * i) < 2 ^ 32)
      × (u32 (l * 2 ^ (18 + 2 * i)) ≡ l % 2 ^ (14 - 2 * i) * 2 ^ (18 + 2 * i))
round_value i rest l hi hr hl =
    let q = 2 ^ (14 - 2 * i) in
    let p = 2 ^ (16 + 2 * i) in
    let pos : 0 < q = one-le-pow (14 - 2 * i) 2 (omega arith) in
    let (e, f, g) = powers i hi in
    let rem : l % q + 1 ≤ q = omega (arith, mod-lt l pos) in
    let split : l ≡ q * (l / q) + l % q = omega arith in
    let high : l / q < p = lt_of_mul-lt-mul_left q (omega (arith, split, e, hl)) in
    let whole = ap (λ (t : ℕ). t * 2 ^ (18 + 2 * i)) split in
    let carried = ap (λ (t : ℕ). t * (l / q)) f in
    let low : 2 ^ (18 + 2 * i) * (l % q + 1) ≤ 2 ^ (18 + 2 * i) * q =
      mul-le-mul_left (2 ^ (18 + 2 * i)) rem in
    let most : p * (rest + 1) ≤ p * (4 * q) = mul-le-mul_left p (omega (arith, g)) in
    let pos18 : 0 < 2 ^ (18 + 2 * i) = one-le-pow (18 + 2 * i) 2 (omega arith) in
    (
      or_field (16 + 2 * i) rest (rest * p) (l / q) refl high,
      omega (arith, most, e, high),
      omega (arith, whole, carried, low, f, pos18),
    )

-- The words stand for the limbs, where the top has `rest` bits left.
write_loop-value :
    (limb : ℕ → ℕ) (i hi rest n : ℕ)
    → ((m : ℕ) → limb m < 2 ^ 30)
    → i + n ≡ 8
    → rest < 2 ^ (16 - 2 * i)
    → (big_endian (2 ^ 32) hi (write_loop limb i (rest * 2 ^ (16 + 2 * i)) n)
        ≡ limbs_after limb (hi * 2 ^ (16 - 2 * i) + rest) i n)
      × AllBelow (2 ^ 32) (write_loop limb i (rest * 2 ^ (16 + 2 * i)) n)
      × (length (write_loop limb i (rest * 2 ^ (16 + 2 * i)) n) ≡ n)
unfolding write_loop limbs_after big_endian
write_loop-value limb i hi rest zero h e hr =
    let last : i ≡ 8 = omega arith in
    let none_left : rest < 1 = rw last at hr in (rw last (omega arith), tt, refl)
write_loop-value limb i hi rest (suc n) h e hr =
    let l = limb i in
    let q = 2 ^ (14 - 2 * i) in
    let r = round_value i rest l (omega arith) hr (h i) in
    let (e30, e32, four) = powers i (omega arith) in
    let next_power : 2 ^ (16 - 2 * (i + 1)) ≡ q = ap (λ (t : ℕ). 2 ^ t) (omega arith) in
    let next_shift : 2 ^ (16 + 2 * (i + 1)) ≡ 2 ^ (18 + 2 * i) =
      ap (λ (t : ℕ). 2 ^ t) (omega arith) in
    let pos : 0 < q = one-le-pow (14 - 2 * i) 2 (omega arith) in
    let small : l % q < 2 ^ (16 - 2 * (i + 1)) = omega (arith, mod-lt l pos, next_power) in
    let w = rest * 2 ^ (16 + 2 * i) + l / q in
    let ih = write_loop-value limb (i + 1) (hi * 2 ^ 32 + w) (l % q) n h (omega arith) small in
    let left : l % q * 2 ^ (16 + 2 * (i + 1)) ≡ u32 (l * 2 ^ (18 + 2 * i)) =
      ap (λ (t : ℕ). l % q * t) next_shift ∙ sym r.2 in
    let number : (hi * 2 ^ 32 + w) * 2 ^ (16 - 2 * (i + 1)) + l % q
        ≡ (hi * 2 ^ (16 - 2 * i) + rest) * 2 ^ 30 + l =
      omega (
        arith,
        ap (λ (t : ℕ). (hi * 2 ^ 32 + w) * t) next_power,
        ap (λ (t : ℕ). t * rest) e30,
        ap (λ (t : ℕ). hi * t) four,
      ) in
    let tail = rw (left, number) at ih in rw r.0 (tail.0, (r.1, tail.1), ap suc tail.2)

-- A number above the last digit.
little_onto : List ℕ → ℕ → ℕ
little_onto [] top = top
little_onto (x ∷ xs) top = x + 256 * little_onto xs top

little_onto-append :
    (xs ys : List ℕ) (top : ℕ) → little_onto (xs ++ ys) top ≡ little_onto xs (little_onto ys top)
unfolding little_onto
little_onto-append [] ys top = refl
little_onto-append (x ∷ xs) ys top = ap (λ (t : ℕ). x + 256 * t) (little_onto-append xs ys top)

little_onto-zero : (xs : List ℕ) → little_onto xs 0 ≡ little_endian 256 xs
unfolding little_onto little_endian
little_onto-zero [] = refl
little_onto-zero (x ∷ xs) = ap (λ (t : ℕ). x + 256 * t) (little_onto-zero xs)

-- Bytes of words, in either order, stand for what the words stand for.
bytes_be-value :
    (acc : ℕ) (ws : List ℕ)
    → AllBelow (2 ^ 32) ws
    → (big_endian 256 acc (bytes_be ws) ≡ big_endian (2 ^ 32) acc ws)
      × (length (bytes_be ws) ≡ 4 * length ws)
      × AllBelow 256 (bytes_be ws)
unfolding bytes_be write_be big_endian
bytes_be-value acc [] h = (refl, omega arith, tt)
bytes_be-value acc (w ∷ ws) h =
    let ih = bytes_be-value (acc * 2 ^ 32 + w) ws h.1 in
    (
      ap (λ (t : ℕ). big_endian 256 t (bytes_be ws)) (omega arith) ∙ ih.0,
      omega (arith, ih.1),
      (omega arith, (omega arith, (omega arith, (omega arith, ih.2)))),
    )

bytes_le-value :
    (acc : ℕ) (ws : List ℕ)
    → AllBelow (2 ^ 32) ws
    → (little_onto (bytes_le ws) acc ≡ big_endian (2 ^ 32) acc ws)
      × (length (bytes_le ws) ≡ 4 * length ws)
      × AllBelow 256 (bytes_le ws)
unfolding bytes_le write_le big_endian little_onto
bytes_le-value acc [] h = (refl, omega arith, tt)
bytes_le-value acc (w ∷ ws) h =
    let ih = bytes_le-value (acc * 2 ^ 32 + w) ws h.1 in
    (
      little_onto-append (bytes_le ws) (write_le w) acc
          ∙ ap (little_onto (bytes_le ws)) (omega arith)
          ∙ ih.0,
      omega (arith, length-append {0} (bytes_le ws) (write_le w), ih.1),
      AllBelow-append 256 (bytes_le ws) (write_le w) ih.2 (omega arith),
    )

limbs_after-value :
    (x : Bignum256)
    → length x ≡ 9
    → limbs_after (λ i. get_or x (7 - i) 0) (get_or x 8 0) 0 8 ≡ value x
unfolding limbs_after
limbs_after-value x e = omega (
  arith,
  value-drop 0 x (omega arith),
  value-drop 1 x (omega arith),
  value-drop 2 x (omega arith),
  value-drop 3 x (omega arith),
  value-drop 4 x (omega arith),
  value-drop 5 x (omega arith),
  value-drop 6 x (omega arith),
  value-drop 7 x (omega arith),
  value-drop 8 x (omega arith),
  value-nil (drop 9 x) (omega (arith, length-drop {0} 9 x)),
)

-- The words of a number that fits 256 bits, highest first.
write_words-value :
    {x : Bignum256}
    → IsNormalized x
    → value x < 2 ^ 256
    → (big_endian (2 ^ 32) 0 (write_words x) ≡ value x)
      × AllBelow (2 ^ 32) (write_words x)
      × (length (write_words x) ≡ 8)
unfolding write_words weight
write_words-value {x} n small =
    let top = get_or x 8 0 in
    let split = value-split 8 x n.size in
    let limb = λ (i : ℕ). get_or x (7 - i) 0 in
    let fits : top * 2 ^ 16 ≡ u32 (top * 2 ^ 16) = omega (arith, split) in
    let l =
      write_loop-value limb 0 0 top 8
        (λ i. get_or-AllBelow (2 ^ 30) (7 - i) x (omega arith) n.digits) refl
        (omega (arith, split)) in
    let r = rw fits at l in
    (
      r.0 ∙ ap (λ (t : ℕ). limbs_after limb t 0 8) (omega arith) ∙ limbs_after-value x n.size,
      r.1,
      r.2,
    )

-- From a normalized bignum below 2^256, bn_write_be writes 32 bytes that stand for it from the
-- highest.
pub bn_write_be-value :
    {x : Bignum256}
    → IsNormalized x
    → value x < 2 ^ 256
    → (big_endian 256 0 (bn_write_be x) ≡ value x)
      × (length (bn_write_be x) ≡ 32)
      × AllBelow 256 (bn_write_be x)
unfolding bn_write_be
bn_write_be-value {x} n small =
    let w = write_words-value n small in
    let b = bytes_be-value 0 (write_words x) w.1 in (b.0 ∙ w.0, omega (arith, b.1, w.2), b.2)

-- From a normalized bignum below 2^256, bn_write_le writes 32 bytes that stand for it from the
-- lowest.
pub bn_write_le-value :
    {x : Bignum256}
    → IsNormalized x
    → value x < 2 ^ 256
    → (little_endian 256 (bn_write_le x) ≡ value x)
      × (length (bn_write_le x) ≡ 32)
      × AllBelow 256 (bn_write_le x)
unfolding bn_write_le
bn_write_le-value {x} n small =
    let w = write_words-value n small in
    let b = bytes_le-value 0 (write_words x) w.1 in
    (sym (little_onto-zero (bn_write_le x)) ∙ b.0 ∙ w.0, omega (arith, b.1, w.2), b.2)
