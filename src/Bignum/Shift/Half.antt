-- ===== src/Bignum/Shift/Half.antt =====
-- bn_mult_half halves x, or x + prime where x is odd.
use flutter_sdk.Base.{ℕ, zero, suc, refl, ◌+◌, ◌*◌, ◌/◌, ◌%◌, ◌^◌, ◌≤◌, ◌<◌, ◌≡◌, arith}
use flutter_sdk.Base.{List, [], ◌∷◌, length, AllBelow, bit_and, sub32}
use flutter_sdk.Base.{bit_and-ones, bit_and-minus_flag}
use flutter_sdk.Bignum.Limbs.{value_lt, Bignum256, IsNormalized, value, weight}
use flutter_sdk.Bignum.Shift.{bn_mult_half, half_loop}

-- The mask of bn_mult_half for o = 1 and o = 0.
abbrev mask : ℕ → ℕ
mask o = sub32 0 o

-- The sum of a round, without bit operations.
abbrev sum_of : ℕ → ℕ → ℕ → ℕ → ℕ
sum_of o tmp1 x p = (tmp1 + bit_and ((x + bit_and p (mask o)) % 2 ^ 32) 1 * 2 ^ 29) % 2 ^ 32

abbrev next_tmp1 : ℕ → ℕ → ℕ → ℕ → ℕ
next_tmp1 o tmp1 x p =
    (sum_of o tmp1 x p / 2 ^ 30 + (x + bit_and p (mask o)) % 2 ^ 32 / 2 ^ 1) % 2 ^ 32

round_value :
    (o tmp1 x p : ℕ)
    → o ≤ 1
    → tmp1 < 2 ^ 31
    → x < 2 ^ 30
    → p < 2 ^ 30
    → (2 * (sum_of o tmp1 x p % 2 ^ 30) + 2 ^ 31 * next_tmp1 o tmp1 x p
        ≡ 2 * tmp1 + 2 ^ 30 * (x + o * p))
      × (next_tmp1 o tmp1 x p < 2 ^ 31)
round_value o tmp1 x p ho ht hx hp =
    let masked = bit_and-minus_flag p o (omega arith) ho in
    let low = bit_and-ones 1 ((x + bit_and p (mask o)) % 2 ^ 32) in
    let small : o * p ≤ p = grind arith in (omega (arith, masked, low), omega (arith, masked, low))

half_loop-value :
    (o tmp1 : ℕ) (xs ps : List ℕ)
    → o ≤ 1
    → tmp1 < 2 ^ 31
    → length xs ≡ length ps
    → AllBelow (2 ^ 30) xs
    → AllBelow (2 ^ 30) ps
    → (2 * value (half_loop (mask o) tmp1 xs ps) ≡ 2 * tmp1 + 2 ^ 30 * (value xs + o * value ps))
      × (length (half_loop (mask o) tmp1 xs ps) ≡ length xs + 1)
unfolding half_loop value
half_loop-value o tmp1 [] [] ho ht e h k = omega arith
half_loop-value o tmp1 [] (p ∷ ps) ho ht e h k = absurd (omega arith)
half_loop-value o tmp1 (x ∷ xs) [] ho ht e h k = absurd (omega arith)
half_loop-value o tmp1 (x ∷ xs) (p ∷ ps) ho ht e h k =
    let r = round_value o tmp1 x p ho ht h.0 k.0 in
    let ih = half_loop-value o (next_tmp1 o tmp1 x p) xs ps ho r.1 (omega arith) h.1 k.1 in
    (omega (arith, r.0, ih.0), omega (arith, ih.1))

-- All limbs but the last are masked, so a value that fits is normalized.
half_loop-digits :
    (m : ℕ) (xs ps : List ℕ) (tmp1 : ℕ)
    → value (half_loop m tmp1 xs ps) < weight (length (half_loop m tmp1 xs ps))
    → AllBelow (2 ^ 30) (half_loop m tmp1 xs ps)
unfolding half_loop value weight
half_loop-digits m [] ps tmp1 h = (omega arith, tt)
half_loop-digits m (x ∷ xs) [] tmp1 h = (omega arith, tt)
half_loop-digits m (x ∷ xs) (p ∷ ps) tmp1 h =
    (omega arith, half_loop-digits m xs ps _ (omega arith))

head_odd : (x : ℕ) (xs : List ℕ) → bit_and x 1 ≡ value (x ∷ xs) % 2
unfolding value
head_odd x xs = omega (arith, bit_and-ones 1 x)

even_sum : (o x p : ℕ) → o ≤ 1 → o ≡ x % 2 → p % 2 ≡ 1 → (x + o * p) % 2 ≡ 0
even_sum zero x p h e k = omega arith
even_sum (suc zero) x p h e k = omega arith
even_sum (suc (suc o)) x p h e k = absurd (omega arith)

halves :
    (o x p : ℕ) (xs ps : List ℕ)
    → o ≤ 1
    → o ≡ value (x ∷ xs) % 2
    → IsNormalized (x ∷ xs)
    → IsNormalized (p ∷ ps)
    → value (p ∷ ps) < 2 ^ 256
    → value (p ∷ ps) % 2 ≡ 1
    → let r = half_loop (mask o) ((x + bit_and p (mask o)) % 2 ^ 32 / 2 ^ 1) xs ps in
      IsNormalized r × (2 * value r ≡ value (x ∷ xs) + o * value (p ∷ ps))
unfolding value weight
halves o x p xs ps ho e n m small odd =
    let masked = bit_and-minus_flag p o (omega (arith, m.digits.0)) ho in
    let same : length xs ≡ length ps = omega (arith, n.size, m.size) in
    let most : o * p ≤ p = grind arith in
    let tmp1 = (x + bit_and p (mask o)) % 2 ^ 32 / 2 ^ 1 in
    let l =
      half_loop-value o tmp1 xs ps ho (omega (arith, masked, n.digits.0, m.digits.0)) same
        n.digits.1 m.digits.1 in
    let twice = even_sum o x p ho (omega arith) (omega arith) in
    let most_value : o * value (p ∷ ps) ≤ value (p ∷ ps) = grind arith in
    let r = half_loop (mask o) tmp1 xs ps in
    let equation : 2 * value r ≡ value (x ∷ xs) + o * value (p ∷ ps) =
      omega (arith, masked, twice, l.0, n.digits.0, m.digits.0) in
    let size : length r ≡ 9 = omega (arith, l.1, n.size) in
    let fits : value r < weight (length r) =
      rw size (omega (arith, equation, most_value, value_lt n)) in
    (record { size = size; digits = half_loop-digits (mask o) xs ps tmp1 fits }, equation)

-- For a normalized x and an odd normalized prime below 2^256, bn_mult_half returns a normalized
-- bignum: half of x, or half of x + prime where x is odd.
pub bn_mult_half-value :
    (x prime : Bignum256)
    → IsNormalized x
    → IsNormalized prime
    → value prime < 2 ^ 256
    → value prime % 2 ≡ 1
    → IsNormalized (bn_mult_half x prime)
      × (2 * value (bn_mult_half x prime) ≡ value x + value x % 2 * value prime)
unfolding bn_mult_half
bn_mult_half-value [] prime n m small odd = absurd (omega (arith, n.size))
bn_mult_half-value (x ∷ xs) [] n m small odd = absurd (omega (arith, m.size))
bn_mult_half-value (x ∷ xs) (p ∷ ps) n m small odd =
    let o = value (x ∷ xs) % 2 in
    let h = halves o x p xs ps (omega arith) refl n m small odd in rw (head_odd x xs) h
