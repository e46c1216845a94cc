-- ===== src/Base58/Zeros.antt =====
-- Leading zeros, and lists from their end, for ios/Classes/base58.c.
use flutter_sdk.Base.{ℕ, suc, ◌+◌, ◌<◌, ◌≡◌, refl, arith, ap, ap₂, ◌∙◌, sym, List, [], ◌∷◌, ◌++◌}
use flutter_sdk.Base.{length, length-append, AllBelow, AllBelow-append, replicate, drop, reverse}
use flutter_sdk.Base.{Bool-cases, inl, inr, ◌==◌, length-replicate}
use mathlib.Core.List.{reverse-cons}
use flutter_sdk.Bignum.Bytes.Words.{big_endian}
use flutter_sdk.Base58.Words.{big_endian-zeros}
use flutter_sdk.Base58.{leading_zeros}

pub length-reverse : (xs : List ℕ) → length (reverse xs) ≡ length xs
length-reverse [] = refl
length-reverse (x ∷ xs) =
    ap length (reverse-cons x xs)
    ∙ length-append (reverse xs) (x ∷ [])
    ∙ omega (arith, length-reverse xs)

pub reverse-AllBelow : (b : ℕ) (xs : List ℕ) → AllBelow b xs → AllBelow b (reverse xs)
reverse-AllBelow b [] all = tt
reverse-AllBelow b (x ∷ xs) all =
    rw (reverse-cons x xs)
      (AllBelow-append b (reverse xs) (x ∷ []) (reverse-AllBelow b xs all.1) (all.0, tt))

-- A list is its leading zeros and a rest that has none.
pub leading_zeros-split :
    (xs : List ℕ)
    → (xs ≡ replicate (leading_zeros xs) 0 ++ drop (leading_zeros xs) xs)
      × (leading_zeros (drop (leading_zeros xs) xs) ≡ 0)
unfolding leading_zeros
leading_zeros-split [] = (refl, refl)
leading_zeros-split (x ∷ xs) = elim (Bool-cases (x == 0)) [
  | inl zero_here ↦
      let n = leading_zeros xs in
      let (split, none_left) = leading_zeros-split xs in
      let first : x ≡ 0 = ground arith in
      let more : n + 1 ≡ suc n = omega arith in
      rw (zero_here, more) (ap₂ ◌∷◌ first split, none_left)
  | inr other ↦ rw other (refl, rw other refl)
]

pub leading_zeros-value :
    (base : ℕ) (xs : List ℕ) → big_endian base 0 (drop (leading_zeros xs) xs) ≡ big_endian base 0 xs
leading_zeros-value base xs = sym (
    ap (big_endian base 0) (leading_zeros-split xs).0
    ∙ big_endian-zeros base (leading_zeros xs) (drop (leading_zeros xs) xs))

pub leading_zeros-le :
    (xs : List ℕ) → length (drop (leading_zeros xs) xs) + leading_zeros xs ≡ length xs
leading_zeros-le xs =
    let n = leading_zeros xs in
    let rest = drop n xs in
    omega (
      arith,
      ap length (leading_zeros-split xs).0,
      length-append (replicate n 0) rest,
      length-replicate {A = ℕ} n 0,
    )

-- A byte other than 0 behind or in front ends the leading zeros.
pub leading_zeros-behind :
    (xs ys : List ℕ) → leading_zeros ys < length ys → leading_zeros (xs ++ ys) < length (xs ++ ys)
unfolding leading_zeros
leading_zeros-behind [] ys other = other
leading_zeros-behind (x ∷ xs) ys other = ground (arith, leading_zeros-behind xs ys other)

pub leading_zeros-front :
    (xs ys : List ℕ) → leading_zeros xs < length xs → leading_zeros (xs ++ ys) < length (xs ++ ys)
unfolding leading_zeros
leading_zeros-front [] ys other = absurd (omega arith)
leading_zeros-front (x ∷ xs) ys other =
    ground (arith, leading_zeros-front xs ys, length-append xs ys)
