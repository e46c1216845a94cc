-- ===== src/Curve/Negate.antt =====
-- conditional_negate of ios/Classes/ecdsa.c.
use flutter_sdk.Base.{ℕ, ◌+◌, ◌*◌, ◌%◌, ◌^◌, ◌≤◌, ◌≡◌, refl, arith, ap, ap₂, ◌∙◌, List, [], ◌∷◌}
use flutter_sdk.Base.{
  length, AllBelow, replicate, bit_and, bit_and-ones, bit_and-zero, replicate-AllBelow, bit_or-zero,
  zero-bit_or, sub32, ◌>>>◌,
}
use flutter_sdk.Bignum.Limbs.{Bignum256, value, IsNormalized, IsNormalized-IsBignum, IsModulus}
use flutter_sdk.Bignum.Compare.{bn_zero}
use flutter_sdk.Bignum.Add.{subtractmod_loop, bn_subtractmod}
use flutter_sdk.Bignum.Add.Value.{bn_subtractmod-value}
use flutter_sdk.Curve.{negate_loop, conditional_negate}

keep_loop :
    (tmp : ℕ) (xs ps : List ℕ)
    → length xs ≡ length ps
    → AllBelow (2 ^ 32) xs
    → negate_loop 0 tmp xs ps ≡ xs
unfolding negate_loop
keep_loop tmp [] ps e h = refl
keep_loop tmp (x ∷ xs) [] e h = absurd (omega arith)
keep_loop tmp (x ∷ xs) (p ∷ ps) e h =
    let low : bit_and x 0xffffffff ≡ x = omega (arith, bit_and-ones 32 x, h.0) in
    ap₂ ◌∷◌ (rw (bit_and-zero, low, zero-bit_or))
      (keep_loop (sub32 (tmp + 0x3fffffff + 2 * p) x >>> 30) xs ps (omega arith) h.1)

negate_loop-subtractmod :
    (tmp : ℕ) (xs ps : List ℕ)
    → length xs ≡ length ps
    → negate_loop 0xffffffff tmp xs ps ≡ (subtractmod_loop tmp (replicate (length xs) 0) xs ps).0
unfolding negate_loop subtractmod_loop
negate_loop-subtractmod tmp [] ps e = refl
negate_loop-subtractmod tmp (x ∷ xs) [] e = absurd (omega arith)
negate_loop-subtractmod tmp (x ∷ xs) (p ∷ ps) e =
    let none_more : tmp + 0x3FFFFFFF + 0 + 2 * p ≡ tmp + 0x3FFFFFFF + 2 * p = omega arith in
    let s = sub32 (tmp + 0x3fffffff + 2 * p) x in
    let low : bit_and (s % 2 ^ 30) 0xffffffff ≡ s % 2 ^ 30 =
      omega (arith, bit_and-ones 32 (s % 2 ^ 30)) in
    let cleared = bit_and-zero x in
    let kept = bit_or-zero (s % 2 ^ 30) in
    rw (none_more, low, cleared, kept)
      (ap (λ ys. (s % 2 ^ 30) ∷ ys) (negate_loop-subtractmod (s >>> 30) xs ps (omega arith)))

-- For a normalized a of at most twice the prime, the prime being in range: with the condition 0
-- conditional_negate keeps a, and with 0xffffffff it leaves a normalized number, twice the prime
-- less a.
pub conditional_negate-value :
    (a prime : Bignum256)
    → IsNormalized a
    → IsModulus prime
    → value a ≤ 2 * value prime
    → (conditional_negate 0 a prime ≡ a)
      × IsNormalized (conditional_negate 0xffffffff a prime)
      × (value (conditional_negate 0xffffffff a prime) + value a ≡ 2 * value prime)
unfolding conditional_negate bn_subtractmod value
conditional_negate-value a prime n is below =
    let same = negate_loop-subtractmod 1 a prime (omega (arith, n.size, is.normal.size)) in
    let zeros : IsNormalized bn_zero = record {
      size = omega arith;
      digits = replicate-AllBelow (2 ^ 30) 9 0 (omega arith);
    } in
    let (normal, equation) =
      bn_subtractmod-value zeros n is.normal (omega arith) (omega (arith, is.high)) in
    let whole : negate_loop 0xffffffff 1 a prime ≡ bn_subtractmod bn_zero a prime =
      same ∙ ap (λ (t : ℕ). (subtractmod_loop 1 (replicate t 0) a prime).0) n.size in
    (
      keep_loop 1 a prime (omega (arith, n.size, is.normal.size)) (IsNormalized-IsBignum n).words,
      rw whole normal,
      rw whole (omega (arith, equation)),
    )
