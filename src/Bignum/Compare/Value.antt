-- ===== src/Bignum/Compare/Value.antt =====
-- The tests decide statements about the numbers that the limbs stand for.
use flutter_sdk.Base.{ℕ, zero, suc, ◌+◌, ◌*◌, ◌%◌, ◌^◌, ◌≤◌, ◌<◌, ◌≡◌, refl, ap, ap₂, arith}
use flutter_sdk.Base.{List, [], ◌∷◌, length, AllBelow, ltb, ◌==◌, flag, if◌then◌else◌, Bool}
use flutter_sdk.Base.{true, false, bit_and, bit_or, bit_xor, ◌-◌, ◌↔◌}
use flutter_sdk.Base.{bit_or-eq-zero, bit_xor-eq-zero, bit_xor_self, bit_or-zero, zero-bit_or}
use flutter_sdk.Base.{bit_or-high_low, bit_and-zero, bit_and-ones}
use flutter_sdk.Bignum.Limbs.{Bignum256, IsNormalized, IsBignum, value, value-injective}
use flutter_sdk.Bignum.Compare.{bn_is_zero, bn_is_less, bn_is_equal, bn_cmov}
use flutter_sdk.Bignum.Compare.{or_loop, less_loop, differ_loop, cmov_loop}
use native.Mathlib.Nat.{pow-suc, pow-le-pow_right}

or_loop-zero : (r : ℕ) (xs : List ℕ) → or_loop r xs ≡ 0 → (r ≡ 0) × (value xs ≡ 0)
unfolding or_loop value
or_loop-zero r [] e = (e, refl)
or_loop-zero r (x ∷ xs) e = ground (arith, or_loop-zero (bit_or r x) xs e, bit_or-eq-zero r x)

zero-or_loop : (xs : List ℕ) → value xs ≡ 0 → or_loop 0 xs ≡ 0
unfolding or_loop value
zero-or_loop [] e = refl
zero-or_loop (x ∷ xs) e =
    let x0 : x ≡ 0 = omega arith in rw (x0, zero-bit_or) (zero-or_loop xs (omega arith))

flag_iff : (a b c d : ℕ) → ((a ≡ b) ↔ (c ≡ d)) → flag (a == b) ≡ flag (c == d)
flag_iff a b c d h = ground (arith, h.0, h.1)

-- bn_is_zero is 1 exactly on limbs that stand for 0.
pub bn_is_zero-value : (a : Bignum256) → bn_is_zero a ≡ flag (value a == 0)
unfolding bn_is_zero
bn_is_zero-value a =
    flag_iff (or_loop 0 a) 0 (value a) 0 ((λ e. (or_loop-zero 0 a e).1), zero-or_loop a)

differ_loop-zero :
    (r : ℕ) (xs ys : List ℕ) → length xs ≡ length ys → differ_loop r xs ys ≡ 0 → (r ≡ 0) × (xs ≡ ys)
unfolding differ_loop
differ_loop-zero r [] [] e h = (h, refl)
differ_loop-zero r [] (y ∷ ys) e h = absurd (omega arith)
differ_loop-zero r (x ∷ xs) [] e h = absurd (omega arith)
differ_loop-zero r (x ∷ xs) (y ∷ ys) e h =
    let rest = differ_loop-zero (bit_or r (bit_xor x y)) xs ys (omega arith) h in
    let parts = bit_or-eq-zero r (bit_xor x y) rest.0 in
    (parts.0, ap₂ ◌∷◌ (bit_xor-eq-zero x y parts.1) rest.1)

differ_loop_self : (xs : List ℕ) → differ_loop 0 xs xs ≡ 0
unfolding differ_loop
differ_loop_self [] = refl
differ_loop_self (x ∷ xs) = rw (bit_xor_self, zero-bit_or) (differ_loop_self xs)

-- On normalized bignums, bn_is_equal is 1 exactly if they stand for the same number.
pub bn_is_equal-value :
    {a b : Bignum256}
    → IsNormalized a
    → IsNormalized b
    → bn_is_equal a b ≡ flag (value a == value b)
unfolding bn_is_equal
bn_is_equal-value {a} {b} n m = flag_iff (differ_loop 0 a b) 0 (value a) (value b) (
  (λ e. ap value (differ_loop-zero 0 a b (omega (arith, n.size, m.size)) e).1),
  (λ e.
      let same : b ≡ a =
        value-injective b a (omega (arith, n.size, m.size)) m.digits n.digits (omega arith) in
      rw same (differ_loop_self a)),
)

shift_in : (r : ℕ) (t : Bool) → r < 2 ^ 31 → bit_or (r * 2 ^ 1 % 2 ^ 32) (flag t) ≡ 2 * r + flag t
shift_in r true h = omega (arith, bit_or-high_low 1 r 1 (omega arith), small)
  where
    small : bit_or (r * 2 ^ 1 % 2 ^ 32) 1 ≡ bit_or (r * 2 ^ 1) 1
    small = ap (λ (t : ℕ). bit_or t 1) (omega arith)
shift_in r false h = omega (arith, bit_or-zero (r * 2 ^ 1 % 2 ^ 32))

-- The two results, read as numbers, compare as the limbs do.
less_loop-value :
    (n : ℕ) (xs ys : List ℕ)
    → n ≤ 31
    → length xs ≡ n
    → length ys ≡ n
    → AllBelow (2 ^ 30) xs
    → AllBelow (2 ^ 30) ys
    → (ltb (less_loop xs ys).1 (less_loop xs ys).0 ≡ ltb (value xs) (value ys))
      × (ltb (less_loop xs ys).0 (less_loop xs ys).1 ≡ ltb (value ys) (value xs))
      × ((less_loop xs ys).0 < 2 ^ n)
      × ((less_loop xs ys).1 < 2 ^ n)
unfolding less_loop value
less_loop-value zero [] [] le e f h k = (refl, refl, omega arith, omega arith)
less_loop-value (suc n) [] ys le e f h k = absurd (omega arith)
less_loop-value zero [] (y ∷ ys) le e f h k = absurd (omega arith)
less_loop-value zero (x ∷ xs) ys le e f h k = absurd (omega arith)
less_loop-value (suc n) (x ∷ xs) [] le e f h k = absurd (omega arith)
less_loop-value (suc n) (x ∷ xs) (y ∷ ys) le e f h k =
    let ih = less_loop-value n xs ys (omega arith) (omega arith) (omega arith) h.1 k.1 in
    let bound : 2 ^ n ≤ 2 ^ 30 = pow-le-pow_right (omega arith) {j = 30} (omega arith) in
    let in0 = shift_in (less_loop xs ys).0 (ltb x y) (omega (arith, ih.2)) in
    let in1 = shift_in (less_loop xs ys).1 (ltb y x) (omega (arith, ih.3)) in
    (
      ground (arith, ih.0, ih.1, in0, in1),
      ground (arith, ih.0, ih.1, in0, in1),
      ground (arith, ih.2, in0, pow-suc 2 n),
      ground (arith, ih.3, in1, pow-suc 2 n),
    )

-- On normalized bignums, bn_is_less is 1 exactly if the first stands for the smaller number.
pub bn_is_less-value :
    {a b : Bignum256}
    → IsNormalized a
    → IsNormalized b
    → bn_is_less a b ≡ flag (ltb (value a) (value b))
unfolding bn_is_less
bn_is_less-value {a} {b} n m =
    ap flag (less_loop-value 9 a b (omega arith) n.size m.size n.digits m.digits).0

cmov_loop-keep :
    (xs ys : List ℕ)
    → length xs ≡ length ys
    → AllBelow (2 ^ 32) xs
    → cmov_loop (2 ^ 32 - 1) 0 xs ys ≡ xs
unfolding cmov_loop
cmov_loop-keep [] [] e h = refl
cmov_loop-keep [] (y ∷ ys) e h = refl
cmov_loop-keep (x ∷ xs) [] e h = absurd (omega arith)
cmov_loop-keep (x ∷ xs) (y ∷ ys) e h =
    let low : bit_and x (2 ^ 32 - 1) ≡ x = omega (arith, bit_and-ones 32 x) in
    ap₂ ◌∷◌ (rw (low, bit_and-zero, bit_or-zero)) (cmov_loop-keep xs ys (omega arith) h.1)

cmov_loop-skip :
    (xs ys : List ℕ)
    → length xs ≡ length ys
    → AllBelow (2 ^ 32) ys
    → cmov_loop 0 (2 ^ 32 - 1) xs ys ≡ ys
unfolding cmov_loop
cmov_loop-skip [] [] e h = refl
cmov_loop-skip [] (y ∷ ys) e h = absurd (omega arith)
cmov_loop-skip (x ∷ xs) [] e h = refl
cmov_loop-skip (x ∷ xs) (y ∷ ys) e h =
    let low : bit_and y (2 ^ 32 - 1) ≡ y = omega (arith, bit_and-ones 32 y) in
    ap₂ ◌∷◌ (rw (bit_and-zero, low, zero-bit_or)) (cmov_loop-skip xs ys (omega arith) h.1)

-- With a flag for the condition, bn_cmov gives truecase where it is 1 and falsecase where it is 0.
pub bn_cmov-select :
    {x y : Bignum256} (c : Bool)
    → IsBignum x
    → IsBignum y
    → bn_cmov (flag c) x y ≡ (if c then x else y)
unfolding bn_cmov
bn_cmov-select {x} {y} true n m = cmov_loop-keep x y (omega (arith, n.size, m.size)) n.words
bn_cmov-select {x} {y} false n m = cmov_loop-skip x y (omega (arith, n.size, m.size)) m.words
