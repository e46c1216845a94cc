-- ===== src/Ecdsa/Sign/Round.antt =====
-- A round of ecdsa_sign_digest (ios/Classes/ecdsa.c) with a number k.
use flutter_sdk.Base.{
  ℕ, ◌+◌, ◌-◌, ◌*◌, ◌%◌, ◌<◌, ◌≤◌, ◌≡◌, refl, arith, ap, ◌∙◌, sym, List, ◌++◌, ◌⊎◌,
}
use flutter_sdk.Base.{
  Bool, true, false, not, ◌||◌, Option, none, some, ◌==◌, ltb, if◌then◌else◌, take, Bool-cases, inl,
  inr,
}
use native.Mathlib.Nat.{mod-lt, mod-eq_of_lt, mod-eq-sub-mod}
use flutter_sdk.Bignum.Limbs.{Bignum256, value, IsModulus, IsNormalized}
use flutter_sdk.Bignum.Compare.{bn_is_zero, bn_is_less}
use flutter_sdk.Bignum.Compare.Value.{bn_is_zero-value, bn_is_less-value}
use flutter_sdk.Bignum.Add.{bn_add, bn_subtract}
use flutter_sdk.Bignum.Add.Value.{bn_subtract-value}
use flutter_sdk.Bignum.Reduce.{bn_mod}
use flutter_sdk.Bignum.Multiply.{bn_multiply}
use flutter_sdk.Bignum.Bytes.{bn_read_be, bn_write_be}
use flutter_sdk.Curve.Residue.{
  bn_multiply-IsResidue, bn_add-IsResidue, bn_mod-IsResidue, value-IsResidue,
}
use flutter_sdk.Ecdsa.Sign.{Signer, sign_end, sign_round}

get_result : List ℕ × ℕ → Option (List ℕ × ℕ) → List ℕ × ℕ
get_result r none = r
get_result r (some s) = s

pub some-injective : (r s : List ℕ × ℕ) → some r ≡ some s → r ≡ s
unfolding get_result
some-injective r s e = ap (get_result r) e

pub none-ne-some : {r : List ℕ × ℕ} → none ≡ some r → ⊥
unfolding get_result
none-ne-some {r} e = absurd (omega (arith, ap (λ o. (get_result (r.0, r.1 + 1) o).1) e))

if_some : (c : Bool) (x r : List ℕ × ℕ) → (if c then some x else none) ≡ some r → x ≡ r
if_some true x r e = some-injective x r e
if_some false x r e = absurd (none-ne-some e)

guards_passed : (zeros : ℕ) (b : Bool) → not (zeros == 0) || b ≡ false → (zeros ≡ 0) × (b ≡ false)
guards_passed zeros b h = elim (Bool-cases (zeros == 0)) [
  | inl here ↦ (ground arith, rw here at h)
  | inr other ↦ absurd (ground (arith, true_or b (rw other at h)))
]
  where
    true_or : (b : Bool) → true || b ≡ false → true ≡ false
    true_or b h = h

either_value : (v s t n : ℕ) → s ≡ t → (v ≡ s) ⊎ (v + s ≡ n) → (v ≡ t) ⊎ (v + t ≡ n)
either_value v s t n same (inl e) = inl (e ∙ same)
either_value v s t n same (inr e) = inr (omega arith)

-- The number k is neither 0 nor, as bn_is_less says, at or above the order.
abbrev pub IsTaken : Signer → Bignum256 → Type 0
IsTaken c k = (bn_is_zero k ≡ 0) × ((bn_is_less k c.order == 0) ≡ false)

-- What signing asks of the curve: the order is in range, order_half is half of it, and for the
-- numbers k that are taken k * G and bn_inverse give normalized numbers less than twice the order.
pub record IsSigner (c : Signer) : Type 0 where
  pub modulus : IsModulus c.order
  pub half_normal : IsNormalized c.order_half
  pub half : 2 * value c.order_half + 1 ≡ value c.order
  pub point_normal : (k : Bignum256) → IsTaken c k → IsNormalized (c.scalar_multiply k).x
  pub point_below :
      (k : Bignum256) → IsTaken c k → value (c.scalar_multiply k).x < 2 * value c.order
  pub inverse_normal : (k : Bignum256) → IsTaken c k → IsNormalized (c.inverse k c.order)
  pub inverse_below :
      (k : Bignum256) → IsTaken c k → value (c.inverse k c.order) < 2 * value c.order

-- r and s are an ECDSA signature of z with the private key d and the number k, with a low s: r is
-- the x of k * G modulo the order, and s is (r * d + z) / k modulo the order or its negative.
pub record IsSignature (c : Signer) (d z : ℕ) (k r s : Bignum256) : Type 0 where
  pub k_taken : IsTaken c k
  pub r_value : value r ≡ value (c.scalar_multiply k).x % value c.order
  pub r_positive : 0 < value r
  pub s_value :
      let t = (value (c.inverse k c.order) * (value r * d + z)) % value c.order in
      (value s ≡ t) ⊎ (value s + t ≡ value c.order)
  pub s_positive : 0 < value s
  pub s_low : value s ≤ value c.order_half

module _ (c : Signer) (is : IsSigner c) where
  abbrev n : ℕ
  n = value c.order

  sign_end-low :
      (rx s : Bignum256) (by : ℕ) (result : List ℕ × ℕ)
      → IsNormalized s
      → 0 < value s
      → value s < n
      → sign_end c rx by s ≡ some result
      → (s' : Bignum256) × (result.0 ≡ bn_write_be rx ++ bn_write_be s')
        × ((value s' ≡ value s) ⊎ (value s' + value s ≡ n))
        × (0 < value s')
        × (value s' ≤ value c.order_half)
  unfolding sign_end
  sign_end-low rx s by result normal positive below done =
      let test = bn_is_less-value is.half_normal normal in
      let (_, difference) = bn_subtract-value is.modulus.normal normal in
      elim (Bool-cases (ltb (value c.order_half) (value s))) [
        | inl high ↦
            let exact : value (bn_subtract c.order s) + value s ≡ n =
              omega (arith, difference, is.modulus.high, below) in
            let same = if_some _ _ result (rw (test, high) at done) in
            let above : value c.order_half < value s = ground arith in
            (
              bn_subtract c.order s,
              sym (ap (λ (r : List ℕ × ℕ). r.0) same),
              inr exact,
              omega (arith, exact, below),
              omega (arith, exact, above, is.half),
            )
        | inr low ↦
            let same = if_some _ _ result (rw (test, low) at done) in
            let within : value s ≤ value c.order_half = ground arith in
            (s, sym (ap (λ (r : List ℕ × ℕ). r.0) same), inl refl, positive, within)
      ]

  reduced_x :
      (x : Bignum256)
      → IsNormalized x
      → value x < 2 * n
      → let rx = if bn_is_less x c.order == 0 then bn_subtract x c.order else x in
        IsNormalized rx × (value rx ≡ value x % n)
  reduced_x x normal below =
      let test = bn_is_less-value normal is.modulus.normal in
      let (normal', difference) = bn_subtract-value normal is.modulus.normal in
      elim (Bool-cases (ltb (value x) n)) [
        | inl less ↦
            let small : value x < n = ground arith in
            rw (test, less) (normal, sym (mod-eq_of_lt small))
        | inr more ↦
            let large : n ≤ value x = ground arith in
            let once = mod-eq-sub-mod large in
            let small = mod-eq_of_lt {n = value x - n} {m = n} (omega (arith, is.modulus.low)) in
            rw (test, more)
              (normal', omega (arith, difference, once, small, large, below, is.modulus.high))
      ]

  not_zero : (x : Bignum256) → not (bn_is_zero x == 0) ≡ false → 0 < value x
  not_zero x test = ground (arith, bn_is_zero-value x)

  module _ (priv_key : List ℕ) (z k : Bignum256) where
    abbrev x : Bignum256
    x = (c.scalar_multiply k).x

    abbrev rx : Bignum256
    rx = if bn_is_less x c.order == 0 then bn_subtract x c.order else x

    abbrev d : Bignum256
    d = bn_read_be (take 32 priv_key)

    abbrev s : Bignum256
    s =
        bn_mod (bn_multiply (c.inverse k c.order) (bn_add (bn_multiply rx d c.order) z) c.order)
          c.order

    sign_values :
        IsNormalized d
        → value d < 2 * n
        → IsNormalized z
        → value z < 2 * n
        → IsTaken c k
        → (value rx ≡ value x % n)
          × IsNormalized s
          × (value s ≡ (value (c.inverse k c.order) * (value rx * value d + value z)) % n)
          × (value s < n)
    sign_values nd hd nz hz taken =
        let positive : 0 < n = omega (arith, is.modulus.low) in
        let (normal_r, value_r) = reduced_x x (is.point_normal k taken) (is.point_below k taken) in
        let below_r : value rx < 2 * n =
          omega (arith, value_r, mod-lt (value x) {m = n} positive) in
        let product =
          bn_multiply-IsResidue is.modulus (omega arith) (omega arith)
            (value-IsResidue is.modulus {c = 2} normal_r below_r)
            (value-IsResidue is.modulus {c = 2} nd hd) in
        let sum =
          bn_add-IsResidue is.modulus (omega arith) product
            (value-IsResidue is.modulus {c = 2} nz hz) in
        let inverse =
          value-IsResidue is.modulus {c = 2} (is.inverse_normal k taken)
            (is.inverse_below k taken) in
        let (normal_s, value_s) =
          bn_mod-IsResidue is.modulus
            (bn_multiply-IsResidue is.modulus (omega arith) (omega arith) inverse sum) in
        let t = value (c.inverse k c.order) * (value rx * value d + value z) in
        (value_r, normal_s, value_s, omega (arith, value_s, mod-lt t {m = n} positive))

    pub sign_round-IsSignature :
        (result : List ℕ × ℕ)
        → IsNormalized (bn_read_be (take 32 priv_key))
        → value (bn_read_be (take 32 priv_key)) < 2 * n
        → IsNormalized z
        → value z < 2 * n
        → sign_round c priv_key z k ≡ some result
        → (r : Bignum256) × (s : Bignum256) × (result.0 ≡ bn_write_be r ++ bn_write_be s)
          × IsSignature c (value (bn_read_be (take 32 priv_key))) (value z) k r s
    unfolding sign_round
    sign_round-IsSignature result nd hd nz hz done =
        elim (Bool-cases (not (bn_is_zero k == 0) || bn_is_less k c.order == 0)) [
          | inl bad ↦ absurd (none-ne-some (rw bad at done))
          | inr good ↦ elim (Bool-cases (not (bn_is_zero rx == 0))) [
            | inl no_r ↦ absurd (none-ne-some (rw (good, no_r) at done))
            | inr some_r ↦ elim (Bool-cases (not (bn_is_zero s == 0))) [
              | inl no_s ↦ absurd (none-ne-some (rw (good, some_r, no_s) at done))
              | inr some_s ↦
                  let taken = guards_passed (bn_is_zero k) (bn_is_less k c.order == 0) good in
                  let (value_r, normal_s, value_s, below_s) = sign_values nd hd nz hz taken in
                  let (low, same, either, positive, half) =
                    sign_end-low rx s _ result normal_s (not_zero s some_s) below_s
                      (rw (good, some_r, some_s) at done) in
                  (
                    rx,
                    low,
                    same,
                    record {
                      k_taken = taken;
                      r_value = value_r;
                      r_positive = not_zero rx some_r;
                      s_value = either_value (value low) (value s) _ n value_s either;
                      s_positive = positive;
                      s_low = half;
                    },
                  )
            ]
          ]
        ]
