-- ===== src/Curve/Residue.antt =====
-- What the bignums of ios/Classes/ecdsa.c stand for modulo the prime: each function of
-- ios/Classes/bignum.c that the curve operations call, as an operation on residues.
use flutter_sdk.Base.{ℕ, ◌+◌, ◌-◌, ◌*◌, ◌/◌, ◌%◌, ◌<◌, ◌≤◌, ◌≡◌, refl, arith, ap, ◌∙◌, sym, get_or}
use native.Mathlib.Nat.{mul-le-mul_right, mul_comm}
use flutter_sdk.Bignum.Limbs.{
  Bignum256, value, IsNormalized, IsModulus, IsPartlyReduced, IsNormalized-IsBignum,
}
use flutter_sdk.Bignum.Congruence.{
  Congruent, Congruent-multiple, Congruent-add, Congruent-mul, IsPartlyReduced-Congruent,
}
use flutter_sdk.Bignum.Add.{bn_add, bn_subtractmod, bn_subi}
use flutter_sdk.Bignum.Add.Value.{bn_add-value, bn_subtractmod-value, bn_subi-value}
use flutter_sdk.Bignum.Shift.{bn_lshift, bn_mult_half}
use flutter_sdk.Bignum.Shift.Value.{bn_lshift-value}
use flutter_sdk.Bignum.Shift.Half.{bn_mult_half-value}
use flutter_sdk.Bignum.Reduce.{bn_fast_mod, bn_mod, bn_mult_k, bn_addmod}
use flutter_sdk.Bignum.Reduce.Value.{
  bn_fast_mod-IsPartlyReduced, bn_mod-value, bn_mult_k-IsPartlyReduced, bn_addmod-IsPartlyReduced,
}
use flutter_sdk.Bignum.Multiply.{bn_multiply}
use flutter_sdk.Bignum.Multiply.Value.{bn_multiply-IsPartlyReduced}

-- u - v modulo p, and u / 2 for an odd p.
abbrev pub minus : ℕ → ℕ → ℕ → ℕ
minus p u v = u + (p - 1) * v

abbrev pub half : ℕ → ℕ → ℕ
half p u = u * ((p + 1) / 2)

-- A normalized bignum below `bound` times the prime that stands for v.
pub record IsResidue (prime : Bignum256) (bound v : ℕ) (r : Bignum256) : Type 0 where
  pub normal : IsNormalized r
  pub below : value r < bound * value prime
  pub same : Congruent (value prime) (value r) v

pub from-IsPartlyReduced :
    {prime r : Bignum256} (v w : ℕ)
    → IsPartlyReduced v prime r
    → Congruent (value prime) v w
    → IsResidue prime 2 w r
from-IsPartlyReduced v w h e = record {
  normal = h.normal;
  below = h.below;
  same = sym (IsPartlyReduced-Congruent h) ∙ e;
}

pred_mul : (p q v : ℕ) → p ≡ q + 1 → q * v + v ≡ v * p
pred_mul p q v e = omega (arith, ap (λ (t : ℕ). t * v) e, mul_comm p v)

module _ {prime : Bignum256} (m : IsModulus prime) where
  abbrev p : ℕ
  p = value prime

  -- u - v, from what a difference is.
  pub minus-Congruent : (r u v : ℕ) → Congruent p (r + v) u → Congruent p r (minus p u v)
  minus-Congruent r u v h =
      let back : r + v + (p - 1) * v ≡ r + v * p =
        omega (arith, pred_mul p (p - 1) v (omega (arith, m.low))) in
      sym (Congruent-multiple p r v)
      ∙ sym (ap (λ (t : ℕ). t % p) back)
      ∙ Congruent-add p (r + v) u ((p - 1) * v) ((p - 1) * v) h refl

  pub bn_multiply-IsResidue :
      {a b : Bignum256} {c d u v : ℕ}
      → c ≤ 180
      → d ≤ 180
      → IsResidue prime c u a
      → IsResidue prime d v b
      → IsResidue prime 2 (u * v) (bn_multiply a b prime)
  bn_multiply-IsResidue {a} {b} {c} {d} {u} {v} hc hd ra rb =
      let wide_a = mul-le-mul_right p hc in
      let wide_b = mul-le-mul_right p hd in
      from-IsPartlyReduced (value a * value b) (u * v)
        (bn_multiply-IsPartlyReduced prime m ra.normal rb.normal (omega (arith, ra.below, wide_a))
          (omega (arith, rb.below, wide_b)))
        (Congruent-mul p (value a) u (value b) v ra.same rb.same)

  pub bn_fast_mod-IsResidue :
      {a : Bignum256} {c u : ℕ} → IsResidue prime c u a → IsResidue prime 2 u (bn_fast_mod a prime)
  bn_fast_mod-IsResidue {a} {c} {u} ra =
      from-IsPartlyReduced (value a) u
        (bn_fast_mod-IsPartlyReduced (IsNormalized-IsBignum ra.normal) m) ra.same

  pub bn_mult_k-IsResidue :
      {a : Bignum256} {c u : ℕ} (k : ℕ)
      → k ≤ 4
      → IsResidue prime c u a
      → IsResidue prime 2 (k * u) (bn_mult_k a k prime)
  bn_mult_k-IsResidue {a} {c} {u} k few ra =
      from-IsPartlyReduced (k * value a) (k * u) (bn_mult_k-IsPartlyReduced k few ra.normal m)
        (Congruent-mul p k k (value a) u refl ra.same)

  pub bn_subtractmod-IsResidue :
      {a b : Bignum256} {c u v : ℕ}
      → c ≤ 100
      → IsResidue prime c u a
      → IsResidue prime 2 v b
      → IsResidue prime (c + 2) (minus p u v) (bn_subtractmod a b prime)
  bn_subtractmod-IsResidue {a} {b} {c} {u} {v} small ra rb =
      let wide = mul-le-mul_right p small in
      let (normal, equation) =
        bn_subtractmod-value ra.normal rb.normal m.normal (omega (arith, rb.below))
          (omega (arith, ra.below, wide, m.high)) in
      let r = value (bn_subtractmod a b prime) in
      record {
        normal = normal;
        below = omega (arith, equation, ra.below);
        same = minus-Congruent r u v (
            Congruent-add p r r v (value b) refl (sym rb.same)
            ∙ ap (λ (t : ℕ). t % p) equation
            ∙ Congruent-multiple p (value a) 2
            ∙ ra.same);
      }

  pub bn_add-IsResidue :
      {a b : Bignum256} {c d u v : ℕ}
      → c + d ≤ 100
      → IsResidue prime c u a
      → IsResidue prime d v b
      → IsResidue prime (c + d) (u + v) (bn_add a b)
  bn_add-IsResidue {a} {b} {c} {d} {u} {v} small ra rb =
      let wide = mul-le-mul_right p small in
      let (normal, equation) = bn_add-value ra.normal rb.normal in
      let exact : value (bn_add a b) ≡ value a + value b =
        omega (arith, equation, ra.below, rb.below, wide, m.high) in
      record {
        normal = normal;
        below = omega (arith, exact, ra.below, rb.below);
        same =
            ap (λ (t : ℕ). t % p) exact ∙ Congruent-add p (value a) u (value b) v ra.same rb.same;
      }

  pub bn_lshift-IsResidue :
      {a : Bignum256} {c u : ℕ}
      → c ≤ 100
      → IsResidue prime c u a
      → IsResidue prime (2 * c) (2 * u) (bn_lshift a)
  bn_lshift-IsResidue {a} {c} {u} small ra =
      let wide = mul-le-mul_right p small in
      let (normal, equation) = bn_lshift-value a ra.normal in
      let exact : value (bn_lshift a) ≡ 2 * value a =
        omega (arith, equation, ra.below, wide, m.high) in
      record {
        normal = normal;
        below = omega (arith, exact, ra.below);
        same = ap (λ (t : ℕ). t % p) exact ∙ Congruent-mul p 2 2 (value a) u refl ra.same;
      }

  pub half-Congruent :
      (h a c u : ℕ) → p % 2 ≡ 1 → 2 * h ≡ a + c * p → Congruent p a u → Congruent p h (half p u)
  half-Congruent h a c u odd equation same =
      let k = (p + 1) / 2 in
      let twice : 2 * k ≡ p + 1 = omega arith in
      let whole : 2 * h * k ≡ h + h * p = omega (arith, ap (λ (t : ℕ). h * t) twice) in
      sym (Congruent-multiple p h h)
      ∙ sym (ap (λ (t : ℕ). t % p) whole)
      ∙ Congruent-mul p (2 * h) a k k (ap (λ (t : ℕ). t % p) equation ∙ Congruent-multiple p a c)
          refl
      ∙ Congruent-mul p a u k k same refl

  pub bn_mult_half-IsResidue :
      {a : Bignum256} {c u : ℕ}
      → value prime % 2 ≡ 1
      → IsResidue prime c u a
      → IsResidue prime (c + 1) (half p u) (bn_mult_half a prime)
  bn_mult_half-IsResidue {a} {c} {u} odd ra =
      let (normal, equation) = bn_mult_half-value a prime ra.normal m.normal m.high odd in
      let most : value a % 2 * p ≤ 1 * p = mul-le-mul_right p (omega arith) in
      record {
        normal = normal;
        below = omega (arith, equation, ra.below, most);
        same =
            half-Congruent (value (bn_mult_half a prime)) (value a) (value a % 2) u odd equation
              ra.same;
      }

  pub bn_mod-IsResidue :
      {a : Bignum256} {u : ℕ}
      → IsResidue prime 2 u a
      → IsNormalized (bn_mod a prime) × (value (bn_mod a prime) ≡ u % p)
  bn_mod-IsResidue {a} {u} ra =
      let (normal, equation) = bn_mod-value ra.normal m.normal ra.below in
      (normal, equation ∙ ra.same)

  pub bn_subi-IsResidue :
      {a : Bignum256} {c u : ℕ} (k : ℕ)
      → c ≤ 100
      → k ≤ get_or prime 0 0
      → k ≤ p
      → IsResidue prime c u a
      → IsResidue prime (c + 1) (minus p u k) (bn_subi a k prime)
  bn_subi-IsResidue {a} {c} {u} k small few fits ra =
      let wide = mul-le-mul_right p small in
      let (normal, equation) = bn_subi-value a k prime ra.normal m.normal few in
      let r = value (bn_subi a k prime) in
      let exact : r + k ≡ value a + 1 * p = omega (arith, equation, ra.below, wide, m.high) in
      record {
        normal = normal;
        below = omega (arith, exact, ra.below);
        same =
            minus-Congruent r u k
              (ap (λ (t : ℕ). t % p) exact ∙ Congruent-multiple p (value a) 1 ∙ ra.same);
      }

  pub bn_addmod-IsResidue :
      {a b : Bignum256} {c d u v : ℕ}
      → IsResidue prime c u a
      → IsResidue prime d v b
      → IsResidue prime 2 (u + v) (bn_addmod a b prime)
  bn_addmod-IsResidue {a} {b} {c} {d} {u} {v} ra rb =
      from-IsPartlyReduced (value a + value b) (u + v)
        (bn_addmod-IsPartlyReduced ra.normal rb.normal m)
        (Congruent-add p (value a) u (value b) v ra.same rb.same)

  -- A normalized bignum stands for its number.
  pub value-IsResidue :
      {a : Bignum256} {c : ℕ} → IsNormalized a → value a < c * p → IsResidue prime c (value a) a
  value-IsResidue n below = record { normal = n; below = below; same = refl }
