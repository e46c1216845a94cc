-- ===== src/Bignum/Power/Ladder.antt =====
-- The rounds of square and multiply, as powers.
use flutter_sdk.Base.{ℕ, zero, suc, ◌+◌, ◌*◌, ◌/◌, ◌%◌, ◌^◌, ◌<◌, ◌≡◌, refl, arith}
use flutter_sdk.Base.{List, [], ◌∷◌, AllBelow, ap, sym, ◌∙◌, bit_and, bit_and-ones}
use flutter_sdk.Base.{◌==◌, if◌then◌else◌, Bool, true, false, ◌&&◌, Bool-cases, inl, inr, ==_iff}
use flutter_sdk.Bignum.Limbs.{Bignum256, IsNormalized, IsModulus, value}
use flutter_sdk.Bignum.Congruence.{Congruent, Congruent-mul, Congruent-pow}
use flutter_sdk.Bignum.Congruence.{IsPartlyReduced-Congruent}
use flutter_sdk.Bignum.Multiply.{bn_multiply}
use flutter_sdk.Bignum.Multiply.Value.{bn_multiply-IsPartlyReduced}
use flutter_sdk.Bignum.Power.{limb_loop, limbs_loop}
use native.Mathlib.Nat.{pow-suc, pow-zero}

pow_double : (v h : ℕ) → (v * v) ^ h ≡ v ^ (2 * h)
pow_double v zero = pow-zero (v * v) ∙ sym (pow-zero v)
pow_double v (suc h) =
    let two : 2 * suc h ≡ suc (suc (2 * h)) = omega arith in
    pow-suc (v * v) h
    ∙ ap (λ (t : ℕ). t * (v * v)) (pow_double v h)
    ∙ rw two (omega (arith, pow-suc v (suc (2 * h)), ap (λ (t : ℕ). t * v) (pow-suc v (2 * h))))

pub pow_even : (v n : ℕ) → n % 2 ≡ 0 → v ^ n ≡ (v * v) ^ (n / 2)
pow_even v n e = sym (pow_double v (n / 2) ∙ ap (λ (t : ℕ). v ^ t) (omega arith))

pub pow_odd : (v n : ℕ) → n % 2 ≡ 1 → v ^ n ≡ v * (v * v) ^ (n / 2)
pow_odd v n e =
    let split : n ≡ suc (2 * (n / 2)) = omega arith in
    ap (λ (t : ℕ). v ^ t) split
    ∙ omega (arith, pow-suc v (2 * (n / 2)), ap (λ (t : ℕ). v * t) (pow_double v (n / 2)))

pow_sum : (v a b : ℕ) → v ^ (a + b) ≡ v ^ a * v ^ b
pow_sum v a zero =
    let same : a + 0 ≡ a = omega arith in
    ap (λ (t : ℕ). v ^ t) same ∙ omega (arith, ap (λ (t : ℕ). v ^ a * t) (pow-zero v))
pow_sum v a (suc b) =
    let same : a + suc b ≡ suc (a + b) = omega arith in
    ap (λ (t : ℕ). v ^ t) same
    ∙ pow-suc v (a + b)
    ∙ ap (λ (t : ℕ). t * v) (pow_sum v a b)
    ∙ omega (arith, ap (λ (t : ℕ). v ^ a * t) (pow-suc v b))

pow_product : (v a b : ℕ) → (v ^ a) ^ b ≡ v ^ (a * b)
pow_product v a zero =
    let none : a * 0 ≡ 0 = omega arith in
    pow-zero (v ^ a) ∙ sym (ap (λ (t : ℕ). v ^ t) none ∙ pow-zero v)
pow_product v a (suc b) =
    let same : a * suc b ≡ a * b + a = omega arith in
    pow-suc (v ^ a) b
    ∙ ap (λ (t : ℕ). t * v ^ a) (pow_product v a b)
    ∙ sym (ap (λ (t : ℕ). v ^ t) same ∙ pow_sum v (a * b) a)

pow_limb : (r v limb base n : ℕ) → r * v ^ limb * (v ^ base) ^ n ≡ r * v ^ (limb + base * n)
pow_limb r v limb base n =
    ap (λ (t : ℕ). r * v ^ limb * t) (pow_product v base n)
    ∙ omega (arith, ap (λ (t : ℕ). r * t) (pow_sum v limb (base * n)))

-- What bn_multiply can work on, and leaves.
pub record IsReady (prime x : Bignum256) : Type 0 where
  pub normal : IsNormalized x
  pub below : value x < 2 * value prime

module _ (prime : Bignum256) (m : IsModulus prime) where
  pub multiply :
      {k x : Bignum256}
      → IsReady prime k
      → IsReady prime x
      → IsReady prime (bn_multiply k x prime)
        × Congruent (value prime) (value (bn_multiply k x prime)) (value k * value x)
  multiply {k} {x} hk hx =
      let r =
        bn_multiply-IsPartlyReduced prime m hk.normal hx.normal (omega (arith, hk.below))
          (omega (arith, hx.below)) in
      (record { normal = r.normal; below = r.below }, sym (IsPartlyReduced-Congruent r))

  abbrev next_res : ℕ → Bignum256 → Bignum256 → Bignum256
  next_res limb x res = if bit_and limb 1 == 0 then res else bn_multiply x res prime

  next_res-power :
      (limb : ℕ) (x res : Bignum256)
      → IsReady prime x
      → IsReady prime res
      → IsReady prime (next_res limb x res)
        × Congruent
            (value prime)
            (value (next_res limb x res) * (value x * value x) ^ (limb / 2))
            (value res * value x ^ limb)
  next_res-power limb x res hx hr =
      let v = value x in
      let r = value res in
      let low = bit_and-ones 1 limb in
      elim (Bool-cases (bit_and limb 1 == 0)) [
        | inl even ↦
            let zero_bit = (==_iff (bit_and limb 1) 0).0 even in
            rw even (
              hr,
              ap (λ (t : ℕ). (r * t) % value prime) (sym (pow_even v limb (omega (arith, low)))),
            )
        | inr odd ↦
            let product = multiply hx hr in
            let one : limb % 2 ≡ 1 = ground (arith, low, odd) in
            let number : v * r * (v * v) ^ (limb / 2) ≡ r * v ^ limb =
              omega (arith, ap (λ (t : ℕ). r * t) (pow_odd v limb one)) in
            rw odd (
              product.0,
              Congruent-mul (value prime) _ (v * r) ((v * v) ^ (limb / 2)) _ product.1 refl
                  ∙ ap (λ (t : ℕ). t % value prime) number,
            )
      ]

  -- A round that is not the last: the rest is computed from the square of x.
  round_power :
      (n limb : ℕ) (x res : Bignum256) (out : Bignum256 × Bignum256)
      → IsReady prime x
      → IsReady prime res
      → Congruent
          (value prime)
          (value out.1)
          (value (next_res limb x res) * value (bn_multiply x x prime) ^ (limb / 2))
      → Congruent (value prime) (value out.1) (value res * value x ^ limb)
  round_power n limb x res out hx hr h =
      let p = value prime in
      let sq = Congruent-pow p _ _ (limb / 2) (multiply hx hx).1 in
      h
      ∙ Congruent-mul p (value (next_res limb x res)) _ _ _ refl sq
      ∙ (next_res-power limb x res hx hr).1

  square_power :
      (n : ℕ) (x y : Bignum256)
      → IsReady prime x
      → Congruent (value prime) (value y) (value (bn_multiply x x prime) ^ (2 ^ n))
      → Congruent (value prime) (value y) (value x ^ (2 ^ suc n))
  square_power n x y hx h =
      let p = value prime in
      let double : 2 * 2 ^ n ≡ 2 ^ suc n = omega (arith, pow-suc 2 n) in
      h
      ∙ Congruent-pow p _ _ (2 ^ n) (multiply hx hx).1
      ∙ ap (λ (t : ℕ). t % p) (pow_double (value x) (2 ^ n) ∙ ap (λ (t : ℕ). value x ^ t) double)

  times_none : (x res : Bignum256) → value res ≡ value res * value x ^ 0
  times_none x res = omega (arith, ap (λ (t : ℕ). value res * t) (pow-zero (value x)))

  -- res, times x to the limb; and x, to 2 ^ n where all rounds are made.
  limb_loop-power :
      (n : ℕ) (last : Bool) (limb : ℕ) (x res : Bignum256)
      → limb < 2 ^ n
      → IsReady prime x
      → IsReady prime res
      → let r = limb_loop prime last n limb x res in
        IsReady prime r.0
        × IsReady prime r.1
        × Congruent (value prime) (value r.1) (value res * value x ^ limb)
        × ((last ≡ false) → Congruent (value prime) (value r.0) (value x ^ (2 ^ n)))
  unfolding limb_loop
  limb_loop-power zero last limb x res h hx hr =
      let none : limb ≡ 0 = omega arith in
      (
        hx,
        hr,
        rw none (ap (λ (t : ℕ). t % value prime) (times_none x res)),
        λ e.
            ap (λ (t : ℕ). t % value prime)
              (omega
                (arith, pow-suc (value x) 0, ap (λ (t : ℕ). t * value x) (pow-zero (value x)))),
      )
  limb_loop-power (suc n) last limb x res h hx hr = elim (Bool-cases (last && limb == 0)) [
    | inl stop ↦
        let none : limb ≡ 0 = ground arith in
        rw stop (
          hx,
          hr,
          rw none (ap (λ (t : ℕ). t % value prime) (times_none x res)),
          λ e. absurd (ground (arith, stop, e)),
        )
    | inr on ↦
        let ih =
          limb_loop-power n last (limb / 2 ^ 1) (bn_multiply x x prime) (next_res limb x res)
            (omega (arith, pow-suc 2 n)) (multiply hx hx).0 (next_res-power limb x res hx hr).0 in
        let out =
          limb_loop prime last n (limb / 2 ^ 1) (bn_multiply x x prime) (next_res limb x res) in
        rw on (
          ih.0,
          ih.1,
          round_power n limb x res out hx hr ih.2,
          λ e. square_power n x out.0 hx (ih.3 e),
        )
  ]

  pub limbs_loop-power :
      (limbs : List ℕ) (x res : Bignum256)
      → AllBelow (2 ^ 30) limbs
      → IsReady prime x
      → IsReady prime res
      → IsReady prime (limbs_loop prime limbs x res)
        × Congruent
            (value prime)
            (value (limbs_loop prime limbs x res))
            (value res * value x ^ value limbs)
  unfolding limbs_loop value
  limbs_loop-power [] x res h hx hr = (hr, ap (λ (t : ℕ). t % value prime) (times_none x res))
  limbs_loop-power (limb ∷ []) x res h hx hr =
      let r = limb_loop-power 30 true limb x res h.0 hx hr in
      let same : limb ≡ limb + 2 ^ 30 * 0 = omega arith in
      (r.1, r.2 ∙ ap (λ (t : ℕ). (value res * value x ^ t) % value prime) same)
  limbs_loop-power (limb ∷ next ∷ limbs) x res h hx hr =
      let p = value prime in
      let out = limb_loop prime false 30 limb x res in
      let r = limb_loop-power 30 false limb x res h.0 hx hr in
      let n = value (next ∷ limbs) in
      let ih = limbs_loop-power (next ∷ limbs) out.0 out.1 h.1 r.0 r.1 in
      (
        ih.0,
        ih.1
            ∙ Congruent-mul p _ _ _ _ r.2 (Congruent-pow p _ _ n (r.3 refl))
            ∙ ap (λ (t : ℕ). t % p) (pow_limb (value res) (value x) limb (2 ^ 30) n),
      )
