-- ===== src/Bignum/Congruence.antt =====
-- Congruence modulo a prime's value, for the functions that reduce only partly.
use flutter_sdk.Base.{ℕ, zero, suc, ◌+◌, ◌*◌, ◌/◌, ◌%◌, ◌^◌, ◌≡◌, arith, ap, sym, ◌∙◌}
use flutter_sdk.Bignum.Limbs.{Bignum256, IsPartlyReduced, value}
use native.Mathlib.Nat.{
  add-mul-mod_self_left, add-mul-mod_self_right, div-add-mod, mul_comm, pow-suc,
}
use native.Mathlib.Nat.{add_comm, pow-zero}

-- a and b leave the same remainder by p.
abbrev pub Congruent : ℕ → ℕ → ℕ → Type 0
Congruent p a b = a % p ≡ b % p

module _ (p : ℕ) where
  pub Congruent-multiple : (a k : ℕ) → Congruent p (a + k * p) a
  Congruent-multiple a k = add-mul-mod_self_right a k p

  mod_add_left : (a b : ℕ) → (a % p + b) % p ≡ (a + b) % p
  mod_add_left a b =
      let e : a + b ≡ a % p + b + p * (a / p) = omega (arith, div-add-mod a p) in
      sym (ap (λ (t : ℕ). t % p) e ∙ add-mul-mod_self_left (a % p + b) p (a / p))

  mod_mul_left : (a b : ℕ) → (a % p * b) % p ≡ (a * b) % p
  mod_mul_left a b =
      let e : a * b ≡ a % p * b + p * (a / p * b) =
        omega (arith, ap (λ (t : ℕ). t * b) (div-add-mod a p)) in
      sym (ap (λ (t : ℕ). t % p) e ∙ add-mul-mod_self_left (a % p * b) p (a / p * b))

  pub Congruent-add :
      (a b c d : ℕ) → Congruent p a b → Congruent p c d → Congruent p (a + c) (b + d)
  Congruent-add a b c d h k =
      sym (mod_add_left a c)
      ∙ ap (λ (t : ℕ). (t + c) % p) h
      ∙ mod_add_left b c
      ∙ ap (λ (t : ℕ). t % p) (add_comm b c)
      ∙ sym (mod_add_left c b)
      ∙ ap (λ (t : ℕ). (t + b) % p) k
      ∙ mod_add_left d b
      ∙ ap (λ (t : ℕ). t % p) (add_comm d b)

  pub Congruent-mul :
      (a b c d : ℕ) → Congruent p a b → Congruent p c d → Congruent p (a * c) (b * d)
  Congruent-mul a b c d h k =
      sym (mod_mul_left a c)
      ∙ ap (λ (t : ℕ). (t * c) % p) h
      ∙ mod_mul_left b c
      ∙ ap (λ (t : ℕ). t % p) (mul_comm b c)
      ∙ sym (mod_mul_left c b)
      ∙ ap (λ (t : ℕ). (t * b) % p) k
      ∙ mod_mul_left d b
      ∙ ap (λ (t : ℕ). t % p) (mul_comm d b)

  pub Congruent-pow : (a b n : ℕ) → Congruent p a b → Congruent p (a ^ n) (b ^ n)
  Congruent-pow a b zero h = ap (λ (t : ℕ). t % p) (pow-zero a ∙ sym (pow-zero b))
  Congruent-pow a b (suc n) h =
      let step = Congruent-mul (a ^ n) (b ^ n) a b (Congruent-pow a b n h) h in
      ap (λ (t : ℕ). t % p) (pow-suc a n) ∙ step ∙ ap (λ (t : ℕ). t % p) (sym (pow-suc b n))

-- A partly reduced number is congruent to what it was reduced from.
pub IsPartlyReduced-Congruent :
    {v : ℕ} {prime r : Bignum256} → IsPartlyReduced v prime r → Congruent (value prime) v (value r)
IsPartlyReduced-Congruent {prime} {r} h =
    ap (λ (t : ℕ). t % value prime) h.equation
    ∙ Congruent-multiple (value prime) (value r) h.multiple
