-- ===== src/Bignum/Power.antt =====
-- Powers modulo a prime: bn_sqrt of ios/Classes/bignum.c, and its bn_inverse for builds without
-- USE_INVERSE_FAST. Clearing the local numbers has no result.
pub mod Ladder
pub mod Value
use flutter_sdk.Base.{ℕ, zero, suc, ◌+◌, ◌-◌, ◌*◌, ◌/◌, ◌%◌, ◌^◌, List, [], ◌∷◌, sub32, ◌>>>◌}
use flutter_sdk.Base.{bit_and, ◌==◌, if◌then◌else◌, Bool, true, false, ◌&&◌}
use flutter_sdk.Bignum.Limbs.{Bignum256}
use flutter_sdk.Bignum.Add.{bn_addi}
use flutter_sdk.Bignum.Compare.{bn_one}
use flutter_sdk.Bignum.Shift.{bn_rshift}
use flutter_sdk.Bignum.Reduce.{bn_mod}
use flutter_sdk.Bignum.Multiply.{bn_multiply}

-- The rounds of a limb, n of them left: if (i == 8 && limb == 0) break;
-- if (limb & 1) res = x * res; limb >>= 1; x = x * x. The result is x and res.
pub limb_loop : Bignum256 → Bool → ℕ → ℕ → Bignum256 → Bignum256 → Bignum256 × Bignum256
limb_loop prime last zero limb x res = (x, res)
limb_loop prime last (suc n) limb x res =
    let res' = if bit_and limb 1 == 0 then res else bn_multiply x res prime in
    let rest = limb_loop prime last n (limb >>> 1) (bn_multiply x x prime) res' in
    if last && limb == 0 then (x, res) else rest

-- for i: the rounds of limb i. The limb at the end of the array is the one with i == 8.
pub limbs_loop : Bignum256 → List ℕ → Bignum256 → Bignum256 → Bignum256
limbs_loop prime [] x res = res
limbs_loop prime (limb ∷ []) x res = (limb_loop prime true 30 limb x res).1
limbs_loop prime (limb ∷ next ∷ limbs) x res =
    let r = limb_loop prime false 30 limb x res in limbs_loop prime (next ∷ limbs) r.0 r.1

-- p = (prime + 1) / 4
pub bn_sqrt : Bignum256 → Bignum256 → Bignum256
bn_sqrt x prime = bn_mod (limbs_loop prime (bn_rshift (bn_rshift (bn_addi prime 1))) x bn_one) prime

-- limb = prime[0], less 2 on words
pub minus_two : List ℕ → List ℕ
minus_two [] = []
minus_two (limb ∷ limbs) = sub32 limb 2 ∷ limbs

pub bn_inverse : Bignum256 → Bignum256 → Bignum256
bn_inverse x prime = bn_mod (limbs_loop prime (minus_two prime) x bn_one) prime
