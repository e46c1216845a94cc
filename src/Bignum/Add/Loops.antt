-- ===== src/Bignum/Add/Loops.antt =====
-- What the carry loops compute: with the last `tmp` above the limbs nothing is lost.
use flutter_sdk.Base.{ℕ, ◌+◌, ◌%◌, ◌/◌, ◌-◌, ◌*◌, ◌^◌, ◌≤◌, ◌≡◌, arith}
use flutter_sdk.Base.{List, [], ◌∷◌, length, AllBelow}
use flutter_sdk.Bignum.Limbs.{value, value_onto, weight, IsOutput}
use flutter_sdk.Bignum.Add.{add_loop, addi_loop, subtractmod_loop, subtract_loop}

pub add_loop-value :
    (tmp : ℕ) (a b : List ℕ)
    → tmp ≤ 2
    → length a ≡ length b
    → AllBelow (2 ^ 30) a
    → AllBelow (2 ^ 30) b
    → (value_onto (add_loop tmp a b).0 (add_loop tmp a b).1 ≡ value a + value b + tmp)
      × IsOutput (length a) (add_loop tmp a b)
unfolding value value_onto add_loop
add_loop-value tmp [] [] t e h k = omega arith
add_loop-value tmp [] (y ∷ b) t e h k = absurd (omega arith)
add_loop-value tmp (x ∷ a) [] t e h k = absurd (omega arith)
add_loop-value tmp (x ∷ a) (y ∷ b) t e h k =
    let ih =
      add_loop-value ((tmp + (x + y)) % 2 ^ 32 / 2 ^ 30) a b (omega arith) (omega arith) h.1 k.1 in
    (omega (arith, ih.0), (omega (arith, ih.1.0), (omega arith, ih.1.1)))

-- The bound m leaves room for the carry, or for the number that is added.
pub addi_loop-value :
    (m tmp : ℕ) (a : List ℕ)
    → tmp + m ≤ 2 ^ 32
    → 3 + m ≤ 2 ^ 32
    → AllBelow m a
    → (value_onto (addi_loop tmp a).0 (addi_loop tmp a).1 ≡ value a + tmp)
      × IsOutput (length a) (addi_loop tmp a)
unfolding value value_onto addi_loop
addi_loop-value m tmp [] t s h = omega arith
addi_loop-value m tmp (x ∷ a) t s h =
    let ih = addi_loop-value m ((tmp + x) % 2 ^ 32 / 2 ^ 30) a (omega arith) s h.1 in
    (omega (arith, ih.0), (omega (arith, ih.1.0), (omega arith, ih.1.1)))

-- The first `temp` is 1, so a run of digits 2^30 - 1 stands for the weight above them.
pub subtractmod_loop-value :
    (temp : ℕ) (a b p : List ℕ)
    → temp ≤ 3
    → length a ≡ length b
    → length a ≡ length p
    → AllBelow (2 ^ 30) a
    → AllBelow (2 ^ 30) b
    → AllBelow (2 ^ 30) p
    → (value_onto (subtractmod_loop temp a b p).0 (subtractmod_loop temp a b p).1 + value b + 1
        ≡ value a + 2 * value p + temp + weight (length a))
      × IsOutput (length a) (subtractmod_loop temp a b p)
unfolding value value_onto weight subtractmod_loop
subtractmod_loop-value temp [] [] [] t e f h k l = omega arith
subtractmod_loop-value temp [] [] (z ∷ p) t e f h k l = absurd (omega arith)
subtractmod_loop-value temp [] (y ∷ b) p t e f h k l = absurd (omega arith)
subtractmod_loop-value temp (x ∷ a) [] p t e f h k l = absurd (omega arith)
subtractmod_loop-value temp (x ∷ a) (y ∷ b) [] t e f h k l = absurd (omega arith)
subtractmod_loop-value temp (x ∷ a) (y ∷ b) (z ∷ p) t e f h k l =
    let sum = (temp + 0x3FFFFFFF + x + 2 * z + 2 ^ 32 - y) % 2 ^ 32 in
    let ih =
      subtractmod_loop-value (sum / 2 ^ 30) a b p (omega arith) (omega arith) (omega arith) h.1 k.1
        l.1 in
    (omega (arith, ih.0), (omega (arith, ih.1.0), (omega arith, ih.1.1)))

pub subtract_loop-value :
    (tmp : ℕ) (a b : List ℕ)
    → tmp ≤ 1
    → length a ≡ length b
    → AllBelow (2 ^ 30) a
    → AllBelow (2 ^ 30) b
    → (value_onto (subtract_loop tmp a b).0 (subtract_loop tmp a b).1 + value b + 1
        ≡ value a + tmp + weight (length a))
      × IsOutput (length a) (subtract_loop tmp a b)
unfolding value value_onto weight subtract_loop
subtract_loop-value tmp [] [] t e h k = omega arith
subtract_loop-value tmp [] (y ∷ b) t e h k = absurd (omega arith)
subtract_loop-value tmp (x ∷ a) [] t e h k = absurd (omega arith)
subtract_loop-value tmp (x ∷ a) (y ∷ b) t e h k =
    let sum = (tmp + 0x3FFFFFFF + x + 2 ^ 32 - y) % 2 ^ 32 in
    let ih = subtract_loop-value (sum / 2 ^ 30) a b (omega arith) (omega arith) h.1 k.1 in
    (omega (arith, ih.0), (omega (arith, ih.1.0), (omega arith, ih.1.1)))
