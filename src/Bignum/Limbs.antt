-- ===== src/Bignum/Limbs.antt =====
-- The number that an array of limbs stands for (ios/Classes/bignum.h, `bignum256`).
use flutter_sdk.Base.{
  ℕ, zero, suc, ◌+◌, ◌*◌, ◌^◌, ◌<◌, ◌≤◌, ◌≡◌, refl, arith, List, [], ◌∷◌, ◌++◌, drop, get_or,
}
use flutter_sdk.Base.{length, AllBelow, AllBelow-mono, ap₂}

-- `val`, lowest limb first.
abbrev pub Bignum256 : Type 0
Bignum256 = List ℕ

-- sum val[i] * 2^(30 i)
unfoldable pub value : List ℕ → ℕ
value [] = 0
value (x ∷ xs) = x + 2 ^ 30 * value xs

-- The same with a number `top` above the limbs.
unfoldable pub value_onto : List ℕ → ℕ → ℕ
value_onto [] top = top
value_onto (x ∷ xs) top = x + 2 ^ 30 * value_onto xs top

-- (2^30)^n
unfoldable pub weight : ℕ → ℕ
weight zero = 1
weight (suc n) = 2 ^ 30 * weight n

-- The limbs from k on, by their lowest.
pub value-drop :
    (k : ℕ) (xs : List ℕ)
    → k < length xs
    → value (drop k xs) ≡ get_or xs k 0 + 2 ^ 30 * value (drop (suc k) xs)
unfolding value
value-drop k [] h = elim h [ ]
value-drop zero (x ∷ xs) h = refl
value-drop (suc k) (x ∷ xs) h = value-drop k xs (omega arith)

pub value-nil : (xs : List ℕ) → length xs ≡ 0 → value xs ≡ 0
unfolding value
value-nil [] e = refl
value-nil (x ∷ xs) e = absurd (omega arith)

-- Nine limbs of 32 bits, as the struct is declared.
pub record IsBignum (x : Bignum256) : Type 0 where
  pub size : length x ≡ 9
  pub words : AllBelow (2 ^ 32) x

-- "The number is normalized iff every digit is < 2^30."
pub record IsNormalized (x : Bignum256) : Type 0 where
  pub size : length x ≡ 9
  pub digits : AllBelow (2 ^ 30) x

pub value-lt-weight : (xs : List ℕ) → AllBelow (2 ^ 30) xs → value xs < weight (length xs)
unfolding value weight
value-lt-weight [] h = omega arith
value-lt-weight (x ∷ xs) h = omega (arith, value-lt-weight xs h.1)

pub value_lt_weight :
    {n : ℕ} (xs : List ℕ) → length xs ≡ n → AllBelow (2 ^ 30) xs → value xs < weight n
value_lt_weight xs e h = rw e at (value-lt-weight xs h)

pub value_onto-split :
    (xs : List ℕ) (top : ℕ) → value_onto xs top ≡ value xs + weight (length xs) * top
unfolding value value_onto weight
value_onto-split [] top = omega arith
value_onto-split (x ∷ xs) top = omega (arith, value_onto-split xs top)

pub value-append : (xs ys : List ℕ) → value (xs ++ ys) ≡ value_onto xs (value ys)
unfolding value value_onto
value-append [] ys = refl
value-append (x ∷ xs) ys = omega (arith, value-append xs ys)

-- Normalized limbs are determined by their value.
pub value-injective :
    (xs ys : List ℕ)
    → length xs ≡ length ys
    → AllBelow (2 ^ 30) xs
    → AllBelow (2 ^ 30) ys
    → value xs ≡ value ys
    → xs ≡ ys
unfolding value
value-injective [] [] e h k v = refl
value-injective [] (y ∷ ys) e h k v = absurd (omega arith)
value-injective (x ∷ xs) [] e h k v = absurd (omega arith)
value-injective (x ∷ xs) (y ∷ ys) e h k v =
    ap₂ ◌∷◌ (omega arith) (value-injective xs ys (omega arith) h.1 k.1 (omega arith))

pub IsNormalized-IsBignum : {x : Bignum256} → IsNormalized x → IsBignum x
IsNormalized-IsBignum {x} n = record {
  size = n.size;
  words = AllBelow-mono (2 ^ 30) (2 ^ 32) x (omega arith) n.digits;
}

-- Nine normalized limbs hold 270 bits.
pub value_lt : {x : Bignum256} → IsNormalized x → value x < 2 ^ 270
unfolding weight
value_lt {x} n = rw n.size at (value-lt-weight x n.digits)

pub value_onto-nine :
    (xs : List ℕ) (top : ℕ) → length xs ≡ 9 → value_onto xs top ≡ value xs + 2 ^ 270 * top
unfolding weight
value_onto-nine xs top e = rw e at (value_onto-split xs top)

-- What a loop that masks with 0x3FFFFFFF leaves: n limbs, and the carry.
abbrev pub IsOutput : ℕ → List ℕ × ℕ → Type 0
IsOutput n r = (length r.0 ≡ n) × AllBelow (2 ^ 30) r.0

-- The same after nine rounds.
pub record IsNine (r : List ℕ × ℕ) : Type 0 where
  pub normal : IsNormalized r.0
  pub onto : value_onto r.0 r.1 ≡ value r.0 + 2 ^ 270 * r.1
  pub below : value r.0 < 2 ^ 270

pub nine : {n : ℕ} (r : List ℕ × ℕ) → n ≡ 9 → IsOutput n r → IsNine r
nine r e (size, digits) =
    let size' : length r.0 ≡ 9 = omega arith in
    let normal : IsNormalized r.0 = record { size = size'; digits = digits } in
    record { normal = normal; onto = value_onto-nine r.0 r.1 size'; below = value_lt normal }

-- What the reductions ask of a prime: it lies between 2^256 - 2^224 and 2^256.
pub record IsModulus (prime : Bignum256) : Type 0 where
  pub normal : IsNormalized prime
  pub low : 2 ^ 256 ≤ value prime + 2 ^ 224
  pub high : value prime < 2 ^ 256

-- r is the number v with a multiple of the prime taken off, "a normalized number between 0
-- (inclusive) and 2*prime (exclusive)".
pub record IsPartlyReduced (v : ℕ) (prime r : Bignum256) : Type 0 where
  pub normal : IsNormalized r
  pub below : value r < 2 * value prime
  pub multiple : ℕ
  pub equation : v ≡ value r + multiple * value prime
