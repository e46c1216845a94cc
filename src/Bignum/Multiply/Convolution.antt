-- ===== src/Bignum/Multiply/Convolution.antt =====
-- The columns of a product, taken with their weights, are the product.
use flutter_sdk.Base.{ℕ, zero, suc, ◌+◌, ◌-◌, ◌*◌, ◌≡◌, refl, arith, ap}
use flutter_sdk.Base.{List, [], ◌∷◌, length, drop, get_or}
use flutter_sdk.Bignum.Limbs.{value, value_onto}
use flutter_sdk.Bignum.Multiply.Long.{column, columns}
use mathlib.Core.Path.{subst₂}

-- The 17 columns that bn_multiply_long goes through, as a number.
abbrev pub all_columns : List ℕ → List ℕ → ℕ
all_columns k x =
    value_onto (columns (λ i. 0) (λ i. i + 1) k x 0 9)
      (value_onto (columns (λ i. i - 8) (λ i. 17 - i) k x 9 8) 0)

-- The first n elements, with zeros behind the end.
abbrev padded : ℕ → List ℕ → List ℕ
padded zero xs = []
padded (suc n) xs = get_or xs 0 0 ∷ padded n (drop 1 xs)

padded_lem : (n : ℕ) (xs : List ℕ) → length xs ≡ n → padded n xs ≡ xs
padded_lem zero [] e = refl
padded_lem zero (x ∷ xs) e = absurd (omega arith)
padded_lem (suc n) [] e = absurd (omega arith)
padded_lem (suc n) (x ∷ xs) e = ap (λ ys. x ∷ ys) (padded_lem n xs (omega arith))

-- A limb times nine limbs.
row :
    (k a b c d e f g h i : ℕ)
    → k * value (a ∷ b ∷ c ∷ d ∷ e ∷ f ∷ g ∷ h ∷ i ∷ [])
      ≡ value (k * a ∷ k * b ∷ k * c ∷ k * d ∷ k * e ∷ k * f ∷ k * g ∷ k * h ∷ k * i ∷ [])
unfolding value
row k a b c d e f g h i = omega arith

-- Nine limbs times a number.
rows :
    (a b c d e f g h i v : ℕ)
    → value (a ∷ b ∷ c ∷ d ∷ e ∷ f ∷ g ∷ h ∷ i ∷ []) * v
      ≡ value (a * v ∷ b * v ∷ c * v ∷ d * v ∷ e * v ∷ f * v ∷ g * v ∷ h * v ∷ i * v ∷ [])
unfolding value
rows a b c d e f g h i v = omega arith

nine_by_nine :
    (a b c d e f g h i a' b' c' d' e' f' g' h' i' : ℕ)
    → let k = a ∷ b ∷ c ∷ d ∷ e ∷ f ∷ g ∷ h ∷ i ∷ [] in
      let x = a' ∷ b' ∷ c' ∷ d' ∷ e' ∷ f' ∷ g' ∷ h' ∷ i' ∷ [] in all_columns k x ≡ value k * value x
unfolding value_onto column columns
nine_by_nine a b c d e f g h i a' b' c' d' e' f' g' h' i' =
    let x : List ℕ = a' ∷ b' ∷ c' ∷ d' ∷ e' ∷ f' ∷ g' ∷ h' ∷ i' ∷ [] in
    rw
      (
        rows a b c d e f g h i (value x),
        row a a' b' c' d' e' f' g' h' i',
        row b a' b' c' d' e' f' g' h' i',
        row c a' b' c' d' e' f' g' h' i',
        row d a' b' c' d' e' f' g' h' i',
        row e a' b' c' d' e' f' g' h' i',
        row f a' b' c' d' e' f' g' h' i',
        row g a' b' c' d' e' f' g' h' i',
        row h a' b' c' d' e' f' g' h' i',
        row i a' b' c' d' e' f' g' h' i',
      )
      (unfold value in omega arith)

pub all_columns-value :
    (k x : List ℕ) → length k ≡ 9 → length x ≡ 9 → all_columns k x ≡ value k * value x
all_columns-value k x ek ex =
    subst₂ (λ k' x'. all_columns k' x' ≡ value k' * value x') (padded_lem 9 k ek)
      (padded_lem 9 x ex) (nine_by_nine _ _ _ _ _ _ _ _ _ _ _ _ _ _ _ _ _ _)
