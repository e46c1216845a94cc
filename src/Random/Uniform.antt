-- ===== src/Random/Uniform.antt =====
-- random_uniform of ios/Classes/rand.c gives every number as many words.
use flutter_sdk.Base.{ℕ, ◌+◌, ◌*◌, ◌/◌, ◌^◌, ◌<◌, ◌≤◌, ◌≡◌, ◌↔◌, arith, ap, ◌∙◌}
use native.Mathlib.Nat.{div-add-mod, le-div_iff_mul-le, mul-div_cancel_left, div-mul-le_self}
use native.Mathlib.Nat.{lt-div-mul-add, div-eq_of_lt-le, div-lt_iff_lt-mul}
use flutter_sdk.Base.{List, [], ◌∷◌, ◌++◌, some}
use flutter_sdk.Random.{uniform_max, random_uniform}

-- Every word is one that random_uniform passes over.
abbrev pub AllRefused : ℕ → List ℕ → Type 0
AllRefused n [] = Unit {0}
AllRefused n (x ∷ xs) = (uniform_max n ≤ x) × AllRefused n xs

-- The number of words for each number.
abbrev pub share : ℕ → ℕ
share n = 0xffffffff / n

module _ (n : ℕ) (positive : 0 < n) (small : n < 2 ^ 32) where
  uniform_max-share : (uniform_max n ≡ n * share n) × (0 < share n)
  unfolding uniform_max
  uniform_max-share =
      (omega (arith, div-add-mod 0xffffffff n), (le-div_iff_mul-le positive).1 (omega arith))

  share-quotient : uniform_max n / n ≡ share n
  share-quotient =
      ap (λ (t : ℕ). t / n) uniform_max-share.0 ∙ mul-div_cancel_left (share n) positive

  -- The first word below the maximum decides.
  random_uniform-first :
      (front : List ℕ) (x : ℕ) (rest : List ℕ)
      → AllRefused n front
      → x < uniform_max n
      → random_uniform n (front ++ x ∷ rest) ≡ some (x / share n, rest)
  unfolding random_uniform
  random_uniform-first [] x rest all below = ground (arith, ap (λ (t : ℕ). x / t) share-quotient)
  random_uniform-first (y ∷ front) x rest all below =
      ground (arith, random_uniform-first front x rest all.1 below)

  -- For n > 0 below 2^32: the first word x below the maximum decides, the result is less than n, and
  -- each number r is the result for the words from r * share to (r + 1) * share, as many for each.
  pub random_uniform-share :
      (front : List ℕ) (x : ℕ) (rest : List ℕ)
      → AllRefused n front
      → x < uniform_max n
      → (random_uniform n (front ++ x ∷ rest) ≡ some (x / share n, rest))
        × (x / share n < n)
        × ((r : ℕ) → (x / share n ≡ r) ↔ (r * share n ≤ x) × (x < r * share n + share n))
  random_uniform-share front x rest all below =
      let (whole, some_words) = uniform_max-share in
      (
        random_uniform-first front x rest all below,
        (div-lt_iff_lt-mul some_words).1 (omega (arith, whole, below)),
        λ r. (
          (λ same. omega (
            arith,
            same,
            div-mul-le_self x (share n),
            lt-div-mul-add {a = x} some_words,
            ap (λ (t : ℕ). t * share n) same,
          )),
          (λ within. div-eq_of_lt-le (share n) (omega (arith, within.0)) (omega (arith, within.1))),
        ),
      )
