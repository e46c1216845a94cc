-- ===== src/Base/Lists.antt =====
-- Arrays as lists, measured and indexed by native numbers.
use Prim.Native.Nat.{ℕ, zero, suc, ◌+◌, ◌-◌, ◌≤◌, ◌<◌}
use mathlib.Core.Path.{◌≡◌, refl, ap}
use mathlib.Core.List.{List, [], ◌∷◌, ◌++◌}
use native.Mathlib.Omega.{arith}
use native.Mathlib.Nat.{zero-add, suc-add}

module _ {ℓ} {A : Type ℓ} where
  abbrev pub length : List A → ℕ
  length [] = 0
  length (x ∷ xs) = suc (length xs)

  abbrev pub get_or : List A → ℕ → A → A
  get_or [] i d = d
  get_or (x ∷ xs) zero d = x
  get_or (x ∷ xs) (suc i) d = get_or xs i d

  abbrev pub take : ℕ → List A → List A
  take zero xs = []
  take (suc n) [] = []
  take (suc n) (x ∷ xs) = x ∷ take n xs

  abbrev pub drop : ℕ → List A → List A
  drop zero xs = xs
  drop (suc n) [] = []
  drop (suc n) (x ∷ xs) = drop n xs

  abbrev pub replicate : ℕ → A → List A
  replicate zero x = []
  replicate (suc n) x = x ∷ replicate n x

  pub length-append : (xs ys : List A) → length (xs ++ ys) ≡ length xs + length ys
  length-append [] ys = omega arith
  length-append (x ∷ xs) ys = omega (arith, length-append xs ys)

module _ {ℓ} {A : Type ℓ} where
  pub take-append-drop : (n : ℕ) (xs : List A) → take n xs ++ drop n xs ≡ xs
  take-append-drop zero xs = refl
  take-append-drop (suc n) [] = refl
  take-append-drop (suc n) (x ∷ xs) = rw (take-append-drop n xs)

  pub length-take : (n m : ℕ) (xs : List A) → length xs ≡ n + m → length (take n xs) ≡ n
  length-take zero m xs e = refl
  length-take (suc n) m [] e = absurd (omega arith)
  length-take (suc n) m (x ∷ xs) e = omega (arith, length-take n m xs (omega arith))

  pub length-drop : (n : ℕ) (xs : List A) → length (drop n xs) ≡ length xs - n
  length-drop zero xs = omega arith
  length-drop (suc n) [] = omega arith
  length-drop (suc n) (x ∷ xs) = omega (arith, length-drop n xs)

  pub drop-drop : (m n : ℕ) (xs : List A) → drop n (drop m xs) ≡ drop (m + n) xs
  drop-drop zero n xs = rw zero-add
  drop-drop (suc m) zero [] = rw suc-add
  drop-drop (suc m) (suc n) [] = rw suc-add
  drop-drop (suc m) n (x ∷ xs) = rw suc-add (drop-drop m n xs)

  pub drop-append : (n : ℕ) (xs ys : List A) → length xs ≡ n → drop n (xs ++ ys) ≡ ys
  drop-append zero [] ys e = refl
  drop-append zero (x ∷ xs) ys e = absurd (omega arith)
  drop-append (suc n) [] ys e = absurd (omega arith)
  drop-append (suc n) (x ∷ xs) ys e = drop-append n xs ys (omega arith)

  pub take-append : (n : ℕ) (xs ys : List A) → length xs ≡ n → take n (xs ++ ys) ≡ xs
  take-append zero [] ys e = refl
  take-append zero (x ∷ xs) ys e = absurd (omega arith)
  take-append (suc n) [] ys e = absurd (omega arith)
  take-append (suc n) (x ∷ xs) ys e = ap (λ zs. x ∷ zs) (take-append n xs ys (omega arith))

pub take-all {ℓ} : {A : Type ℓ} (n : ℕ) (xs : List A) → length xs ≡ n → take n xs ≡ xs
take-all zero [] e = refl
take-all zero (x ∷ xs) e = absurd (omega arith)
take-all (suc n) [] e = refl
take-all (suc n) (x ∷ xs) e = ap (λ ys. x ∷ ys) (take-all n xs (omega arith))

-- Every element is below a bound.
abbrev pub AllBelow : ℕ → List ℕ → Type 0
AllBelow b [] = Unit {0}
AllBelow b (x ∷ xs) = (x < b) × AllBelow b xs

pub AllBelow-mono : (b c : ℕ) (xs : List ℕ) → b ≤ c → AllBelow b xs → AllBelow c xs
AllBelow-mono b c [] h all = tt
AllBelow-mono b c (x ∷ xs) h all = (omega arith, AllBelow-mono b c xs h all.1)

pub take-AllBelow : (b n : ℕ) (xs : List ℕ) → AllBelow b xs → AllBelow b (take n xs)
take-AllBelow b zero xs h = tt
take-AllBelow b (suc n) [] h = tt
take-AllBelow b (suc n) (x ∷ xs) h = (h.0, take-AllBelow b n xs h.1)

pub drop-AllBelow : (b n : ℕ) (xs : List ℕ) → AllBelow b xs → AllBelow b (drop n xs)
drop-AllBelow b zero xs h = h
drop-AllBelow b (suc n) [] h = tt
drop-AllBelow b (suc n) (x ∷ xs) h = drop-AllBelow b n xs h.1

pub get_or-AllBelow : (b n : ℕ) (xs : List ℕ) → 0 < b → AllBelow b xs → get_or xs n 0 < b
get_or-AllBelow b n [] p h = p
get_or-AllBelow b zero (x ∷ xs) p h = h.0
get_or-AllBelow b (suc n) (x ∷ xs) p h = get_or-AllBelow b n xs p h.1

pub AllBelow-append :
    (b : ℕ) (xs ys : List ℕ) → AllBelow b xs → AllBelow b ys → AllBelow b (xs ++ ys)
AllBelow-append b [] ys h k = k
AllBelow-append b (x ∷ xs) ys h k = (h.0, AllBelow-append b xs ys h.1 k)

pub replicate-AllBelow : (b n x : ℕ) → x < b → AllBelow b (replicate n x)
replicate-AllBelow b zero x h = tt
replicate-AllBelow b (suc n) x h = (h, replicate-AllBelow b n x h)

pub length-replicate {ℓ} : {A : Type ℓ} (n : ℕ) (x : A) → length (replicate n x) ≡ n
length-replicate zero x = refl
length-replicate (suc n) x = omega (arith, length-replicate n x)
