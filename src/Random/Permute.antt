-- ===== src/Random/Permute.antt =====
-- random_permute of ios/Classes/rand.c only changes the order of the characters.
use flutter_sdk.Base.{ℕ, zero, suc, ◌+◌, ◌-◌, ◌/◌, ◌%◌, ◌^◌, ◌<◌, ◌≤◌, ◌≡◌, refl, arith, ap, ◌∙◌}
use flutter_sdk.Base.{List, [], ◌∷◌, some, true, ltb, ◌==◌, flag, get_or, length, AllBelow}
use native.Mathlib.Nat.{mod-lt}
use flutter_sdk.Random.{uniform_max, random_uniform, set_char, swap_chars, permute_loop}
use flutter_sdk.Random.{last_index, random_permute}
use flutter_sdk.Random.Uniform.{share, random_uniform-share}

-- How often the character stands in the text.
unfoldable pub count : ℕ → List ℕ → ℕ
count c [] = 0
count c (x ∷ xs) = flag (x == c) + count c xs

length-set_char : (str : List ℕ) (i c : ℕ) → length (set_char str i c) ≡ length str
unfolding set_char
length-set_char [] i c = refl
length-set_char (x ∷ xs) zero c = refl
length-set_char (x ∷ xs) (suc i) c = omega (arith, length-set_char xs i c)

count-set_char :
    (c : ℕ) (str : List ℕ) (i v : ℕ)
    → i < length str
    → count c (set_char str i v) + flag (get_or str i 0 == c) ≡ count c str + flag (v == c)
unfolding set_char count
count-set_char c [] i v inside = absurd (omega arith)
count-set_char c (x ∷ xs) zero v inside = omega arith
count-set_char c (x ∷ xs) (suc i) v inside = omega (arith, count-set_char c xs i v (omega arith))

-- Writing the character number i elsewhere does not change the character number i.
get_or-set_char :
    (str : List ℕ) (i j : ℕ) → get_or (set_char str j (get_or str i 0)) i 0 ≡ get_or str i 0
unfolding set_char
get_or-set_char [] i j = refl
get_or-set_char (x ∷ xs) zero zero = refl
get_or-set_char (x ∷ xs) zero (suc j) = refl
get_or-set_char (x ∷ xs) (suc i) zero = refl
get_or-set_char (x ∷ xs) (suc i) (suc j) = get_or-set_char xs i j

swap_chars-counts :
    (str : List ℕ) (i j : ℕ)
    → i < length str
    → j < length str
    → (length (swap_chars str i j) ≡ length str)
      × ((c : ℕ) → count c (swap_chars str i j) ≡ count c str)
unfolding swap_chars
swap_chars-counts str i j left right =
    let first = set_char str j (get_or str i 0) in
    let long = length-set_char str j (get_or str i 0) in
    (
      length-set_char first i (get_or str j 0) ∙ long,
      λ c. omega (
        arith,
        count-set_char c first i (get_or str j 0) (omega (arith, long)),
        ap (λ t. flag (t == c)) (get_or-set_char str i j),
        count-set_char c str j (get_or str i 0) right,
      ),
    )

-- A word below 2^31 is taken at once.
random_uniform-taken :
    (n x : ℕ) (words : List ℕ)
    → 0 < n
    → n ≤ 2 ^ 31
    → x < 2 ^ 31
    → (random_uniform n (x ∷ words) ≡ some (x / share n, words)) × (x / share n < n)
unfolding uniform_max
random_uniform-taken n x words positive small below =
    let (drawn, less, _) =
      random_uniform-share n positive (omega arith) [] x words tt
        (omega (arith, mod-lt 0xffffffff {m = n} positive)) in
    (drawn, less)

permute_loop-counts :
    (i : ℕ) (str words : List ℕ)
    → i < length str
    → length str < 2 ^ 31
    → i ≤ length words
    → AllBelow (2 ^ 31) words
    → (out : List ℕ) × (rest : List ℕ) × (permute_loop i str words ≡ some (out, rest))
      × (length out ≡ length str)
      × ((c : ℕ) → count c out ≡ count c str)
unfolding permute_loop
permute_loop-counts zero str words inside small enough below = (str, words, refl, refl, λ c. refl)
permute_loop-counts (suc i) str [] inside small enough below = absurd (omega arith)
permute_loop-counts (suc i) str (x ∷ words) inside small enough below =
    let (drawn, less) =
      random_uniform-taken (suc i + 1) x words (omega arith) (omega arith) below.0 in
    let fits : ltb (suc i + 1) (2 ^ 31) ≡ true = ground arith in
    let j = x / share (suc i + 1) in
    let (long, same) = swap_chars-counts str (suc i) j inside (omega arith) in
    let (out, rest, done, long', same') =
      permute_loop-counts i (swap_chars str (suc i) j) words (omega (arith, long))
        (omega (arith, long)) (omega arith) below.1 in
    (out, rest, rw (fits, drawn) done, long' ∙ long, λ c. same' c ∙ same c)

-- For fewer than 2^31 characters and, for each but one, a random word, all of them below 2^31,
-- random_permute ends, and the result has every character as often as the text.
pub random_permute-counts :
    (str words : List ℕ)
    → length str < 2 ^ 31
    → length str ≤ length words + 1
    → AllBelow (2 ^ 31) words
    → (out : List ℕ) × (rest : List ℕ) × (random_permute str words ≡ some (out, rest))
      × (length out ≡ length str)
      × ((c : ℕ) → count c out ≡ count c str)
unfolding random_permute permute_loop last_index
random_permute-counts [] words small enough below = ([], words, refl, refl, λ c. refl)
random_permute-counts (x ∷ xs) words small enough below =
    let last : (length (x ∷ xs) % 2 ^ 32 + (2 ^ 32 - 1)) % 2 ^ 32 ≡ length xs = omega arith in
    let fits : ltb (length xs) (2 ^ 31) ≡ true = ground arith in
    rw (last, fits)
      (permute_loop-counts (length xs) (x ∷ xs) words (omega arith) small (omega arith) below)
