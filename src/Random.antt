-- ===== src/Random.antt =====
-- random_uniform and random_permute of ios/Classes/rand.c. The words that random32 reads from
-- /dev/urandom are a list that the functions take from; they give none where it ends. i and j of
-- random_permute are of type int, of 32 bits; where i + 1 does not fit it, random_permute gives none.
pub mod Uniform
pub mod Permute
mod Tests
use flutter_sdk.Base.{ℕ, zero, suc, ◌+◌, ◌-◌, ◌/◌, ◌%◌, ◌^◌, List, [], ◌∷◌, Option, none, some}
use flutter_sdk.Base.{ltb, if◌then◌else◌, get_or, length, ◌>>=◌}

pub uniform_max : ℕ → ℕ
uniform_max n = 0xffffffff - 0xffffffff % n

-- while ((x = random32()) >= max); the number, and the words that are left.
pub random_uniform : ℕ → List ℕ → Option (ℕ × List ℕ)
unfolding uniform_max
random_uniform n [] = none
random_uniform n (x ∷ words) =
    let later = random_uniform n words in
    if ltb x (uniform_max n) then some (x / (uniform_max n / n), words) else later

-- str[i] = c
pub set_char : List ℕ → ℕ → ℕ → List ℕ
set_char [] i c = []
set_char (x ∷ xs) zero c = c ∷ xs
set_char (x ∷ xs) (suc i) c = x ∷ set_char xs i c

-- t = str[j]; str[j] = str[i]; str[i] = t
pub swap_chars : List ℕ → ℕ → ℕ → List ℕ
unfolding set_char
swap_chars str i j = set_char (set_char str j (get_or str i 0)) i (get_or str j 0)

-- The loop over i, from i down to 1; none where i + 1 overflows.
pub permute_loop : ℕ → List ℕ → List ℕ → Option (List ℕ × List ℕ)
permute_loop zero str words = some (str, words)
permute_loop (suc i) str words =
    let drawn = if ltb (suc i + 1) (2 ^ 31) then random_uniform (suc i + 1) words else none in
    do (j, rest) ← drawn; permute_loop i (swap_chars str (suc i) j) rest

-- (uint32_t)len - 1
pub last_index : List ℕ → ℕ
last_index str = (length str % 2 ^ 32 + (2 ^ 32 - 1)) % 2 ^ 32

-- As an int it is negative from 2^31 on, for no characters too, and the loop ends at once.
pub random_permute : List ℕ → List ℕ → Option (List ℕ × List ℕ)
random_permute str words =
    if ltb (last_index str) (2 ^ 31)
    then permute_loop (last_index str) str words
    else some (str, words)
