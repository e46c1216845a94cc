-- ===== src/Random/Tests.antt =====
-- The theorems on ios/Classes/rand.c at concrete inputs.
use flutter_sdk.Base.{
  ℕ, ◌+◌, ◌*◌, ◌/◌, ◌<◌, ◌≤◌, ◌≡◌, ◌↔◌, arith, List, [], ◌∷◌, some, codes, length,
}
use flutter_sdk.Random.{uniform_max, random_uniform, random_permute}
use flutter_sdk.Random.Uniform.{share, random_uniform-share}
use flutter_sdk.Random.Permute.{count, random_permute-counts}

-- The first word is at the maximum 4294967290 of 10.
random_uniform-share_example :
    (random_uniform 10 (4294967290 ∷ 3000000000 ∷ []) ≡ some (3000000000 / share 10, []))
    × (3000000000 / share 10 < 10)
    × ((r : ℕ)
        → (3000000000 / share 10 ≡ r)
          ↔ (r * share 10 ≤ 3000000000) × (3000000000 < r * share 10 + share 10))
unfolding uniform_max
random_uniform-share_example =
    random_uniform-share 10 (omega arith) (omega arith) (4294967290 ∷ []) 3000000000 []
      (omega arith, tt) (omega arith)

random_permute-counts_example :
    (out : List ℕ) × (rest : List ℕ) × (random_permute
        (codes "wxyz")
        (1000000000 ∷ 2000000000 ∷ 1 ∷ [])
      ≡ some (out, rest))
    × (length out ≡ 4)
    × ((c : ℕ) → count c out ≡ count c (codes "wxyz"))
random_permute-counts_example =
    random_permute-counts (codes "wxyz") (1000000000 ∷ 2000000000 ∷ 1 ∷ []) (omega arith)
      (omega arith) (omega arith)
