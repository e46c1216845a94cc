-- ===== src/KeyTree/Derive.antt =====
-- hdnode_private_ckd of ios/Classes/bip32.c: the loop over the hashes, and the node that it makes.
use flutter_sdk.Base.{ℕ, zero, suc, ◌<◌, ◌≡◌, refl, arith, ap, ◌∙◌}
use flutter_sdk.Base.{List, ◌∷◌, ◌++◌, none, some}
use flutter_sdk.Base.{take, drop, length, length-take, length-drop, drop-append, AllBelow}
use flutter_sdk.Hash.{Functions, sha512_of}
use flutter_sdk.Hash.Laws.{IsSha}
use flutter_sdk.Hmac.{hmac}
use flutter_sdk.Hmac.Digest.{length-hmac, hmac-AllBelow}
use flutter_sdk.Bignum.Limbs.{Bignum256, value, IsNormalized, IsModulus}
use flutter_sdk.Bignum.Bytes.{bn_write_be}
use flutter_sdk.KeyTree.Child.{GivesChild, ckd_sum}
use flutter_sdk.KeyTree.Child.{ckd_try-child, ckd_try-none}
use flutter_sdk.KeyTree.{ckd_loop, ckd_retry}
use flutter_sdk.KeyTree.{ckd_try}

module _ (fs : Functions) (chain index : List ℕ) where
  -- The hash number j: the first is of the head, each next one of the right half of the one before.
  unfoldable pub ckd_hash : ℕ → List ℕ → List ℕ
  ckd_hash zero head = hmac (sha512_of fs) chain (head ++ index)
  ckd_hash (suc j) head =
      ckd_hash j (1 ∷ take 32 (drop 32 (hmac (sha512_of fs) chain (head ++ index))))

  module _ (order a : Bignum256) (fuel : ℕ) (bytes i : List ℕ) where
    ckd_loop-found :
        {key : List ℕ}
        → ckd_try order a i ≡ some key
        → ckd_loop fs chain order a (suc fuel) bytes i ≡ some (key, i)
    unfolding ckd_loop
    ckd_loop-found found = rw (ckd_loop, found) refl

    ckd_loop-again :
        ckd_try order a i ≡ none
        → ckd_loop fs chain order a (suc fuel) bytes i
          ≡ ckd_loop fs chain order a fuel
              (ckd_retry bytes i)
              (hmac (sha512_of fs) chain (ckd_retry bytes i))
    unfolding ckd_loop
    ckd_loop-again failed = rw (ckd_loop, failed) refl

  module _ (sha : IsSha (sha512_of fs)) where
    hmac-size : (m : List ℕ) → length (hmac (sha512_of fs) chain m) ≡ 64
    hmac-size m = length-hmac (sha512_of fs) sha chain m

    hmac-bytes : (m : List ℕ) → AllBelow 256 (hmac (sha512_of fs) chain m)
    hmac-bytes m = hmac-AllBelow (sha512_of fs) sha chain m

    pub ckd_hash-size : (j : ℕ) (head : List ℕ) → length (ckd_hash j head) ≡ 64
    unfolding ckd_hash
    ckd_hash-size zero head = hmac-size (head ++ index)
    ckd_hash-size (suc j) head = ckd_hash-size j _

    pub ckd_hash-bytes : (j : ℕ) (head : List ℕ) → AllBelow 256 (ckd_hash j head)
    unfolding ckd_hash
    ckd_hash-bytes zero head = hmac-bytes (head ++ index)
    ckd_hash-bytes (suc j) head = ckd_hash-bytes j _

    right_half : (m : List ℕ) → length (take 32 (drop 32 (hmac (sha512_of fs) chain m))) ≡ 32
    right_half m =
        let i = hmac (sha512_of fs) chain m in
        length-take 32 0 (drop 32 i) (omega (arith, length-drop 32 i, hmac-size m))

    module _ (order a : Bignum256) (modulus : IsModulus order) (normal : IsNormalized a) where
      -- A hash that gives no child is hashed again.
      ckd_loop-step :
          (fuel : ℕ) (head : List ℕ)
          → length head ≡ 33
          → ¬ GivesChild order (value a) (ckd_hash 0 head)
          → let next = 1 ∷ take 32 (drop 32 (hmac (sha512_of fs) chain (head ++ index))) in
            (length next ≡ 33)
            × (ckd_loop fs chain order a
                  (suc fuel)
                  (head ++ index)
                  (hmac (sha512_of fs) chain (head ++ index))
                ≡ ckd_loop fs chain order a fuel
                    (next ++ index)
                    (hmac (sha512_of fs) chain (next ++ index)))
      unfolding ckd_hash ckd_retry
      ckd_loop-step fuel head long fails =
          let i = hmac (sha512_of fs) chain (head ++ index) in
          let retry : ckd_retry (head ++ index) i ≡ (1 ∷ take 32 (drop 32 i)) ++ index =
            ap (λ t. 1 ∷ take 32 (drop 32 i) ++ t) (drop-append 33 head index long) in
          (
            omega (arith, right_half (head ++ index)),
            ckd_loop-again order a fuel (head ++ index) i
                  (ckd_try-none order a modulus normal i (hmac-size _) (hmac-bytes _) fails)
                ∙ ap
                    (λ bytes.
                      ckd_loop fs chain order a fuel bytes (hmac (sha512_of fs) chain bytes))
                    retry,
          )

      -- The loop stops at the first hash that gives a child.
      pub ckd_loop-first :
          (j fuel : ℕ) (head : List ℕ)
          → length head ≡ 33
          → ((m : ℕ) → m < j → ¬ GivesChild order (value a) (ckd_hash m head))
          → GivesChild order (value a) (ckd_hash j head)
          → j < fuel
          → ckd_loop fs chain order a fuel
              (head ++ index)
              (hmac (sha512_of fs) chain (head ++ index))
            ≡ some (bn_write_be (ckd_sum order a (ckd_hash j head)), ckd_hash j head)
      unfolding ckd_hash
      ckd_loop-first j zero head long fails gives less = absurd (omega arith)
      ckd_loop-first zero (suc fuel) head long fails gives less =
          let i = ckd_hash 0 head in
          ckd_loop-found order a fuel (head ++ index) i
            (ckd_try-child order a modulus normal i (hmac-size _) (hmac-bytes _) gives).0
      ckd_loop-first (suc j) (suc fuel) head long fails gives less =
          let (size, step) = ckd_loop-step fuel head long (fails 0 (omega arith)) in
          step
          ∙ ckd_loop-first j fuel
              (1 ∷ take 32 (drop 32 (hmac (sha512_of fs) chain (head ++ index)))) size
              (λ m small. fails (suc m) (omega arith)) gives (omega arith)

      -- Where no hash gives a child, the fuel ends.
      pub ckd_loop-none :
          (fuel : ℕ) (head : List ℕ)
          → length head ≡ 33
          → ((m : ℕ) → m < fuel → ¬ GivesChild order (value a) (ckd_hash m head))
          → ckd_loop fs chain order a fuel
              (head ++ index)
              (hmac (sha512_of fs) chain (head ++ index))
            ≡ none
      unfolding ckd_hash ckd_loop
      ckd_loop-none zero head long fails = refl
      ckd_loop-none (suc fuel) head long fails =
          let (size, step) = ckd_loop-step fuel head long (fails 0 (omega arith)) in
          step
          ∙ ckd_loop-none fuel (1 ∷ take 32 (drop 32 (hmac (sha512_of fs) chain (head ++ index))))
              size (λ m small. fails (suc m) (omega arith))
