-- ===== src/Mnemonic/Finish.antt =====
-- The second loop of data_from_mnemonic (ios/Classes/bip39.c) ends.
use flutter_sdk.Base.{ℕ, zero, suc, ◌+◌, ◌≤◌, ◌≡◌, ◌≢◌, arith, List, [], ◌∷◌}
use flutter_sdk.Base.{some, Option-cases, length, length-drop, drop, inl, inr}
use flutter_sdk.Mnemonic.{split_word, find_word, words_loop, write_bits, unfinished}
use flutter_sdk.Mnemonic.English.{wordlist}

split_word-length : (j : ℕ) (cs w r : List ℕ) → split_word j cs ≡ some (w, r) → length r ≤ length cs
unfolding split_word
split_word-length j [] w r e = ground arith
split_word-length j (c ∷ cs) w r e = elim (Option-cases (split_word (j + 1) cs)) [
  | inl nothing ↦ ground (arith, nothing)
  | inr (pair, found) ↦ ground (arith, found, split_word-length (j + 1) cs pair.0 pair.1 found)
]

-- With as much fuel as there are characters, the loop over the words does not run out of it.
pub words_loop-finishes :
    (fuel : ℕ) (text bytes : List ℕ) (bi : ℕ)
    → length text ≤ fuel
    → words_loop fuel text bytes bi ≢ unfinished
unfolding words_loop
words_loop-finishes zero [] bytes bi h = λ e. cc
words_loop-finishes zero (c ∷ cs) bytes bi h = absurd (omega arith)
words_loop-finishes (suc fuel) [] bytes bi h = λ e. cc
words_loop-finishes (suc fuel) (c ∷ cs) bytes bi h = elim (Option-cases (split_word 0 (c ∷ cs))) [
  | inl nothing ↦ rw (nothing, words_loop) (λ e. cc)
  | inr (pair, found) ↦
      let shorter : length (drop 1 pair.1) ≤ fuel =
        omega
          (arith, length-drop {A = ℕ} 1 pair.1, split_word-length 0 (c ∷ cs) pair.0 pair.1 found) in
      elim (Option-cases (find_word pair.0 0 wordlist)) [
        | inl missing ↦ rw (found, missing, words_loop) (λ e. cc)
        | inr (k, at) ↦
            rw (found, at, words_loop)
              (words_loop-finishes fuel (drop 1 pair.1) (write_bits 11 k bytes bi).0
                (write_bits 11 k bytes bi).1 shorter)
      ]
]
