-- ===== src/Mnemonic/Text.antt =====
-- The text that mnemonic_from_data of ios/Classes/bip39.c builds, as data_from_mnemonic takes it
-- apart.
use flutter_sdk.Base.{ℕ, zero, suc, ◌+◌, ◌-◌, ◌*◌, ◌^◌, ◌<◌, ◌≤◌, ◌≡◌, refl, arith, ap, ◌∙◌}
use flutter_sdk.Base.{List, [], ◌∷◌, ◌++◌, true, false, ltb}
use flutter_sdk.Base.{length, length-append, get_or, drop, some, u32, AllBelow}
use native.Mathlib.Nat.{mul-le-mul_right}
use flutter_sdk.Mnemonic.{split_word, find_word, words_loop, write_bits, scanned, count_words}
use flutter_sdk.Mnemonic.{mnemo_loop, word_index}
use flutter_sdk.Mnemonic.English.{wordlist}
use flutter_sdk.Mnemonic.Find.{IsWord, HasNoSpace, wordlist-IsWord, find_word-wordlist}
use flutter_sdk.Mnemonic.Bits.{num, num-lt, clip, write_bits-clip, word_index-num}

-- What may stand behind a word: nothing, or a space.
abbrev IsStop : List ℕ → Type 0
IsStop [] = Unit {0}
IsStop (c ∷ cs) = c ≡ 32

split_word-append :
    (j : ℕ) (w tail : List ℕ)
    → HasNoSpace w
    → j + length w ≤ 9
    → IsStop tail
    → split_word j (w ++ tail) ≡ some (w, tail)
unfolding split_word
split_word-append j [] [] plain fits stop = refl
split_word-append j [] (c ∷ cs) plain fits stop = rw stop
split_word-append j (c ∷ w) tail plain fits stop =
    ground (arith, split_word-append (j + 1) w tail plain.1 (omega arith) stop)

-- One round of the second loop.
words_loop-word :
    (fuel k : ℕ) (w tail bytes : List ℕ) (bi : ℕ)
    → IsWord w
    → find_word w 0 wordlist ≡ some k
    → IsStop tail
    → words_loop (suc fuel) (w ++ tail) bytes bi
      ≡ words_loop fuel (drop 1 tail) (write_bits 11 k bytes bi).0 (write_bits 11 k bytes bi).1
unfolding words_loop
words_loop-word fuel k [] tail bytes bi word found stop = absurd (omega (arith, word.not_empty))
words_loop-word fuel k (c ∷ w) tail bytes bi word found stop =
    let split = split_word-append 0 (c ∷ w) tail word.no_space (omega (arith, word.fits)) stop in
    ground (arith, split, found)

count_words-append :
    (n : ℕ) (w tail : List ℕ) → HasNoSpace w → count_words n (w ++ tail) ≡ count_words n tail
unfolding count_words
count_words-append n [] tail plain = refl
count_words-append n (c ∷ w) tail plain = ground (arith, count_words-append n w tail plain.1)

word_index-lt : (bits : List ℕ) (i : ℕ) → word_index bits i < 2048
word_index-lt bits i = omega (arith, word_index-num bits i, num-lt bits (i * 11) 11)

-- The word of round i.
abbrev word_at : List ℕ → ℕ → List ℕ
word_at bits i = get_or wordlist (word_index bits i) []

word_at-IsWord : (bits : List ℕ) (i : ℕ) → IsWord (word_at bits i)
word_at-IsWord bits i = wordlist-IsWord (word_index bits i) (word_index-lt bits i)

mnemo_loop-last :
    (bits : List ℕ) (mlen i : ℕ) → i + 1 ≡ mlen → mnemo_loop bits mlen i 1 ≡ word_at bits i ++ []
unfolding mnemo_loop
mnemo_loop-last bits mlen i e = let last : ltb i (mlen - 1) ≡ false = ground arith in rw last

mnemo_loop-more :
    (bits : List ℕ) (mlen i n : ℕ)
    → i + suc (suc n) ≡ mlen
    → mnemo_loop bits mlen i (suc (suc n))
      ≡ word_at bits i ++ 32 ∷ mnemo_loop bits mlen (i + 1) (suc n)
unfolding mnemo_loop
mnemo_loop-more bits mlen i n e = let more : ltb i (mlen - 1) ≡ true = ground arith in rw more

count_space :
    (n : ℕ) (cs : List ℕ) → n + 1 < 2 ^ 32 → count_words n (32 ∷ cs) ≡ count_words (n + 1) cs
unfolding count_words
count_space n cs h = let wrap : u32 (n + 1) ≡ n + 1 = omega arith in ap (λ t. count_words t cs) wrap

count_nothing : (n : ℕ) → n + 1 < 2 ^ 32 → count_words n [] ≡ n + 1
unfolding count_words
count_nothing n h = omega arith

-- The words that are counted.
pub count_words-mnemo_loop :
    (bits : List ℕ) (mlen i n m : ℕ)
    → i + suc n ≡ mlen
    → m + suc n < 2 ^ 32
    → count_words m (mnemo_loop bits mlen i (suc n)) ≡ m + suc n
count_words-mnemo_loop bits mlen i zero m e small =
    ap (count_words m) (mnemo_loop-last bits mlen i (omega arith))
    ∙ count_words-append m (word_at bits i) [] (word_at-IsWord bits i).no_space
    ∙ count_nothing m (omega arith)
count_words-mnemo_loop bits mlen i (suc n) m e small =
    ap (count_words m) (mnemo_loop-more bits mlen i n e)
    ∙ count_words-append m (word_at bits i) _ (word_at-IsWord bits i).no_space
    ∙ count_space m _ (omega arith)
    ∙ count_words-mnemo_loop bits mlen (i + 1) n (m + 1) (omega arith) (omega arith)
    ∙ omega arith

mnemo_loop_not_empty : (bits : List ℕ) (mlen i n : ℕ) → 1 ≤ length (mnemo_loop bits mlen i (suc n))
unfolding mnemo_loop
mnemo_loop_not_empty bits mlen i n =
    omega (arith, length-append (word_at bits i) _, (word_at-IsWord bits i).not_empty)

words_loop-nil :
    (fuel : ℕ) (bytes : List ℕ) (bi : ℕ) → words_loop fuel [] bytes bi ≡ scanned bytes bi
unfolding words_loop
words_loop-nil zero bytes bi = refl
words_loop-nil (suc fuel) bytes bi = refl

-- `bits` are read for the words, and the words are written into an array that `whole` fills.
module _ (bits whole : List ℕ) (mlen : ℕ) (bytes : AllBelow 256 whole)
    (room : mlen * 11 ≤ 8 * length whole) (small : mlen * 11 < 2 ^ 32)
    (agree : (j : ℕ) → j < mlen → word_index bits j ≡ num whole (j * 11) 11) where
  -- The word of round i gives the next eleven bits.
  word_round :
      (fuel i : ℕ) (tail : List ℕ)
      → i < mlen
      → IsStop tail
      → words_loop (suc fuel) (word_at bits i ++ tail) (clip whole (i * 11)) (i * 11)
        ≡ words_loop fuel (drop 1 tail) (clip whole (suc i * 11)) (suc i * 11)
  word_round fuel i tail less stop =
      let k = word_index bits i in
      let lt = word_index-lt bits i in
      let more : suc i * 11 ≤ mlen * 11 = mul-le-mul_right 11 less in
      let place : i * 11 + 11 ≡ suc i * 11 = omega arith in
      let written : write_bits 11 k (clip whole (i * 11)) (i * 11)
          ≡ (clip whole (suc i * 11), suc i * 11) =
        write_bits-clip 11 k whole (i * 11) bytes (omega arith) (omega arith)
          (omega (arith, agree i less))
        ∙ ap (λ t. (clip whole t, t)) place in
      words_loop-word fuel k (word_at bits i) tail (clip whole (i * 11)) (i * 11)
        (wordlist-IsWord k lt) (find_word-wordlist k lt) stop
      ∙ ap (λ r. words_loop fuel (drop 1 tail) r.0 r.1) written

  -- The whole text gives all bits.
  pub words_loop-mnemo_loop :
      (i n fuel : ℕ)
      → i + suc n ≡ mlen
      → length (mnemo_loop bits mlen i (suc n)) ≤ fuel
      → words_loop fuel (mnemo_loop bits mlen i (suc n)) (clip whole (i * 11)) (i * 11)
        ≡ scanned (clip whole (mlen * 11)) (mlen * 11)
  words_loop-mnemo_loop i n zero e enough =
      absurd (omega (arith, mnemo_loop_not_empty bits mlen i n))
  words_loop-mnemo_loop i zero (suc fuel) e enough =
      ap (λ t. words_loop (suc fuel) t (clip whole (i * 11)) (i * 11))
        (mnemo_loop-last bits mlen i e)
      ∙ word_round fuel i [] (omega arith) tt
      ∙ words_loop-nil fuel (clip whole (suc i * 11)) (suc i * 11)
      ∙ ap (λ (t : ℕ). scanned (clip whole (t * 11)) (t * 11)) (omega arith)
  words_loop-mnemo_loop i (suc n) (suc fuel) e enough =
      let text = mnemo_loop-more bits mlen i n e in
      let rest = mnemo_loop bits mlen (i + 1) (suc n) in
      let size : length (word_at bits i ++ 32 ∷ rest)
          ≡ length (word_at bits i) + suc (length rest) =
        length-append (word_at bits i) (32 ∷ rest) in
      let next : suc i ≡ i + 1 = omega arith in
      ap (λ t. words_loop (suc fuel) t (clip whole (i * 11)) (i * 11)) text
      ∙ word_round fuel i (32 ∷ rest) (omega arith) refl
      ∙ ap (λ (t : ℕ). words_loop fuel rest (clip whole (t * 11)) (t * 11)) next
      ∙ words_loop-mnemo_loop (i + 1) n fuel (omega arith)
          (omega (arith, size, ap length text, (word_at-IsWord bits i).not_empty))
