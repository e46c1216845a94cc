-- ===== src/Pbkdf2/Words.antt =====
-- Arrays of words in ios/Classes/pbkdf2.c, as the bytes that they stand for.
use flutter_sdk.Base.{ℕ, zero, suc, ◌*◌, ◌≡◌, refl, arith, ap, ap₂, ◌∙◌}
use flutter_sdk.Base.{List, [], ◌∷◌, ◌++◌, take, drop, length, AllBelow, map, bit_xor, sym}
use flutter_sdk.Base.{length-take, length-drop, take-AllBelow, drop-AllBelow}
use flutter_sdk.Base.{bit_xor-lt, take-append-drop}
use flutter_sdk.Hash.{Sha, le_word, be_word, words, zip_xor, be_words}
use flutter_sdk.Hash.{memory, word_bytes}
use flutter_sdk.Hash.Laws.{HasShape, bit_xor-be_word}

pub length-words :
    (read : List ℕ → ℕ) (k n : ℕ) (bytes : List ℕ) → length (words read k n bytes) ≡ n
unfolding words
length-words read k zero bytes = refl
length-words read k (suc n) bytes = omega (arith, length-words read k n (drop k bytes))

pub length-zip_xor : (xs ys : List ℕ) → length xs ≡ length ys → length (zip_xor xs ys) ≡ length xs
unfolding zip_xor
length-zip_xor [] ys e = refl
length-zip_xor (x ∷ xs) [] e = absurd (omega arith)
length-zip_xor (x ∷ xs) (y ∷ ys) e = omega (arith, length-zip_xor xs ys (omega arith))

pub zip_xor-AllBelow :
    (xs ys : List ℕ) → AllBelow 256 xs → AllBelow 256 ys → AllBelow 256 (zip_xor xs ys)
unfolding zip_xor
zip_xor-AllBelow [] ys h k = tt
zip_xor-AllBelow (x ∷ xs) [] h k = tt
zip_xor-AllBelow (x ∷ xs) (y ∷ ys) h k = (bit_xor-lt 8 x y h.0 k.0, zip_xor-AllBelow xs ys h.1 k.1)

zip_xor-nil : (xs : List ℕ) → zip_xor xs [] ≡ []
unfolding zip_xor
zip_xor-nil [] = refl
zip_xor-nil (x ∷ xs) = refl

-- What stands behind is not read.
pub zip_xor-append :
    (xs ys zs : List ℕ) → length xs ≡ length ys → zip_xor xs (ys ++ zs) ≡ zip_xor xs ys
unfolding zip_xor
zip_xor-append [] [] zs e = refl
zip_xor-append [] (y ∷ ys) zs e = refl
zip_xor-append (x ∷ xs) [] zs e = absurd (omega arith)
zip_xor-append (x ∷ xs) (y ∷ ys) zs e =
    ap (λ t. bit_xor x y ∷ t) (zip_xor-append xs ys zs (omega arith))

take-zip_xor : (n : ℕ) (xs ys : List ℕ) → take n (zip_xor xs ys) ≡ zip_xor (take n xs) (take n ys)
unfolding zip_xor
take-zip_xor zero xs ys = refl
take-zip_xor (suc n) [] ys = refl
take-zip_xor (suc n) (x ∷ xs) [] = refl
take-zip_xor (suc n) (x ∷ xs) (y ∷ ys) = ap (λ t. bit_xor x y ∷ t) (take-zip_xor n xs ys)

drop-zip_xor : (n : ℕ) (xs ys : List ℕ) → drop n (zip_xor xs ys) ≡ zip_xor (drop n xs) (drop n ys)
unfolding zip_xor
drop-zip_xor zero xs ys = refl
drop-zip_xor (suc n) [] ys = refl
drop-zip_xor (suc n) (x ∷ xs) [] = sym (zip_xor-nil (drop n xs))
drop-zip_xor (suc n) (x ∷ xs) (y ∷ ys) = drop-zip_xor n xs ys

-- The words of an `^` of bytes.
pub be_words-zip_xor :
    (k n : ℕ) (xs ys : List ℕ)
    → length xs ≡ n * k
    → length ys ≡ n * k
    → AllBelow 256 xs
    → AllBelow 256 ys
    → words (be_word 0) k n (zip_xor xs ys)
      ≡ zip_xor (words (be_word 0) k n xs) (words (be_word 0) k n ys)
unfolding words zip_xor
be_words-zip_xor k zero xs ys ex ey h l = refl
be_words-zip_xor k (suc n) xs ys ex ey h l =
    let fx : length (take k xs) ≡ k = length-take k (n * k) xs (omega arith) in
    let fy : length (take k ys) ≡ k = length-take k (n * k) ys (omega arith) in
    ap₂ ◌∷◌
      (ap (be_word 0) (take-zip_xor k xs ys)
        ∙ sym (
            bit_xor-be_word 0 0 (take k xs) (take k ys) (fx ∙ sym fy) (take-AllBelow 256 k xs h)
              (take-AllBelow 256 k ys l)))
      (ap (words (be_word 0) k n) (drop-zip_xor k xs ys)
        ∙ be_words-zip_xor k n (drop k xs) (drop k ys) (omega (arith, length-drop k xs))
            (omega (arith, length-drop k ys)) (drop-AllBelow 256 k xs h) (drop-AllBelow 256 k ys l))

word_bytes-le_word :
    (n : ℕ) (bytes : List ℕ)
    → length bytes ≡ n
    → AllBelow 256 bytes
    → word_bytes n (le_word bytes) ≡ bytes
unfolding word_bytes le_word
word_bytes-le_word zero [] e all = refl
word_bytes-le_word zero (x ∷ xs) e all = absurd (omega arith)
word_bytes-le_word (suc n) [] e all = absurd (omega arith)
word_bytes-le_word (suc n) (x ∷ xs) e all =
    ap₂ ◌∷◌ (omega arith)
      (ap (word_bytes n) (omega arith) ∙ word_bytes-le_word n xs (omega arith) all.1)

module _ (h : Sha) (shape : HasShape h) where
  -- What Final writes of the words of some bytes is the bytes.
  pub memory-be_words :
      (n : ℕ) (bytes : List ℕ)
      → length bytes ≡ n * h.word_length
      → AllBelow 256 bytes
      → memory h.word_length (map h.reverse (be_words h n bytes)) ≡ bytes
  unfolding memory words
  memory-be_words zero [] e all = refl
  memory-be_words zero (x ∷ xs) e all = absurd (omega arith)
  memory-be_words (suc n) bytes e all =
      let k = h.word_length in
      let front : length (take k bytes) ≡ k = length-take k (n * k) bytes (omega arith) in
      let low = take-AllBelow 256 k bytes all in
      ap₂ ◌++◌
        (ap (word_bytes k) (shape.reverse_back (take k bytes) front low)
          ∙ word_bytes-le_word k (take k bytes) front low)
        (memory-be_words n (drop k bytes) (omega (arith, length-drop k bytes))
          (drop-AllBelow 256 k bytes all))
      ∙ take-append-drop k bytes
