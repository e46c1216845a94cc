-- ===== src/Hash/Laws.antt =====
-- What SHA-256 and SHA-512 promise (FIPS 180-4), as far as ios/Classes/hmac.c and pbkdf2.c rely on
-- it, and the words of byte arrays.
use flutter_sdk.Base.{ℕ, zero, suc, ◌+◌, ◌*◌, ◌≡◌, refl, arith, ap, ap₂, ◌∙◌}
use flutter_sdk.Base.{List, [], ◌∷◌, ◌++◌, take, drop, length, AllBelow, map, replicate, bit_xor}
use flutter_sdk.Base.{bit_xor-parts, length-take, length-drop, take-AllBelow, drop-AllBelow}
use flutter_sdk.Hash.{
  Ctx, Functions, Sha, le_word, be_word, words, zip_xor, resume, padding, be_words,
}
use flutter_sdk.Hash.{sha256_of, sha512_of}
use flutter_sdk.Hash.Reverse.{reverse32-bytes, reverse64-bytes, reverse32-back, reverse64-back}

-- The lengths of sha2.h, what the macros do, and the constants.
pub record HasShape (h : Sha) : Type 0 where
  pub block : h.block_length ≡ 16 * h.word_length
  pub digest : h.digest_length ≡ 8 * h.word_length
  pub reverse_word :
      (bytes : List ℕ)
      → length bytes ≡ h.word_length
      → AllBelow 256 bytes
      → h.reverse (le_word bytes) ≡ be_word 0 bytes
  pub reverse_back :
      (bytes : List ℕ)
      → length bytes ≡ h.word_length
      → AllBelow 256 bytes
      → h.reverse (be_word 0 bytes) ≡ le_word bytes
  pub opad_word : h.opad ≡ be_word 0 (replicate h.word_length 0x5c)
  pub ipad_word : h.ipad ≡ be_word 0 (replicate h.word_length 0x36)

pub sha256-HasShape : (f : Functions) → HasShape (sha256_of f)
unfolding be_word
sha256-HasShape f = record {
  block = refl;
  digest = refl;
  reverse_word = reverse32-bytes;
  reverse_back = reverse32-back;
  opad_word = refl;
  ipad_word = refl;
}

pub sha512-HasShape : (f : Functions) → HasShape (sha512_of f)
unfolding be_word
sha512-HasShape f = record {
  block = refl;
  digest = refl;
  reverse_word = reverse64-bytes;
  reverse_back = reverse64-back;
  opad_word = refl;
  ipad_word = refl;
}

-- A digest is bytes; input may come in pieces; after one block the state is its transform; and one
-- more block pads a digest.
pub record IsSha (h : Sha) : Type 0 where
  pub length_final : (c : Ctx) → length (h.functions.final c) ≡ h.digest_length
  pub final_bytes : (c : Ctx) → AllBelow 256 (h.functions.final c)
  pub length_raw : (m : List ℕ) → length (h.functions.raw m) ≡ h.digest_length
  pub raw_bytes : (m : List ℕ) → AllBelow 256 (h.functions.raw m)
  pub pieces :
      (c : Ctx) (a b : List ℕ)
      → h.functions.final (h.functions.update (h.functions.update c a) b)
        ≡ h.functions.final (h.functions.update c (a ++ b))
  pub after_block :
      (block m buffer : List ℕ)
      → length block ≡ h.block_length
      → AllBelow 256 block
      → h.functions.final (h.functions.update (h.functions.update h.functions.init block) m)
        ≡ h.functions.final (
            h.functions.update
              (resume h
                (h.functions.transform h.functions.initial_hash_value (be_words h 16 block))
                buffer)
              m)
  pub padded :
      (block m : List ℕ)
      → length block ≡ h.block_length
      → AllBelow 256 block
      → length m ≡ h.digest_length
      → AllBelow 256 m
      → be_words h 8
          (h.functions.final (h.functions.update (h.functions.update h.functions.init block) m))
        ≡ h.functions.transform
            (h.functions.transform h.functions.initial_hash_value (be_words h 16 block))
            (be_words h 8 m ++ padding h)

-- Reversing every word of an array.
pub map_reverse-words :
    (h : Sha) (n : ℕ) (bytes : List ℕ)
    → HasShape h
    → length bytes ≡ n * h.word_length
    → AllBelow 256 bytes
    → map h.reverse (words le_word h.word_length n bytes) ≡ be_words h n bytes
unfolding words
map_reverse-words h zero bytes shape size all = refl
map_reverse-words h (suc n) bytes shape size all =
    let k = h.word_length in
    ap₂ ◌∷◌
      (shape.reverse_word (take k bytes) (length-take k (n * k) bytes (omega arith))
        (take-AllBelow 256 k bytes all))
      (map_reverse-words h n (drop k bytes) shape (omega (arith, length-drop k bytes))
        (drop-AllBelow 256 k bytes all))

-- `^` of words is `^` of their bytes.
pub bit_xor-be_word :
    (a b : ℕ) (xs ys : List ℕ)
    → length xs ≡ length ys
    → AllBelow 256 xs
    → AllBelow 256 ys
    → bit_xor (be_word a xs) (be_word b ys) ≡ be_word (bit_xor a b) (zip_xor xs ys)
unfolding be_word zip_xor
bit_xor-be_word a b [] [] e h k = refl
bit_xor-be_word a b [] (y ∷ ys) e h k = absurd (omega arith)
bit_xor-be_word a b (x ∷ xs) [] e h k = absurd (omega arith)
bit_xor-be_word a b (x ∷ xs) (y ∷ ys) e h k =
    bit_xor-be_word (a * 256 + x) (b * 256 + y) xs ys (omega arith) h.1 k.1
    ∙ ap (λ (t : ℕ). be_word t (zip_xor xs ys)) (bit_xor-parts 8 a b x y h.0 k.0)
