-- ===== src/Hmac/Prepare.antt =====
-- hmac_sha256_prepare and hmac_sha512_prepare of ios/Classes/hmac.c: what hashing goes on from.
use flutter_sdk.Base.{ℕ, zero, suc, ◌-◌, ◌*◌, ◌<◌, ◌≤◌, ◌≡◌, refl, arith, ap, ap₂, ◌∙◌, sym}
use flutter_sdk.Base.{List, [], ◌∷◌, ◌++◌, take, drop, length, AllBelow, map, replicate, bit_xor}
use flutter_sdk.Base.{length-take, length-drop, take-AllBelow, drop-AllBelow, length-append}
use flutter_sdk.Base.{length-replicate, replicate-AllBelow, AllBelow-append, bit_xor-lt, ltb}
use flutter_sdk.Base.{Bool-cases, inl, inr}
use flutter_sdk.Hash.{Sha, le_word, be_word, words, zip_xor, resume, be_words}
use flutter_sdk.Hash.Laws.{HasShape, IsSha, map_reverse-words, bit_xor-be_word}
use flutter_sdk.Hmac.{key_block, xor_all, hmac, hmac_prepare}

zip_xor-replicate :
    (n c : ℕ) (xs : List ℕ) → length xs ≡ n → zip_xor xs (replicate n c) ≡ xor_all c xs
unfolding zip_xor xor_all
zip_xor-replicate zero c [] e = refl
zip_xor-replicate zero c (x ∷ xs) e = absurd (omega arith)
zip_xor-replicate (suc n) c [] e = absurd (omega arith)
zip_xor-replicate (suc n) c (x ∷ xs) e =
    ap (λ t. bit_xor x c ∷ t) (zip_xor-replicate n c xs (omega arith))

take-xor_all : (n c : ℕ) (xs : List ℕ) → take n (xor_all c xs) ≡ xor_all c (take n xs)
unfolding xor_all
take-xor_all zero c xs = refl
take-xor_all (suc n) c [] = refl
take-xor_all (suc n) c (x ∷ xs) = ap (λ t. bit_xor x c ∷ t) (take-xor_all n c xs)

drop-xor_all : (n c : ℕ) (xs : List ℕ) → drop n (xor_all c xs) ≡ xor_all c (drop n xs)
unfolding xor_all
drop-xor_all zero c xs = refl
drop-xor_all (suc n) c [] = refl
drop-xor_all (suc n) c (x ∷ xs) = drop-xor_all n c xs

length-xor_all : (c : ℕ) (xs : List ℕ) → length (xor_all c xs) ≡ length xs
unfolding xor_all
length-xor_all c [] = refl
length-xor_all c (x ∷ xs) = omega (arith, length-xor_all c xs)

xor_all-AllBelow : (c : ℕ) (xs : List ℕ) → c < 256 → AllBelow 256 xs → AllBelow 256 (xor_all c xs)
unfolding xor_all
xor_all-AllBelow c [] h all = tt
xor_all-AllBelow c (x ∷ xs) h all = (bit_xor-lt 8 x c all.0 h, xor_all-AllBelow c xs h all.1)

module _ (h : Sha) (shape : HasShape h) where
  -- `^` of each word with a word of equal bytes is `^` of each byte.
  be_words-xor_all :
      (n c : ℕ) (bytes : List ℕ)
      → c < 256
      → length bytes ≡ n * h.word_length
      → AllBelow 256 bytes
      → xor_all (be_word 0 (replicate h.word_length c)) (be_words h n bytes)
        ≡ be_words h n (xor_all c bytes)
  unfolding words xor_all
  be_words-xor_all zero c bytes less size all = refl
  be_words-xor_all (suc n) c bytes less size all =
      let k = h.word_length in
      let front : length (take k bytes) ≡ k = length-take k (n * k) bytes (omega arith) in
      ap₂ ◌∷◌
        (bit_xor-be_word 0 0 (take k bytes) (replicate k c) (front ∙ sym (length-replicate k c))
            (take-AllBelow 256 k bytes all) (replicate-AllBelow 256 k c less)
          ∙ ap (be_word 0)
              (zip_xor-replicate k c (take k bytes) front ∙ sym (take-xor_all k c bytes)))
        (be_words-xor_all n c (drop k bytes) less (omega (arith, length-drop k bytes))
            (drop-AllBelow 256 k bytes all)
          ∙ ap (be_words h n) (sym (drop-xor_all k c bytes)))

  module _ (sha : IsSha h) (key : List ℕ) (all : AllBelow 256 key) where
    fitting :
        (k : List ℕ)
        → length k ≤ h.block_length
        → AllBelow 256 k
        → (length (k ++ replicate (h.block_length - length k) 0) ≡ h.block_length)
          × AllBelow 256 (k ++ replicate (h.block_length - length k) 0)
    fitting k fits bytes =
        let rest = h.block_length - length k in
        (
          omega (arith, length-append k (replicate rest 0), length-replicate {A = ℕ} rest 0),
          AllBelow-append 256 k _ bytes (replicate-AllBelow 256 rest 0 (omega arith)),
        )

    -- The key fills a block.
    pub key_block-IsBlock :
        (length (key_block h key) ≡ h.block_length) × AllBelow 256 (key_block h key)
    unfolding key_block
    key_block-IsBlock = elim (Bool-cases (ltb h.block_length (length key))) [
      | inl long ↦ rw long (
          fitting (h.functions.raw key)
            (omega (arith, sha.length_raw key, shape.block, shape.digest)) (sha.raw_bytes key))
      | inr short ↦ rw short (fitting key (ground arith) all)
    ]

    abbrev pub pad_block : ℕ → List ℕ
    pad_block c = xor_all c (key_block h key)

    pub pad_block-IsBlock :
        (c : ℕ) → c < 256 → (length (pad_block c) ≡ h.block_length) × AllBelow 256 (pad_block c)
    pad_block-IsBlock c less =
        let (size, bytes) = key_block-IsBlock in
        (length-xor_all c (key_block h key) ∙ size, xor_all-AllBelow c _ less bytes)

    pad_words :
        (c : ℕ)
        → c < 256
        → xor_all
            (be_word 0 (replicate h.word_length c))
            (map h.reverse (words le_word h.word_length 16 (key_block h key)))
          ≡ be_words h 16 (pad_block c)
    pad_words c less =
        let (size, bytes) = key_block-IsBlock in
        ap (xor_all (be_word 0 (replicate h.word_length c)))
          (map_reverse-words h 16 (key_block h key) shape (size ∙ shape.block) bytes)
        ∙ be_words-xor_all 16 c (key_block h key) less (size ∙ shape.block) bytes

    -- The digests are the states that the two padded keys leave.
    pub hmac_prepare_lem : hmac_prepare h key ≡ (
      h.functions.transform h.functions.initial_hash_value (be_words h 16 (pad_block 0x5c)),
      h.functions.transform h.functions.initial_hash_value (be_words h 16 (pad_block 0x36)),
    )
    unfolding hmac_prepare
    hmac_prepare_lem =
        let iv = h.functions.initial_hash_value in
        let buf = map h.reverse (words le_word h.word_length 16 (key_block h key)) in
        ap₂ (λ a b. (h.functions.transform iv a, h.functions.transform iv b))
          (ap (λ (c : ℕ). xor_all c buf) shape.opad_word ∙ pad_words 0x5c (omega arith))
          (ap (λ (c : ℕ). xor_all c buf) shape.ipad_word ∙ pad_words 0x36 (omega arith))

    -- Where the hash is a SHA-2: hashing on from the two digests that hmac_prepare leaves gives the
    -- HMAC, whatever stands in the buffers.
    pub hmac_prepare-hmac :
        (msg inner outer : List ℕ)
        → h.functions.final (
            h.functions.update
              (resume h (hmac_prepare h key).0 outer)
              (h.functions.final (h.functions.update (resume h (hmac_prepare h key).1 inner) msg)))
          ≡ hmac h key msg
    unfolding hmac
    hmac_prepare-hmac msg inner outer =
        let digests = hmac_prepare_lem in
        let (osize, obytes) = pad_block-IsBlock 0x5c (omega arith) in
        let (isize, ibytes) = pad_block-IsBlock 0x36 (omega arith) in
        rw digests (
          sym (
            ap
              (λ t.
                h.functions.final
                  (h.functions.update (h.functions.update h.functions.init (pad_block 0x5c)) t))
              (sha.after_block (pad_block 0x36) msg inner isize ibytes)
            ∙ sha.after_block (pad_block 0x5c) _ outer osize obytes))
