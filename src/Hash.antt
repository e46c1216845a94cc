-- ===== src/Hash.antt =====
-- What ios/Classes/hmac.c and pbkdf2.c use of ios/Classes/sha2.h: the hash functions as an
-- interface, and the words of their memory. The machine is little-endian (BYTE_ORDER of sha2.h).
pub mod Words
pub mod Reverse
pub mod Laws
pub mod Zero
use flutter_sdk.Base.{ℕ, zero, suc, ◌+◌, ◌*◌, ◌/◌, ◌%◌, ◌^◌, List, [], ◌∷◌, ◌++◌, take, drop}
use flutter_sdk.Base.{u32, u64, ◌<<<◌, ◌>>>◌, bit_and, bit_or, bit_xor, replicate}

-- SHA256_CTX and SHA512_CTX. The two words of the longer bitcount are one number.
pub record Ctx : Type 0 where
  pub state : List ℕ
  pub bitcount : ℕ
  pub buffer : List ℕ

-- The functions of one hash.
pub record Functions : Type 0 where
  pub init : Ctx
  pub update : Ctx → List ℕ → Ctx
  pub final : Ctx → List ℕ
  pub raw : List ℕ → List ℕ
  pub transform : List ℕ → List ℕ → List ℕ
  pub initial_hash_value : List ℕ

-- They and what differs between the two hashes: the lengths, the macro that reverses a word, and
-- the constants by which hmac.c and pbkdf2.c spell out a word.
pub record Sha : Type 0 where
  pub functions : Functions
  pub block_length : ℕ
  pub digest_length : ℕ
  pub word_length : ℕ
  pub reverse : ℕ → ℕ
  pub opad : ℕ
  pub ipad : ℕ
  pub top_bit : ℕ

-- REVERSE32
unfoldable pub reverse32 : ℕ → ℕ
reverse32 w =
    let tmp = bit_or (w >>> 16) (u32 (w <<< 16)) in
    u32 (bit_or (bit_and tmp 0xff00ff00 >>> 8) (bit_and tmp 0x00ff00ff <<< 8))

-- REVERSE64
unfoldable pub reverse64 : ℕ → ℕ
reverse64 w =
    let half = bit_or (w >>> 32) (u64 (w <<< 32)) in
    let tmp =
      bit_or (bit_and half 0xff00ff00ff00ff00 >>> 8)
        (u64 (bit_and half 0x00ff00ff00ff00ff <<< 8)) in
    bit_or (bit_and tmp 0xffff0000ffff0000 >>> 16) (u64 (bit_and tmp 0x0000ffff0000ffff <<< 16))

-- The number that bytes stand for, the lowest first, and the highest first.
unfoldable pub le_word : List ℕ → ℕ
le_word [] = 0
le_word (x ∷ xs) = x + 256 * le_word xs

unfoldable pub be_word : ℕ → List ℕ → ℕ
be_word acc [] = acc
be_word acc (x ∷ xs) = be_word (acc * 256 + x) xs

-- n words of an array of bytes.
unfoldable pub words : (List ℕ → ℕ) → ℕ → ℕ → List ℕ → List ℕ
words read size zero bytes = []
words read size (suc n) bytes = read (take size bytes) ∷ words read size n (drop size bytes)

-- The bytes of a word of n bytes as they stand in memory, and of an array of words.
unfoldable pub word_bytes : ℕ → ℕ → List ℕ
word_bytes zero w = []
word_bytes (suc n) w = w % 256 ∷ word_bytes n (w / 256)

unfoldable pub memory : ℕ → List ℕ → List ℕ
unfolding word_bytes
memory size [] = []
memory size (w ∷ ws) = word_bytes size w ++ memory size ws

-- x[i] ^= y[i]
unfoldable pub zip_xor : List ℕ → List ℕ → List ℕ
zip_xor (x ∷ xs) (y ∷ ys) = bit_xor x y ∷ zip_xor xs ys
zip_xor _ _ = []

abbrev pub sha256_of : Functions → Sha
sha256_of f = record {
  functions = f;
  block_length = 64;
  digest_length = 32;
  word_length = 4;
  reverse = reverse32;
  opad = 0x5c5c5c5c;
  ipad = 0x36363636;
  top_bit = 0x80000000;
}

abbrev pub sha512_of : Functions → Sha
sha512_of f = record {
  functions = f;
  block_length = 128;
  digest_length = 64;
  word_length = 8;
  reverse = reverse64;
  opad = 0x5c5c5c5c5c5c5c5c;
  ipad = 0x3636363636363636;
  top_bit = 0x8000000000000000;
}

-- A context that goes on after one block, from the state that it left.
abbrev pub resume : Sha → List ℕ → List ℕ → Ctx
resume h state buffer = record { state = state; bitcount = h.block_length * 8; buffer = buffer }

-- The words behind a digest in the block that pads it, where a block stands before.
abbrev pub padding : Sha → List ℕ
padding h = h.top_bit ∷ replicate 6 0 ++ ((h.block_length + h.digest_length) * 8) ∷ []

abbrev pub be_words : Sha → ℕ → List ℕ → List ℕ
be_words h n bytes = words (be_word 0) h.word_length n bytes
