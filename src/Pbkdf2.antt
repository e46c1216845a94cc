-- ===== src/Pbkdf2.antt =====
-- ios/Classes/pbkdf2.c over the interface of the hash functions. Lengths are those of the lists.
pub mod Words
pub mod Rounds
mod Tests
use flutter_sdk.Base.{ℕ, zero, suc, ◌-◌, List, [], ◌∷◌, ◌++◌, take, drop, map}
use flutter_sdk.Hash.{Ctx, Functions, Sha, sha256_of, words, le_word, memory, word_bytes, reverse32}
use flutter_sdk.Hash.{zip_xor, resume, padding}
use flutter_sdk.Hmac.{hmac_prepare}

-- PBKDF2_HMAC_SHA256_CTX and PBKDF2_HMAC_SHA512_CTX
pub record PbkdfCtx : Type 0 where
  pub odig : List ℕ
  pub idig : List ℕ
  pub f : List ℕ
  pub g : List ℕ
  pub first : ℕ

-- sha512_Transform(state, g, g): eight words are written.
unfoldable pub transform_g : Sha → List ℕ → List ℕ → List ℕ
transform_g h state g = h.functions.transform state g ++ drop 8 g

-- (uint8_t*)&blocknr, after REVERSE32
unfoldable pub block_number : List ℕ
unfolding word_bytes reverse32
block_number = word_bytes 4 (reverse32 1)

-- `buffer` is what stands in the buffer of the local context, which is not set. The two words g[8]
-- and g[15] are the padding of a digest; sha512_Final and the reversal set the first eight.
unfoldable pub pbkdf2_init : Sha → List ℕ → List ℕ → List ℕ → PbkdfCtx
pbkdf2_init h buffer pass salt =
    let digests = hmac_prepare h pass in
    let ctx = resume h digests.1 buffer in
    let digest =
      h.functions.final (h.functions.update (h.functions.update ctx salt) block_number) in
    let g = map h.reverse (words le_word h.word_length 8 digest) ++ padding h in
    let g' = transform_g h digests.0 g in
    record { odig = digests.0; idig = digests.1; f = take 8 g'; g = g'; first = 1 }

-- n rounds of the loop of Update: f and g.
unfoldable pub rounds : Sha → List ℕ → List ℕ → ℕ → List ℕ → List ℕ → List ℕ × List ℕ
rounds h odig idig zero f g = (f, g)
rounds h odig idig (suc n) f g =
    let g' = transform_g h odig (transform_g h idig g) in rounds h odig idig n (zip_xor f g') g'

-- for (i = first; i < iterations; i++)
unfoldable pub pbkdf2_update : Sha → PbkdfCtx → ℕ → PbkdfCtx
pbkdf2_update h pctx iterations =
    let r = rounds h pctx.odig pctx.idig (iterations - pctx.first) pctx.f pctx.g in
    record pctx { f = r.0; g = r.1; first = 0 }

unfoldable pub pbkdf2_final : Sha → PbkdfCtx → List ℕ
pbkdf2_final h pctx = memory h.word_length (map h.reverse pctx.f)

unfoldable pub pbkdf2 : Sha → List ℕ → List ℕ → List ℕ → ℕ → List ℕ
pbkdf2 h buffer pass salt iterations =
    pbkdf2_final h (pbkdf2_update h (pbkdf2_init h buffer pass salt) iterations)

-- The functions for SHA-256.
pub pbkdf2_sha256_init : Functions → List ℕ → List ℕ → List ℕ → PbkdfCtx
unfolding pbkdf2_init
pbkdf2_sha256_init fs buffer pass salt = pbkdf2_init (sha256_of fs) buffer pass salt

pub pbkdf2_sha256_update : Functions → PbkdfCtx → ℕ → PbkdfCtx
unfolding pbkdf2_update
pbkdf2_sha256_update fs pctx iterations = pbkdf2_update (sha256_of fs) pctx iterations

pub pbkdf2_sha256_final : Functions → PbkdfCtx → List ℕ
unfolding pbkdf2_final
pbkdf2_sha256_final fs pctx = pbkdf2_final (sha256_of fs) pctx

pub pbkdf2_sha256 : Functions → List ℕ → List ℕ → List ℕ → ℕ → List ℕ
unfolding pbkdf2
pbkdf2_sha256 fs buffer pass salt iterations = pbkdf2 (sha256_of fs) buffer pass salt iterations
