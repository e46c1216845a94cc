-- ===== src/Hmac.antt =====
-- ios/Classes/hmac.c over the interface of the hash functions. The functions for the two hashes are
-- one text with other lengths; what is written into a context that is then cleared is not returned.
pub mod Digest
pub mod Prepare
mod Tests
use flutter_sdk.Base.{ℕ, ◌-◌, List, ◌++◌, length, replicate, bit_xor, ltb, if◌then◌else◌, map}
use flutter_sdk.Hash.{Ctx, Functions, Sha, sha256_of, words, le_word}

-- memset to 0, then memcpy or sha256_Raw
unfoldable pub key_block : Sha → List ℕ → List ℕ
key_block h key =
    let k = if ltb h.block_length (length key) then h.functions.raw key else key in
    k ++ replicate (h.block_length - length k) 0

unfoldable pub xor_all : ℕ → List ℕ → List ℕ
xor_all c xs = map (λ x. bit_xor x c) xs

-- HMAC_SHA256_CTX and HMAC_SHA512_CTX
pub record HmacCtx : Type 0 where
  pub o_key_pad : List ℕ
  pub ctx : Ctx

unfoldable pub hmac_init : Sha → List ℕ → HmacCtx
unfolding key_block xor_all
hmac_init h key =
    let block = key_block h key in
    record {
      o_key_pad = xor_all 0x5c block;
      ctx = h.functions.update h.functions.init (xor_all 0x36 block);
    }

unfoldable pub hmac_update : Sha → HmacCtx → List ℕ → HmacCtx
hmac_update h hctx msg = record hctx { ctx = h.functions.update hctx.ctx msg }

unfoldable pub hmac_final : Sha → HmacCtx → List ℕ
hmac_final h hctx =
    let hash = h.functions.final hctx.ctx in
    h.functions.final (h.functions.update (h.functions.update h.functions.init hctx.o_key_pad) hash)

unfoldable pub hmac : Sha → List ℕ → List ℕ → List ℕ
unfolding hmac_init hmac_update hmac_final
hmac h key msg = hmac_final h (hmac_update h (hmac_init h key) msg)

-- opad_digest and ipad_digest
unfoldable pub hmac_prepare : Sha → List ℕ → List ℕ × List ℕ
unfolding key_block xor_all words le_word
hmac_prepare h key =
    let buf = map h.reverse (words le_word h.word_length 16 (key_block h key)) in
    (
      h.functions.transform h.functions.initial_hash_value (xor_all h.opad buf),
      h.functions.transform h.functions.initial_hash_value (xor_all h.ipad buf),
    )

-- The functions for SHA-256.
pub hmac_sha256_init : Functions → List ℕ → HmacCtx
unfolding hmac_init
hmac_sha256_init f key = hmac_init (sha256_of f) key

pub hmac_sha256_update : Functions → HmacCtx → List ℕ → HmacCtx
unfolding hmac_update
hmac_sha256_update f hctx msg = hmac_update (sha256_of f) hctx msg

pub hmac_sha256_final : Functions → HmacCtx → List ℕ
unfolding hmac_final
hmac_sha256_final f hctx = hmac_final (sha256_of f) hctx

pub hmac_sha256 : Functions → List ℕ → List ℕ → List ℕ
unfolding hmac
hmac_sha256 f key msg = hmac (sha256_of f) key msg

pub hmac_sha256_prepare : Functions → List ℕ → List ℕ × List ℕ
unfolding hmac_prepare
hmac_sha256_prepare f key = hmac_prepare (sha256_of f) key
