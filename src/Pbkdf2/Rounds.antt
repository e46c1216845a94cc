-- ===== src/Pbkdf2/Rounds.antt =====
-- The rounds of ios/Classes/pbkdf2.c against PBKDF2 as RFC 8018 defines it for the first block.
use flutter_sdk.Base.{ℕ, zero, suc, ◌+◌, ◌-◌, ◌<◌, ◌≡◌, refl, arith, ap, ap₂, ◌∙◌, sym}
use flutter_sdk.Base.{List, [], ◌∷◌, ◌++◌, length, AllBelow, map, take-append, drop-append}
use flutter_sdk.Hash.{Sha, le_word, words, zip_xor, resume, be_words, padding}
use flutter_sdk.Hash.Laws.{HasShape, IsSha, map_reverse-words}
use flutter_sdk.Hmac.{hmac}
use flutter_sdk.Hmac.Prepare.{pad_block, pad_block-IsBlock, hmac_prepare_lem}
use flutter_sdk.Pbkdf2.{PbkdfCtx, transform_g, block_number, pbkdf2_init, rounds, pbkdf2_update}
use flutter_sdk.Pbkdf2.{pbkdf2_final, pbkdf2}
use flutter_sdk.Pbkdf2.Words.{length-words, length-zip_xor, zip_xor-AllBelow, zip_xor-append}
use flutter_sdk.Pbkdf2.Words.{be_words-zip_xor, memory-be_words}

-- U_{n + 1}: the HMAC of the salt and the block's number, and then of what came before.
unfoldable pub pbkdf2_u : Sha → List ℕ → List ℕ → ℕ → List ℕ
pbkdf2_u h pass salt zero = hmac h pass (salt ++ 0 ∷ 0 ∷ 0 ∷ 1 ∷ [])
pbkdf2_u h pass salt (suc n) = hmac h pass (pbkdf2_u h pass salt n)

-- T = U_1 ^ U_2 ^ ... ^ U_{n + 1}
unfoldable pub pbkdf2_t : Sha → List ℕ → List ℕ → ℕ → List ℕ
pbkdf2_t h pass salt zero = pbkdf2_u h pass salt zero
pbkdf2_t h pass salt (suc n) = zip_xor (pbkdf2_t h pass salt n) (pbkdf2_u h pass salt (suc n))

module _ (h : Sha) (shape : HasShape h) (sha : IsSha h) (pass : List ℕ)
    (all : AllBelow 256 pass) where
  abbrev pub odig : List ℕ
  odig =
      h.functions.transform h.functions.initial_hash_value
        (be_words h 16 (pad_block h shape sha pass all 0x5c))

  abbrev pub idig : List ℕ
  idig =
      h.functions.transform h.functions.initial_hash_value
        (be_words h 16 (pad_block h shape sha pass all 0x36))

  -- The array g while it holds a digest.
  abbrev pub padded_words : List ℕ → List ℕ
  padded_words d = be_words h 8 d ++ padding h

  -- The inner and the outer hash of an HMAC.
  abbrev hash_with : ℕ → List ℕ → List ℕ
  hash_with c m = h.functions.final (
      h.functions.update (h.functions.update h.functions.init (pad_block h shape sha pass all c)) m)

  abbrev IsDigest : List ℕ → Type 0
  IsDigest d = (length d ≡ h.digest_length) × AllBelow 256 d

  hash_with-IsDigest : (c : ℕ) (m : List ℕ) → IsDigest (hash_with c m)
  hash_with-IsDigest c m = (sha.length_final _, sha.final_bytes _)

  hmac-hash_with : (m : List ℕ) → hmac h pass m ≡ hash_with 0x5c (hash_with 0x36 m)
  unfolding hmac
  hmac-hash_with m = refl

  hmac-IsDigest : (m : List ℕ) → IsDigest (hmac h pass m)
  unfolding hmac
  hmac-IsDigest m = hash_with-IsDigest 0x5c (hash_with 0x36 m)

  -- One transform of g hashes the digest that it holds.
  transform_g-padded :
      (c : ℕ) (d : List ℕ)
      → c < 256
      → IsDigest d
      → transform_g h
          (h.functions.transform h.functions.initial_hash_value
            (be_words h 16 (pad_block h shape sha pass all c)))
          (padded_words d)
        ≡ padded_words (hash_with c d)
  unfolding transform_g
  transform_g-padded c d less digest =
      let (size, bytes) = pad_block-IsBlock h shape sha pass all c less in
      ap₂ ◌++◌ (sym (sha.padded (pad_block h shape sha pass all c) d size bytes digest.0 digest.1))
        (drop-append 8 (be_words h 8 d) (padding h) (length-words _ h.word_length 8 d))

  -- A round of the loop makes the HMAC of the digest.
  round_lem :
      (d : List ℕ)
      → IsDigest d
      → transform_g h odig (transform_g h idig (padded_words d)) ≡ padded_words (hmac h pass d)
  round_lem d digest =
      ap (transform_g h odig) (transform_g-padded 0x36 d (omega arith) digest)
      ∙ transform_g-padded 0x5c (hash_with 0x36 d) (omega arith) (hash_with-IsDigest 0x36 d)
      ∙ ap padded_words (sym (hmac-hash_with d))

  module _ (salt : List ℕ) where
    u-IsDigest : (n : ℕ) → IsDigest (pbkdf2_u h pass salt n)
    unfolding pbkdf2_u
    u-IsDigest zero = hmac-IsDigest _
    u-IsDigest (suc n) = hmac-IsDigest _

    t-IsDigest : (n : ℕ) → IsDigest (pbkdf2_t h pass salt n)
    unfolding pbkdf2_t
    t-IsDigest zero = u-IsDigest zero
    t-IsDigest (suc n) =
        let (size, bytes) = t-IsDigest n in
        let (usize, ubytes) = u-IsDigest (suc n) in
        (length-zip_xor _ _ (size ∙ sym usize) ∙ size, zip_xor-AllBelow _ _ bytes ubytes)

    -- f and g after n more rounds.
    rounds_lem :
        (n m : ℕ)
        → rounds h odig idig n
            (be_words h 8 (pbkdf2_t h pass salt m))
            (padded_words (pbkdf2_u h pass salt m))
          ≡ (
            be_words h 8 (pbkdf2_t h pass salt (m + n)),
            padded_words (pbkdf2_u h pass salt (m + n)),
          )
    unfolding rounds pbkdf2_t pbkdf2_u
    rounds_lem zero m =
        ap (λ t. (be_words h 8 (pbkdf2_t h pass salt t), padded_words (pbkdf2_u h pass salt t)))
          (omega arith)
    rounds_lem (suc n) m =
        let (size, bytes) = t-IsDigest m in
        let (usize, ubytes) = u-IsDigest (suc m) in
        let hashed : transform_g h odig (transform_g h idig (padded_words (pbkdf2_u h pass salt m)))
            ≡ padded_words (pbkdf2_u h pass salt (suc m)) =
          round_lem (pbkdf2_u h pass salt m) (u-IsDigest m) in
        let joined : zip_xor (be_words h 8 (pbkdf2_t h pass salt m))
              (padded_words (pbkdf2_u h pass salt (suc m)))
            ≡ be_words h 8 (pbkdf2_t h pass salt (suc m)) =
          zip_xor-append (be_words h 8 (pbkdf2_t h pass salt m)) _ (padding h)
            (length-words _ h.word_length 8 _ ∙ sym (length-words _ h.word_length 8 _))
          ∙ sym (
              be_words-zip_xor h.word_length 8 _ _ (size ∙ shape.digest) (usize ∙ shape.digest)
                bytes ubytes) in
        ap₂ (rounds h odig idig n)
          (ap (zip_xor (be_words h 8 (pbkdf2_t h pass salt m))) hashed ∙ joined) hashed
        ∙ rounds_lem n (suc m)
        ∙ ap (λ t. (be_words h 8 (pbkdf2_t h pass salt t), padded_words (pbkdf2_u h pass salt t)))
            (omega arith)

    -- The context before the first round.
    abbrev first_state : PbkdfCtx
    first_state = record {
      odig = odig;
      idig = idig;
      f = be_words h 8 (pbkdf2_t h pass salt 0);
      g = padded_words (pbkdf2_u h pass salt 0);
      first = 1;
    }

    inner_lem :
        (buffer : List ℕ)
        → h.functions.final
            (h.functions.update (h.functions.update (resume h idig buffer) salt) block_number)
          ≡ hash_with 0x36 (salt ++ 0 ∷ 0 ∷ 0 ∷ 1 ∷ [])
    unfolding block_number
    inner_lem buffer =
        let (size, bytes) = pad_block-IsBlock h shape sha pass all 0x36 (omega arith) in
        sha.pieces (resume h idig buffer) salt (0 ∷ 0 ∷ 0 ∷ 1 ∷ [])
        ∙ sym (sha.after_block _ (salt ++ 0 ∷ 0 ∷ 0 ∷ 1 ∷ []) buffer size bytes)

    pub init_lem : (buffer : List ℕ) → pbkdf2_init h buffer pass salt ≡ first_state
    unfolding pbkdf2_init pbkdf2_t pbkdf2_u
    init_lem buffer =
        let inner = hash_with 0x36 (salt ++ 0 ∷ 0 ∷ 0 ∷ 1 ∷ []) in
        let (size, bytes) = hash_with-IsDigest 0x36 (salt ++ 0 ∷ 0 ∷ 0 ∷ 1 ∷ []) in
        let started : transform_g h odig
              (map h.reverse (words le_word h.word_length 8 inner) ++ padding h)
            ≡ padded_words (hmac h pass (salt ++ 0 ∷ 0 ∷ 0 ∷ 1 ∷ [])) =
          ap (λ t. transform_g h odig (t ++ padding h))
            (map_reverse-words h 8 inner shape (size ∙ shape.digest) bytes)
          ∙ transform_g-padded 0x5c inner (omega arith)
              (hash_with-IsDigest 0x36 (salt ++ 0 ∷ 0 ∷ 0 ∷ 1 ∷ []))
          ∙ ap padded_words (sym (hmac-hash_with (salt ++ 0 ∷ 0 ∷ 0 ∷ 1 ∷ []))) in
        let cut =
          take-append 8 (be_words h 8 (hmac h pass (salt ++ 0 ∷ 0 ∷ 0 ∷ 1 ∷ []))) (padding h)
            (length-words _ h.word_length 8 _) in
        rw (hmac_prepare_lem h shape sha pass all, inner_lem buffer, started, cut)

    -- Updates in pieces: the context after n + 1 iterations in all.
    abbrev pub state_after : ℕ → PbkdfCtx
    state_after n = record {
      odig = odig;
      idig = idig;
      f = be_words h 8 (pbkdf2_t h pass salt n);
      g = padded_words (pbkdf2_u h pass salt n);
      first = 0;
    }

    -- What Update stores.
    abbrev store : List ℕ × List ℕ → PbkdfCtx
    store r = record { odig = odig; idig = idig; f = r.0; g = r.1; first = 0 }

    first_update : (n : ℕ) → pbkdf2_update h first_state (suc n) ≡ state_after n
    unfolding pbkdf2_update
    first_update n =
        let count : suc n - 1 ≡ n = omega arith in
        ap store (ap (λ t. rounds h odig idig t first_state.f first_state.g) count ∙ rounds_lem n 0)
        ∙ ap state_after (omega arith)

    pub later_update : (m n : ℕ) → pbkdf2_update h (state_after m) n ≡ state_after (m + n)
    unfolding pbkdf2_update
    later_update m n =
        let count : n - 0 ≡ n = omega arith in
        ap store (
          ap (λ t. rounds h odig idig t (state_after m).f (state_after m).g) count ∙ rounds_lem n m)

    pub final_lem : (n : ℕ) → pbkdf2_final h (state_after n) ≡ pbkdf2_t h pass salt n
    unfolding pbkdf2_final
    final_lem n =
        let (size, bytes) = t-IsDigest n in
        memory-be_words h shape 8 (pbkdf2_t h pass salt n) (size ∙ shape.digest) bytes

    -- Init and a first Update.
    pub started_lem :
        (buffer : List ℕ) (n : ℕ)
        → pbkdf2_update h (pbkdf2_init h buffer pass salt) (suc n) ≡ state_after n
    started_lem buffer n = ap (λ c. pbkdf2_update h c (suc n)) (init_lem buffer) ∙ first_update n

-- For a SHA-2 and n + 1 iterations, pbkdf2 gives the exclusive or of the first n + 1 HMACs of
-- RFC 8018, whatever stands in the buffer of its context.
pub pbkdf2_lem :
    (h : Sha) (buffer pass salt : List ℕ) (n : ℕ)
    → HasShape h
    → IsSha h
    → AllBelow 256 pass
    → pbkdf2 h buffer pass salt (suc n) ≡ pbkdf2_t h pass salt n
unfolding pbkdf2
pbkdf2_lem h buffer pass salt n shape sha all =
    ap (pbkdf2_final h) (started_lem h shape sha pass all salt buffer n)
    ∙ final_lem h shape sha pass all salt n

-- A call of Update for m + 1 iterations and then one for n do what one call for all of them does:
-- only the first counts the iteration of Init.
pub pbkdf2_update-pieces :
    (h : Sha) (buffer pass salt : List ℕ) (m n : ℕ)
    → HasShape h
    → IsSha h
    → AllBelow 256 pass
    → pbkdf2_update h (pbkdf2_update h (pbkdf2_init h buffer pass salt) (suc m)) n
      ≡ pbkdf2_update h (pbkdf2_init h buffer pass salt) (suc (m + n))
pbkdf2_update-pieces h buffer pass salt m n shape sha all =
    ap (λ c. pbkdf2_update h c n) (started_lem h shape sha pass all salt buffer m)
    ∙ later_update h shape sha pass all salt m n
    ∙ sym (started_lem h shape sha pass all salt buffer (m + n))
