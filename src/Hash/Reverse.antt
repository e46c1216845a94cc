-- ===== src/Hash/Reverse.antt =====
-- REVERSE64 of ios/Classes/sha2.h, and both macros on a word of memory.
use flutter_sdk.Base.{ℕ, ◌*◌, ◌/◌, ◌%◌, ◌^◌, ◌≡◌, refl, arith, ap, ap₂, ◌∙◌}
use flutter_sdk.Base.{List, [], ◌∷◌, length, AllBelow, u64, true, false, ◌>>>◌, ◌<<<◌}
use flutter_sdk.Base.{bit_and, bit_or, bit_or-zero, zero-bit_or}
use flutter_sdk.Hash.{le_word, be_word, reverse32, reverse64}
use flutter_sdk.Hash.Words.{keep, zip_or, mask_word, bit_and-mask, bit_or-bytes, reverse32-le_word}

-- Joining the bytes of xs with those of ys, where one of each two is zero.
module _ (a b c d e f g h : ℕ) (all : AllBelow 256 (a ∷ b ∷ c ∷ d ∷ e ∷ f ∷ g ∷ h ∷ [])) where
  swap_halves :
      let w = le_word (a ∷ b ∷ c ∷ d ∷ e ∷ f ∷ g ∷ h ∷ []) in
      bit_or (w >>> 32) (u64 (w <<< 32)) ≡ le_word (e ∷ f ∷ g ∷ h ∷ a ∷ b ∷ c ∷ d ∷ [])
  unfolding le_word zip_or
  swap_halves =
      ap₂ bit_or (omega arith) (omega arith)
      ∙ bit_or-bytes (e ∷ f ∷ g ∷ h ∷ 0 ∷ 0 ∷ 0 ∷ 0 ∷ []) (0 ∷ 0 ∷ 0 ∷ 0 ∷ a ∷ b ∷ c ∷ d ∷ []) refl
          (omega arith) (omega arith)
      ∙ simp (bit_or-zero, zero-bit_or)

  swap_bytes :
      let w = le_word (a ∷ b ∷ c ∷ d ∷ e ∷ f ∷ g ∷ h ∷ []) in
      bit_or (bit_and w 0xff00ff00ff00ff00 >>> 8) (u64 (bit_and w 0x00ff00ff00ff00ff <<< 8))
      ≡ le_word (b ∷ a ∷ d ∷ c ∷ f ∷ e ∷ h ∷ g ∷ [])
  unfolding le_word zip_or keep mask_word
  swap_bytes =
      let bytes = a ∷ b ∷ c ∷ d ∷ e ∷ f ∷ g ∷ h ∷ [] in
      let high =
        bit_and-mask (false ∷ true ∷ false ∷ true ∷ false ∷ true ∷ false ∷ true ∷ []) bytes all in
      let low =
        bit_and-mask (true ∷ false ∷ true ∷ false ∷ true ∷ false ∷ true ∷ false ∷ []) bytes all in
      ap₂ bit_or (ap (λ (x : ℕ). x / 2 ^ 8) high ∙ omega arith)
        (ap (λ (x : ℕ). x * 2 ^ 8 % 2 ^ 64) low ∙ omega arith)
      ∙ bit_or-bytes (b ∷ 0 ∷ d ∷ 0 ∷ f ∷ 0 ∷ h ∷ 0 ∷ []) (0 ∷ a ∷ 0 ∷ c ∷ 0 ∷ e ∷ 0 ∷ g ∷ []) refl
          (omega arith) (omega arith)
      ∙ simp (bit_or-zero, zero-bit_or)

  swap_pairs :
      let w = le_word (a ∷ b ∷ c ∷ d ∷ e ∷ f ∷ g ∷ h ∷ []) in
      bit_or (bit_and w 0xffff0000ffff0000 >>> 16) (u64 (bit_and w 0x0000ffff0000ffff <<< 16))
      ≡ le_word (c ∷ d ∷ a ∷ b ∷ g ∷ h ∷ e ∷ f ∷ [])
  unfolding le_word zip_or keep mask_word
  swap_pairs =
      let bytes = a ∷ b ∷ c ∷ d ∷ e ∷ f ∷ g ∷ h ∷ [] in
      let high =
        bit_and-mask (false ∷ false ∷ true ∷ true ∷ false ∷ false ∷ true ∷ true ∷ []) bytes all in
      let low =
        bit_and-mask (true ∷ true ∷ false ∷ false ∷ true ∷ true ∷ false ∷ false ∷ []) bytes all in
      ap₂ bit_or (ap (λ (x : ℕ). x / 2 ^ 16) high ∙ omega arith)
        (ap (λ (x : ℕ). x * 2 ^ 16 % 2 ^ 64) low ∙ omega arith)
      ∙ bit_or-bytes (c ∷ d ∷ 0 ∷ 0 ∷ g ∷ h ∷ 0 ∷ 0 ∷ []) (0 ∷ 0 ∷ a ∷ b ∷ 0 ∷ 0 ∷ e ∷ f ∷ []) refl
          (omega arith) (omega arith)
      ∙ simp (bit_or-zero, zero-bit_or)

-- REVERSE64 turns the little-endian word of eight bytes into the big-endian one.
reverse64-le_word :
    (a b c d e f g h : ℕ)
    → AllBelow 256 (a ∷ b ∷ c ∷ d ∷ e ∷ f ∷ g ∷ h ∷ [])
    → reverse64 (le_word (a ∷ b ∷ c ∷ d ∷ e ∷ f ∷ g ∷ h ∷ []))
      ≡ be_word 0 (a ∷ b ∷ c ∷ d ∷ e ∷ f ∷ g ∷ h ∷ [])
unfolding reverse64
reverse64-le_word a b c d e f g h all =
    ap₂ bit_or (ap (λ (x : ℕ). bit_and x 0xffff0000ffff0000 / 2 ^ 16) swapped)
      (ap (λ (x : ℕ). bit_and x 0x0000ffff0000ffff * 2 ^ 16 % 2 ^ 64) swapped)
    ∙ swap_pairs f e h g b a d c (omega arith)
    ∙ (unfold le_word be_word in omega arith)
  where
    swapped :
        let half =
          bit_or
            (le_word (a ∷ b ∷ c ∷ d ∷ e ∷ f ∷ g ∷ h ∷ []) >>> 32)
            (u64 (le_word (a ∷ b ∷ c ∷ d ∷ e ∷ f ∷ g ∷ h ∷ []) <<< 32)) in
        bit_or (bit_and half 0xff00ff00ff00ff00 >>> 8) (u64 (bit_and half 0x00ff00ff00ff00ff <<< 8))
        ≡ le_word (f ∷ e ∷ h ∷ g ∷ b ∷ a ∷ d ∷ c ∷ [])
    swapped =
        ap
          (λ (x : ℕ).
            bit_or (bit_and x 0xff00ff00ff00ff00 / 2 ^ 8)
              (bit_and x 0x00ff00ff00ff00ff * 2 ^ 8 % 2 ^ 64))
          (swap_halves a b c d e f g h all)
        ∙ swap_bytes e f g h a b c d (omega arith)

pub reverse32-bytes :
    (bytes : List ℕ)
    → length bytes ≡ 4
    → AllBelow 256 bytes
    → reverse32 (le_word bytes) ≡ be_word 0 bytes
reverse32-bytes (a ∷ b ∷ c ∷ d ∷ []) e all = reverse32-le_word a b c d all
reverse32-bytes _ e all = absurd (omega arith)

pub reverse64-bytes :
    (bytes : List ℕ)
    → length bytes ≡ 8
    → AllBelow 256 bytes
    → reverse64 (le_word bytes) ≡ be_word 0 bytes
reverse64-bytes (a ∷ b ∷ c ∷ d ∷ e ∷ f ∷ g ∷ h ∷ []) size all =
    reverse64-le_word a b c d e f g h all
reverse64-bytes _ size all = absurd (omega arith)

-- And the other way round.
pub reverse32-back :
    (bytes : List ℕ)
    → length bytes ≡ 4
    → AllBelow 256 bytes
    → reverse32 (be_word 0 bytes) ≡ le_word bytes
unfolding le_word be_word
reverse32-back (a ∷ b ∷ c ∷ d ∷ []) e all =
    let turned : be_word 0 (a ∷ b ∷ c ∷ d ∷ []) ≡ le_word (d ∷ c ∷ b ∷ a ∷ []) = omega arith in
    ap reverse32 turned ∙ reverse32-le_word d c b a (omega arith) ∙ omega arith
reverse32-back _ e all = absurd (omega arith)

pub reverse64-back :
    (bytes : List ℕ)
    → length bytes ≡ 8
    → AllBelow 256 bytes
    → reverse64 (be_word 0 bytes) ≡ le_word bytes
unfolding le_word be_word
reverse64-back (a ∷ b ∷ c ∷ d ∷ e ∷ f ∷ g ∷ h ∷ []) size all =
    let turned : be_word 0 (a ∷ b ∷ c ∷ d ∷ e ∷ f ∷ g ∷ h ∷ [])
        ≡ le_word (h ∷ g ∷ f ∷ e ∷ d ∷ c ∷ b ∷ a ∷ []) =
      omega arith in
    ap reverse64 turned ∙ reverse64-le_word h g f e d c b a (omega arith) ∙ omega arith
reverse64-back _ size all = absurd (omega arith)
