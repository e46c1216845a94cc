-- ===== src/Mnemonic/Check.antt =====
-- mnemonic_check of ios/Classes/bip39.c on what mnemonic_generate and mnemonic_from_data make.
use flutter_sdk.Base.{ℕ, suc, ◌-◌, ◌*◌, ◌/◌, ◌<◌, ◌≡◌, arith, ap}
use flutter_sdk.Base.{List, true, false, ltb, ◌==◌, ◌⊎◌, inl, inr, ◌∙◌}
use flutter_sdk.Base.{length, get_or, some, AllBelow}
use flutter_sdk.Mnemonic.{mnemonic_from_data, data_from_mnemonic, mnemonic_check, bad_length}
use flutter_sdk.Base.{◌||◌}
use flutter_sdk.Mnemonic.{checked_bits, mnemo_loop, count_words}
use flutter_sdk.Mnemonic.{mnemonic_generate, bad_strength}
use flutter_sdk.Mnemonic.Text.{count_words-mnemo_loop}
use flutter_sdk.Mnemonic.RoundTrip.{IsUsual, data_from_mnemonic-mnemonic_from_data}

other-not-bad : (len : ℕ) → (len ≡ 20) ⊎ (len ≡ 28) → bad_length len ≡ false
unfolding bad_length
other-not-bad len other = ground arith

other_count :
    (len : ℕ)
    → (len ≡ 20) ⊎ (len ≡ 28)
    → (len * 3 / 4 == 12 || len * 3 / 4 == 18 || len * 3 / 4 == 24) ≡ false
other_count len other = ground arith

usual-strength : (s : ℕ) → (s ≡ 128) ⊎ (s ≡ 192) ⊎ (s ≡ 256) → bad_strength s ≡ false
unfolding bad_strength
usual-strength s usual = ground arith

by_bits : (s : ℕ) → (s ≡ 128) ⊎ (s ≡ 192) ⊎ (s ≡ 256) → IsUsual (s / 8)
by_bits s (inl a) = inl (omega arith)
by_bits s (inr (inl b)) = inr (inl (omega arith))
by_bits s (inr (inr c)) = inr (inr (omega arith))

-- mnemonic_check accepts what mnemonic_generate makes at a strength of 128, 192 or 256 bits out of
-- any 32 random bytes.
pub mnemonic_check-mnemonic_generate :
    (sha256 : List ℕ → List ℕ) (random : List ℕ) (strength : ℕ) (buffer : List ℕ)
    → ((m : List ℕ) → get_or (sha256 m) 0 0 < 256)
    → (strength ≡ 128) ⊎ (strength ≡ 192) ⊎ (strength ≡ 256)
    → length random ≡ 32
    → AllBelow 256 random
    → mnemonic_check sha256 buffer (mnemonic_generate sha256 random strength) ≡ 1
unfolding mnemonic_check mnemonic_generate
mnemonic_check-mnemonic_generate sha256 random strength buffer first usual size all =
    let (t, made, back, same) =
      data_from_mnemonic-mnemonic_from_data sha256 random (strength / 8) buffer first
        (by_bits strength usual) (omega arith) all in
    let fine : bad_strength strength ≡ false = usual-strength strength usual in
    rw (fine, made, back)
      (let some_bytes : ltb 0 (strength / 8) ≡ true = ground arith in rw some_bytes)

-- For 20 or 28 bytes mnemonic_from_data gives a text too, and mnemonic_check refuses it: its 15 or
-- 21 words are none of the numbers that data_from_mnemonic takes.
pub mnemonic_check-refuses :
    (sha256 : List ℕ → List ℕ) (bytes : List ℕ) (len : ℕ) (buffer : List ℕ)
    → (len ≡ 20) ⊎ (len ≡ 28)
    → (text : List ℕ) × (mnemonic_from_data sha256 bytes len ≡ some text)
      × (mnemonic_check sha256 buffer (some text) ≡ 0)
unfolding mnemonic_from_data mnemonic_check data_from_mnemonic
mnemonic_check-refuses sha256 bytes len buffer other =
    let mlen = len * 3 / 4 in
    let t = mnemo_loop (checked_bits sha256 bytes len) mlen 0 mlen in
    let fine : bad_length len ≡ false = other-not-bad len other in
    let positive : mlen ≡ suc (mlen - 1) = omega arith in
    let counted : count_words 0 t ≡ mlen =
      ap (λ (n : ℕ). count_words 0 (mnemo_loop (checked_bits sha256 bytes len) mlen 0 n)) positive
      ∙ count_words-mnemo_loop (checked_bits sha256 bytes len) mlen 0 (mlen - 1) 0 (omega arith)
          (omega arith)
      ∙ omega arith in
    let test : (mlen == 12 || mlen == 18 || mlen == 24) ≡ false = other_count len other in
    (t, rw fine, rw (counted, test))
