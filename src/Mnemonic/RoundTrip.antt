-- ===== src/Mnemonic/RoundTrip.antt =====
-- mnemonic_from_data and then data_from_mnemonic, of ios/Classes/bip39.c.
use flutter_sdk.Base.{ℕ, zero, suc, ◌+◌, ◌-◌, ◌*◌, ◌/◌, ◌<◌, ◌≤◌, ◌≡◌, refl, arith, ap}
use flutter_sdk.Base.{List, [], ◌∷◌, ◌++◌, true, false, ◌==◌, ◌⊎◌, ◌∙◌}
use flutter_sdk.Base.{length, length-append, length-take, get_or, take, some, AllBelow, sym}
use flutter_sdk.Base.{take-AllBelow, take-append, replicate, bit_and, try_all, try_all-lt, ==_iff}
use flutter_sdk.Mnemonic.{mnemonic_from_data, data_from_mnemonic, bad_length}
use flutter_sdk.Base.{AllBelow-append, ◌||◌, length-replicate, replicate-AllBelow}
use flutter_sdk.Mnemonic.{checked_bits, mnemo_loop, words_loop, word_index, count_words, check_sum}
use flutter_sdk.Mnemonic.{mask_loop, finish_scan, scanned}
use flutter_sdk.Mnemonic.Bits.{
  num, num-cong, clip, clip_byte, clip-zero, clip-append, word_index-num,
}
use native.Mathlib.Nat.{mul-le-mul_right}
use flutter_sdk.Mnemonic.Text.{count_words-mnemo_loop, words_loop-mnemo_loop}

get_or-shared :
    (xs : List ℕ) (c : ℕ) (ys zs : List ℕ) (i : ℕ)
    → i ≤ length xs
    → get_or (xs ++ c ∷ ys) i 0 ≡ get_or (xs ++ c ∷ zs) i 0
get_or-shared [] c ys zs zero h = refl
get_or-shared [] c ys zs (suc i) h = absurd (omega arith)
get_or-shared (x ∷ xs) c ys zs zero h = refl
get_or-shared (x ∷ xs) c ys zs (suc i) h = get_or-shared xs c ys zs i (omega arith)

get_or-behind :
    (n : ℕ) (xs : List ℕ) (c : ℕ) (ys : List ℕ) → length xs ≡ n → get_or (xs ++ c ∷ ys) n 0 ≡ c
get_or-behind zero [] c ys e = refl
get_or-behind zero (x ∷ xs) c ys e = absurd (omega arith)
get_or-behind (suc n) [] c ys e = absurd (omega arith)
get_or-behind (suc n) (x ∷ xs) c ys e = get_or-behind n xs c ys (omega arith)

-- The mask of r bits reads the first r bits.
mask_table :
    try_all
      (λ r.
        try_all (λ c. bit_and c (mask_loop r 0 0) == bit_and (clip_byte c r) (mask_loop r 0 0)) 256)
      9
    ≡ true
unfolding try_all mask_loop clip_byte
mask_table = refl

masked :
    (r c : ℕ)
    → r < 9
    → c < 256
    → (bit_and c (mask_loop r 0 0) == bit_and (clip_byte c r) (mask_loop r 0 0)) ≡ true
masked r c h k = try_all-lt _ k (try_all-lt _ h mask_table)

-- The lengths whose number of words data_from_mnemonic takes.
abbrev pub IsUsual : ℕ → Type 0
IsUsual len = (len ≡ 16) ⊎ (len ≡ 24) ⊎ (len ≡ 32)

usual-not-bad : (len : ℕ) → IsUsual len → bad_length len ≡ false
unfolding bad_length
usual-not-bad len usual = ground arith

module _ (sha256 : List ℕ → List ℕ) (first : (m : List ℕ) → get_or (sha256 m) 0 0 < 256)
    (bytes : List ℕ) (len : ℕ) (usual : IsUsual len) (enough : len ≤ length bytes)
    (all : AllBelow 256 bytes) where
  mlen : ℕ
  mlen = len * 3 / 4

  bits : List ℕ
  bits = checked_bits sha256 bytes len

  text : List ℕ
  text = mnemo_loop bits mlen 0 mlen

  checksum : ℕ
  checksum = get_or (sha256 (take len bytes)) 0 0

  -- The array that the bits fill, and the same with the checksum cut to its bits.
  whole : List ℕ
  whole = take len bytes ++ checksum ∷ replicate (64 - len) 0

  filled : List ℕ
  filled = take len bytes ++ clip (checksum ∷ replicate (64 - len) 0) (len / 4)

  length-front : length (take len bytes) ≡ len
  length-front = length-take len (length bytes - len) bytes (omega arith)

  text_found : mnemonic_from_data sha256 bytes len ≡ some text
  unfolding mnemonic_from_data text mlen bits
  text_found = rw (usual-not-bad len usual)

  words_of_len :
      (mlen ≡ suc (mlen - 1))
      × (mlen * 11 ≡ 8 * len + len / 4)
      × (mlen * 4 / 3 ≡ len)
      × (mlen / 3 ≡ len / 4)
      × (mlen ≤ 24)
  unfolding mlen
  words_of_len = omega arith

  length-whole : length whole ≡ 65
  unfolding whole
  length-whole = omega (
    arith,
    length-append (take len bytes) (checksum ∷ replicate (64 - len) 0),
    length-front,
    length-replicate {A = ℕ} (64 - len) 0,
  )

  whole-AllBelow : AllBelow 256 whole
  unfolding whole checksum
  whole-AllBelow =
      AllBelow-append 256 (take len bytes) _ (take-AllBelow 256 len bytes all)
        (first (take len bytes), replicate-AllBelow 256 (64 - len) 0 (omega arith))

  whole-filled : clip whole (mlen * 11) ≡ filled
  unfolding whole filled
  whole-filled =
      ap (clip whole) words_of_len.1 ∙ clip-append len (take len bytes) _ (len / 4) length-front

  agree : (j : ℕ) → j < mlen → word_index bits j ≡ num whole (j * 11) 11
  unfolding bits whole checksum checked_bits
  agree j less =
      let more : suc j * 11 ≤ mlen * 11 = mul-le-mul_right 11 less in
      word_index-num bits j
      ∙ num-cong bits whole (j * 11) 11 (λ q h.
        get_or-shared (take len bytes) checksum _ _ (q / 8)
          (omega (arith, words_of_len, length-front)))

  scan : words_loop (length text) text (replicate 65 0) 0 ≡ scanned filled (mlen * 11)
  unfolding text
  scan =
      let count = words_of_len.0 in
      let front = mnemo_loop bits mlen 0 (suc (mlen - 1)) in
      let start : replicate 65 0 ≡ clip whole 0 =
        sym (clip-zero whole whole-AllBelow ∙ ap (λ (t : ℕ). replicate t 0) length-whole) in
      ap
        (λ (t : ℕ).
          words_loop (length (mnemo_loop bits mlen 0 t)) (mnemo_loop bits mlen 0 t) (replicate 65 0)
            0)
        count
      ∙ ap (λ b. words_loop (length front) front b 0) start
      ∙ words_loop-mnemo_loop bits whole mlen whole-AllBelow
          (omega (arith, length-whole, words_of_len)) (omega (arith, words_of_len)) agree 0
          (mlen - 1) (length front) (omega (arith, count)) (omega arith)
      ∙ ap (λ b. scanned b (mlen * 11)) whole-filled

  counted : count_words 0 text ≡ mlen
  unfolding text
  counted =
      let count = words_of_len.0 in
      ap (λ (t : ℕ). count_words 0 (mnemo_loop bits mlen 0 t)) count
      ∙ count_words-mnemo_loop bits mlen 0 (mlen - 1) 0 (omega (arith, count))
          (omega (arith, words_of_len))
      ∙ omega (arith, count)

  checked : check_sum sha256 mlen filled ≡ (len, filled)
  unfolding check_sum filled checksum clip
  checked =
      let front =
        take-append len (take len bytes) (clip (checksum ∷ replicate (64 - len) 0) (len / 4))
          length-front in
      let behind =
        get_or-behind len (take len bytes) (clip_byte checksum (len / 4))
          (clip (replicate (64 - len) 0) (len / 4 - 8)) length-front in
      rw (
        words_of_len.2,
        words_of_len.3,
        front,
        behind,
        masked (len / 4) checksum (omega arith) (first (take len bytes)),
      )

  take-filled : take len filled ≡ take len bytes
  unfolding filled
  take-filled = take-append len (take len bytes) _ length-front

  usual_count : (mlen == 12 || mlen == 18 || mlen == 24) ≡ true
  unfolding mlen
  usual_count = ground arith

  read_back : (buffer : List ℕ) → data_from_mnemonic sha256 (some text) buffer ≡ (len, filled)
  unfolding data_from_mnemonic finish_scan
  read_back buffer =
      rw (counted, usual_count, scan) (rw ((==_iff (mlen * 11) (mlen * 11)).1 refl) checked)

-- For 16, 24 or 32 bytes, mnemonic_from_data gives a text from which data_from_mnemonic reads that
-- many bytes, and they are the same. The first byte of every digest has to be a byte.
pub data_from_mnemonic-mnemonic_from_data :
    (sha256 : List ℕ → List ℕ) (bytes : List ℕ) (len : ℕ) (buffer : List ℕ)
    → ((m : List ℕ) → get_or (sha256 m) 0 0 < 256)
    → IsUsual len
    → len ≤ length bytes
    → AllBelow 256 bytes
    → (text : List ℕ) × (mnemonic_from_data sha256 bytes len ≡ some text)
      × ((data_from_mnemonic sha256 (some text) buffer).0 ≡ len)
      × (take len (data_from_mnemonic sha256 (some text) buffer).1 ≡ take len bytes)
data_from_mnemonic-mnemonic_from_data sha256 bytes len buffer first usual enough all =
    let back = read_back sha256 first bytes len usual enough all buffer in
    (
      text sha256 first bytes len usual enough all,
      text_found sha256 first bytes len usual enough all,
      ap (λ r. r.0) back,
      ap (λ r. take len r.1) back ∙ take-filled sha256 first bytes len usual enough all,
    )
