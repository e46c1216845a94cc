-- ===== src/Base58/Bytes.antt =====
-- The bytes that b58tobin (ios/Classes/base58.c) makes of outi.
use flutter_sdk.Base.{
  ℕ, zero, suc, ◌+◌, ◌*◌, ◌/◌, ◌%◌, ◌^◌, ◌<◌, ◌≡◌, refl, arith, ap, ap₂, ◌∙◌, sym,
}
use flutter_sdk.Base.{List, [], ◌∷◌, length, length-append, AllBelow, AllBelow-append, ◌>>>◌}
use flutter_sdk.Base.{
  false, if◌then◌else◌, ◌==◌, bit_and, bit_and-parts, bit_and-ones, bit_and-zero,
}
use native.Mathlib.Nat.{
  one-le-pow, div-add-mod, mod-lt, pow-suc, pow-zero, zero-add, lt_of_mul-lt-mul_right,
}
use flutter_sdk.Bignum.Bytes.Words.{big_endian}
use flutter_sdk.Base58.Words.{big_endian-acc, big_endian-cons, big_endian-append}
use flutter_sdk.Base58.Mask.{room}
use flutter_sdk.Base58.{front_bytes, word_bytes_be, out_bytes}

word_bytes_be-value :
    (acc : ℕ) (ws : List ℕ)
    → AllBelow (2 ^ 32) ws
    → (big_endian 256 acc (word_bytes_be ws) ≡ big_endian (2 ^ 32) acc ws)
      × (length (word_bytes_be ws) ≡ length ws * 4)
      × AllBelow 256 (word_bytes_be ws)
unfolding word_bytes_be big_endian
word_bytes_be-value acc [] all = (refl, refl, tt)
word_bytes_be-value acc (w ∷ ws) all =
    let b3 : bit_and (w >>> 0x18) 0xff ≡ w / 2 ^ 24 % 256 = bit_and-ones 8 (w / 2 ^ 24) in
    let b2 : bit_and (w >>> 0x10) 0xff ≡ w / 2 ^ 16 % 256 = bit_and-ones 8 (w / 2 ^ 16) in
    let b1 : bit_and (w >>> 8) 0xff ≡ w / 2 ^ 8 % 256 = bit_and-ones 8 (w / 2 ^ 8) in
    let b0 : bit_and (w >>> 0) 0xff ≡ w % 256 = bit_and-ones 8 (w / 1) ∙ omega arith in
    let (same, long, bytes) = word_bytes_be-value (acc * 2 ^ 32 + w) ws all.1 in
    (
      ap (λ (t : ℕ). big_endian 256 t (word_bytes_be ws)) (omega (arith, b3, b2, b1, b0, all.0))
          ∙ same,
      omega (arith, long),
      (omega (arith, b3), (omega (arith, b2), (omega (arith, b1), (omega (arith, b0), bytes)))),
    )

-- A byte of a word, taken out by a mask.
masked_byte : (k w : ℕ) → bit_and w (0xff * 2 ^ k) ≡ w / 2 ^ k % 256 * 2 ^ k
masked_byte k w =
    let pos = one-le-pow k 2 (omega arith) in
    let split : w / 2 ^ k * 2 ^ k + w % 2 ^ k ≡ w = omega (arith, div-add-mod w (2 ^ k)) in
    let mask : 0xff * 2 ^ k ≡ 0xff * 2 ^ k + 0 = omega arith in
    ap₂ bit_and (sym split) mask
    ∙ bit_and-parts k (w / 2 ^ k) 0xff (w % 2 ^ k) 0 (mod-lt w pos) pos
    ∙ omega
        (arith, bit_and-zero (w % 2 ^ k), ap (λ (t : ℕ). t * 2 ^ k) (bit_and-ones 8 (w / 2 ^ k)))

front_bytes-value :
    (k w : ℕ)
    → 0 < k
    → k < 4
    → w < room k
    → (big_endian 256 0 (front_bytes k w) ≡ w)
      × (length (front_bytes k w) ≡ k)
      × AllBelow 256 (front_bytes k w)
unfolding front_bytes big_endian
front_bytes-value zero w pos small less = absurd (omega arith)
front_bytes-value (suc zero) w pos small less =
    let b0 : bit_and w 0xff ≡ w % 256 = bit_and-ones 8 w in
    (omega (arith, b0, less), refl, (omega (arith, b0), tt))
front_bytes-value (suc (suc zero)) w pos small less =
    let b1 : bit_and w 0xff00 >>> 8 ≡ w / 2 ^ 8 % 256 = omega (arith, masked_byte 8 w) in
    let b0 : bit_and w 0xff ≡ w % 256 = bit_and-ones 8 w in
    (omega (arith, b1, b0, less), refl, (omega (arith, b1), (omega (arith, b0), tt)))
front_bytes-value (suc (suc (suc zero))) w pos small less =
    let b2 : bit_and w 0xff0000 >>> 16 ≡ w / 2 ^ 16 % 256 = omega (arith, masked_byte 16 w) in
    let b1 : bit_and w 0xff00 >>> 8 ≡ w / 2 ^ 8 % 256 = omega (arith, masked_byte 8 w) in
    let b0 : bit_and w 0xff ≡ w % 256 = bit_and-ones 8 w in
    (
      omega (arith, b2, b1, b0, less),
      refl,
      (omega (arith, b2), (omega (arith, b1), (omega (arith, b0), tt))),
    )
front_bytes-value (suc (suc (suc (suc b)))) w pos small less = absurd (omega arith)

pub out_bytes-value :
    (k : ℕ) (outi : List ℕ) (n : ℕ)
    → k < 4
    → length outi ≡ suc n
    → AllBelow (2 ^ 32) outi
    → big_endian (2 ^ 32) 0 outi < room k * (2 ^ 32) ^ n
    → (big_endian 256 0 (out_bytes k outi) ≡ big_endian (2 ^ 32) 0 outi)
      × (length (out_bytes k outi) ≡ n * 4 + (if k == 0 then 4 else k))
      × AllBelow 256 (out_bytes k outi)
unfolding out_bytes
out_bytes-value k [] n small long all below = absurd (omega arith)
out_bytes-value zero (w ∷ ws) n small long all below =
    let (same, size, bytes) = word_bytes_be-value 0 (w ∷ ws) all in
    (same, omega (arith, size, long), bytes)
out_bytes-value (suc k) (w ∷ ws) n small long all below =
    let p = (2 ^ 32) ^ n in
    let rest : length ws ≡ n = omega arith in
    let less : w < room (suc k) = lt_of_mul-lt-mul_right p (
      omega (arith, big_endian-cons (2 ^ 32) w ws, below, ap (λ (t : ℕ). w * (2 ^ 32) ^ t) rest)) in
    let (front, size, bytes) = front_bytes-value (suc k) w (omega arith) small less in
    let (same, size', bytes') = word_bytes_be-value w ws all.1 in
    let more : (suc k == 0) ≡ false = ground arith in
    rw more (
      big_endian-append 256 0 (front_bytes (suc k) w) (word_bytes_be ws)
          ∙ ap (λ (t : ℕ). big_endian 256 t (word_bytes_be ws)) front
          ∙ same
          ∙ big_endian-acc (2 ^ 32) w ws
          ∙ sym (big_endian-cons (2 ^ 32) w ws),
      omega (arith, length-append (front_bytes (suc k) w) (word_bytes_be ws), size, size', rest),
      AllBelow-append 256 (front_bytes (suc k) w) (word_bytes_be ws) bytes bytes',
    )

pow_words : (n k : ℕ) → 256 ^ k * (2 ^ 32) ^ n ≡ 256 ^ (n * 4 + k)
pow_words zero k =
    omega
      (arith, ap (λ (t : ℕ). 256 ^ k * t) (pow-zero (2 ^ 32)), ap (λ (t : ℕ). 256 ^ t) (zero-add k))
pow_words (suc n) k =
    let four_more : suc n * 4 + k ≡ suc (suc (suc (suc (n * 4 + k)))) = omega arith in
    omega (
      arith,
      ap (λ (t : ℕ). 256 ^ k * t) (pow-suc (2 ^ 32) n),
      ap (λ (t : ℕ). t * 2 ^ 32) (pow_words n k),
      pow-suc 256 (n * 4 + k),
      pow-suc 256 (suc (n * 4 + k)),
      pow-suc 256 (suc (suc (n * 4 + k))),
      pow-suc 256 (suc (suc (suc (n * 4 + k)))),
      ap (λ (t : ℕ). 256 ^ t) four_more,
    )

-- The limit is that of the bytes.
pub room-bytes :
    (k n : ℕ) → k < 4 → room k * (2 ^ 32) ^ n ≡ 256 ^ (n * 4 + (if k == 0 then 4 else k))
room-bytes zero n small = pow_words n 4
room-bytes (suc zero) n small = pow_words n 1
room-bytes (suc (suc zero)) n small = pow_words n 2
room-bytes (suc (suc (suc zero))) n small = pow_words n 3
room-bytes (suc (suc (suc (suc b)))) n small = absurd (omega arith)
