-- ===== src/Base58/Taken.antt =====
-- What base58_decode_check of ios/Classes/base58.c takes.
use flutter_sdk.Base.{ℕ, ◌+◌, ◌-◌, ◌*◌, ◌/◌, ◌<◌, ◌≤◌, ◌≡◌, refl, arith, ap, ap₂, ◌∙◌, sym}
use flutter_sdk.Base.{List, [], ◌++◌, some, Bool, true, false, ltb, length, AllBelow}
use flutter_sdk.Base.{
  take, drop, length-take, length-drop, take-append-drop, drop-AllBelow, Bool-cases, inl, inr,
}
use flutter_sdk.Base.{Option-cases}
use flutter_sdk.Mnemonic.{str_eq}
use flutter_sdk.Mnemonic.Find.{str_eq→eq}
use flutter_sdk.Bignum.Bytes.Words.{big_endian}
use flutter_sdk.Base58.Decode.{b58tobin-result}
use flutter_sdk.Base58.Check.{full, encode_text}
use flutter_sdk.Base58.Canonical.{zeros_differ-ones, drop_zeros-value, b58enc-canonical}
use flutter_sdk.Base58.{
  b58tobin, b58check, zeros_differ, CheckResult, too_short, wrong_sum, wrong_zeros, first_byte,
}
use flutter_sdk.Base58.{
  base58_encode_check, base58_decode_check, accept, DecodeResult, rejected, out_of_bounds, decoded,
}

is_decoded : DecodeResult → Bool
is_decoded (decoded bytes) = true
is_decoded other = false

bytes_of : DecodeResult → List ℕ
bytes_of (decoded bytes) = bytes
bytes_of other = []

rejected-ne-decoded : {bytes : List ℕ} → rejected ≡ decoded bytes → ⊥
unfolding is_decoded
rejected-ne-decoded same = ground (arith, ap is_decoded same)

bounds-ne-decoded : {bytes : List ℕ} → out_of_bounds ≡ decoded bytes → ⊥
unfolding is_decoded
bounds-ne-decoded same = ground (arith, ap is_decoded same)

accept-decoded :
    (r : CheckResult) (xs bytes : List ℕ)
    → accept r xs ≡ decoded bytes
    → (b : ℕ) × (r ≡ first_byte b) × (bytes ≡ xs)
unfolding accept bytes_of
accept-decoded too_short xs bytes done = absurd (rejected-ne-decoded done)
accept-decoded wrong_sum xs bytes done = absurd (rejected-ne-decoded done)
accept-decoded wrong_zeros xs bytes done = absurd (rejected-ne-decoded done)
accept-decoded (first_byte b) xs bytes done = (b, refl, sym (ap bytes_of done))

is_first : CheckResult → Bool
is_first (first_byte b) = true
is_first other = false

module _ (sum : List ℕ → List ℕ) where
  b58check-taken :
      (nd text : List ℕ) (b : ℕ)
      → b58check sum nd text ≡ first_byte b
      → (4 ≤ length nd)
        × (drop (length nd - 4) nd ≡ take 4 (sum (take (length nd - 4) nd)))
        × (zeros_differ nd text ≡ false)
  unfolding b58check is_first
  b58check-taken nd text b done =
      let n = length nd - 4 in
      elim (Bool-cases (ltb (length nd) 4)) [
        | inl short ↦ absurd (ground (arith, ap is_first (rw short at done)))
        | inr long ↦ elim (Bool-cases (str_eq (drop n nd) (take 4 (sum (take n nd))))) [
          | inr wrong ↦ absurd (ground (arith, ap is_first (rw (long, wrong) at done)))
          | inl right ↦ elim (Bool-cases (zeros_differ nd text)) [
            | inl differ ↦ absurd (ground (arith, ap is_first (rw (long, right, differ) at done)))
            | inr same ↦
                (ground arith, str_eq→eq (drop n nd) (take 4 (sum (take n nd))) right, same)
          ]
        ]
      ]

  decode_steps :
      (datalen : ℕ) (text bytes : List ℕ)
      → base58_decode_check sum datalen text ≡ decoded bytes
      → (bin : List ℕ) × (res : ℕ) × (b : ℕ) × (datalen ≤ 128)
        × (res ≤ datalen + 4)
        × (b58tobin (datalen + 4) text ≡ some (bin, res))
        × (b58check sum (drop (datalen + 4 - res) bin) text ≡ first_byte b)
        × (bytes ≡ take (res - 4) (drop (datalen + 4 - res) bin))
  unfolding base58_decode_check
  decode_steps datalen text bytes done = elim (Bool-cases (ltb 128 datalen)) [
    | inl over ↦ absurd (rejected-ne-decoded (rw over at done))
    | inr few ↦ elim (Option-cases (b58tobin (datalen + 4) text)) [
      | inl failed ↦ absurd (rejected-ne-decoded (rw (few, failed) at done))
      | inr ((bin, res), read) ↦ elim (Bool-cases (ltb (datalen + 4) res)) [
        | inl outside ↦ absurd (bounds-ne-decoded (rw (few, read, outside) at done))
        | inr within ↦
            let nd = drop (datalen + 4 - res) bin in
            let (b, checked, equal) =
              accept-decoded (b58check sum nd text) (take (res - 4) nd) bytes
                (rw (few, read, within) at done) in
            (bin, res, b, ground arith, ground arith, read, checked, equal)
      ]
    ]
  ]

  -- A text of bytes that base58_decode_check takes is the one that base58_encode_check makes of the
  -- data it gives, for a strsize above (n + 4) * 138 / 100 + 1 for n bytes: no other text is taken
  -- for the same data.
  pub base58_encode_check-base58_decode_check :
      (datalen strsize : ℕ) (text bytes : List ℕ)
      → AllBelow 256 text
      → (length bytes + 4) * 138 / 100 + 1 < strsize
      → base58_decode_check sum datalen text ≡ decoded bytes
      → base58_encode_check sum bytes strsize ≡ (some text, length text + 1)
  base58_encode_check-base58_decode_check datalen strsize text bytes all room done =
      let (bin, res, b, few, within, read, checked, equal) = decode_steps datalen text bytes done in
      let (ds, digits, count, number, long, small) =
        b58tobin-result (datalen + 4) (omega arith) text bin res all read in
      let pad = datalen + 4 - res in
      let nd = drop pad bin in
      let (four, tail, zeros) = b58check-taken nd text b checked in
      let size : length nd ≡ res = omega (arith, length-drop pad bin, long) in
      let whole : nd ≡ full sum bytes =
        sym (take-append-drop (length nd - 4) nd)
        ∙ ap₂ ◌++◌ (ap (λ (t : ℕ). take (t - 4) nd) size ∙ sym equal) (
            tail
            ∙ ap (λ (t : ℕ). take 4 (sum (take (t - 4) nd))) size
            ∙ ap (λ t. take 4 (sum t)) (sym equal)) in
      let ones = zeros_differ-ones nd text zeros in
      let shorter : length bytes ≡ res - 4 =
        ap length equal ∙ length-take (res - 4) 4 nd (omega (arith, four, size)) in
      let value : big_endian 256 0 nd ≡ big_endian 58 0 ds =
        drop_zeros-value 256 pad bin (omega (arith, count)) ∙ number in
      encode_text sum bytes text strsize (length text + 1) (omega (arith, shorter)) (
        rw whole at (
          b58enc-canonical strsize nd text ds (drop-AllBelow 256 pad bin small) digits ones value
            (omega (arith, size, shorter, room, four))))
