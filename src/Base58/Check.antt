-- ===== src/Base58/Check.antt =====
-- The texts with a checksum of ios/Classes/base58.c.
use flutter_sdk.Base.{ℕ, ◌+◌, ◌-◌, ◌*◌, ◌/◌, ◌<◌, ◌≤◌, ◌≡◌, refl, arith, ap, ◌∙◌}
use flutter_sdk.Base.{List, [], ◌∷◌, ◌++◌, Option, some, false, ltb, length, AllBelow}
use flutter_sdk.Base.{
  take, drop, take-append, drop-append, length-append, length-take, take-AllBelow, AllBelow-append,
  replicate,
}
use flutter_sdk.Base.{length-replicate, get_or}
use flutter_sdk.Mnemonic.Find.{str_eq_refl}
use flutter_sdk.Base58.RoundTrip.{b58tobin-b58enc}
use flutter_sdk.Base58.{
  skip_ones, leading_zeros, b58tobin, b58enc, b58check, zeros_differ, first_byte, accept, decoded,
}
use flutter_sdk.Base58.{base58_encode_check, base58_decode_check}

zeros_differ-same :
    (bin text : List ℕ)
    → leading_zeros bin < length bin
    → (skip_ones text).0 ≡ leading_zeros bin
    → zeros_differ bin text ≡ false
unfolding zeros_differ leading_zeros skip_ones
zeros_differ-same [] text some_other same = absurd (omega arith)
zeros_differ-same (b ∷ bs) [] some_other same = ground arith
zeros_differ-same (b ∷ bs) (ch ∷ chs) some_other same = ground (arith, zeros_differ-same bs chs)

module _ (sum : List ℕ → List ℕ) where
  abbrev pub full : List ℕ → List ℕ
  full bytes = bytes ++ take 4 (sum bytes)

  b58check-full :
      (bytes text : List ℕ)
      → length (take 4 (sum bytes)) ≡ 4
      → zeros_differ (full bytes) text ≡ false
      → b58check sum (full bytes) text ≡ first_byte (get_or (full bytes) 0 0)
  unfolding b58check
  b58check-full bytes text four zeros =
      let size = length-append bytes (take 4 (sum bytes)) in
      let n : length (full bytes) - 4 ≡ length bytes = omega (arith, size, four) in
      let long : ltb (length (full bytes)) 4 ≡ false = ground (arith, size, four) in
      let back = drop-append (length bytes) bytes (take 4 (sum bytes)) refl in
      let front = take-append (length bytes) bytes (take 4 (sum bytes)) refl in
      rw (long, n, back, front, str_eq_refl (take 4 (sum bytes)), zeros) refl

  pub encode_text :
      (bytes text : List ℕ) (strsize n : ℕ)
      → length bytes ≤ 128
      → b58enc strsize (full bytes) ≡ (some text, n)
      → base58_encode_check sum bytes strsize ≡ (some text, n)
  unfolding base58_encode_check
  encode_text bytes text strsize n few encoded =
      let short : ltb 128 (length bytes) ≡ false = ground arith in
      rw (short, encoded) (ap (λ (t : Option (List ℕ) × ℕ). (some text, t.1)) encoded)

  decode_full :
      (bytes text bin : List ℕ) (datalen res b : ℕ)
      → datalen ≤ 128
      → res ≤ datalen + 4
      → b58tobin (datalen + 4) text ≡ some (bin, res)
      → drop (datalen + 4 - res) bin ≡ full bytes
      → b58check sum (full bytes) text ≡ first_byte b
      → res - 4 ≡ length bytes
      → base58_decode_check sum datalen text ≡ decoded bytes
  unfolding base58_decode_check accept
  decode_full bytes text bin datalen res b few inside read behind checked n =
      let short : ltb 128 datalen ≡ false = ground arith in
      let within : ltb (datalen + 4) res ≡ false = ground arith in
      rw (short, read, within, behind, checked, n)
        (ap decoded (take-append (length bytes) bytes (take 4 (sum bytes)) refl))

  -- For a sum of at least four bytes, up to 128 bytes of data that are no more than datalen, itself
  -- at most 128, and a strsize above (n + 4) * 138 / 100 + 1 for n bytes: where the data and the
  -- checksum are not zeros alone, base58_encode_check makes a text, and base58_decode_check gives
  -- the data back from it.
  pub base58_decode_check-base58_encode_check :
      (bytes : List ℕ) (datalen strsize : ℕ)
      → AllBelow 256 bytes
      → AllBelow 256 (sum bytes)
      → 4 ≤ length (sum bytes)
      → length bytes ≤ datalen
      → datalen ≤ 128
      → (length bytes + 4) * 138 / 100 + 1 < strsize
      → leading_zeros (full bytes) < length (full bytes)
      → (text : List ℕ) × (base58_encode_check sum bytes strsize ≡ (some text, length text + 1))
        × (base58_decode_check sum datalen text ≡ decoded bytes)
  base58_decode_check-base58_encode_check bytes datalen strsize all sums four fits few room
        some_other =
      let check = take 4 (sum bytes) in
      let size_check : length check ≡ 4 =
        length-take 4 (length (sum bytes) - 4) (sum bytes) (omega arith) in
      let size : length (full bytes) ≡ length bytes + 4 =
        omega (arith, length-append bytes check, size_check) in
      let (text, bin, encoded, read, padded, ones) =
        b58tobin-b58enc strsize (datalen + 4) (full bytes)
          (AllBelow-append 256 bytes check all (take-AllBelow 256 4 (sum bytes) sums)) (omega arith)
          (omega (arith, size)) (rw size room) in
      let pad = datalen + 4 - length (full bytes) in
      let behind : drop pad bin ≡ full bytes =
        ap (drop pad) padded
        ∙ drop-append pad (replicate pad 0) (full bytes) (length-replicate {A = ℕ} pad 0) in
      let checked =
        b58check-full bytes text size_check (zeros_differ-same (full bytes) text some_other ones) in
      let n : length (full bytes) - 4 ≡ length bytes = omega (arith, size) in
      (
        text,
        encode_text bytes text strsize (length text + 1) (omega arith) encoded,
        decode_full bytes text bin datalen (length (full bytes)) (get_or (full bytes) 0 0) few
            (omega (arith, size)) read behind checked n,
      )
