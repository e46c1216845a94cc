-- ===== src/Base58/Decode.antt =====
-- b58tobin of ios/Classes/base58.c on every text.
use flutter_sdk.Base.{
  ℕ, zero, suc, ◌+◌, ◌-◌, ◌*◌, ◌/◌, ◌%◌, ◌^◌, ◌<◌, ◌≡◌, refl, arith, ap, ◌∙◌, sym,
}
use flutter_sdk.Base.{
  List, [], ◌∷◌, Option, none, some, length, AllBelow, replicate, length-replicate,
}
use flutter_sdk.Base.{replicate-AllBelow, ◌==◌, if◌then◌else◌, Option-cases, inl, inr, Bool-cases}
use native.Mathlib.Nat.{one-le-pow}
use flutter_sdk.Bignum.Bytes.Words.{big_endian}
use flutter_sdk.Base58.Mask.{AreDigits, limit}
use flutter_sdk.Base58.Scan.{scan_digits-value, scan_digits-taken, none-ne-some}
use flutter_sdk.Base58.Bytes.{out_bytes-value, room-bytes}
use flutter_sdk.Base58.{skip_ones, scan_digits, out_bytes, leading_zeros, zeromask_of, b58tobin}

skip_ones-AllBelow : (b : ℕ) (text : List ℕ) → AllBelow b text → AllBelow b (skip_ones text).1
unfolding skip_ones
skip_ones-AllBelow b [] all = tt
skip_ones-AllBelow b (ch ∷ chs) all = elim (Bool-cases (ch == b'1')) [
  | inl one ↦ rw one (skip_ones-AllBelow b chs all.1)
  | inr other ↦ rw other all
]

zeros-value : (n : ℕ) → big_endian (2 ^ 32) 0 (replicate n 0) ≡ 0
unfolding big_endian
zeros-value zero = refl
zeros-value (suc n) = zeros-value n

abbrev get_result : List ℕ × ℕ → Option (List ℕ × ℕ) → List ℕ × ℕ
get_result r none = r
get_result r (some s) = s

module _ (binsz : ℕ) (positive : 0 < binsz) where
  abbrev n : ℕ
  n = (binsz + 3) / 4 - 1

  small : binsz % 4 < 4
  small = omega arith

  words : (binsz + 3) / 4 ≡ suc n
  words = omega arith

  size : n * 4 + (if binsz % 4 == 0 then 4 else binsz % 4) ≡ binsz
  size = ground arith

  limit-bytes : limit (binsz % 4) n small ≡ 256 ^ binsz
  limit-bytes = room-bytes (binsz % 4) n small ∙ ap (λ (t : ℕ). 256 ^ t) size

  start-length : length (replicate {A = ℕ} ((binsz + 3) / 4) 0) ≡ suc n
  start-length = length-replicate {A = ℕ} ((binsz + 3) / 4) 0 ∙ words

  -- For binsz above 0 and a text that has, behind its leading '1', digits of a number below 256 ^
  -- binsz: b58tobin succeeds, bin is binsz bytes that stand for that number, and the size is binsz
  -- less the leading zeros of bin, plus the number of the leading '1'.
  pub b58tobin-value :
      (text ds : List ℕ)
      → AreDigits (skip_ones text).1 ds
      → big_endian 58 0 ds < 256 ^ binsz
      → (bin : List ℕ) × (b58tobin binsz text
          ≡ some (bin, binsz - leading_zeros bin + (skip_ones text).0))
        × (big_endian 256 0 bin ≡ big_endian 58 0 ds)
        × (length bin ≡ binsz)
        × AllBelow 256 bin
  unfolding b58tobin
  b58tobin-value text ds digits below =
      let zeros = zeros-value ((binsz + 3) / 4) in
      let from = ap (λ (t : ℕ). big_endian 58 t ds) zeros in
      let (out, done, number, long, all) =
        scan_digits-value (binsz % 4) n small (skip_ones text).1 ds
          (replicate {A = ℕ} ((binsz + 3) / 4) 0) digits start-length
          (replicate-AllBelow (2 ^ 32) ((binsz + 3) / 4) 0 (omega arith))
          (omega (arith, below, limit-bytes, from)) in
      let (same, length', bytes) =
        out_bytes-value (binsz % 4) out n small long all
          (omega (arith, below, limit-bytes, number, from)) in
      (out_bytes (binsz % 4) out, rw done refl, same ∙ number ∙ from, length' ∙ size, bytes)

  -- b58tobin gives none for every other text.
  pub b58tobin-taken :
      (text : List ℕ) (result : List ℕ × ℕ)
      → AllBelow 256 text
      → b58tobin binsz text ≡ some result
      → (ds : List ℕ) × AreDigits (skip_ones text).1 ds × (big_endian 58 0 ds < 256 ^ binsz)
  unfolding b58tobin
  b58tobin-taken text result bytes done =
      let start = replicate {A = ℕ} ((binsz + 3) / 4) 0 in
      elim (Option-cases (scan_digits (zeromask_of (binsz % 4)) start (skip_ones text).1)) [
        | inl failed ↦ absurd (none-ne-some (rw failed at done))
        | inr (out, taken) ↦
            let zeros = zeros-value ((binsz + 3) / 4) in
            let (ds, digits, below) =
              scan_digits-taken (binsz % 4) n small (skip_ones text).1 start out
                (skip_ones-AllBelow 256 text bytes) start-length
                (replicate-AllBelow (2 ^ 32) ((binsz + 3) / 4) 0 (omega arith))
                (omega (arith, zeros, limit-bytes, one-le-pow binsz 256 (omega arith))) taken in
            (
              ds,
              digits,
              omega (arith, below, limit-bytes, ap (λ (t : ℕ). big_endian 58 t ds) zeros),
            )
      ]

  -- For binsz above 0 and a text of bytes that b58tobin takes: behind the leading '1' there are
  -- digits alone, bin is binsz bytes that stand for their number, and the size is binsz less the
  -- leading zeros of bin, plus the number of the leading '1'.
  pub b58tobin-result :
      (text bin : List ℕ) (res : ℕ)
      → AllBelow 256 text
      → b58tobin binsz text ≡ some (bin, res)
      → (ds : List ℕ) × AreDigits (skip_ones text).1 ds
        × (res ≡ binsz - leading_zeros bin + (skip_ones text).0)
        × (big_endian 256 0 bin ≡ big_endian 58 0 ds)
        × (length bin ≡ binsz)
        × AllBelow 256 bin
  b58tobin-result text bin res bytes done =
      let (ds, digits, below) = b58tobin-taken text (bin, res) bytes done in
      let (bin', read, number, long, all) = b58tobin-value text ds digits below in
      let same = ap (get_result (bin, res)) (sym done ∙ read) in
      let bin_same : bin' ≡ bin = sym (ap (λ (t : List ℕ × ℕ). t.0) same) in
      (
        ds,
        digits,
        ap (λ (t : List ℕ × ℕ). t.1) same
            ∙ ap (λ (t : List ℕ). binsz - leading_zeros t + (skip_ones text).0) bin_same,
        ap (big_endian 256 0) (sym bin_same) ∙ number,
        ap length (sym bin_same) ∙ long,
        rw bin_same at all,
      )
