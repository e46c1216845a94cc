-- ===== src/Base58/Scan.antt =====
-- The loop over the digits of b58tobin (ios/Classes/base58.c).
use flutter_sdk.Base.{ℕ, suc, ◌+◌, ◌*◌, ◌^◌, ◌<◌, ◌≤◌, ◌≡◌, refl, arith, ap, ◌∙◌}
use flutter_sdk.Base.{List, [], ◌∷◌, none, some, true, ◌==◌}
use flutter_sdk.Base.{get_or, length, AllBelow, Bool-cases, inl, inr}
use flutter_sdk.Base.{bit_and, bit_and-pow, Option-cases}
use native.Mathlib.Nat.{one-le-pow, mul-le-mul_left}
use flutter_sdk.Bignum.Bytes.Words.{big_endian}
use flutter_sdk.Base58.Words.{big_endian-acc}
use flutter_sdk.Base58.{b58digits_map, times58, scan_digits, zeromask_of}
use flutter_sdk.Base58.Mask.{AreDigits, digit-lt, limit, round-value, round-over}

high_bit : (ch : ℕ) → ch < 128 → (bit_and ch 0x80 == 0) ≡ true
high_bit ch small = ground (arith, bit_and-pow 7 ch)

-- More digits only make a number larger.
pub none-ne-some : {A : Type 0} {a : A} → none ≡ some a → ⊥
none-ne-some e = cc

pub later-le : (acc : ℕ) (ds : List ℕ) → acc ≤ big_endian 58 acc ds
later-le acc ds =
    let some_weight = one-le-pow (length ds) 58 (omega arith) in
    let most : acc * 1 ≤ acc * 58 ^ length ds = mul-le-mul_left acc some_weight in
    omega (arith, big_endian-acc 58 acc ds, most)

low_half : (ch : ℕ) → ch < 256 → (bit_and ch 0x80 == 0) ≡ true → ch < 128
low_half ch small test = ground (arith, bit_and-pow 7 ch)

module _ (bytesleft n : ℕ) (small : bytesleft < 4) where
  -- Digits whose number stays below the limit are taken, and outi then is that number.
  pub scan_digits-value :
      (chs ds outi : List ℕ)
      → AreDigits chs ds
      → length outi ≡ suc n
      → AllBelow (2 ^ 32) outi
      → big_endian 58 (big_endian (2 ^ 32) 0 outi) ds < limit bytesleft n small
      → (out : List ℕ) × (scan_digits (zeromask_of bytesleft) outi chs ≡ some out)
        × (big_endian (2 ^ 32) 0 out ≡ big_endian 58 (big_endian (2 ^ 32) 0 outi) ds)
        × (length out ≡ suc n)
        × AllBelow (2 ^ 32) out
  unfolding scan_digits big_endian
  scan_digits-value [] [] outi digits long all below = (outi, refl, refl, long, all)
  scan_digits-value [] (d ∷ ds) outi digits long all below = elim digits [ ]
  scan_digits-value (ch ∷ chs) [] outi digits long all below = elim digits [ ]
  scan_digits-value (ch ∷ chs) (d ∷ ds) outi digits long all below =
      let number = big_endian (2 ^ 32) 0 outi in
      let (carry, mask, same, words, kept) =
        round-value bytesleft n small d outi (digit-lt ch d digits.0 digits.1) long all
          (omega (arith, below, later-le (number * 58 + d) ds)) in
      let next = (times58 d outi).1 in
      let (out, done, equal, long', all') =
        scan_digits-value chs ds next digits.2 kept words (rw same below) in
      (
        out,
        rw (high_bit ch digits.0, digits.1, carry, mask, done) refl,
        equal ∙ ap (λ (t : ℕ). big_endian 58 t ds) same,
        long',
        all',
      )

  -- What is taken are digits, and their number is below the limit.
  pub scan_digits-taken :
      (chs outi out : List ℕ)
      → AllBelow 256 chs
      → length outi ≡ suc n
      → AllBelow (2 ^ 32) outi
      → big_endian (2 ^ 32) 0 outi < limit bytesleft n small
      → scan_digits (zeromask_of bytesleft) outi chs ≡ some out
      → (ds : List ℕ) × AreDigits chs ds
        × (big_endian 58 (big_endian (2 ^ 32) 0 outi) ds < limit bytesleft n small)
  unfolding scan_digits big_endian
  scan_digits-taken [] outi out bytes long all below done = ([], tt, below)
  scan_digits-taken (ch ∷ chs) outi out bytes long all below done =
      elim (Bool-cases (bit_and ch 0x80 == 0)) [
        | inr high ↦ absurd (none-ne-some (rw high at done))
        | inl low ↦ elim (Option-cases (get_or b58digits_map ch none)) [
          | inl bad ↦ absurd (none-ne-some (rw (low, bad) at done))
          | inr (d, digit) ↦ elim (Bool-cases ((times58 d outi).0 == 0)) [
            | inr over ↦ absurd (none-ne-some (rw (low, digit, over) at done))
            | inl carry ↦
                elim (Bool-cases
                  (bit_and (get_or (times58 d outi).1 0 0) (zeromask_of bytesleft) == 0)) [
                    | inr over ↦ absurd (none-ne-some (rw (low, digit, carry, over) at done))
                    | inl mask ↦
                        let ascii = low_half ch bytes.0 low in
                        let less = digit-lt ch d ascii digit in
                        let within =
                          round-over bytesleft n small d outi less long all (ground arith) mask in
                        let (_, _, same, words, kept) =
                          round-value bytesleft n small d outi less long all within in
                        let (ds, digits, under) =
                          scan_digits-taken chs (times58 d outi).1 out bytes.1 kept words
                            (omega (arith, same, within)) (rw (low, digit, carry, mask) at done) in
                        (d ∷ ds, (ascii, digit, digits), rw same at under)
                  ]
          ]
        ]
      ]
