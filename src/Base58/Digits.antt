-- ===== src/Base58/Digits.antt =====
-- The loops of b58enc (ios/Classes/base58.c): the digits are those of the number.
use flutter_sdk.Base.{
  ℕ, zero, suc, ◌+◌, ◌-◌, ◌*◌, ◌/◌, ◌%◌, ◌^◌, ◌<◌, ◌≤◌, ◌≡◌, refl, arith, ap, ◌∙◌,
}
use flutter_sdk.Base.{List, [], ◌∷◌, length, AllBelow}
use flutter_sdk.Base.{◌==◌, ◌&&◌, Bool-cases, inl, inr, drop}
use native.Mathlib.Nat.{pow-suc, pow-zero, mul-le-mul_left, one-le-pow}
use flutter_sdk.Bignum.Bytes.Words.{big_endian, little_endian}
use flutter_sdk.Base58.Words.{big_endian-acc}
use flutter_sdk.Base58.{add_byte, add_bytes}

-- The digits behind the first `used` are zeros.
abbrev RestIsZero : ℕ → List ℕ → Type 0
RestIsZero used ds = little_endian 58 (drop used ds) ≡ 0

rest_zero : (used d : ℕ) (ds : List ℕ) → RestIsZero used (d ∷ ds) → RestIsZero (used - 1) ds
unfolding little_endian
rest_zero zero d ds zeros = omega (arith, zeros)
rest_zero (suc u) d ds zeros = let less : suc u - 1 ≡ u = omega arith in rw less zeros

add_byte-value :
    (carry used : ℕ) (ds : List ℕ)
    → AllBelow 58 ds
    → RestIsZero used ds
    → 256 * little_endian 58 ds + carry < 58 ^ length ds
    → (little_endian 58 (add_byte carry used ds).0 ≡ 256 * little_endian 58 ds + carry)
      × (length (add_byte carry used ds).0 ≡ length ds)
      × AllBelow 58 (add_byte carry used ds).0
      × RestIsZero (add_byte carry used ds).1 (add_byte carry used ds).0
unfolding add_byte little_endian
add_byte-value carry used [] all zeros below = (omega (arith, below, pow-zero 58), refl, tt, refl)
add_byte-value carry used (d ∷ ds) all zeros below = elim (Bool-cases (used == 0 && carry == 0)) [
  | inl stop ↦
      let used_none : used ≡ 0 = ground arith in
      let no_carry : carry ≡ 0 = ground arith in
      let nothing : d + 58 * little_endian 58 ds ≡ 0 = rw used_none at zeros in
      rw stop (omega (arith, nothing, no_carry), refl, all, nothing)
  | inr go ↦
      let c = carry + 256 * d in
      let room : 256 * little_endian 58 ds + c / 58 < 58 ^ length ds =
        omega (arith, below, pow-suc 58 (length ds)) in
      let (same, long, small, rest) =
        add_byte-value (c / 58) (used - 1) ds all.1 (rest_zero used d ds zeros) room in
      let n = (add_byte (c / 58) (used - 1) ds).1 in
      let more : n + 1 ≡ suc n = omega arith in
      rw go (
        omega (arith, same),
        omega (arith, long),
        (omega arith, small),
        ap (λ n. little_endian 58 (drop n (c % 58 ∷ (add_byte (c / 58) (used - 1) ds).0))) more
            ∙ rest,
      )
]

later-le : (acc : ℕ) (bs : List ℕ) → acc ≤ big_endian 256 acc bs
later-le acc bs =
    let some_weight = one-le-pow (length bs) 256 (omega arith) in
    let most : acc * 1 ≤ acc * 256 ^ length bs = mul-le-mul_left acc some_weight in
    omega (arith, big_endian-acc 256 acc bs, most)

pub add_bytes-value :
    (used : ℕ) (buf bs : List ℕ)
    → AllBelow 58 buf
    → RestIsZero used buf
    → big_endian 256 (little_endian 58 buf) bs < 58 ^ length buf
    → (little_endian 58 (add_bytes used buf bs) ≡ big_endian 256 (little_endian 58 buf) bs)
      × (length (add_bytes used buf bs) ≡ length buf)
      × AllBelow 58 (add_bytes used buf bs)
unfolding add_bytes big_endian
add_bytes-value used buf [] all zeros below = (refl, refl, all)
add_bytes-value used buf (b ∷ bs) all zeros below =
    let v = little_endian 58 buf in
    let (same, long, small, rest) =
      add_byte-value b used buf all zeros (omega (arith, below, later-le (v * 256 + b) bs)) in
    let r = add_byte b used buf in
    let same' : little_endian 58 r.0 ≡ v * 256 + b = omega (arith, same) in
    let from = ap (λ (t : ℕ). big_endian 256 t bs) same' in
    let (number, long', small') =
      add_bytes-value r.1 r.0 bs small rest
        (omega (arith, below, from, ap (λ (t : ℕ). 58 ^ t) long)) in
    (number ∙ from, long' ∙ long, small')
