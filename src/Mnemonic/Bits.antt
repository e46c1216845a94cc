-- ===== src/Mnemonic/Bits.antt =====
-- The bits that ios/Classes/bip39.c takes from an array and writes back: what is written first
-- stands in front, with zeros behind.
use flutter_sdk.Base.{ℕ, zero, suc, ◌+◌, ◌-◌, ◌*◌, ◌/◌, ◌%◌, ◌^◌, ◌<◌, ◌≤◌, ◌≡◌, refl, arith, ap}
use flutter_sdk.Base.{List, [], ◌∷◌, true, ◌==◌, if◌then◌else◌}
use flutter_sdk.Base.{length, get_or, bit_and, bit_or, bit_and-pow, try_all, try_all-lt}
use flutter_sdk.Base.{
  AllBelow, ==_iff, sym, ◌∙◌, u32, ap₂, ◌<<<◌, replicate, ◌++◌, double_pow, two_pow,
}
use native.Mathlib.Nat.{pow-suc, one-le-pow, mul-le-mul_right, add-zero, mul_comm, zero-mul}
use native.Mathlib.Nat.{div-div-eq-div-mul, div-add-mod}
use native.Mathlib.Decide.{dec_lt}
use flutter_sdk.Mnemonic.{bit_at, index_loop, word_index, or_at, write_bits}

digit : ℕ → ℕ → ℕ
digit x k = x / 2 ^ k % 2

bit_at-digit : (bits : List ℕ) (p : ℕ) → bit_at bits p ≡ digit (get_or bits (p / 8) 0) (7 - p % 8)
unfolding bit_at digit
bit_at-digit bits p =
    let k = 7 - p % 8 in
    let x = get_or bits (p / 8) 0 in ground (arith, bit_and-pow k x, one-le-pow k 2 (omega arith))

-- The number that n bits from p on stand for.
pub num : List ℕ → ℕ → ℕ → ℕ
num bits p zero = 0
num bits p (suc n) = bit_at bits p * 2 ^ n + num bits (p + 1) n

pub index_loop-num :
    (bits : List ℕ) (p n idx : ℕ) → index_loop bits p n idx ≡ idx * 2 ^ n + num bits p n
unfolding index_loop num
index_loop-num bits p zero idx = omega arith
index_loop-num bits p (suc n) idx = omega (
  arith,
  index_loop-num bits (p + 1) n ((idx <<< 1) + bit_at bits p),
  pow-suc 2 n,
  double_pow idx n,
)

pub word_index-num : (bits : List ℕ) (i : ℕ) → word_index bits i ≡ num bits (i * 11) 11
unfolding word_index
word_index-num bits i = omega (arith, index_loop-num bits (i * 11) 11 0)

bit_at-le : (bits : List ℕ) (p : ℕ) → bit_at bits p ≤ 1
unfolding bit_at
bit_at-le bits p = ground arith

pub num-lt : (bits : List ℕ) (p n : ℕ) → num bits p n < 2 ^ n
unfolding num
num-lt bits p zero = omega arith
num-lt bits p (suc n) =
    let most : bit_at bits p * 2 ^ n ≤ 1 * 2 ^ n = mul-le-mul_right (2 ^ n) (bit_at-le bits p) in
    omega (arith, num-lt bits (p + 1) n, pow-suc 2 n)

-- The first p bits of a byte, and of an array.
unfoldable pub clip_byte : ℕ → ℕ → ℕ
clip_byte b p = b / 2 ^ (8 - p) * 2 ^ (8 - p)

unfoldable pub clip : List ℕ → ℕ → List ℕ
clip [] p = []
clip (b ∷ bs) p = clip_byte b p ∷ clip bs (p - 8)

-- What the loop over ki stores for one bit.
next : List ℕ → ℕ → ℕ → List ℕ
next bytes p bit = if bit == 0 then bytes else or_at bytes (p / 8) (1 * 2 ^ (7 - p % 8))

byte_table :
    try_all
      (λ b.
        try_all
          (λ p.
            (if b / 2 ^ (7 - p) % 2 == 0
              then clip_byte b p
              else bit_or (clip_byte b p) (1 * 2 ^ (7 - p)))
            == clip_byte b (suc p))
          8)
      256
    ≡ true
unfolding try_all clip_byte
byte_table = refl

next_byte :
    (b p : ℕ)
    → b < 256
    → p < 8
    → (if digit b (7 - p) == 0 then clip_byte b p else bit_or (clip_byte b p) (1 * 2 ^ (7 - p)))
      ≡ clip_byte b (suc p)
unfolding digit
next_byte b p h k = (==_iff _ _).0 (try_all-lt _ k (try_all-lt _ h byte_table))

-- No bits are zeros.
pub clip-zero : (bits : List ℕ) → AllBelow 256 bits → clip bits 0 ≡ replicate (length bits) 0
unfolding clip clip_byte
clip-zero [] all = refl
clip-zero (b ∷ bs) all = ap₂ ◌∷◌ (omega arith) (clip-zero bs all.1)

-- Whole bytes in front.
pub clip-append :
    (n : ℕ) (xs ys : List ℕ) (r : ℕ) → length xs ≡ n → clip (xs ++ ys) (8 * n + r) ≡ xs ++ clip ys r
unfolding clip clip_byte
clip-append zero [] ys r e = ap (clip ys) (omega arith)
clip-append zero (x ∷ xs) ys r e = absurd (omega arith)
clip-append (suc n) [] ys r e = absurd (omega arith)
clip-append (suc n) (x ∷ xs) ys r e =
    let none : 8 - (8 * suc n + r) ≡ 0 = omega arith in
    let rest : 8 * suc n + r - 8 ≡ 8 * n + r = omega arith in
    ap₂ ◌∷◌ (ap (λ (t : ℕ). x / 2 ^ t * 2 ^ t) none ∙ omega arith)
      (ap (clip (xs ++ ys)) rest ∙ clip-append n xs ys r (omega arith))

-- The number of some bits depends on their bytes alone.
pub num-cong :
    (xs ys : List ℕ) (p n : ℕ)
    → ((q : ℕ) → q < p + n → get_or xs (q / 8) 0 ≡ get_or ys (q / 8) 0)
    → num xs p n ≡ num ys p n
unfolding num
num-cong xs ys p zero h = refl
num-cong xs ys p (suc n) h =
    let here : bit_at xs p ≡ bit_at ys p =
      bit_at-digit xs p
      ∙ ap (λ t. digit t (7 - p % 8)) (h p (omega arith))
      ∙ sym (bit_at-digit ys p) in
    ap₂ (λ (a b : ℕ). a * 2 ^ n + b) here (num-cong xs ys (p + 1) n (λ q less. h q (omega arith)))

zero_difference : (p : ℕ) → ¬ (p < 8) → 8 - p ≡ 8 - suc p
zero_difference p h = omega arith

-- Storing the next bit of an array after the first p bits.
next-clip :
    (bits : List ℕ) (p : ℕ)
    → AllBelow 256 bits
    → p < 8 * length bits
    → next (clip bits p) p (digit (get_or bits (p / 8) 0) (7 - p % 8)) ≡ clip bits (suc p)
unfolding next clip or_at clip_byte
next-clip [] p all h = absurd (omega arith)
next-clip (b ∷ bs) p all h = elim (dec_lt p 8) [
  | yes first ↦
      let quotient : p / 8 ≡ 0 = omega arith in
      let rest : p % 8 ≡ p = omega arith in
      let tail : clip bs (p - 8) ≡ clip bs (suc p - 8) = ap (clip bs) (omega arith) in
      rw (quotient, rest) (ground (arith, next_byte b p all.0 first, tail))
  | no later ↦
      let quotient : p / 8 ≡ suc ((p - 8) / 8) = omega arith in
      let rest : p % 8 ≡ (p - 8) % 8 = omega arith in
      let same : clip_byte b p ≡ clip_byte b (suc p) =
        ap (λ (t : ℕ). b / 2 ^ t * 2 ^ t) (zero_difference p later) in
      let tail : clip bs (suc p - 8) ≡ clip bs (suc (p - 8)) = ap (clip bs) (omega arith) in
      rw (quotient, rest) (ground (arith, next-clip bs (p - 8) all.1 (omega arith), same, tail))
]

-- A number below 2 ^ (n + 1) by its highest digit.
top_digit :
    (n a b r s : ℕ) → a * 2 ^ n + r ≡ b * 2 ^ n + s → r < 2 ^ n → s < 2 ^ n → (a ≡ b) × (r ≡ s)
top_digit n a b r s e h k = elim (dec_lt a b) [
  | yes less ↦
      let more : suc a * 2 ^ n ≤ b * 2 ^ n = mul-le-mul_right (2 ^ n) less in absurd (omega arith)
  | no less ↦ elim (dec_lt b a) [
    | yes above ↦
        let more : suc b * 2 ^ n ≤ a * 2 ^ n = mul-le-mul_right (2 ^ n) above in
        absurd (omega arith)
    | no above ↦
        let same : a ≡ b = omega arith in (same, omega (arith, ap (λ (t : ℕ). t * 2 ^ n) same))
  ]
]

split_mod : (n k : ℕ) → k % 2 ^ suc n ≡ digit k n * 2 ^ n + k % 2 ^ n
unfolding digit
split_mod n k =
    let q = k / 2 ^ n in
    let halved : k / 2 ^ suc n ≡ q / 2 =
      rw (← two_pow n) (rw (mul_comm 2 (2 ^ n)) (sym (div-div-eq-div-mul k (2 ^ n) 2))) in
    let parts : q * 2 ^ n ≡ (2 * (q / 2) + q % 2) * 2 ^ n =
      ap (λ (t : ℕ). t * 2 ^ n) ((omega arith)) in
    omega (
      arith,
      div-add-mod k (2 ^ n),
      div-add-mod k (2 ^ suc n),
      ap (λ (t : ℕ). t * 2 ^ suc n) halved,
      double_pow (q / 2) n,
      parts,
    )

zero_test : (d w : ℕ) → 1 ≤ w → (d * w == 0) ≡ (d == 0)
zero_test zero w h = rw (zero-mul w)
zero_test (suc d) w h =
    let more : 1 * w ≤ suc d * w = mul-le-mul_right w (omega arith) in ground arith

-- The test of the loop over ki is on the digit.
test_digit :
    (k n : ℕ) (xs ys : List ℕ)
    → (if bit_and k (1 <<< n) == 0 then xs else ys) ≡ (if digit k n == 0 then xs else ys)
unfolding digit
test_digit k n xs ys =
    let one : 1 * 2 ^ n ≡ 2 ^ n = omega arith in
    ap (λ b. if b then xs else ys)
      (ap (λ (t : ℕ). bit_and k t == 0) one
        ∙ ap (λ (t : ℕ). t == 0) (bit_and-pow n k)
        ∙ zero_test (k / 2 ^ n % 2) (2 ^ n) (one-le-pow n 2 (omega arith)))

-- Writing the number of n bits that an array has from p on gives its first p + n bits.
pub write_bits-clip :
    (n k : ℕ) (bits : List ℕ) (p : ℕ)
    → AllBelow 256 bits
    → p + n ≤ 8 * length bits
    → p + n < 2 ^ 32
    → k % 2 ^ n ≡ num bits p n
    → write_bits n k (clip bits p) p ≡ (clip bits (p + n), p + n)
unfolding write_bits num next
write_bits-clip zero k bits p all fits small e = rw add-zero
write_bits-clip (suc n) k bits p all fits small e =
    let (same, rest) =
      top_digit n (digit k n) (bit_at bits p) (k % 2 ^ n) (num bits (p + 1) n)
        (omega (arith, split_mod n k)) (omega (arith, one-le-pow n 2 (omega arith)))
        (num-lt bits (p + 1) n) in
    let stored : (if bit_and k (1 <<< n) == 0
          then clip bits p
          else or_at (clip bits p) (p / 8) (1 <<< (7 - p % 8)))
        ≡ clip bits (p + 1) =
      test_digit k n _ _
      ∙ ap (next (clip bits p) p) (same ∙ bit_at-digit bits p)
      ∙ next-clip bits p all (omega arith)
      ∙ ap (clip bits) (omega arith) in
    let wrap : u32 (p + 1) ≡ p + 1 = omega arith in
    let place : p + 1 + n ≡ p + suc n = omega arith in
    ap₂ (write_bits n k) stored wrap
    ∙ write_bits-clip n k bits (p + 1) all (omega arith) (omega arith) rest
    ∙ ap (λ t. (clip bits t, t)) place
