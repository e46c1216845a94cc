-- ===== src/Bignum/Bytes/Read.antt =====
-- bn_read_be and bn_read_le read the number that the bytes stand for.
use flutter_sdk.Base.{ℕ, zero, suc, ◌+◌, ◌-◌, ◌*◌, ◌/◌, ◌%◌, ◌^◌, ◌≤◌, ◌<◌, ◌≡◌, refl, ap, arith}
use flutter_sdk.Base.{List, [], ◌∷◌, length, AllBelow, bit_or, u32, drop, ◌∙◌}
use flutter_sdk.Base.{drop-drop, length-drop, drop-AllBelow}
use flutter_sdk.Bignum.Limbs.{value, IsNormalized, IsOutput}
use flutter_sdk.Bignum.Bytes.{read_be, read_le, read_loop, bn_read_be, bn_read_le}
use flutter_sdk.Bignum.Bytes.Words.{big_endian, little_endian, or_field_low}
use flutter_sdk.Bignum.Bytes.Words.{read_be-value, read_le-value}
use native.Mathlib.Nat.{pow-suc, one-le-pow, mul-le-mul_left, mod-lt}

-- Words i, i + 1, .. as a number, the first lowest.
words_value : (ℕ → ℕ) → ℕ → ℕ → ℕ
words_value word i zero = 0
words_value word i (suc n) = word i + 2 ^ 32 * words_value word (i + 1) n

-- A word l is split at q, where p * q = 2^30.
round_value :
    (k q temp l : ℕ)
    → 2 ^ k * q ≡ 2 ^ 30
    → 0 < q
    → temp < 2 ^ k
    → l < 2 ^ 32
    → (bit_or temp (u32 (l * 2 ^ k)) % 2 ^ 30 + 2 ^ 30 * (l / q) ≡ temp + 2 ^ k * l)
      × (l / q < 4 * 2 ^ k)
round_value k q temp l e hq ht hl =
    let p = 2 ^ k in
    let whole = ap (λ (t : ℕ). t * (l / q)) e in
    let kept = ap (λ (t : ℕ). t * (l / q % 4)) e in
    let split : p * (q * (l / q) + l % q) ≡ p * l = ap (λ (t : ℕ). p * t) (omega arith) in
    let rem : l % q + 1 ≤ q = omega (arith, mod-lt l hq) in
    let low : p * (l % q + 1) ≤ p * q = mul-le-mul_left p rem in
    let most : p * l ≤ p * (2 ^ 32 - 1) = mul-le-mul_left p (omega arith) in
    let word : u32 (l * p) ≡ (q * (l / q % 4) + l % q) * p =
      omega (arith, whole, kept, split, low, e) in
    let joined = or_field_low k (q * (l / q % 4) + l % q) (u32 (l * p)) temp word ht in
    (omega (arith, whole, kept, split, low, e, joined), omega (arith, whole, split, low, most, e))

-- The shifts of round i.
shifts : (i : ℕ) → i < 8 → 2 ^ (2 * i) * 2 ^ (30 - 2 * i) ≡ 2 ^ 30
shifts zero h = refl
shifts (suc zero) h = refl
shifts (suc (suc zero)) h = refl
shifts (suc (suc (suc zero))) h = refl
shifts (suc (suc (suc (suc zero)))) h = refl
shifts (suc (suc (suc (suc (suc zero))))) h = refl
shifts (suc (suc (suc (suc (suc (suc zero)))))) h = refl
shifts (suc (suc (suc (suc (suc (suc (suc zero))))))) h = refl
shifts (suc (suc (suc (suc (suc (suc (suc (suc i)))))))) h = absurd (omega arith)

four_pow : (i : ℕ) → 2 ^ (2 * (i + 1)) ≡ 4 * 2 ^ (2 * i)
four_pow i =
    let e : 2 * (i + 1) ≡ suc (suc (2 * i)) = omega arith in
    rw e (omega (arith, pow-suc 2 (suc (2 * i)), pow-suc 2 (2 * i)))

read_loop-value :
    (word : ℕ → ℕ) (i temp n : ℕ)
    → ((m : ℕ) → m < 8 → word m < 2 ^ 32)
    → i + n ≡ 8
    → temp < 2 ^ (2 * i)
    → (value (read_loop word i temp n) ≡ temp + 2 ^ (2 * i) * words_value word i n)
      × IsOutput (n + 1) (read_loop word i temp n, 0)
unfolding read_loop words_value value
read_loop-value word i temp zero w e h =
    let last : i ≡ 8 = omega arith in let small : temp < 2 ^ 16 = rw last at h in omega arith
read_loop-value word i temp (suc n) w e h =
    let r =
      round_value (2 * i) (2 ^ (30 - 2 * i)) temp (word i) (shifts i (omega arith))
        (one-le-pow (30 - 2 * i) 2 (omega arith)) h (w i (omega arith)) in
    let four = four_pow i in
    let ih =
      read_loop-value word (i + 1) (word i / 2 ^ (30 - 2 * i)) n w (omega arith)
        (omega (arith, four, r.1)) in
    let rest = ap (λ (t : ℕ). t * words_value word (i + 1) n) four in
    (omega (arith, r.0, ih.0, rest), (omega (arith, ih.1.0), (omega arith, ih.1.1)))

-- The first four of at least four bytes, as a word.
read_le-bound :
    (ys : List ℕ)
    → 4 ≤ length ys
    → AllBelow 256 ys
    → (little_endian 256 ys ≡ read_le ys + 2 ^ 32 * little_endian 256 (drop 4 ys))
      × (read_le ys < 2 ^ 32)
unfolding little_endian
read_le-bound (a ∷ b ∷ c ∷ d ∷ ys) e h =
    let w = read_le-value a b c d ys h in (omega (arith, w), omega (arith, w, h))
read_le-bound [] e h = absurd (omega arith)
read_le-bound (a ∷ []) e h = absurd (omega arith)
read_le-bound (a ∷ b ∷ []) e h = absurd (omega arith)
read_le-bound (a ∷ b ∷ c ∷ []) e h = absurd (omega arith)

read_be-bound :
    (acc : ℕ) (ys : List ℕ)
    → 4 ≤ length ys
    → AllBelow 256 ys
    → (big_endian 256 acc ys ≡ big_endian 256 (acc * 2 ^ 32 + read_be ys) (drop 4 ys))
      × (read_be ys < 2 ^ 32)
unfolding big_endian
read_be-bound acc (a ∷ b ∷ c ∷ d ∷ ys) e h =
    let w = read_be-value a b c d ys h in
    (ap (λ (t : ℕ). big_endian 256 t ys) (omega (arith, w)), omega (arith, w, h))
read_be-bound acc [] e h = absurd (omega arith)
read_be-bound acc (a ∷ []) e h = absurd (omega arith)
read_be-bound acc (a ∷ b ∷ []) e h = absurd (omega arith)
read_be-bound acc (a ∷ b ∷ c ∷ []) e h = absurd (omega arith)

little_endian-nil : (ys : List ℕ) → length ys ≡ 0 → little_endian 256 ys ≡ 0
unfolding little_endian
little_endian-nil [] e = refl
little_endian-nil (y ∷ ys) e = absurd (omega arith)

big_endian-nil : (acc : ℕ) (ys : List ℕ) → length ys ≡ 0 → big_endian 256 acc ys ≡ acc
unfolding big_endian
big_endian-nil acc [] e = refl
big_endian-nil acc (y ∷ ys) e = absurd (omega arith)

-- n words from byte j on, the first highest, behind acc.
words_after : List ℕ → ℕ → ℕ → ℕ → ℕ
words_after bytes acc j zero = acc
words_after bytes acc j (suc n) =
    words_after bytes (acc * 2 ^ 32 + read_be (drop j bytes)) (j + 4) n

module _ (bytes : List ℕ) (size : length bytes ≡ 32) (all : AllBelow 256 bytes) where
  rest-AllBelow : (j : ℕ) → AllBelow 256 (drop j bytes)
  rest-AllBelow j = drop-AllBelow 256 j bytes all

  rest_long : (j : ℕ) → j ≤ 28 → 4 ≤ length (drop j bytes)
  rest_long j h = omega (arith, length-drop {0} j bytes, size)

  words_le :
      (i n : ℕ)
      → i + n ≡ 8
      → little_endian 256 (drop (i * 4) bytes) ≡ words_value (λ k. read_le (drop (k * 4) bytes)) i n
  unfolding words_value
  words_le i zero e =
      little_endian-nil (drop (i * 4) bytes) (omega (arith, length-drop {0} (i * 4) bytes, size))
  words_le i (suc n) e =
      let w =
        read_le-bound (drop (i * 4) bytes) (rest_long (i * 4) (omega arith))
          (rest-AllBelow (i * 4)) in
      let next : drop 4 (drop (i * 4) bytes) ≡ drop ((i + 1) * 4) bytes =
        drop-drop (i * 4) 4 bytes ∙ ap (λ (t : ℕ). drop t bytes) (omega arith) in
      omega (arith, w.0, ap (little_endian 256) next, words_le (i + 1) n (omega arith))

  -- From 32 bytes, bn_read_le reads the normalized number that they stand for from the lowest.
  pub bn_read_le-value :
      IsNormalized (bn_read_le bytes) × (value (bn_read_le bytes) ≡ little_endian 256 bytes)
  unfolding bn_read_le
  bn_read_le-value =
      let word = λ (k : ℕ). read_le (drop (k * 4) bytes) in
      let l =
        read_loop-value word 0 0 8
          (λ k h.
            (read_le-bound (drop (k * 4) bytes) (rest_long (k * 4) (omega arith))
              (rest-AllBelow (k * 4))).1)
          refl (omega arith) in
      (record { size = l.1.0; digits = l.1.1 }, omega (arith, l.0, words_le 0 8 refl))

  big_step :
      (acc j : ℕ)
      → j ≤ 28
      → big_endian 256 acc (drop j bytes)
        ≡ big_endian 256 (acc * 2 ^ 32 + read_be (drop j bytes)) (drop (j + 4) bytes)
  big_step acc j h =
      (read_be-bound acc (drop j bytes) (rest_long j h) (rest-AllBelow j)).0
      ∙ ap (big_endian 256 _) (drop-drop j 4 bytes)

  words_after-value :
      (acc j n : ℕ) → j + n * 4 ≡ 32 → big_endian 256 acc (drop j bytes) ≡ words_after bytes acc j n
  unfolding words_after
  words_after-value acc j zero e =
      big_endian-nil acc (drop j bytes) (omega (arith, length-drop {0} j bytes, size))
  words_after-value acc j (suc n) e =
      big_step acc j (omega arith)
      ∙ words_after-value (acc * 2 ^ 32 + read_be (drop j bytes)) (j + 4) n (omega arith)

  -- From 32 bytes, bn_read_be reads the normalized number that they stand for from the highest.
  pub bn_read_be-value :
      IsNormalized (bn_read_be bytes) × (value (bn_read_be bytes) ≡ big_endian 256 0 bytes)
  unfolding bn_read_be words_after words_value
  bn_read_be-value =
      let l =
        read_loop-value (λ k. read_be (drop ((7 - k) * 4) bytes)) 0 0 8
          (λ k h.
            (read_be-bound 0 (drop ((7 - k) * 4) bytes) (rest_long ((7 - k) * 4) (omega arith))
              (rest-AllBelow ((7 - k) * 4))).1)
          refl (omega arith) in
      (record { size = l.1.0; digits = l.1.1 }, omega (arith, l.0, words_after-value 0 0 8 refl))
