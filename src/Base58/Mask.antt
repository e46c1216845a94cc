-- ===== src/Base58/Mask.antt =====
-- One round of the loop of b58tobin (ios/Classes/base58.c): the digits of the table, the mask, and
-- the limit of outi.
use flutter_sdk.Base.{
  ℕ, zero, suc, ◌+◌, ◌-◌, ◌*◌, ◌/◌, ◌%◌, ◌^◌, ◌<◌, ◌≤◌, ◌≡◌, refl, arith, ap, ap₂, ◌∙◌, sym,
}
use flutter_sdk.Base.{List, [], ◌∷◌, Option, none, some, Bool, true, ◌==◌, ltb, if◌then◌else◌}
use flutter_sdk.Base.{get_or, length, AllBelow}
use flutter_sdk.Base.{bit_and, bit_and-parts, bit_and-ones, bit_and-zero, try_all, try_all-lt}
use native.Mathlib.Nat.{
  one-le-pow, div-add-mod, mod-lt, mul-le-mul_right, lt_of_mul-lt-mul_right, pow-suc,
}
use flutter_sdk.Base.{ltb→lt, ◌↔◌}
use flutter_sdk.Bignum.Bytes.Words.{big_endian}
use flutter_sdk.Base58.Words.{big_endian-acc, big_endian-cons, big_endian-lt, times58-value}
use flutter_sdk.Base58.{b58digits_map, times58, zeromask_of}

-- The characters stand for these digits.
abbrev pub AreDigits : List ℕ → List ℕ → Type 0
AreDigits [] [] = Unit {0}
AreDigits (ch ∷ chs) (d ∷ ds) =
    (ch < 128) × (get_or b58digits_map ch none ≡ some d) × AreDigits chs ds
AreDigits _ _ = ⊥

is_small : Option ℕ → Bool
is_small none = true
is_small (some d) = ltb d 58

small_table : try_all (λ ch. is_small (get_or b58digits_map ch none)) 128 ≡ true
unfolding try_all b58digits_map is_small
small_table = refl

pub digit-lt : (ch d : ℕ) → ch < 128 → get_or b58digits_map ch none ≡ some d → d < 58
unfolding is_small
digit-lt ch d small here =
    let test : is_small (get_or b58digits_map ch none) ≡ true = try_all-lt _ small small_table in
    let test' : is_small (some d) ≡ true = rw here at test in ground arith

-- The bound of outi[0].
abbrev pub room : ℕ → ℕ
room bytesleft = if bytesleft == 0 then 2 ^ 32 else 2 ^ (bytesleft * 8)

mask_parts : (k w : ℕ) → bit_and w ((2 ^ (32 - k) - 1) * 2 ^ k) ≡ w / 2 ^ k % 2 ^ (32 - k) * 2 ^ k
mask_parts k w =
    let pos = one-le-pow k 2 (omega arith) in
    let split : w / 2 ^ k * 2 ^ k + w % 2 ^ k ≡ w = omega (arith, div-add-mod w (2 ^ k)) in
    let ones : (2 ^ (32 - k) - 1) * 2 ^ k ≡ (2 ^ (32 - k) - 1) * 2 ^ k + 0 = omega arith in
    ap₂ bit_and (sym split) ones
    ∙ bit_and-parts k (w / 2 ^ k) (2 ^ (32 - k) - 1) (w % 2 ^ k) 0 (mod-lt w pos) pos
    ∙ omega (
      arith,
      bit_and-zero (w % 2 ^ k),
      ap (λ (t : ℕ). t * 2 ^ k) (bit_and-ones (32 - k) (w / 2 ^ k)),
    )

zeromask-test :
    (bytesleft w : ℕ)
    → bytesleft < 4
    → w < 2 ^ 32
    → (bit_and w (zeromask_of bytesleft) == 0) ≡ ltb w (room bytesleft)
unfolding zeromask_of
zeromask-test zero w k small = ground (arith, bit_and-zero w)
zeromask-test (suc zero) w k small =
    let masked : bit_and w (zeromask_of 1) ≡ w / 2 ^ 8 % 2 ^ 24 * 2 ^ 8 = mask_parts 8 w in
    ground (arith, masked)
zeromask-test (suc (suc zero)) w k small =
    let masked : bit_and w (zeromask_of 2) ≡ w / 2 ^ 16 % 2 ^ 16 * 2 ^ 16 = mask_parts 16 w in
    ground (arith, masked)
zeromask-test (suc (suc (suc zero))) w k small =
    let masked : bit_and w (zeromask_of 3) ≡ w / 2 ^ 24 % 2 ^ 8 * 2 ^ 24 = mask_parts 24 w in
    ground (arith, masked)
zeromask-test (suc (suc (suc (suc b)))) w k small = absurd (omega arith)

-- The number of outi is below the bound of its first word, and of the bits of the others.
lt→ltb : (a b : ℕ) → a < b → ltb a b ≡ true
lt→ltb a b h = ground arith

capacity :
    (bytesleft w : ℕ) (ws : List ℕ)
    → AllBelow (2 ^ 32) ws
    → (big_endian (2 ^ 32) 0 (w ∷ ws) < room bytesleft * (2 ^ 32) ^ length ws → w < room bytesleft)
      × (w < room bytesleft
          → big_endian (2 ^ 32) 0 (w ∷ ws) < room bytesleft * (2 ^ 32) ^ length ws)
capacity bytesleft w ws all =
    let p = (2 ^ 32) ^ length ws in
    let number = big_endian-cons (2 ^ 32) w ws in
    let rest = big_endian-lt (2 ^ 32) ws all in
    (
      (λ below. lt_of_mul-lt-mul_right p (omega (arith, number, below))),
      (λ less.
          let whole : (w + 1) * p ≤ room bytesleft * p = mul-le-mul_right p (omega (arith, less)) in
          omega (arith, number, rest, whole)),
    )

pub room-le : (bytesleft : ℕ) → bytesleft < 4 → room bytesleft ≤ 2 ^ 32
room-le zero small = omega arith
room-le (suc zero) small = omega arith
room-le (suc (suc zero)) small = omega arith
room-le (suc (suc (suc zero))) small = omega arith
room-le (suc (suc (suc (suc b)))) small = absurd (omega arith)

module _ (bytesleft n : ℕ) (small : bytesleft < 4) where
  abbrev pub limit : ℕ
  limit = room bytesleft * (2 ^ 32) ^ n

  -- The test of the mask is that of the limit.
  mask-limit :
      (outi : List ℕ)
      → length outi ≡ suc n
      → AllBelow (2 ^ 32) outi
      → ((bit_and (get_or outi 0 0) (zeromask_of bytesleft) == 0) ≡ true)
        ↔ (big_endian (2 ^ 32) 0 outi < limit)
  mask-limit [] long all = absurd (omega arith)
  mask-limit (w ∷ ws) long all =
      let test = zeromask-test bytesleft w small all.0 in
      let (lower, upper) = capacity bytesleft w ws all.1 in
      let same : limit ≡ room bytesleft * (2 ^ 32) ^ length ws =
        ap (λ (t : ℕ). room bytesleft * (2 ^ 32) ^ t) (omega arith) in
      (
        (λ mask.
            let less : ltb w (room bytesleft) ≡ true = sym test ∙ mask in
            omega (arith, same, upper (ltb→lt w (room bytesleft) less))),
        (λ below. test ∙ lt→ltb w (room bytesleft) (lower (omega (arith, same, below)))),
      )

  -- The carry of a round counts for as much as all words together.
  carry-number :
      (c : ℕ) (outi : List ℕ)
      → c < 58
      → length outi ≡ suc n
      → AllBelow (2 ^ 32) outi
      → (times58 c outi).0 * (2 ^ 32) ^ suc n + big_endian (2 ^ 32) 0 (times58 c outi).1
        ≡ big_endian (2 ^ 32) 0 outi * 58 + c
  carry-number c outi digit long all =
      let (same, _, _, kept) = times58-value c outi digit all in
      omega (
        arith,
        same,
        big_endian-acc (2 ^ 32) (times58 c outi).0 (times58 c outi).1,
        ap (λ (t : ℕ). (times58 c outi).0 * (2 ^ 32) ^ t) (kept ∙ long),
      )

  -- One round, where the number stays below the limit.
  pub round-value :
      (c : ℕ) (outi : List ℕ)
      → c < 58
      → length outi ≡ suc n
      → AllBelow (2 ^ 32) outi
      → big_endian (2 ^ 32) 0 outi * 58 + c < limit
      → ((times58 c outi).0 ≡ 0)
        × ((bit_and (get_or (times58 c outi).1 0 0) (zeromask_of bytesleft) == 0) ≡ true)
        × (big_endian (2 ^ 32) 0 (times58 c outi).1 ≡ big_endian (2 ^ 32) 0 outi * 58 + c)
        × AllBelow (2 ^ 32) (times58 c outi).1
        × (length (times58 c outi).1 ≡ suc n)
  round-value c outi digit long all below =
      let (_, _, words, kept) = times58-value c outi digit all in
      let number = carry-number c outi digit long all in
      let p = (2 ^ 32) ^ suc n in
      let most : room bytesleft * (2 ^ 32) ^ n ≤ 2 ^ 32 * (2 ^ 32) ^ n =
        mul-le-mul_right ((2 ^ 32) ^ n) (room-le bytesleft small) in
      let none_left : (times58 c outi).0 < 1 =
        lt_of_mul-lt-mul_right p (omega (arith, number, below, most, pow-suc (2 ^ 32) n)) in
      let carry : (times58 c outi).0 ≡ 0 = omega arith in
      let same : big_endian (2 ^ 32) 0 (times58 c outi).1 ≡ big_endian (2 ^ 32) 0 outi * 58 + c =
        omega (arith, number, ap (λ (t : ℕ). t * p) carry) in
      (
        carry,
        (mask-limit (times58 c outi).1 (kept ∙ long) words).1 (omega (arith, same, below)),
        same,
        words,
        kept ∙ long,
      )

  -- A number that outgrows the limit is noticed.
  pub round-over :
      (c : ℕ) (outi : List ℕ)
      → c < 58
      → length outi ≡ suc n
      → AllBelow (2 ^ 32) outi
      → (times58 c outi).0 ≡ 0
      → (bit_and (get_or (times58 c outi).1 0 0) (zeromask_of bytesleft) == 0) ≡ true
      → big_endian (2 ^ 32) 0 outi * 58 + c < limit
  round-over c outi digit long all carry mask =
      let (_, _, words, kept) = times58-value c outi digit all in
      omega (
        arith,
        carry-number c outi digit long all,
        ap (λ (t : ℕ). t * (2 ^ 32) ^ suc n) carry,
        (mask-limit (times58 c outi).1 (kept ∙ long) words).0 mask,
      )
