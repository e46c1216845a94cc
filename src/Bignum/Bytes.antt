-- ===== src/Bignum/Bytes.antt =====
-- Conversion between bytes, words and limbs: read_be, write_be, read_le, write_le, bn_read_be,
-- bn_write_be, bn_read_le, bn_write_le, bn_read_uint32, bn_read_uint64 of ios/Classes/bignum.c, and
-- bn_write_uint32, bn_write_uint64 of bignum.h.
pub mod Words
pub mod Read
pub mod Write
pub mod RoundTrip
use flutter_sdk.Base.{ℕ, zero, suc, ◌+◌, ◌-◌, ◌*◌, ◌/◌, ◌%◌, ◌^◌, List, [], ◌∷◌, ◌++◌}
use flutter_sdk.Base.{u8, u32, u64, ◌<<<◌, ◌>>>◌, get_or, drop, bit_or}
use flutter_sdk.Bignum.Limbs.{Bignum256}

-- The arguments are the bytes that stand at the pointer; a byte that is missing reads as 0.
pub read_be : List ℕ → ℕ
read_be bytes =
    bit_or
      (bit_or (bit_or (u32 (get_or bytes 0 0 <<< 24)) (u32 (get_or bytes 1 0 <<< 16)))
        (u32 (get_or bytes 2 0 <<< 8)))
      (get_or bytes 3 0)

pub write_be : ℕ → List ℕ
write_be x = u8 (x >>> 24) ∷ u8 (x >>> 16) ∷ u8 (x >>> 8) ∷ u8 x ∷ []

pub read_le : List ℕ → ℕ
read_le bytes =
    bit_or
      (bit_or (bit_or (u32 (get_or bytes 3 0 <<< 24)) (u32 (get_or bytes 2 0 <<< 16)))
        (u32 (get_or bytes 1 0 <<< 8)))
      (get_or bytes 0 0)

pub write_le : ℕ → List ℕ
write_le x = u8 x ∷ u8 (x >>> 8) ∷ u8 (x >>> 16) ∷ u8 (x >>> 24) ∷ []

-- n rounds from i, and the last limb: temp |= limb << (2 * i); val[i] = temp & 0x3FFFFFFF;
-- temp = limb >> (30 - 2 * i). `word i` is the limb that round i reads.
pub read_loop : (ℕ → ℕ) → ℕ → ℕ → ℕ → List ℕ
read_loop word i temp zero = temp ∷ []
read_loop word i temp (suc n) =
    bit_or temp (u32 (word i <<< (2 * i))) % 2 ^ 30
    ∷ read_loop word (i + 1) (word i >>> (30 - 2 * i)) n

pub bn_read_be : List ℕ → Bignum256
bn_read_be in_number = read_loop (λ i. read_be (drop ((7 - i) * 4) in_number)) 0 0 8

pub bn_read_le : List ℕ → Bignum256
bn_read_le in_number = read_loop (λ i. read_le (drop (i * 4) in_number)) 0 0 8

-- n rounds from i: temp |= limb >> (14 - 2 * i); the word is written; temp = limb << (18 + 2 * i).
-- The words come out from the highest.
pub write_loop : (ℕ → ℕ) → ℕ → ℕ → ℕ → List ℕ
write_loop limb i temp zero = []
write_loop limb i temp (suc n) =
    bit_or temp (limb i >>> (14 - 2 * i))
    ∷ write_loop limb (i + 1) (u32 (limb i <<< (18 + 2 * i))) n

pub write_words : Bignum256 → List ℕ
write_words in_number =
    write_loop (λ i. get_or in_number (7 - i) 0) 0 (u32 (get_or in_number 8 0 <<< 16)) 8

-- Each word at out_number + i * 4.
pub bytes_be : List ℕ → List ℕ
bytes_be [] = []
bytes_be (w ∷ ws) = write_be w ++ bytes_be ws

pub bn_write_be : Bignum256 → List ℕ
bn_write_be in_number = bytes_be (write_words in_number)

-- Each word at out_number + (7 - i) * 4: the first word comes last.
pub bytes_le : List ℕ → List ℕ
bytes_le [] = []
bytes_le (w ∷ ws) = bytes_le ws ++ write_le w

pub bn_write_le : Bignum256 → List ℕ
bn_write_le in_number = bytes_le (write_words in_number)

pub bn_read_uint32 : ℕ → Bignum256
bn_read_uint32 in_number = in_number % 2 ^ 30 ∷ in_number >>> 30 ∷ 0 ∷ 0 ∷ 0 ∷ 0 ∷ 0 ∷ 0 ∷ 0 ∷ []

pub bn_read_uint64 : ℕ → Bignum256
bn_read_uint64 in_number =
    in_number % 2 ^ 30
    ∷ (in_number >>> 30) % 2 ^ 30
    ∷ ((in_number >>> 30) >>> 30) % 2 ^ 30
    ∷ 0
    ∷ 0
    ∷ 0
    ∷ 0
    ∷ 0
    ∷ 0
    ∷ []

pub bn_write_uint32 : Bignum256 → ℕ
bn_write_uint32 in_number = bit_or (get_or in_number 0 0) (u32 (get_or in_number 1 0 <<< 30))

-- tmp = val[2]; tmp <<= 30; tmp |= val[1]; tmp <<= 30; tmp |= val[0]
pub bn_write_uint64 : Bignum256 → ℕ
bn_write_uint64 in_number =
    bit_or (u64 (bit_or (u64 (get_or in_number 2 0 <<< 30)) (get_or in_number 1 0) <<< 30))
      (get_or in_number 0 0)
