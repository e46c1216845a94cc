-- ===== src/Mnemonic.antt =====
-- ios/Classes/bip39.c: words from bytes, and bytes from words. A C string is the list of its
-- characters, without the terminator; a null pointer is none. The hash sha256_Raw is a parameter:
-- a function from the bytes to the digest.
pub mod English
pub mod Find
pub mod Bits
pub mod Text
pub mod RoundTrip
pub mod Check
pub mod Finish
mod Tests
use English.{wordlist}
use flutter_sdk.Base.{ℕ, zero, suc, ◌+◌, ◌-◌, ◌*◌, ◌/◌, ◌%◌, ◌^◌, List, [], ◌∷◌, ◌++◌, bit_and}
use flutter_sdk.Base.{bit_or, u32, ◌<<<◌, ◌>>>◌, flag, ltb, ◌==◌, if◌then◌else◌, Bool, true, false}
use flutter_sdk.Base.{◌&&◌, ◌||◌, not, Option, none, some, get_or, take, drop, length, replicate}

-- bits[p / 8] & (1 << (7 - p % 8)), as 0 or 1
pub bit_at : List ℕ → ℕ → ℕ
bit_at bits p = flag (ltb 0 (bit_and (get_or bits (p / 8) 0) (1 <<< (7 - p % 8))))

-- n rounds of idx <<= 1; idx += bit, from the bit p on.
pub index_loop : List ℕ → ℕ → ℕ → ℕ → ℕ
index_loop bits p zero idx = idx
index_loop bits p (suc n) idx = index_loop bits (p + 1) n ((idx <<< 1) + bit_at bits p)

-- The index that round i of the outer loop computes.
pub word_index : List ℕ → ℕ → ℕ
unfolding index_loop
word_index bits i = index_loop bits (i * 11) 11 0

-- `bytes` is the array data of the source. The array bits: the data, then the first byte of the digest. What sha256_Raw leaves behind that
-- is not read.
pub checked_bits : (List ℕ → List ℕ) → List ℕ → ℕ → List ℕ
checked_bits sha256 bytes len =
    let digest = sha256 (take len bytes) in
    take len bytes ++ get_or digest 0 0 ∷ drop (len + 1) digest

-- n rounds from i. After the last word stands the terminator.
pub mnemo_loop : List ℕ → ℕ → ℕ → ℕ → List ℕ
mnemo_loop bits mlen i zero = []
mnemo_loop bits mlen i (suc n) =
    let rest = mnemo_loop bits mlen (i + 1) n in
    get_or wordlist (word_index bits i) [] ++ (if ltb i (mlen - 1) then 32 ∷ rest else [])

pub indexes_loop : List ℕ → ℕ → ℕ → List ℕ
indexes_loop bits i zero = []
indexes_loop bits i (suc n) = word_index bits i ∷ indexes_loop bits (i + 1) n

-- len % 4 || len < 16 || len > 32. A negative length is below 16.
pub bad_length : ℕ → Bool
bad_length len = not (len % 4 == 0) || ltb len 16 || ltb 32 len

pub mnemonic_from_data : (List ℕ → List ℕ) → List ℕ → ℕ → Option (List ℕ)
unfolding bad_length checked_bits mnemo_loop word_index bit_at
mnemonic_from_data sha256 bytes len =
    if bad_length len
    then none
    else let mlen = len * 3 / 4 in some (mnemo_loop (checked_bits sha256 bytes len) mlen 0 mlen)

pub mnemonic_from_data_indexes : (List ℕ → List ℕ) → List ℕ → ℕ → Option (List ℕ)
unfolding bad_length checked_bits indexes_loop word_index bit_at
mnemonic_from_data_indexes sha256 bytes len =
    if bad_length len
    then none
    else let mlen = len * 3 / 4 in some (indexes_loop (checked_bits sha256 bytes len) 0 mlen)

-- strength % 32 || strength < 128 || strength > 256
pub bad_strength : ℕ → Bool
bad_strength strength = not (strength % 32 == 0) || ltb strength 128 || ltb 256 strength

-- `random` is what random_buffer puts into data.
pub mnemonic_generate : (List ℕ → List ℕ) → List ℕ → ℕ → Option (List ℕ)
unfolding bad_strength mnemonic_from_data
mnemonic_generate sha256 random strength =
    if bad_strength strength then none else mnemonic_from_data sha256 random (strength / 8)

pub mnemonic_generate_indexes : (List ℕ → List ℕ) → List ℕ → ℕ → Option (List ℕ)
unfolding bad_strength mnemonic_from_data_indexes
mnemonic_generate_indexes sha256 random strength =
    if bad_strength strength then none else mnemonic_from_data_indexes sha256 random (strength / 8)

-- The first loop: n counts the spaces; then n++.
pub count_words : ℕ → List ℕ → ℕ
count_words n [] = u32 (n + 1)
count_words n (c ∷ cs) = count_words (if c == 32 then u32 (n + 1) else n) cs

-- From j on: current_word, and the text from the space or the end on; none where the word does not
-- fit, sizeof(current_word) - 1 = 9.
pub split_word : ℕ → List ℕ → Option (List ℕ × List ℕ)
split_word j [] = some ([], [])
split_word j (c ∷ cs) =
    let more = split_word (j + 1) cs in
    if c == 32
    then some ([], c ∷ cs)
    else if ltb j 9
    then elim more [ none ↦ none | some (word, rest) ↦ some (c ∷ word, rest) ]
    else none

-- strcmp(a, b) == 0
unfoldable pub str_eq : List ℕ → List ℕ → Bool
str_eq [] [] = true
str_eq (a ∷ as_) (b ∷ bs) = a == b && str_eq as_ bs
str_eq _ _ = false

-- for (;;) over wordlist, which ends in a null pointer.
pub find_word : List ℕ → ℕ → List (List ℕ) → Option ℕ
unfolding str_eq
find_word word k [] = none
find_word word k (w ∷ ws) = if str_eq word w then some k else find_word word (k + 1) ws

-- data[i] |= mask
pub or_at : List ℕ → ℕ → ℕ → List ℕ
or_at [] i mask = []
or_at (x ∷ xs) zero mask = bit_or x mask ∷ xs
or_at (x ∷ xs) (suc i) mask = x ∷ or_at xs i mask

-- n rounds of the loop over ki, where 10 - ki is n - 1: data and bi.
pub write_bits : ℕ → ℕ → List ℕ → ℕ → List ℕ × ℕ
unfolding or_at
write_bits zero k bytes bi = (bytes, bi)
write_bits (suc n) k bytes bi =
    write_bits n k
      (if bit_and k (1 <<< n) == 0 then bytes else or_at bytes (bi / 8) (1 <<< (7 - bi % 8)))
      (u32 (bi + 1))

-- How the second loop ends: by return 0, or with data and bi. It is unfinished only if the fuel
-- runs out.
pub data Scan : Type 0 where
  unfinished : Scan
  refused : List ℕ → Scan
  scanned : List ℕ → ℕ → Scan

-- while (mnemonic[i]), on fuel: each round goes on by one character at least.
pub words_loop : ℕ → List ℕ → List ℕ → ℕ → Scan
words_loop zero [] bytes bi = scanned bytes bi
words_loop zero (c ∷ cs) bytes bi = unfinished
words_loop (suc fuel) [] bytes bi = scanned bytes bi
words_loop (suc fuel) (c ∷ cs) bytes bi = elim (split_word 0 (c ∷ cs)) [
  | none ↦ refused bytes
  | some (word, rest) ↦ elim (find_word word 0 wordlist) [
    | none ↦ refused bytes
    | some k ↦
        let written = write_bits 11 k bytes bi in words_loop fuel (drop 1 rest) written.0 written.1
  ]
]

-- for (i < n / 3) mask |= 0x80 >> i
pub mask_loop : ℕ → ℕ → ℕ → ℕ
mask_loop zero i mask = mask
mask_loop (suc n) i mask = mask_loop n (i + 1) (bit_or mask (0x80 >>> i))

-- From the checksum on. The sign of the char expectedChecksum is cut off by the mask.
pub check_sum : (List ℕ → List ℕ) → ℕ → List ℕ → ℕ × List ℕ
unfolding mask_loop
check_sum sha256 n bytes =
    let mask = mask_loop (n / 3) 0 0 in
    if bit_and (get_or (sha256 (take (n * 4 / 3) bytes)) 0 0) mask
      == bit_and (get_or bytes (n * 4 / 3) 0) mask
    then (n * 4 / 3, bytes)
    else (0, bytes)

-- After the second loop.
pub finish_scan : (List ℕ → List ℕ) → ℕ → Scan → ℕ × List ℕ
unfolding check_sum
finish_scan sha256 n unfinished = (0, [])
finish_scan sha256 n (refused bytes) = (0, bytes)
finish_scan sha256 n (scanned bytes bi) =
    if bi == n * 11 then check_sum sha256 n bytes else (0, bytes)

-- The result, and what stands in data.
pub data_from_mnemonic : (List ℕ → List ℕ) → Option (List ℕ) → List ℕ → ℕ × List ℕ
unfolding count_words words_loop split_word find_word write_bits finish_scan
data_from_mnemonic sha256 none bytes = (0, bytes)
data_from_mnemonic sha256 (some mnemonic) bytes =
    let n = count_words 0 mnemonic in
    if n == 12 || n == 18 || n == 24
    then finish_scan sha256 n (words_loop (length mnemonic) mnemonic (replicate 65 0) 0)
    else (0, bytes)

-- The array data is not set beforehand.
pub mnemonic_check : (List ℕ → List ℕ) → List ℕ → Option (List ℕ) → ℕ
unfolding data_from_mnemonic
mnemonic_check sha256 bytes mnemonic = flag (ltb 0 (data_from_mnemonic sha256 mnemonic bytes).0)
