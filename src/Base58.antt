-- ===== src/Base58.antt =====
-- ios/Classes/base58.c. A text is the list of its bytes without the terminator. Arrays whose last
-- element counts least, as outi, stand as they are; the digits that b58enc computes (buf) are a list
-- from the last element of the array, where the source starts, to the first.
pub mod Words
pub mod Mask
pub mod Scan
pub mod Bytes
pub mod Decode
pub mod Size
pub mod Digits
pub mod Zeros
pub mod Encode
pub mod RoundTrip
pub mod Canonical
pub mod Check
pub mod Taken
pub mod Bounds
mod Tests
use flutter_sdk.Base.{ℕ, zero, suc, ◌+◌, ◌-◌, ◌*◌, ◌/◌, ◌%◌, ◌^◌, List, [], ◌∷◌, ◌++◌, map}
use flutter_sdk.Base.{
  Bool, true, false, not, ◌&&◌, Option, none, some, ltb, leb, ◌==◌, if◌then◌else◌,
}
use flutter_sdk.Base.{
  codes, take, drop, length, get_or, replicate, bit_and, u8, u32, u64, ◌<<<◌, ◌>>>◌,
}
use flutter_sdk.Base.{reverse, ◌>>=◌}
use flutter_sdk.Mnemonic.{str_eq}

-- n digits from d on, and n bytes that are no digits (-1).
abbrev digits : ℕ → ℕ → List (Option ℕ)
digits d zero = []
digits d (suc n) = some d ∷ digits (d + 1) n

abbrev no_digits : ℕ → List (Option ℕ)
no_digits n = replicate n none

pub b58digits_map : List (Option ℕ)
b58digits_map =
    no_digits 49
    ++ digits 0 9
    ++ no_digits 7
    ++ digits 9 8
    ++ no_digits 1
    ++ digits 17 5
    ++ no_digits 1
    ++ digits 22 11
    ++ no_digits 6
    ++ digits 33 11
    ++ no_digits 1
    ++ digits 44 14
    ++ no_digits 5

abbrev pub b58digits_ordered : List ℕ
b58digits_ordered = codes "123456789ABCDEFGHJKLMNPQRSTUVWXYZabcdefghijkmnopqrstuvwxyz"

-- "Leading zeros, just count": their number, and what follows.
pub skip_ones : List ℕ → ℕ × List ℕ
skip_ones [] = (0, [])
skip_ones (ch ∷ chs) =
    let rest = skip_ones chs in if ch == b'1' then (rest.0 + 1, rest.1) else (0, ch ∷ chs)

-- The loop over j, from the last word: the carry, and outi.
pub times58 : ℕ → List ℕ → ℕ × List ℕ
times58 c [] = (c, [])
times58 c (w ∷ ws) =
    let low = times58 c ws in
    let t = u64 (u64 (w * 58) + low.0) in (bit_and t 0x3f00000000 >>> 32, (t % 2 ^ 32) ∷ low.1)

-- The loop over the digits.
pub scan_digits : ℕ → List ℕ → List ℕ → Option (List ℕ)
unfolding times58 b58digits_map
scan_digits zeromask outi [] = some outi
scan_digits zeromask outi (ch ∷ chs) = if not (bit_and ch 0x80 == 0) then none else do
  c ← get_or b58digits_map ch none
  let next = times58 c outi
  let later = scan_digits zeromask next.1 chs
  if not (next.0 == 0)
      then none
      else if not (bit_and (get_or next.1 0 0) zeromask == 0)
      then none
      else later

-- The switch over bytesleft, for outi[0].
pub front_bytes : ℕ → ℕ → List ℕ
front_bytes bytesleft w =
    if bytesleft == 3
    then (bit_and w 0xff0000 >>> 16) ∷ (bit_and w 0xff00 >>> 8) ∷ bit_and w 0xff ∷ []
    else if bytesleft == 2
    then (bit_and w 0xff00 >>> 8) ∷ bit_and w 0xff ∷ []
    else if bytesleft == 1
    then bit_and w 0xff ∷ []
    else []

-- The loop over the other words.
pub word_bytes_be : List ℕ → List ℕ
word_bytes_be [] = []
word_bytes_be (w ∷ ws) =
    bit_and (w >>> 0x18) 0xff
    ∷ bit_and (w >>> 0x10) 0xff
    ∷ bit_and (w >>> 8) 0xff
    ∷ bit_and (w >>> 0) 0xff
    ∷ word_bytes_be ws

pub out_bytes : ℕ → List ℕ → List ℕ
unfolding front_bytes word_bytes_be
out_bytes bytesleft outi =
    if bytesleft == 0
    then word_bytes_be outi
    else front_bytes bytesleft (get_or outi 0 0) ++ word_bytes_be (drop 1 outi)

-- The leading bytes that are zero: "canonical base58 byte count".
unfoldable pub leading_zeros : List ℕ → ℕ
leading_zeros [] = 0
leading_zeros (b ∷ bs) = let rest = leading_zeros bs in if b == 0 then rest + 1 else 0

pub zeromask_of : ℕ → ℕ
zeromask_of bytesleft = if bytesleft == 0 then 0 else u32 (0xffffffff <<< (bytesleft * 8))

-- The bytes of bin, of which there are binsz, and *binszp; none stands for false.
unfoldable pub b58tobin : ℕ → List ℕ → Option (List ℕ × ℕ)
unfolding skip_ones scan_digits out_bytes leading_zeros zeromask_of
b58tobin binsz b58 = do
  let outisz = (binsz + 3) / 4
  let bytesleft = binsz % 4
  let text = skip_ones b58
  outi ← scan_digits (zeromask_of bytesleft) (replicate outisz 0) text.1
  let bin = out_bytes bytesleft outi
  some (bin, binsz - leading_zeros bin + text.0)

-- What b58check returns: -4, -1, -3, or the first byte.
pub data CheckResult : Type 0 where
  too_short : CheckResult
  wrong_sum : CheckResult
  wrong_zeros : CheckResult
  first_byte : ℕ → CheckResult

-- for (i = 0; binc[i] == '\0' && base58str[i] == '1'; ++i), then the test of the two. The text ends
-- with its terminator; bytes behind bin count as other than 0.
pub zeros_differ : List ℕ → List ℕ → Bool
zeros_differ [] base58str = get_or base58str 0 0 == b'1'
zeros_differ (b ∷ bs) [] = b == 0
zeros_differ (b ∷ bs) (ch ∷ chs) =
    let rest = zeros_differ bs chs in
    if b == 0 && ch == b'1' then rest else if b == 0 then true else ch == b'1'

-- b58check and b58gphcheck: `sum` is SHA-256 twice, or RIPEMD-160.
unfoldable pub b58check : (List ℕ → List ℕ) → List ℕ → List ℕ → CheckResult
unfolding zeros_differ
b58check sum bin base58str =
    let n = length bin - 4 in
    if ltb (length bin) 4
    then too_short
    else if not (str_eq (drop n bin) (take 4 (sum (take n bin))))
    then wrong_sum
    else if zeros_differ bin base58str
    then wrong_zeros
    else first_byte (get_or bin 0 0)

-- One round of the loop over i of b58enc: the loop over j, `used` being size - 1 - high. The digits,
-- and the new size - 1 - high.
pub add_byte : ℕ → ℕ → List ℕ → List ℕ × ℕ
add_byte carry used [] = ([], 0)
add_byte carry used (d ∷ ds) =
    let c = carry + 256 * d in
    let rest = add_byte (c / 58) (used - 1) ds in
    if used == 0 && carry == 0 then (d ∷ ds, 0) else ((c % 58) ∷ rest.0, rest.1 + 1)

-- The loop over i.
pub add_bytes : ℕ → List ℕ → List ℕ → List ℕ
unfolding add_byte
add_bytes used buf [] = buf
add_bytes used buf (b ∷ bs) = let r = add_byte b used buf in add_bytes r.1 r.0 bs

-- *b58sz at the return, and the text if the result is true.
pub b58enc : ℕ → List ℕ → Option (List ℕ) × ℕ
unfolding leading_zeros add_bytes
b58enc b58sz bin =
    let zcount = leading_zeros bin in
    let size = (length bin - zcount) * 138 / 100 + 1 in
    let buf = reverse (add_bytes 0 (replicate size 0) (drop zcount bin)) in
    let j = leading_zeros buf in
    let needed = zcount + size - j in
    if leb b58sz needed then (none, needed + 1) else (
      some (replicate zcount b'1' ++ map (λ d. get_or b58digits_ordered d 0) (drop j buf)),
      needed + 1,
    )

-- base58_encode_check and base58gph_encode_check: the text if the result is not 0, and the result.
pub base58_encode_check : (List ℕ → List ℕ) → List ℕ → ℕ → Option (List ℕ) × ℕ
base58_encode_check sum bytes strsize =
    if ltb 128 (length bytes)
    then (none, 0)
    else let r = b58enc strsize (bytes ++ take 4 (sum bytes)) in
      elim r.0 [ none ↦ (none, 0) | some str ↦ (some str, r.1) ]

-- What base58_decode_check comes to: 0, a read in front of its array d, or the bytes, whose number it
-- returns.
pub data DecodeResult : Type 0 where
  rejected : DecodeResult
  out_of_bounds : DecodeResult
  decoded : List ℕ → DecodeResult

-- if (b58check(nd, res, str) < 0) return 0; then the copy.
unfoldable pub accept : CheckResult → List ℕ → DecodeResult
accept too_short bytes = rejected
accept wrong_sum bytes = rejected
accept wrong_zeros bytes = rejected
accept (first_byte b) bytes = decoded bytes

-- base58_decode_check and base58gph_decode_check. nd starts before d if res is above datalen + 4.
unfoldable pub base58_decode_check : (List ℕ → List ℕ) → ℕ → List ℕ → DecodeResult
unfolding accept
base58_decode_check sum datalen str =
    if ltb 128 datalen then rejected else elim (b58tobin (datalen + 4) str) [
      | none ↦ rejected
      | some (d, res) ↦
          let nd = drop (datalen + 4 - res) d in
          if ltb (datalen + 4) res
          then out_of_bounds
          else accept (b58check sum nd str) (take (res - 4) nd)
    ]
