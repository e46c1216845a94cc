-- ===== src/Ecdsa.antt =====
-- ios/Classes/ecdsa.c: addresses and private keys as texts, with signing and verifying below. The hash
-- functions are parameters; `sum` is the hash of base58_encode_check, SHA-256 twice.
pub mod Address
pub mod Sign
pub mod Verify
mod Tests
use flutter_sdk.Base.{
  ℕ, zero, suc, ◌+◌, ◌-◌, ◌^◌, List, [], ◌∷◌, ◌++◌, Bool, ◌&&◌, Option, none, some, ltb, leb, ◌==◌,
  flag,
}
use flutter_sdk.Base.{if◌then◌else◌, take, drop, length, get_or, bit_and, u8, ◌>>>◌}
use flutter_sdk.Mnemonic.{str_eq}
use flutter_sdk.Base58.{
  base58_encode_check, base58_decode_check, DecodeResult, rejected, out_of_bounds, decoded,
}

-- sha256_Raw and ripemd160.
pub record KeyHash : Type 0 where
  pub sha256 : List ℕ → List ℕ
  pub ripemd160 : List ℕ → List ℕ

pub ecdsa_get_pubkeyhash : KeyHash → List ℕ → List ℕ
ecdsa_get_pubkeyhash h pub_key =
    if get_or pub_key 0 0 == 0x04
    then h.ripemd160 (h.sha256 (take 65 pub_key))
    else if get_or pub_key 0 0 == 0x00
    then h.ripemd160 (h.sha256 (take 1 pub_key))
    else h.ripemd160 (h.sha256 (take 33 pub_key))

-- The bytes of the version that ecdsa_get_address_raw and ecdsa_get_wif start with.
pub version_bytes : ℕ → List ℕ
version_bytes version =
    if leb version 0xFF
    then u8 version ∷ []
    else if leb version 0xFFFF
    then u8 (version >>> 8) ∷ bit_and version 0xFF ∷ []
    else if leb version 0xFFFFFF
    then u8 (version >>> 16) ∷ bit_and (version >>> 8) 0xFF ∷ bit_and version 0xFF ∷ []
    else u8 (version >>> 24)
      ∷ bit_and (version >>> 16) 0xFF
      ∷ bit_and (version >>> 8) 0xFF
      ∷ bit_and version 0xFF
      ∷ []

pub ecdsa_get_address_raw : KeyHash → List ℕ → ℕ → List ℕ
unfolding version_bytes ecdsa_get_pubkeyhash
ecdsa_get_address_raw h pub_key version = version_bytes version ++ ecdsa_get_pubkeyhash h pub_key

-- The number of bytes that an address of a version has.
pub address_size : ℕ → ℕ
address_size version =
    if leb version 0xFF
    then 21
    else if leb version 0xFFFF
    then 22
    else if leb version 0xFFFFFF
    then 23
    else 24

-- The text in addr, or none where it is left as it is.
pub ecdsa_get_address : KeyHash → (List ℕ → List ℕ) → List ℕ → ℕ → ℕ → Option (List ℕ)
unfolding ecdsa_get_address_raw address_size
ecdsa_get_address h sum pub_key version addrsize =
    let raw = ecdsa_get_address_raw h pub_key version in
    (base58_encode_check sum (take (address_size version) raw) addrsize).0

-- The text in wif, or none where it is left as it is.
pub ecdsa_get_wif : (List ℕ → List ℕ) → List ℕ → ℕ → ℕ → Option (List ℕ)
unfolding version_bytes
ecdsa_get_wif sum priv_key version wifsize =
    (base58_encode_check sum (version_bytes version ++ take 32 priv_key ++ 0x01 ∷ []) wifsize).0

-- The bytes of the version that ecdsa_address_decode compares with.
pub wanted_bytes : ℕ → List ℕ
wanted_bytes version =
    if leb version 0xFF
    then bit_and version 0xFF ∷ []
    else if leb version 0xFFFF
    then bit_and (version >>> 8) 0xFF ∷ bit_and version 0xFF ∷ []
    else if leb version 0xFFFFFF
    then bit_and (version >>> 16) 0xFF ∷ bit_and (version >>> 8) 0xFF ∷ bit_and version 0xFF ∷ []
    else (version >>> 24)
      ∷ bit_and (version >>> 16) 0xFF
      ∷ bit_and (version >>> 8) 0xFF
      ∷ bit_and version 0xFF
      ∷ []

-- base58_decode_check(..) == size && out[0] == .. && ..: the result and out.
pub compare_version : DecodeResult → ℕ → List ℕ → List ℕ → Option (ℕ × List ℕ)
compare_version rejected size wanted out = some (0, out)
compare_version out_of_bounds size wanted out = none
compare_version (decoded bytes) size wanted out =
    let out' = bytes ++ drop (length bytes) out in
    some (flag (length bytes == size && str_eq (take (length wanted) out') wanted), out')

-- addr may be null. none stands for a read out of bounds.
pub ecdsa_address_decode : (List ℕ → List ℕ) → Option (List ℕ) → ℕ → List ℕ → Option (ℕ × List ℕ)
unfolding compare_version wanted_bytes address_size
ecdsa_address_decode sum none version out = some (0, out)
ecdsa_address_decode sum (some addr) version out =
    compare_version (base58_decode_check sum (address_size version) addr) (address_size version)
      (wanted_bytes version) out
