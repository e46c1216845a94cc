-- ===== src/Ecdsa/Tests.antt =====
-- The theorems on addresses and signatures of ios/Classes/ecdsa.c at concrete inputs.
use flutter_sdk.Base.{
  ℕ, ◌+◌, ◌≡◌, ◌⊎◌, refl, arith, List, [], ◌∷◌, ◌++◌, none, some, codes, replicate,
}
use flutter_sdk.Base.{length, drop, take, not, ◌&&◌, ◌==◌, replicate-AllBelow}
use flutter_sdk.Mnemonic.{str_eq}
use flutter_sdk.Base58.{
  base58_encode_check, base58_decode_check, b58tobin, b58check, accept, leading_zeros,
}
use flutter_sdk.Bignum.Limbs.{Bignum256, value}
use flutter_sdk.Bignum.Bytes.{bn_write_be}
use flutter_sdk.Bignum.Bytes.Words.{big_endian}
use flutter_sdk.Hash.{Functions}
use flutter_sdk.KeyTree.{secp256k1}
use flutter_sdk.Curve.PublicKey.{ecdsa_read_pubkey}
use flutter_sdk.Ecdsa.{
  KeyHash, ecdsa_get_pubkeyhash, ecdsa_get_address, ecdsa_get_address_raw, version_bytes,
  address_size,
}
use flutter_sdk.Ecdsa.{ecdsa_address_decode, compare_version, wanted_bytes}
use flutter_sdk.Ecdsa.Address.{ecdsa_address_decode-ecdsa_get_address, ecdsa_address_decode-taken}
use flutter_sdk.Ecdsa.Sign.{Signer, ecdsa_sign_digest}
use flutter_sdk.Ecdsa.Sign.Round.{IsSigner, IsSignature}
use flutter_sdk.Ecdsa.Sign.Safe.{ecdsa_sign_digest-IsSignature}
use flutter_sdk.Ecdsa.Verify.{Verifier, ecdsa_verify_digest}
use flutter_sdk.Ecdsa.Verify.Ranges.{in_range, is_some, ecdsa_verify_digest-ranges}

abbrev key_hash : KeyHash
key_hash = record { sha256 = λ bytes. bytes; ripemd160 = λ bytes. length bytes ∷ replicate 19 7 }

abbrev sum4 : List ℕ → List ℕ
sum4 bytes = 5 ∷ 7 ∷ 8 ∷ 9 ∷ []

abbrev pub_key : List ℕ
pub_key = replicate 33 2

ecdsa_address_decode-ecdsa_get_address_example :
    (text : List ℕ) × (ecdsa_get_address key_hash sum4 pub_key 0x100 40 ≡ some text)
    × (ecdsa_address_decode sum4 (some text) 0x100 []
        ≡ some (1, ecdsa_get_address_raw key_hash pub_key 0x100 ++ drop (address_size 0x100) []))
unfolding ecdsa_get_pubkeyhash leading_zeros
ecdsa_address_decode-ecdsa_get_address_example =
    ecdsa_address_decode-ecdsa_get_address key_hash sum4 pub_key [] 0x100 40 (omega arith)
      (omega arith) (omega arith, replicate-AllBelow 256 19 7 (omega arith)) (omega arith)
      (omega arith)
      (λ bytes. ((omega arith, (omega arith, (omega arith, (omega arith, tt)))), omega arith))

abbrev address : List ℕ
address = codes "141dicATDRCBQVh68XNwhCvMJPJtE6GYMW"

address_read : ecdsa_address_decode sum4 (some address) 0 [] ≡ some (1, 0 ∷ 33 ∷ replicate 19 7)
unfolding ecdsa_address_decode compare_version wanted_bytes address_size base58_decode_check
    b58tobin b58check accept str_eq
address_read = refl

ecdsa_address_decode-taken_example :
    (hash : List ℕ) × (length hash ≡ 20)
    × (base58_encode_check sum4 (version_bytes 0 ++ hash) 40 ≡ (some address, length address + 1))
    × (0 ∷ 33 ∷ replicate 19 7 ≡ (version_bytes 0 ++ hash) ++ drop (address_size 0) [])
ecdsa_address_decode-taken_example =
    ecdsa_address_decode-taken sum4 address [] (0 ∷ 33 ∷ replicate 19 7) 0 (omega arith)
      (
        omega arith,
        (
          omega arith,
          (
            omega arith,
            (
              omega arith,
              (
                omega arith,
                (
                  omega arith,
                  (
                    omega arith,
                    (
                      omega arith,
                      (
                        omega arith,
                        (
                          omega arith,
                          (
                            omega arith,
                            (
                              omega arith,
                              (
                                omega arith,
                                (
                                  omega arith,
                                  (
                                    omega arith,
                                    (
                                      omega arith,
                                      (
                                        omega arith,
                                        (
                                          omega arith,
                                          (
                                            omega arith,
                                            (
                                              omega arith,
                                              (
                                                omega arith,
                                                (
                                                  omega arith,
                                                  (
                                                    omega arith,
                                                    (
                                                      omega arith,
                                                      (
                                                        omega arith,
                                                        (
                                                          omega arith,
                                                          (
                                                            omega arith,
                                                            (
                                                            omega arith,
                                                            (
                                                            omega arith,
                                                            (
                                                            omega arith,
                                                            (
                                                            omega arith,
                                                            (
                                                            omega arith,
                                                            (omega arith, (omega arith, tt)),
                                                            ),
                                                            ),
                                                            ),
                                                            ),
                                                            ),
                                                          ),
                                                        ),
                                                      ),
                                                    ),
                                                  ),
                                                ),
                                              ),
                                            ),
                                          ),
                                        ),
                                      ),
                                    ),
                                  ),
                                ),
                              ),
                            ),
                          ),
                        ),
                      ),
                    ),
                  ),
                ),
              ),
            ),
          ),
        ),
      )
      address_read

abbrev signer : Signer
signer = record {
  order = secp256k1.order;
  order_half = secp256k1.order_half;
  scalar_multiply = λ k. record { x = secp256k1.gx; y = secp256k1.gy };
  inverse = λ k p. secp256k1.b;
  is_canonical = none;
}

signer-IsSigner : IsSigner signer
unfolding value
signer-IsSigner = record {
  modulus = record {
    normal = record { size = refl; digits = omega arith };
    low = omega arith;
    high = omega arith;
  };
  half_normal = record { size = refl; digits = omega arith };
  half = omega arith;
  point_normal = λ k taken. record { size = refl; digits = omega arith };
  point_below = λ k taken. omega arith;
  inverse_normal = λ k taken. record { size = refl; digits = omega arith };
  inverse_below = λ k taken. omega arith;
}

-- A hash whose bytes are ones: the number k that it gives is not 0 and below the order.
abbrev ones : Functions
ones = record {
  init = record { state = []; bitcount = 0; buffer = [] };
  update = λ c m. c;
  final = λ c. replicate 32 1;
  raw = λ m. replicate 32 1;
  transform = λ s b. replicate 8 0x01010101;
  initial_hash_value = [];
}

ecdsa_sign_digest-IsSignature_example :
    (ecdsa_sign_digest ones signer (replicate 32 3) (replicate 32 4) ≡ none)
    ⊎ ((sig : List ℕ) × (by : ℕ) × (k : Bignum256) × (r : Bignum256) × (s : Bignum256)
        × (ecdsa_sign_digest ones signer (replicate 32 3) (replicate 32 4) ≡ some (sig, by))
        × (sig ≡ bn_write_be r ++ bn_write_be s)
        × IsSignature signer
            (big_endian 256 0 (replicate 32 3))
            (big_endian 256 0 (replicate 32 4))
            k
            r
            s)
ecdsa_sign_digest-IsSignature_example =
    ecdsa_sign_digest-IsSignature signer signer-IsSigner ones (replicate 32 3) (replicate 32 4) refl
      (replicate-AllBelow 256 32 3 (omega arith)) refl (replicate-AllBelow 256 32 4 (omega arith))

abbrev verifier : Verifier
verifier = record {
  prime = secp256k1.prime;
  minus_a = 0;
  b = secp256k1.b;
  order = secp256k1.order;
  scalar_multiply = λ k. record { x = secp256k1.gx; y = secp256k1.gy };
  point_multiply = λ k p. p;
  inverse = λ k p. secp256k1.b;
}

ecdsa_verify_digest-ranges_example :
    ((ecdsa_verify_digest verifier pub_key (replicate 64 1) (replicate 32 4) == 1)
      ≡ not (is_some (ecdsa_read_pubkey verifier.prime verifier.minus_a verifier.b pub_key)))
    × ((ecdsa_verify_digest verifier pub_key (replicate 64 1) (replicate 32 4) == 2) ≡ (
        is_some (ecdsa_read_pubkey verifier.prime verifier.minus_a verifier.b pub_key)
        && not (
            in_range (value verifier.order) (big_endian 256 0 (take 32 (replicate 64 1)))
            && in_range (value verifier.order) (big_endian 256 0 (drop 32 (replicate 64 1))))))
ecdsa_verify_digest-ranges_example =
    ecdsa_verify_digest-ranges verifier pub_key (replicate 64 1) (replicate 32 4)
      (record { size = refl; digits = omega arith }) refl
      (replicate-AllBelow 256 64 1 (omega arith))
