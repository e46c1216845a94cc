-- ===== src/Lib.antt =====
-- The wallet core that the iOS plugin compiles in (ios/Classes/*.c): mnemonics, seeds and the
-- functions under them, and the arithmetic of 256-bit numbers on which the elliptic-curve
-- signatures, the key derivation and the encodings stand.
--
-- Parts and files. A pointer's bytes are a list, a C string is the list of its characters without
-- the terminator, and a function that writes through a pointer returns what it writes. Every word
-- that may wrap is written with its `% 2 ^ 32` or `% 2 ^ 64`, and a difference of words adds the
-- modulus first.
--
-- - Base: shared names, Boolean tests, arrays as lists, machine words, tables over small ranges, and
--   the laws of `&`, `|`, `^`.
-- - Mnemonic (ios/Classes/bip39.c, bip39_english.h): mnemonic_generate, mnemonic_from_data,
--   data_from_mnemonic, mnemonic_check, the forms that give indexes, and the word list
--   (Mnemonic/English). Mnemonic/Find is about the list, Mnemonic/Bits about the bits, Mnemonic/Text
--   about the text; Mnemonic/RoundTrip, Mnemonic/Check and Mnemonic/Finish put them together.
--   sha256_Raw is a parameter, and so are the random bytes.
-- - Hash (ios/Classes/sha2.h): the hash functions as an interface (record Functions), with what SHA-2
--   promises (Hash/Laws, record IsSha), the REVERSE macros and the words of memory. The machine is
--   little-endian. Hash/Zero meets the laws, for the tests.
-- - Hmac (ios/Classes/hmac.c) and Pbkdf2 (ios/Classes/pbkdf2.c): the source writes each function twice,
--   for SHA-256 and for SHA-512, and the model once, over a hash with its lengths (record Sha;
--   sha256_of and sha512_of). Pbkdf2/Rounds has PBKDF2 of RFC 8018.
-- - Seed: mnemonic_to_seed of ios/Classes/bip39.c. Its static cache is a state that each call takes and
--   returns; progress_callback is the list of its calls. It uses Pbkdf2.
-- - KeyTree (ios/Classes/bip32.c and bip32.h, the constants of secp256k1.c): a node and its children.
--   hdnode_from_seed, hdnode_from_xprv, hdnode_from_xpub and hdnode_private_ckd, with the arithmetic of
--   Bignum and the HMAC of Hmac; ecdsa_get_public_key33 is a parameter (record Library). KeyTree/Child
--   is about one try of the loop, KeyTree/Derive about the loop, KeyTree/Node and KeyTree/Master about
--   the nodes made, and KeyTree/Invariant about paths. KeyTree/Cached is hdnode_private_ckd_cached: its
--   static cache is a state that each call takes and returns, and KeyTree/Cached/Path compares it with
--   the same path without a cache.
-- - Base58 (ios/Classes/base58.c): b58tobin, b58enc, b58check and the functions with a checksum, whose
--   hash is a parameter: SHA-256 twice, or RIPEMD-160 in the functions with gph in their names.
--   Base58/Words, Mask, Scan and Bytes are about the words of b58tobin, Decode about the whole of it,
--   Size, Digits and Zeros about the digits of b58enc, Encode about the whole of it, and RoundTrip,
--   Check, Canonical, Taken and Bounds about both. The sizes of arrays are taken to be what size_t and
--   int hold. Base58 uses the comparison of Mnemonic and the digits of Bignum/Bytes.
-- - Curve (ios/Classes/ecdsa.c): the points, as two coordinates (point_add, point_double) and as
--   three (point_jacobian_add, point_jacobian_double, the conversions, conditional_negate).
--   Curve/Residue reads each function of Bignum as an operation modulo the prime, Curve/Formulas has
--   the formulas on numbers, and Curve/Double, Add and Negate compare. Curve/PublicKey is about public
--   keys: ecdsa_read_pubkey, ecdsa_validate_pubkey, uncompress_coords, ecdsa_uncompress_pubkey. The
--   build takes another bn_inverse than the one of Bignum/Power, so bn_inverse is a parameter.
-- - Ecdsa (ios/Classes/ecdsa.c): addresses and private keys as texts, over Base58; Ecdsa/Sign, signing
--   with the numbers of RFC 6979, over Hmac, and Ecdsa/Verify. k * G and k * P are parameters of both.
-- - Random (ios/Classes/rand.c): random_uniform and random_permute take words from a list, which stands
--   for what random32 reads from /dev/urandom.
-- - Bignum (ios/Classes/bignum.c and bignum.h). A bignum256 is the list of its nine limbs `val`,
--   lowest first; `value` is the number that they stand for. A loop over i is a recursion along the
--   limbs and returns what it stores, with the carry that is left. `x & 0x3FFFFFFF` is written
--   `x % 2 ^ 30` (Base/Bits proves the two equal); the other uses of `&`, `|` and `^` are the bit
--   operations themselves.
--   - Bignum/Limbs: the struct, what normalized and partly reduced mean, and the primes allowed.
--   - Bignum/Add: bn_add, bn_addi, bn_normalize, bn_subi, bn_subtractmod, bn_subtract.
--   - Bignum/Compare: bn_zero, bn_one, bn_is_zero, bn_is_even, bn_is_odd, bn_is_less, bn_is_equal,
--     bn_cmov.
--   - Bignum/Shift: bn_lshift, bn_rshift, bn_mult_half.
--   - Bignum/Divide: bn_divmod58, bn_divmod1000.
--   - Bignum/Reduce: bn_fast_mod, bn_mod, bn_mult_k, bn_addmod. It uses Add and Compare.
--   - Bignum/Multiply: bn_multiply_long, bn_multiply_reduce_step, bn_multiply_reduce, bn_multiply.
--   - Bignum/Congruence: equality modulo a prime. Bignum/Power: bn_sqrt and the bn_inverse that is
--     compiled without USE_INVERSE_FAST. The loop over the bits of a limb breaks off where the source
--     breaks off. That the powers are a square root and an inverse is Fermat's theorem for a prime,
--     and is not part of this.
--   - Bignum/Bytes: read_be, write_be, read_le, write_le, and the conversions between bytes, words
--     and limbs.
--
-- Bounds. The loops of the arithmetic and of PBKDF2 have a number of rounds that is known when they
-- start. The loop over the words of a text takes fuel, the number of the text's characters: each
-- round goes on by one at least. random_uniform goes along the random words, and gives none when
-- they end. The two loops of KeyTree hash again until a hash gives a key; nothing bounds how often,
-- so their theorems ask for more fuel than the number of the first hash that does. Signing makes at
-- most 10000 rounds, as the source does. mnemonic_to_seed gives none for a passphrase of more than
-- 256 characters, which is copied past its array salt, and hdnode_private_ckd_cached none where it
-- saves the parent of a path of more than 9 indexes, past the array i of its cache. random_permute
-- counts in an int of 32 bits, and gives none where that overflows. A bignum holds 270 bits; sums
-- that may pass that are stated modulo 2 ^ 270. A prime lies between 2 ^ 256 - 2 ^ 224 and 2 ^ 256,
-- as the source asks.
--
-- Not modelled: clearing arrays after use (it has no result), the assertions of bignum.c (what they
-- assert holds under the hypotheses stated), and these parts: the hash functions themselves, AES,
-- the multiples of points in ecdsa.c (point_multiply, scalar_multiply, the table cp) with what
-- recovers a key from a signature, the DER form, the rest of bip32.c (public derivation,
-- serialisation, signing), and the Swift, Kotlin and Dart layers.
pub mod Base
pub mod Bignum
pub mod Curve
pub mod Ecdsa
pub mod Mnemonic
pub mod Hash
pub mod Hmac
pub mod Pbkdf2
pub mod Random
pub mod Base58
pub mod Seed
pub mod KeyTree
