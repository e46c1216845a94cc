-- ===== src/Ecdsa/Address.antt =====
-- Addresses written and read (ios/Classes/ecdsa.c).
use flutter_sdk.Base.{
  ℕ, zero, suc, ◌+◌, ◌^◌, ◌<◌, ◌≤◌, ◌≡◌, refl, arith, ap, ◌∙◌, sym, List, [], ◌∷◌, ◌++◌,
}
use flutter_sdk.Base.{true, Option, none, some, leb, ◌==◌, take, drop, length, AllBelow}
use flutter_sdk.Base.{
  bit_and, ◌>>>◌, bit_and-ones, length-append, AllBelow-append, take-append, take-append-drop,
  take-all, length-drop, Bool-cases, inl, inr,
}
use flutter_sdk.Mnemonic.{str_eq}
use flutter_sdk.Mnemonic.Find.{str_eq_refl, str_eq→eq}
use flutter_sdk.Base58.{
  leading_zeros, base58_encode_check, base58_decode_check, DecodeResult, rejected, out_of_bounds,
  decoded,
}
use flutter_sdk.Base58.Zeros.{leading_zeros-behind, leading_zeros-front}
use flutter_sdk.Base58.Check.{base58_decode_check-base58_encode_check}
use flutter_sdk.Base58.Taken.{base58_encode_check-base58_decode_check}
use flutter_sdk.Ecdsa.{
  KeyHash, ecdsa_get_pubkeyhash, version_bytes, ecdsa_get_address_raw, address_size,
  ecdsa_get_address,
}
use flutter_sdk.Ecdsa.{wanted_bytes, compare_version, ecdsa_address_decode}

low_byte : (n : ℕ) → bit_and n 0xFF < 256
low_byte n = omega (arith, bit_and-ones 8 n)

wanted_bytes-version_bytes :
    (version : ℕ) → version < 2 ^ 32 → wanted_bytes version ≡ version_bytes version
unfolding wanted_bytes version_bytes
wanted_bytes-version_bytes version small =
    ground (
      arith,
      bit_and-ones 8 version,
      bit_and-ones 8 (version >>> 8),
      bit_and-ones 8 (version >>> 16),
    )

version_bytes-length : (version : ℕ) → length (version_bytes version) + 20 ≡ address_size version
unfolding version_bytes address_size
version_bytes-length version = ground arith

address_size-le : (version : ℕ) → address_size version ≤ 24
unfolding address_size
address_size-le version = ground arith

version_bytes-AllBelow : (version : ℕ) → AllBelow 256 (version_bytes version)
unfolding version_bytes
version_bytes-AllBelow version =
    let low = low_byte version in
    let next = low_byte (version >>> 8) in
    let third = low_byte (version >>> 16) in
    elim (Bool-cases (leb version 0xFF)) [
      | inl one ↦ rw one (omega arith, tt)
      | inr more ↦ elim (Bool-cases (leb version 0xFFFF)) [
        | inl two ↦ rw (more, two) (omega arith, (low, tt))
        | inr more2 ↦ elim (Bool-cases (leb version 0xFFFFFF)) [
          | inl three ↦ rw (more, more2, three) (omega arith, (next, (low, tt)))
          | inr four ↦ rw (more, more2, four) (omega arith, (third, (next, (low, tt))))
        ]
      ]
    ]

take-front : (xs ys : List ℕ) → take (length xs) (xs ++ ys) ≡ xs
take-front xs ys = take-append (length xs) xs ys refl

append_assoc : (xs ys zs : List ℕ) → (xs ++ ys) ++ zs ≡ xs ++ (ys ++ zs)
append_assoc [] ys zs = refl
append_assoc (x ∷ xs) ys zs = ap (λ ts. x ∷ ts) (append_assoc xs ys zs)

compare_version-same :
    (front rest out : List ℕ) (size : ℕ)
    → length (front ++ rest) ≡ size
    → compare_version (decoded (front ++ rest)) size front out
      ≡ some (1, (front ++ rest) ++ drop size out)
unfolding compare_version
compare_version-same front rest out size long =
    let behind = drop (length (front ++ rest)) out in
    let here : take (length front) ((front ++ rest) ++ behind) ≡ front =
      ap (take (length front)) (append_assoc front rest behind)
      ∙ take-front front (rest ++ behind) in
    let equal : (length (front ++ rest) == size) ≡ true = ground arith in
    rw (here, str_eq_refl front, equal, long) refl

take-inside : (n : ℕ) (xs ys : List ℕ) → n ≤ length xs → take n (xs ++ ys) ≡ take n xs
take-inside zero xs ys fits = refl
take-inside (suc n) [] ys fits = absurd (omega arith)
take-inside (suc n) (x ∷ xs) ys fits = ap (λ ts. x ∷ ts) (take-inside n xs ys (omega arith))

result_of : Option (ℕ × List ℕ) → ℕ × List ℕ
result_of none = (0, [])
result_of (some r) = r

compare_version-one :
    (r : DecodeResult) (size : ℕ) (wanted out out' : List ℕ)
    → compare_version r size wanted out ≡ some (1, out')
    → (bytes : List ℕ) × (r ≡ decoded bytes)
      × (length bytes ≡ size)
      × (take (length wanted) (bytes ++ drop size out) ≡ wanted)
      × (out' ≡ bytes ++ drop size out)
unfolding compare_version result_of
compare_version-one rejected size wanted out out' done =
    absurd (omega (arith, ap (λ r. (result_of r).0) done))
compare_version-one out_of_bounds size wanted out out' done =
    absurd (omega (arith, ap (λ r. (result_of r).0) done))
compare_version-one (decoded bytes) size wanted out out' done =
    let behind = bytes ++ drop (length bytes) out in
    let one = ap (λ r. (result_of r).0) done in
    let long : length bytes ≡ size = ground (arith, one) in
    let begins : str_eq (take (length wanted) behind) wanted ≡ true = ground (arith, one) in
    let move = ap (λ (t : ℕ). bytes ++ drop t out) (sym long) in
    (
      bytes,
      refl,
      long,
      ap (take (length wanted)) move ∙ str_eq→eq (take (length wanted) behind) wanted begins,
      sym (ap (λ r. (result_of r).1) done) ∙ sym move,
    )

module _ (h : KeyHash) (sum : List ℕ → List ℕ) where
  -- For a version of 32 bits, an addrsize above 39, a hash of the public key of 20 bytes, not all
  -- zeros, and a checksum of four bytes at least: ecdsa_get_address makes a text, and
  -- ecdsa_address_decode takes it for that version and leaves the bytes of ecdsa_get_address_raw at
  -- the front of out.
  pub ecdsa_address_decode-ecdsa_get_address :
      (pub_key out : List ℕ) (version addrsize : ℕ)
      → version < 2 ^ 32
      → 39 < addrsize
      → AllBelow 256 (ecdsa_get_pubkeyhash h pub_key)
      → length (ecdsa_get_pubkeyhash h pub_key) ≡ 20
      → leading_zeros (ecdsa_get_pubkeyhash h pub_key) < 20
      → ((bytes : List ℕ) → AllBelow 256 (sum bytes) × (4 ≤ length (sum bytes)))
      → (text : List ℕ) × (ecdsa_get_address h sum pub_key version addrsize ≡ some text)
        × (ecdsa_address_decode sum (some text) version out
            ≡ some (1, ecdsa_get_address_raw h pub_key version ++ drop (address_size version) out))
  unfolding ecdsa_get_address ecdsa_address_decode ecdsa_get_address_raw
  ecdsa_address_decode-ecdsa_get_address pub_key out version addrsize small room bytes twenty other
        sums =
      let hash = ecdsa_get_pubkeyhash h pub_key in
      let front = version_bytes version in
      let raw = front ++ hash in
      let n = address_size version in
      let size : length raw ≡ n =
        omega (arith, length-append front hash, version_bytes-length version, twenty) in
      let (all, four) = sums raw in
      let (text, written, read) =
        base58_decode_check-base58_encode_check sum raw n addrsize
          (AllBelow-append 256 front hash (version_bytes-AllBelow version) bytes) all four
          (omega (arith, size)) (omega (arith, address_size-le version))
          (omega (arith, size, address_size-le version))
          (leading_zeros-front raw (take 4 (sum raw))
            (leading_zeros-behind front hash (omega arith))) in
      (
        text,
        ap (λ xs. (base58_encode_check sum xs addrsize).0) (take-all n raw size)
            ∙ ap (λ (t : Option (List ℕ) × ℕ). t.0) written,
        rw (read, wanted_bytes-version_bytes version small)
            (compare_version-same front hash out n size),
      )

module _ (sum : List ℕ → List ℕ) where
  -- For a version of 32 bits and a text of bytes: where ecdsa_address_decode gives 1, the text is
  -- the one that base58_encode_check makes of the bytes of the version and 20 bytes more, and out
  -- starts with them.
  pub ecdsa_address_decode-taken :
      (addr out out' : List ℕ) (version : ℕ)
      → version < 2 ^ 32
      → AllBelow 256 addr
      → ecdsa_address_decode sum (some addr) version out ≡ some (1, out')
      → (hash : List ℕ) × (length hash ≡ 20)
        × (base58_encode_check sum (version_bytes version ++ hash) 40
            ≡ (some addr, length addr + 1))
        × (out' ≡ (version_bytes version ++ hash) ++ drop (address_size version) out)
  unfolding ecdsa_address_decode
  ecdsa_address_decode-taken addr out out' version small all done =
      let n = address_size version in
      let front = version_bytes version in
      let (bytes, read, long, begins, equal) =
        compare_version-one (base58_decode_check sum n addr) n front out out'
          (rw (wanted_bytes-version_bytes version small) at done) in
      let size = version_bytes-length version in
      let hash = drop (length front) bytes in
      let inside : take (length front) bytes ≡ front =
        sym (take-inside (length front) bytes (drop n out) (omega (arith, long, size))) ∙ begins in
      let whole : bytes ≡ front ++ hash =
        sym (take-append-drop (length front) bytes) ∙ ap (λ t. t ++ hash) inside in
      let written =
        base58_encode_check-base58_decode_check sum n 40 addr bytes all
          (omega (arith, long, address_size-le version)) read in
      (
        hash,
        omega (arith, length-drop (length front) bytes, long, size),
        rw whole at written,
        equal ∙ ap (λ t. t ++ drop n out) whole,
      )
