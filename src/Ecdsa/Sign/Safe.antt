-- ===== src/Ecdsa/Sign/Safe.antt =====
-- What ecdsa_sign_digest of ios/Classes/ecdsa.c gives is a signature with a low s.
use flutter_sdk.Base.{ℕ, zero, suc, ◌*◌, ◌^◌, ◌<◌, ◌≡◌, arith, ap, ◌∙◌, List, ◌++◌, ◌⊎◌}
use flutter_sdk.Base.{none, some, take, length, AllBelow, Option-cases, take-all, inl, inr}
use flutter_sdk.Hash.{Functions}
use flutter_sdk.Bignum.Limbs.{Bignum256, value, IsNormalized}
use flutter_sdk.Bignum.Bytes.{bn_read_be, bn_write_be}
use flutter_sdk.Bignum.Bytes.Words.{big_endian}
use flutter_sdk.Bignum.Bytes.Read.{bn_read_be-value}
use flutter_sdk.Base58.Words.{big_endian-lt}
use flutter_sdk.Ecdsa.Sign.{
  Rfc6979State, Signer, sign_round, sign_loop, ecdsa_sign_digest, generate_k_rfc6979,
  init_k_rfc6979,
}
use flutter_sdk.Ecdsa.Sign.Round.{
  IsSigner, IsSignature, some-injective, none-ne-some, sign_round-IsSignature,
}

module _ (c : Signer) (is : IsSigner c) where
  abbrev n : ℕ
  n = value c.order

  sign_loop-IsSignature :
      (rounds : ℕ) (fs : Functions) (priv_key : List ℕ) (z : Bignum256) (rng : Rfc6979State)
      (result : List ℕ × ℕ)
      → IsNormalized (bn_read_be (take 32 priv_key))
      → value (bn_read_be (take 32 priv_key)) < 2 * n
      → IsNormalized z
      → value z < 2 * n
      → sign_loop rounds fs c priv_key z rng ≡ some result
      → (k : Bignum256) × (r : Bignum256) × (s : Bignum256) × (result.0
          ≡ bn_write_be r ++ bn_write_be s)
        × IsSignature c (value (bn_read_be (take 32 priv_key))) (value z) k r s
  unfolding sign_loop
  sign_loop-IsSignature zero fs priv_key z rng result nd hd nz hz done = absurd (none-ne-some done)
  sign_loop-IsSignature (suc m) fs priv_key z rng result nd hd nz hz done =
      let (k, next) = generate_k_rfc6979 fs rng in
      elim (Option-cases (sign_round c priv_key z k)) [
        | inl again ↦
            sign_loop-IsSignature m fs priv_key z next result nd hd nz hz
              (rw (sign_loop, again) at done)
        | inr (found, here) ↦
            let same = some-injective found result (rw (sign_loop, here) at done) in
            let (r, s, bytes, signature) =
              sign_round-IsSignature c is priv_key z k result nd hd nz hz (here ∙ ap some same) in
            (k, r, s, bytes, signature)
      ]

  read_key :
      (bytes : List ℕ)
      → length bytes ≡ 32
      → AllBelow 256 bytes
      → IsNormalized (bn_read_be (take 32 bytes))
        × (value (bn_read_be (take 32 bytes)) ≡ big_endian 256 0 bytes)
        × (value (bn_read_be (take 32 bytes)) < 2 * n)
  read_key bytes long all =
      let whole : take 32 bytes ≡ bytes = take-all 32 bytes long in
      let (normal, same) = bn_read_be-value bytes long all in
      let below = big_endian-lt 256 bytes all in
      rw whole
        (normal, same, omega (arith, same, below, ap (λ (t : ℕ). 256 ^ t) long, is.modulus.low))

  -- Where the order of the curve is in range, order_half is half of it, and for each k that passes
  -- the tests of the code (not 0, less than the order) k * G and bn_inverse give normalized numbers
  -- less than twice the order: for a private key d and a digest z of 32 bytes, ecdsa_sign_digest
  -- fails, or gives what bn_write_be writes of r and s, for a k that passes the tests: r is the x
  -- of k * G modulo the order and not 0, and s is the inverse times r * d + z modulo the order, or
  -- the negative of that, and lies between 0 and order_half.
  pub ecdsa_sign_digest-IsSignature :
      (fs : Functions) (priv_key digest : List ℕ)
      → length priv_key ≡ 32
      → AllBelow 256 priv_key
      → length digest ≡ 32
      → AllBelow 256 digest
      → (ecdsa_sign_digest fs c priv_key digest ≡ none)
        ⊎ ((sig : List ℕ) × (by : ℕ) × (k : Bignum256) × (r : Bignum256) × (s : Bignum256)
            × (ecdsa_sign_digest fs c priv_key digest ≡ some (sig, by))
            × (sig ≡ bn_write_be r ++ bn_write_be s)
            × IsSignature c (big_endian 256 0 priv_key) (big_endian 256 0 digest) k r s)
  unfolding ecdsa_sign_digest
  ecdsa_sign_digest-IsSignature fs priv_key digest long all long' all' =
      let z = bn_read_be (take 32 digest) in
      let (nd, d_value, hd) = read_key priv_key long all in
      let (nz, z_value, hz) = read_key digest long' all' in
      elim (Option-cases (sign_loop 10000 fs c priv_key z (init_k_rfc6979 fs priv_key digest))) [
        | inl failed ↦ inl failed
        | inr ((sig, by), done) ↦
            let (k, r, s, bytes, signature) =
              sign_loop-IsSignature 10000 fs priv_key z (init_k_rfc6979 fs priv_key digest)
                (sig, by) nd hd nz hz done in
            inr (sig, by, k, r, s, done, bytes, rw (d_value, z_value) at signature)
      ]
