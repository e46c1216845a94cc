-- ===== src/Ecdsa/Sign.antt =====
-- Signatures of ios/Classes/ecdsa.c with the numbers of RFC 6979. A digest and a private key are 32
-- bytes. k * G (scalar_multiply) and bn_inverse are parameters.
pub mod Round
pub mod Safe
use flutter_sdk.Base.{
  ℕ, zero, suc, List, [], ◌∷◌, ◌++◌, Bool, true, not, ◌||◌, Option, none, some, ◌==◌, if◌then◌else◌,
}
use flutter_sdk.Base.{take, get_or, replicate, bit_and, bit_or, bit_xor}
use flutter_sdk.Hash.{Functions, sha256_of}
use flutter_sdk.Hmac.{hmac}
use flutter_sdk.Bignum.Limbs.{Bignum256}
use flutter_sdk.Bignum.Compare.{bn_is_zero, bn_is_less}
use flutter_sdk.Bignum.Add.{bn_add, bn_subtract}
use flutter_sdk.Bignum.Reduce.{bn_mod}
use flutter_sdk.Bignum.Multiply.{bn_multiply}
use flutter_sdk.Bignum.Bytes.{bn_read_be, bn_write_be}
use flutter_sdk.Curve.{CurvePoint}

-- rfc6979_state.
pub record Rfc6979State : Type 0 where
  pub v : List ℕ
  pub k : List ℕ

pub init_k_rfc6979 : Functions → List ℕ → List ℕ → Rfc6979State
init_k_rfc6979 fs priv_key hash =
    let mac = hmac (sha256_of fs) in
    let bx = take 32 priv_key ++ take 32 hash in
    let v0 = replicate 32 1 in
    let k1 = mac (replicate 32 0) (v0 ++ 0x00 ∷ bx) in
    let v1 = mac k1 v0 in let k2 = mac k1 (v1 ++ 0x01 ∷ bx) in record { v = mac k2 v1; k = k2 }

pub generate_k_rfc6979 : Functions → Rfc6979State → Bignum256 × Rfc6979State
generate_k_rfc6979 fs state =
    let mac = hmac (sha256_of fs) in
    let v1 = mac state.k state.v in
    let k1 = mac state.k (v1 ++ 0x00 ∷ []) in (bn_read_be v1, record { v = mac k1 v1; k = k1 })

-- What signing takes of the curve; is_canonical may be null.
pub record Signer : Type 0 where
  pub order : Bignum256
  pub order_half : Bignum256
  pub scalar_multiply : Bignum256 → CurvePoint
  pub inverse : Bignum256 → Bignum256 → Bignum256
  pub is_canonical : Option (ℕ → List ℕ → Bool)

-- is_canonical && !is_canonical(by, sig)
pub acceptable : Option (ℕ → List ℕ → Bool) → ℕ → List ℕ → Bool
acceptable none by sig = true
acceptable (some test) by sig = test by sig

-- The end of a round, with the s that is not 0: "if S > order/2 => S = -S", and is_canonical.
pub sign_end : Signer → Bignum256 → ℕ → Bignum256 → Option (List ℕ × ℕ)
unfolding acceptable
sign_end c rx by s =
    let high = not (bn_is_less c.order_half s == 0) in
    let low_s = if high then bn_subtract c.order s else s in
    let by' = if high then bit_xor by 1 else by in
    let sig = bn_write_be rx ++ bn_write_be low_s in
    if acceptable c.is_canonical by' sig then some (sig, by') else none

-- A round of the loop with the number k: the signature and the recovery byte, or none for continue.
pub sign_round : Signer → List ℕ → Bignum256 → Bignum256 → Option (List ℕ × ℕ)
unfolding sign_end
sign_round c priv_key z k =
    let point = c.scalar_multiply k in
    let by = bit_and (get_or point.y 0 0) 1 in
    let over = bn_is_less point.x c.order == 0 in
    let rx = if over then bn_subtract point.x c.order else point.x in
    let by2 = if over then bit_or by 2 else by in
    let sum = bn_add (bn_multiply rx (bn_read_be (take 32 priv_key)) c.order) z in
    let s = bn_mod (bn_multiply (c.inverse k c.order) sum c.order) c.order in
    if not (bn_is_zero k == 0) || bn_is_less k c.order == 0
    then none
    else if not (bn_is_zero rx == 0)
    then none
    else if not (bn_is_zero s == 0)
    then none
    else sign_end c rx by2 s

pub sign_loop : ℕ → Functions → Signer → List ℕ → Bignum256 → Rfc6979State → Option (List ℕ × ℕ)
unfolding sign_round generate_k_rfc6979
sign_loop zero fs c priv_key z rng = none
sign_loop (suc n) fs c priv_key z rng =
    let next = generate_k_rfc6979 fs rng in
    let rest = sign_loop n fs c priv_key z next.1 in
    elim (sign_round c priv_key z next.0) [ none ↦ rest | some result ↦ some result ]

-- sig and *pby, or none for -1.
pub ecdsa_sign_digest : Functions → Signer → List ℕ → List ℕ → Option (List ℕ × ℕ)
unfolding sign_loop init_k_rfc6979
ecdsa_sign_digest fs c priv_key digest =
    sign_loop 10000 fs c priv_key (bn_read_be (take 32 digest)) (init_k_rfc6979 fs priv_key digest)

pub ecdsa_sign : Functions → (List ℕ → List ℕ) → Signer → List ℕ → List ℕ → Option (List ℕ × ℕ)
unfolding ecdsa_sign_digest
ecdsa_sign fs sha256_raw c priv_key msg = ecdsa_sign_digest fs c priv_key (sha256_raw msg)

pub ecdsa_sign_double :
    Functions → (List ℕ → List ℕ) → Signer → List ℕ → List ℕ → Option (List ℕ × ℕ)
unfolding ecdsa_sign_digest
ecdsa_sign_double fs sha256_raw c priv_key msg =
    ecdsa_sign_digest fs c priv_key (sha256_raw (sha256_raw msg))
