-- ===== src/KeyTree.antt =====
-- ios/Classes/bip32.c: nodes of the key tree and their children, and the curve constants of
-- secp256k1.c that it uses. The hash functions and the public key of a private key
-- (ecdsa_get_public_key33) are parameters. A function that returns 0 gives none.
pub mod Cached
pub mod Child
pub mod Derive
pub mod Node
pub mod Master
pub mod Invariant
mod Tests
use flutter_sdk.Base.{
  ℕ, zero, suc, ◌+◌, ◌-◌, ◌*◌, ◌^◌, List, [], ◌∷◌, ◌++◌, Bool, true, false, ◌&&◌,
}
use flutter_sdk.Base.{Option, none, some, ltb, ◌==◌, if◌then◌else◌, codes, take, drop, replicate}
use flutter_sdk.Base.{get_or, bit_and, u32, not, ◌||◌, ◌>>=◌}
use flutter_sdk.Mnemonic.{str_eq}
use flutter_sdk.Hash.{Functions, sha512_of}
use flutter_sdk.Hmac.{hmac}
use flutter_sdk.Bignum.Limbs.{Bignum256}
use flutter_sdk.Bignum.Compare.{bn_is_zero, bn_is_less}
use flutter_sdk.Bignum.Reduce.{bn_addmod, bn_mod}
use flutter_sdk.Bignum.Bytes.{bn_read_be, bn_write_be, write_be}

-- ecdsa_curve, without the table cp of multiples.
pub record EcdsaCurve : Type 0 where
  pub prime : Bignum256
  pub gx : Bignum256
  pub gy : Bignum256
  pub order : Bignum256
  pub order_half : Bignum256
  pub a : ℕ
  pub b : Bignum256

abbrev pub secp256k1 : EcdsaCurve
secp256k1 = record {
  prime =
      0x3ffffc2f ∷ 0x3ffffffb ∷ 0x3fffffff ∷ 0x3fffffff ∷ 0x3fffffff ∷ 0x3fffffff ∷ 0x3fffffff
      ∷ 0x3fffffff ∷ 0xffff ∷ [];
  gx =
      0x16f81798 ∷ 0x27ca056c ∷ 0x1ce28d95 ∷ 0x26ff36cb ∷ 0x70b0702 ∷ 0x18a573a ∷ 0xbbac55a
      ∷ 0x199fbe77 ∷ 0x79be ∷ [];
  gy =
      0x3b10d4b8 ∷ 0x311f423f ∷ 0x28554199 ∷ 0x5ed1229 ∷ 0x1108a8fd ∷ 0x13eff038 ∷ 0x3c4655da
      ∷ 0x369dc9a8 ∷ 0x483a ∷ [];
  order =
      0x10364141 ∷ 0x3f497a33 ∷ 0x348a03bb ∷ 0x2bb739ab ∷ 0x3ffffeba ∷ 0x3fffffff ∷ 0x3fffffff
      ∷ 0x3fffffff ∷ 0xffff ∷ [];
  order_half =
      0x281b20a0 ∷ 0x3fa4bd19 ∷ 0x3a4501dd ∷ 0x15db9cd5 ∷ 0x3fffff5d ∷ 0x3fffffff ∷ 0x3fffffff
      ∷ 0x3fffffff ∷ 0x7fff ∷ [];
  a = 0;
  b = 7 ∷ 0 ∷ 0 ∷ 0 ∷ 0 ∷ 0 ∷ 0 ∷ 0 ∷ 0 ∷ [];
}

-- curve_info; params may be null.
pub record CurveInfo : Type 0 where
  pub bip32_name : List ℕ
  pub params : Option EcdsaCurve

abbrev pub secp256k1_info : CurveInfo
secp256k1_info = record { bip32_name = codes "Bitcoin seed"; params = some secp256k1 }

pub get_curve_by_name : Option (List ℕ) → Option CurveInfo
get_curve_by_name none = none
get_curve_by_name (some curve_name) =
    if str_eq curve_name (codes "secp256k1") then some secp256k1_info else none

pub record HdNode : Type 0 where
  pub depth : ℕ
  pub child_num : ℕ
  pub chain_code : List ℕ
  pub private_key : List ℕ
  pub public_key : List ℕ
  pub curve : CurveInfo

pub hdnode_from_xpub : ℕ → ℕ → List ℕ → List ℕ → Option (List ℕ) → Option HdNode
hdnode_from_xpub depth child_num chain_code public_key curve = do
  info ← get_curve_by_name curve
  if not (get_or public_key 0 0 == 2) && not (get_or public_key 0 0 == 3)
      then none
      else some (record {
        depth = depth;
        child_num = child_num;
        chain_code = take 32 chain_code;
        private_key = replicate 32 0;
        public_key = take 33 public_key;
        curve = info;
      })

-- bn_is_zero(&a) or !bn_is_less(&a, order), for the bytes of a.
pub bad_key : Bignum256 → List ℕ → Bool
bad_key order bytes =
    let a = bn_read_be (take 32 bytes) in not (bn_is_zero a == 0) || bn_is_less a order == 0

-- With null params, the source reads the order behind a null pointer: none.
pub hdnode_from_xprv : ℕ → ℕ → List ℕ → List ℕ → Option (List ℕ) → Option HdNode
hdnode_from_xprv depth child_num chain_code private_key curve = do
  info ← get_curve_by_name curve
  params ← info.params
  if bad_key params.order private_key
      then none
      else some (record {
        depth = depth;
        child_num = child_num;
        chain_code = take 32 chain_code;
        private_key = take 32 private_key;
        public_key = replicate 33 0;
        curve = info;
      })

-- The loop of hdnode_from_seed, on fuel: I is hashed again until its left half is a key.
pub seed_loop : Functions → List ℕ → Bignum256 → ℕ → List ℕ → Option (List ℕ)
seed_loop fs name order zero i = none
seed_loop fs name order (suc fuel) i =
    let again = seed_loop fs name order fuel (hmac (sha512_of fs) name (take 64 i)) in
    if bad_key order i then again else some i

-- if (out->curve->params)
pub seed_key : Functions → CurveInfo → ℕ → List ℕ → Option (List ℕ)
seed_key fs info fuel i = elim info.params [
  | none ↦ some i
  | some params ↦ seed_loop fs info.bip32_name params.order fuel i
]

pub hdnode_from_seed : Functions → ℕ → List ℕ → Option (List ℕ) → Option HdNode
hdnode_from_seed fs fuel seed curve = do
  info ← get_curve_by_name curve
  i ← seed_key fs info fuel (hmac (sha512_of fs) info.bip32_name seed)
  some (record {
    depth = 0;
    child_num = 0;
    chain_code = take 32 (drop 32 i);
    private_key = take 32 i;
    public_key = replicate 33 0;
    curve = info;
  })

-- What bip32.c takes from other parts: the hash functions, and ecdsa_get_public_key33.
pub record Library : Type 0 where
  pub hash : Functions
  pub public_key33 : Option EcdsaCurve → List ℕ → List ℕ

pub hdnode_fill_public_key : Library → HdNode → HdNode
hdnode_fill_public_key lib node =
    if not (get_or node.public_key 0 0 == 0)
    then node
    else record node { public_key = lib.public_key33 node.curve.params node.private_key }

-- The start of hdnode_private_ckd: the node, and the first 33 bytes of data.
pub ckd_head : Library → HdNode → ℕ → Option (HdNode × List ℕ)
unfolding hdnode_fill_public_key
ckd_head lib node i =
    let filled = hdnode_fill_public_key lib node in
    if not (bit_and i 0x80000000 == 0)
    then some (node, 0 ∷ take 32 node.private_key)
    else elim node.curve.params [ none ↦ none | some _ ↦ some (filled, take 33 filled.public_key) ]

-- One try of the loop: the bytes of the private key, or failed.
pub ckd_try : Bignum256 → Bignum256 → List ℕ → Option (List ℕ)
ckd_try order a i =
    let b = bn_read_be (take 32 i) in
    let sum = bn_mod (bn_addmod b a order) order in
    if bn_is_less b order == 0
    then none
    else if bn_is_zero sum == 0
    then some (bn_write_be sum)
    else none

-- data[0] = 1; memcpy(data + 1, I + 32, 32)
pub ckd_retry : List ℕ → List ℕ → List ℕ
ckd_retry bytes i = 1 ∷ take 32 (drop 32 i) ++ drop 33 bytes

-- while (true), on fuel: the private key, and I.
pub ckd_loop :
    Functions → List ℕ → Bignum256 → Bignum256 → ℕ → List ℕ → List ℕ → Option (List ℕ × List ℕ)
ckd_loop fs chain_code order a zero bytes i = none
ckd_loop fs chain_code order a (suc fuel) bytes i =
    let bytes' = ckd_retry bytes i in
    let again =
      ckd_loop fs chain_code order a fuel bytes' (hmac (sha512_of fs) chain_code bytes') in
    elim (ckd_try order a i) [ none ↦ again | some key ↦ some (key, i) ]

-- if (inout->curve->params)
pub ckd_key : Functions → HdNode → ℕ → List ℕ → List ℕ → Option (List ℕ × List ℕ)
ckd_key fs node fuel bytes i = elim node.curve.params [
  | none ↦ some (take 32 i, i)
  | some params ↦
      ckd_loop fs (take 32 node.chain_code) params.order (bn_read_be (take 32 node.private_key))
        fuel bytes i
]

pub hdnode_private_ckd : Library → ℕ → HdNode → ℕ → Option HdNode
hdnode_private_ckd lib fuel node i = do
  (filled, head) ← ckd_head lib node i
  let bytes = head ++ write_be i
  (key, last) ←
      ckd_key lib.hash filled fuel bytes (hmac (sha512_of lib.hash) (take 32 node.chain_code) bytes)
  some (record filled {
    depth = u32 (node.depth + 1);
    child_num = i;
    chain_code = take 32 (drop 32 last);
    private_key = key;
    public_key = replicate 33 0;
  })
