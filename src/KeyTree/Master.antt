-- ===== src/KeyTree/Master.antt =====
-- The nodes that ios/Classes/bip32.c makes from a seed and from a private key, on secp256k1.
use flutter_sdk.Base.{ℕ, zero, suc, ◌-◌, ◌<◌, ◌≤◌, ◌≡◌, refl, arith, ap, List, some, none}
use flutter_sdk.Base.{true, false, not, ◌&&◌, ltb, take, drop, length, replicate, codes}
use flutter_sdk.Base.{length-drop, length-take, length-replicate, AllBelow, take-AllBelow}
use flutter_sdk.Hash.{Functions, sha512_of}
use flutter_sdk.Hash.Laws.{IsSha}
use flutter_sdk.Hmac.{hmac}
use flutter_sdk.Hmac.Digest.{length-hmac, hmac-AllBelow}
use flutter_sdk.Bignum.Limbs.{Bignum256, value, IsNormalized}
use flutter_sdk.Bignum.Compare.Value.{bn_is_less-value, bn_is_zero-value}
use flutter_sdk.Bignum.Bytes.{bn_read_be}
use flutter_sdk.Bignum.Bytes.Words.{big_endian}
use flutter_sdk.Bignum.Bytes.Read.{bn_read_be-value}
use flutter_sdk.Mnemonic.Find.{str_eq_refl}
use flutter_sdk.KeyTree.Child.{number, IsPrivateKey, take-all}
use flutter_sdk.KeyTree.Node.{IsNode}
use flutter_sdk.KeyTree.{
  secp256k1, secp256k1_info, HdNode, get_curve_by_name, bad_key, seed_loop, seed_key,
}
use flutter_sdk.KeyTree.{hdnode_from_seed, hdnode_from_xprv}

-- The number of the first 32 bytes is between 0 and the order.
abbrev pub IsKeyNumber : Bignum256 → List ℕ → Type 0
IsKeyNumber order bytes = (0 < number bytes) × (number bytes < value order)

module _ (order : Bignum256) (normal : IsNormalized order) (i : List ℕ) (size : 32 ≤ length i)
    (all : AllBelow 256 i) where
  bad_key-value : bad_key order i ≡ not (ltb 0 (number i) && ltb (number i) (value order))
  unfolding bad_key
  bad_key-value =
      let a = bn_read_be (take 32 i) in
      let (reads, same) =
        bn_read_be-value (take 32 i) (length-take 32 (length i - 32) i (omega arith))
          (take-AllBelow 256 32 i all) in
      ground (arith, bn_is_zero-value a, bn_is_less-value reads normal, same)

  bad_key-false : IsKeyNumber order i → bad_key order i ≡ false
  bad_key-false is = ground (arith, bad_key-value, is)

  bad_key-true : ¬ IsKeyNumber order i → bad_key order i ≡ true
  bad_key-true isnt = ground (arith, bad_key-value, isnt)

  -- The first 32 bytes of such bytes are a private key.
  IsKeyNumber-IsPrivateKey : IsKeyNumber order i → IsPrivateKey order (take 32 i)
  IsKeyNumber-IsPrivateKey is =
      let long = length-take 32 (length i - 32) i (omega arith) in
      let same : number (take 32 i) ≡ number i =
        ap (big_endian 256 0) (take-all 32 (take 32 i) long) in
      record {
        size = long;
        bytes = take-AllBelow 256 32 i all;
        positive = omega (arith, same, is.0);
        below = omega (arith, same, is.1);
      }

order-IsNormalized : IsNormalized secp256k1.order
order-IsNormalized = record { size = refl; digits = omega arith }

module _ (fs : Functions) (name : List ℕ) where
  -- The hash number j: the first is given, each next one is of the one before.
  unfoldable pub seed_hash : ℕ → List ℕ → List ℕ
  seed_hash zero i = i
  seed_hash (suc j) i = seed_hash j (hmac (sha512_of fs) name i)

  module _ (sha : IsSha (sha512_of fs)) where
    seed_hash-digest :
        (j : ℕ) (i : List ℕ)
        → length i ≡ 64
        → AllBelow 256 i
        → (length (seed_hash j i) ≡ 64) × AllBelow 256 (seed_hash j i)
    unfolding seed_hash
    seed_hash-digest zero i size all = (size, all)
    seed_hash-digest (suc j) i size all =
        seed_hash-digest j _ (length-hmac (sha512_of fs) sha name i)
          (hmac-AllBelow (sha512_of fs) sha name i)

    module _ (order : Bignum256) (normal : IsNormalized order) where
      -- The loop stops at the first hash that has a key.
      seed_loop-first :
          (j fuel : ℕ) (i : List ℕ)
          → length i ≡ 64
          → AllBelow 256 i
          → ((m : ℕ) → m < j → ¬ IsKeyNumber order (seed_hash m i))
          → IsKeyNumber order (seed_hash j i)
          → j < fuel
          → seed_loop fs name order fuel i ≡ some (seed_hash j i)
      unfolding seed_hash seed_loop
      seed_loop-first j zero i size all fails is less = absurd (omega arith)
      seed_loop-first zero (suc fuel) i size all fails is less =
          rw (bad_key-false order normal i (omega arith) all is) refl
      seed_loop-first (suc j) (suc fuel) i size all fails is less =
          rw
            (
              bad_key-true order normal i (omega arith) all (fails 0 (omega arith)),
              take-all 64 i size,
            )
            (seed_loop-first j fuel (hmac (sha512_of fs) name i)
              (length-hmac (sha512_of fs) sha name i) (hmac-AllBelow (sha512_of fs) sha name i)
              (λ m small. fails (suc m) (omega arith)) is (omega arith))

known_curve : get_curve_by_name (some (codes "secp256k1")) ≡ some secp256k1_info
unfolding get_curve_by_name
known_curve = rw (str_eq_refl (codes "secp256k1")) refl

-- The hash number j of a seed.
abbrev pub master_hash : Functions → List ℕ → ℕ → List ℕ
master_hash fs seed j =
    seed_hash fs (codes "Bitcoin seed") j (hmac (sha512_of fs) (codes "Bitcoin seed") seed)

-- The node of a private key, no child of another.
abbrev pub master : List ℕ → HdNode
master hash = record {
  depth = 0;
  child_num = 0;
  chain_code = take 32 (drop 32 hash);
  private_key = take 32 hash;
  public_key = replicate 33 0;
  curve = secp256k1_info;
}

-- Where hash number j of the seed is the first that has a key, and the fuel is more than j,
-- hdnode_from_seed makes the node of that hash, whose private key is one of secp256k1.
pub hdnode_from_seed-IsNode :
    (fs : Functions) (seed : List ℕ) (j fuel : ℕ)
    → IsSha (sha512_of fs)
    → ((m : ℕ) → m < j → ¬ IsKeyNumber secp256k1.order (master_hash fs seed m))
    → IsKeyNumber secp256k1.order (master_hash fs seed j)
    → j < fuel
    → (hdnode_from_seed fs fuel seed (some (codes "secp256k1"))
        ≡ some (master (master_hash fs seed j)))
      × IsNode secp256k1 (master (master_hash fs seed j))
unfolding hdnode_from_seed seed_key
hdnode_from_seed-IsNode fs seed j fuel sha fails is less =
    let name = codes "Bitcoin seed" in
    let start = hmac (sha512_of fs) name seed in
    let size = length-hmac (sha512_of fs) sha name seed in
    let all = hmac-AllBelow (sha512_of fs) sha name seed in
    let (long, bytes) = seed_hash-digest fs name sha j start size all in
    (
      rw
          (
            known_curve,
            seed_key,
            seed_loop-first fs name sha secp256k1.order order-IsNormalized j fuel start size all
                fails is less,
          )
          refl,
      record {
        curve_params = refl;
        key =
            IsKeyNumber-IsPrivateKey secp256k1.order order-IsNormalized (master_hash fs seed j)
              (omega arith) bytes is;
        chain_size =
            length-take 32 0 (drop 32 (master_hash fs seed j))
              (omega (arith, length-drop 32 (master_hash fs seed j)));
        public_size = length-replicate {A = ℕ} 33 0;
      },
    )

module _ (depth child_num : ℕ) (chain_code key : List ℕ) where
  abbrev imported : HdNode
  imported = record {
    depth = depth;
    child_num = child_num;
    chain_code = take 32 chain_code;
    private_key = take 32 key;
    public_key = replicate 33 0;
    curve = secp256k1_info;
  }

  -- From 32 bytes that stand for a number between 0 and the order of secp256k1, hdnode_from_xprv
  -- makes a node with that private key; from other 32 bytes it makes none.
  pub hdnode_from_xprv-IsNode :
      length chain_code ≡ 32
      → length key ≡ 32
      → AllBelow 256 key
      → (IsKeyNumber secp256k1.order key
          → (hdnode_from_xprv depth child_num chain_code key (some (codes "secp256k1"))
              ≡ some imported)
            × IsNode secp256k1 imported)
        × (¬ IsKeyNumber secp256k1.order key
            → hdnode_from_xprv depth child_num chain_code key (some (codes "secp256k1")) ≡ none)
  unfolding hdnode_from_xprv
  hdnode_from_xprv-IsNode chain_size size all = (
    λ is. (
      rw (known_curve, bad_key-false secp256k1.order order-IsNormalized key (omega arith) all is)
          refl,
      record {
        curve_params = refl;
        key = IsKeyNumber-IsPrivateKey secp256k1.order order-IsNormalized key (omega arith) all is;
        chain_size = length-take 32 0 chain_code (omega arith);
        public_size = length-replicate {A = ℕ} 33 0;
      },
    ),
    λ isnt.
        rw (known_curve, bad_key-true secp256k1.order order-IsNormalized key (omega arith) all isnt)
          refl,
  )
