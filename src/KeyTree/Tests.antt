-- ===== src/KeyTree/Tests.antt =====
-- The theorems on ios/Classes/bip32.c at concrete inputs, with a hash whose bytes are ones.
use flutter_sdk.Base.{◌≡◌, refl, arith, [], none, some, codes, replicate}
use flutter_sdk.Base.{replicate-AllBelow, ◌⊎◌}
use flutter_sdk.Hash.{Functions, sha512_of, words, be_word}
use flutter_sdk.Hash.Laws.{IsSha}
use flutter_sdk.Hmac.{hmac}
use flutter_sdk.Bignum.Limbs.{value, IsModulus}
use flutter_sdk.Bignum.Bytes.Words.{big_endian}
use flutter_sdk.Base.{◌∷◌, ℕ, List, Bool, true, false, ◌&&◌, ◌==◌, Option, map}
use flutter_sdk.Mnemonic.{str_eq}
use flutter_sdk.Mnemonic.Find.{str_eq→eq}
use flutter_sdk.KeyTree.{EcdsaCurve, CurveInfo}
use flutter_sdk.KeyTree.Cached.{Comparison, empty_ckd_cache, ckd_path}
use flutter_sdk.KeyTree.Cached.Path.{IsSound, run_paths, run_paths-ckd_path}
use flutter_sdk.KeyTree.Child.{number, GivesChild}
use flutter_sdk.KeyTree.Derive.{ckd_hash}
use flutter_sdk.KeyTree.Node.{IsNode, IsChild, child_hash, hdnode_private_ckd-IsChild}
use flutter_sdk.KeyTree.Invariant.{ckd_path-IsNode}
use flutter_sdk.KeyTree.Master.{IsKeyNumber, master, master_hash, seed_hash}
use flutter_sdk.KeyTree.Master.{hdnode_from_seed-IsNode, hdnode_from_xprv-IsNode}
use flutter_sdk.KeyTree.{HdNode, Library, secp256k1, secp256k1_info}
use flutter_sdk.KeyTree.{hdnode_from_seed, hdnode_from_xprv, hdnode_private_ckd}

abbrev ones : Functions
ones = record {
  init = record { state = []; bitcount = 0; buffer = [] };
  update = λ c m. c;
  final = λ c. replicate 64 1;
  raw = λ m. replicate 64 1;
  transform = λ s b. replicate 8 0x0101010101010101;
  initial_hash_value = [];
}

ones-IsSha : IsSha (sha512_of ones)
unfolding words be_word
ones-IsSha = record {
  length_final = λ c. refl;
  final_bytes = λ c. replicate-AllBelow 256 64 1 (omega arith);
  length_raw = λ m. refl;
  raw_bytes = λ m. replicate-AllBelow 256 64 1 (omega arith);
  pieces = λ c a b. refl;
  after_block = λ block m buffer e all. refl;
  padded = λ block m e all e' all'. refl;
}

abbrev lib : Library
lib = record { hash = ones; public_key33 = λ curve key. replicate 33 2 }

abbrev node : HdNode
node = master (replicate 64 3)

ones-IsKeyNumber : IsKeyNumber secp256k1.order (master_hash ones (codes "seed") 0)
unfolding seed_hash hmac value big_endian
ones-IsKeyNumber = (omega arith, omega arith)

hdnode_from_seed-IsNode_example :
    (hdnode_from_seed ones 1 (codes "seed") (some (codes "secp256k1"))
      ≡ some (master (master_hash ones (codes "seed") 0)))
    × IsNode secp256k1 (master (master_hash ones (codes "seed") 0))
hdnode_from_seed-IsNode_example =
    hdnode_from_seed-IsNode ones (codes "seed") 0 1 ones-IsSha (λ m small. absurd (omega arith))
      ones-IsKeyNumber (omega arith)

hdnode_from_xprv-IsNode_example :
    (IsKeyNumber secp256k1.order (replicate 32 5)
      → (hdnode_from_xprv 1 7 (replicate 32 4) (replicate 32 5) (some (codes "secp256k1"))
          ≡ some (record {
            depth = 1;
            child_num = 7;
            chain_code = replicate 32 4;
            private_key = replicate 32 5;
            public_key = replicate 33 0;
            curve = secp256k1_info;
          }))
        × IsNode secp256k1 (record {
          depth = 1;
          child_num = 7;
          chain_code = replicate 32 4;
          private_key = replicate 32 5;
          public_key = replicate 33 0;
          curve = secp256k1_info;
        }))
    × (¬ IsKeyNumber secp256k1.order (replicate 32 5)
        → hdnode_from_xprv 1 7 (replicate 32 4) (replicate 32 5) (some (codes "secp256k1")) ≡ none)
hdnode_from_xprv-IsNode_example =
    hdnode_from_xprv-IsNode 1 7 (replicate 32 4) (replicate 32 5) refl refl
      (replicate-AllBelow 256 32 5 (omega arith))

node-IsNode : IsNode secp256k1 node
unfolding value big_endian
node-IsNode = record {
  curve_params = refl;
  key = record {
    size = refl;
    bytes = replicate-AllBelow 256 32 3 (omega arith);
    positive = omega arith;
    below = omega arith;
  };
  chain_size = refl;
  public_size = refl;
}

order-IsModulus : IsModulus secp256k1.order
unfolding value
order-IsModulus = record {
  normal = record { size = refl; digits = omega arith };
  low = omega arith;
  high = omega arith;
}

first-GivesChild : GivesChild secp256k1.order (number node.private_key) (child_hash lib node 5 0)
unfolding ckd_hash hmac value big_endian
first-GivesChild = (omega arith, λ e. absurd (omega arith))

hdnode_private_ckd-IsChild_example :
    (child : HdNode) × (hdnode_private_ckd lib 1 node 5 ≡ some child)
    × IsChild secp256k1 node 5 (child_hash lib node 5 0) child
hdnode_private_ckd-IsChild_example =
    hdnode_private_ckd-IsChild lib node secp256k1 node-IsNode (λ curve key. refl) ones-IsSha
      order-IsModulus 5 0 1 (omega arith) (λ m small. absurd (omega arith)) first-GivesChild
      (omega arith)

ckd_path-IsNode_example :
    (ckd_path lib 3 node (5 ∷ 0x80000001 ∷ []) ≡ none)
    ⊎ ((last : HdNode) × (ckd_path lib 3 node (5 ∷ 0x80000001 ∷ []) ≡ some last)
        × IsNode secp256k1 last)
ckd_path-IsNode_example =
    ckd_path-IsNode lib secp256k1 (λ curve key. refl) ones-IsSha order-IsModulus 3 node
      (5 ∷ 0x80000001 ∷ []) node-IsNode (omega arith, (omega arith, tt))

-- A comparison of all fields.
same_params : Option EcdsaCurve → Option EcdsaCurve → Bool
same_params none none = true
same_params (some a) (some b) =
    str_eq a.prime b.prime
    && str_eq a.gx b.gx
    && str_eq a.gy b.gy
    && str_eq a.order b.order
    && str_eq a.order_half b.order_half
    && a.a == b.a
    && str_eq a.b b.b
same_params _ _ = false

same_info : CurveInfo → CurveInfo → Bool
same_info a b = str_eq a.bip32_name b.bip32_name && same_params a.params b.params

fields : Comparison
fields = record {
  same_node = λ a b.
      a.depth == b.depth
      && a.child_num == b.child_num
      && str_eq a.chain_code b.chain_code
      && str_eq a.private_key b.private_key
      && str_eq a.public_key b.public_key
      && same_info a.curve b.curve;
  same_curve = same_info;
}

same_params-eq : (a b : Option EcdsaCurve) → same_params a b ≡ true → a ≡ b
unfolding same_params
same_params-eq none none e = refl
same_params-eq none (some b) e = cc
same_params-eq (some a) none e = cc
same_params-eq (some a) (some b) e =
    let prime = str_eq→eq a.prime b.prime (ground arith) in
    let gx = str_eq→eq a.gx b.gx (ground arith) in
    let gy = str_eq→eq a.gy b.gy (ground arith) in
    let order = str_eq→eq a.order b.order (ground arith) in
    let half = str_eq→eq a.order_half b.order_half (ground arith) in
    let same_a : a.a ≡ b.a = ground arith in
    let same_b = str_eq→eq a.b b.b (ground arith) in
    λ k. some (record {
      prime = prime k;
      gx = gx k;
      gy = gy k;
      order = order k;
      order_half = half k;
      a = same_a k;
      b = same_b k;
    })

fields-IsSound : IsSound fields
unfolding fields same_info
fields-IsSound a b e =
    let depth : a.depth ≡ b.depth = ground arith in
    let child : a.child_num ≡ b.child_num = ground arith in
    let chain = str_eq→eq a.chain_code b.chain_code (ground arith) in
    let private = str_eq→eq a.private_key b.private_key (ground arith) in
    let public = str_eq→eq a.public_key b.public_key (ground arith) in
    let name = str_eq→eq a.curve.bip32_name b.curve.bip32_name (ground arith) in
    let params = same_params-eq a.curve.params b.curve.params (ground arith) in
    λ k. record {
      depth = depth k;
      child_num = child k;
      chain_code = chain k;
      private_key = private k;
      public_key = public k;
      curve = record { bip32_name = name k; params = params k };
    }

abbrev calls : List (HdNode × List ℕ)
calls = (node, 44 ∷ 60 ∷ 0 ∷ []) ∷ (node, 44 ∷ 60 ∷ 1 ∷ []) ∷ []

run_paths-ckd_path_example :
    run_paths lib 1 fields empty_ckd_cache calls ≡ some (map (λ c. ckd_path lib 1 c.0 c.1) calls)
run_paths-ckd_path_example = run_paths-ckd_path lib 1 fields calls fields-IsSound (omega arith)
