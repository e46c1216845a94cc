-- ===== src/KeyTree/Node.antt =====
-- The node that hdnode_private_ckd of ios/Classes/bip32.c makes, for a curve with parameters.
use flutter_sdk.Base.{ℕ, ◌+◌, ◌/◌, ◌*◌, ◌%◌, ◌^◌, ◌<◌, ◌≡◌, refl, arith, ap, ap₂, ◌↔◌, ◌∙◌}
use flutter_sdk.Base.{List, ◌∷◌, ◌++◌, Option, none, some, ltb, if◌then◌else◌, u32}
use flutter_sdk.Base.{
  take, drop, length, length-drop, replicate, length-replicate, AllBelow, take-AllBelow,
  length-take, bit_and, bit_and-pow,
}
use flutter_sdk.Hash.{Functions, sha512_of}
use flutter_sdk.Hash.Laws.{IsSha}
use flutter_sdk.Hmac.{hmac}
use flutter_sdk.Bignum.Limbs.{Bignum256, value, IsNormalized, IsModulus}
use flutter_sdk.Bignum.Bytes.{bn_read_be, bn_write_be, write_be}
use flutter_sdk.Bignum.Bytes.Read.{bn_read_be-value}
use flutter_sdk.KeyTree.Child.{number, IsPrivateKey, GivesChild, take-all, ckd_sum, ckd_try-child}
use flutter_sdk.KeyTree.Derive.{
  ckd_hash, ckd_hash-size, ckd_hash-bytes, ckd_loop-first, ckd_loop-none,
}
use flutter_sdk.KeyTree.{EcdsaCurve, CurveInfo, HdNode, Library}
use flutter_sdk.KeyTree.{hdnode_private_ckd, hdnode_fill_public_key, ckd_head, ckd_loop, ckd_key}

-- A node of the curve, with a private key.
pub record IsNode (params : EcdsaCurve) (node : HdNode) : Type 0 where
  pub curve_params : node.curve.params ≡ some params
  pub key : IsPrivateKey params.order node.private_key
  pub chain_size : length node.chain_code ≡ 32
  pub public_size : length node.public_key ≡ 33

-- The 33 bytes that stand for the parent: 0 and the private key for a hardened index, else the
-- public key, as it stands or made from the private key.
abbrev pub parent_bytes : Library → HdNode → ℕ → List ℕ
parent_bytes lib node i =
    if ltb i (2 ^ 31) then (hdnode_fill_public_key lib node).public_key else 0 ∷ node.private_key

-- The hash number j of the child i.
abbrev pub child_hash : Library → HdNode → ℕ → ℕ → List ℕ
child_hash lib node i j = ckd_hash lib.hash node.chain_code (write_be i) j (parent_bytes lib node i)

-- The child i of a node that the hash makes.
pub record IsChild (params : EcdsaCurve) (node : HdNode) (i : ℕ) (hash : List ℕ) (child : HdNode)
    : Type 0 where
  pub is_node : IsNode params child
  pub private_number :
      number child.private_key ≡ (number hash + number node.private_key) % value params.order
  pub right_half : child.chain_code ≡ take 32 (drop 32 hash)
  pub deeper : child.depth ≡ u32 (node.depth + 1)
  pub numbered : child.child_num ≡ i
  pub unfilled : child.public_key ≡ replicate 33 0
  pub same_curve : child.curve ≡ node.curve

ckd_key-loop :
    (fs : Functions) (node : HdNode) (params : EcdsaCurve) (fuel : ℕ) (bytes i : List ℕ)
    → node.curve.params ≡ some params
    → ckd_key fs node fuel bytes i
      ≡ ckd_loop fs
          (take 32 node.chain_code)
          params.order
          (bn_read_be (take 32 node.private_key))
          fuel
          bytes
          i
unfolding ckd_key
ckd_key-loop fs node params fuel bytes i here = rw (ckd_key, here) refl

module _ (lib : Library) (node : HdNode) (params : EcdsaCurve) (is : IsNode params node)
    (public_size : (curve : Option EcdsaCurve) (key : List ℕ)
      → length (lib.public_key33 curve key) ≡ 33) where
  fill-keeps :
      ((hdnode_fill_public_key lib node).private_key ≡ node.private_key)
      × ((hdnode_fill_public_key lib node).chain_code ≡ node.chain_code)
      × ((hdnode_fill_public_key lib node).curve ≡ node.curve)
      × (length (hdnode_fill_public_key lib node).public_key ≡ 33)
  unfolding hdnode_fill_public_key
  fill-keeps = ground (arith, is.public_size, public_size node.curve.params node.private_key)

  -- What the loop is given.
  ckd_head-parent_bytes :
      (i : ℕ)
      → i < 2 ^ 32
      → ckd_head lib node i
        ≡ some (
          (if ltb i (2 ^ 31) then hdnode_fill_public_key lib node else node),
          parent_bytes lib node i,
        )
  unfolding ckd_head
  ckd_head-parent_bytes i small =
      let top : bit_and i 0x80000000 ≡ i / 2 ^ 31 % 2 * 2 ^ 31 = bit_and-pow 31 i in
      let filled = hdnode_fill_public_key lib node in
      ground (
        arith,
        top,
        is.curve_params,
        take-all 33 filled.public_key fill-keeps.3,
        take-all 32 node.private_key is.key.size,
      )

  -- The node that the rest of the function starts from.
  abbrev filled : ℕ → HdNode
  filled i = if ltb i (2 ^ 31) then hdnode_fill_public_key lib node else node

  filled-keeps :
      (i : ℕ)
      → ((filled i).private_key ≡ node.private_key)
        × ((filled i).chain_code ≡ node.chain_code)
        × ((filled i).curve ≡ node.curve)
        × (length (parent_bytes lib node i) ≡ 33)
  filled-keeps i = ground (arith, fill-keeps, is.key.size)

  abbrev parent_number : Bignum256
  parent_number = bn_read_be (take 32 node.private_key)

  module _ (sha : IsSha (sha512_of lib.hash)) (modulus : IsModulus params.order) where
    parent_number-value :
        IsNormalized parent_number × (value parent_number ≡ number node.private_key)
    parent_number-value =
        bn_read_be-value (take 32 node.private_key) (length-take 32 0 node.private_key is.key.size)
          (take-AllBelow 256 32 node.private_key is.key.bytes)

    gives-value :
        (hash : List ℕ)
        → GivesChild params.order (value parent_number) hash
          ↔ GivesChild params.order (number node.private_key) hash
    gives-value hash = rw parent_number-value.1 ((λ g. g), (λ g. g))

    -- What the function returns.
    made : ℕ → List ℕ → HdNode
    made i hash = record (filled i) {
      depth = u32 (node.depth + 1);
      child_num = i;
      chain_code = take 32 (drop 32 hash);
      private_key = bn_write_be (ckd_sum params.order parent_number hash);
      public_key = replicate 33 0;
    }

    made-IsChild :
        (i : ℕ) (hash : List ℕ)
        → length hash ≡ 64
        → AllBelow 256 hash
        → GivesChild params.order (number node.private_key) hash
        → IsChild params node i hash (made i hash)
    unfolding made
    made-IsChild i hash size all gives =
        let (wrote, key, sum) =
          ckd_try-child params.order parent_number modulus parent_number-value.0 hash size all
            ((gives-value hash).1 gives) in
        record {
          is_node = record {
            curve_params = ap (λ (c : CurveInfo). c.params) (filled-keeps i).2 ∙ is.curve_params;
            key = key;
            chain_size = length-take 32 0 (drop 32 hash) (omega (arith, length-drop 32 hash));
            public_size = length-replicate {A = ℕ} 33 0;
          };
          private_number =
              sum ∙ ap (λ (k : ℕ). (number hash + k) % value params.order) parent_number-value.1;
          right_half = refl;
          deeper = refl;
          numbered = refl;
          unfilled = refl;
          same_curve = (filled-keeps i).2;
        }

    ckd_key-filled :
        (i fuel : ℕ)
        → let bytes = parent_bytes lib node i ++ write_be i in
          ckd_key lib.hash (filled i) fuel bytes (hmac (sha512_of lib.hash) node.chain_code bytes)
          ≡ ckd_loop lib.hash node.chain_code params.order parent_number fuel bytes
              (hmac (sha512_of lib.hash) node.chain_code bytes)
    ckd_key-filled i fuel =
        let (same_key, same_chain, same_curve, size) = filled-keeps i in
        let bytes = parent_bytes lib node i ++ write_be i in
        let last = hmac (sha512_of lib.hash) node.chain_code bytes in
        ckd_key-loop lib.hash (filled i) params fuel bytes last
          (ap (λ (c : CurveInfo). c.params) same_curve ∙ is.curve_params)
        ∙ ap₂
            (λ chain key.
              ckd_loop lib.hash (take 32 chain) params.order (bn_read_be (take 32 key)) fuel bytes
                last)
            same_chain same_key
        ∙ ap (λ chain. ckd_loop lib.hash chain params.order parent_number fuel bytes last)
            (take-all 32 node.chain_code is.chain_size)

    ckd_key-child :
        (i j fuel : ℕ)
        → ((m : ℕ)
            → m < j
            → ¬ GivesChild params.order (number node.private_key) (child_hash lib node i m))
        → GivesChild params.order (number node.private_key) (child_hash lib node i j)
        → j < fuel
        → ckd_key lib.hash
            (filled i)
            fuel
            (parent_bytes lib node i ++ write_be i)
            (hmac (sha512_of lib.hash) node.chain_code (parent_bytes lib node i ++ write_be i))
          ≡ some (
            bn_write_be (ckd_sum params.order parent_number (child_hash lib node i j)),
            child_hash lib node i j,
          )
    ckd_key-child i j fuel fails gives less =
        ckd_key-filled i fuel
        ∙ ckd_loop-first lib.hash node.chain_code (write_be i) sha params.order parent_number
            modulus parent_number-value.0 j fuel (parent_bytes lib node i) (filled-keeps i).3
            (λ m before given. fails m before ((gives-value (child_hash lib node i m)).0 given))
            ((gives-value (child_hash lib node i j)).1 gives) less

    -- Where hash number j is the first that gives a child, and the fuel is more than j,
    -- hdnode_private_ckd makes the child of that hash.
    pub hdnode_private_ckd-IsChild :
        (i j fuel : ℕ)
        → i < 2 ^ 32
        → ((m : ℕ)
            → m < j
            → ¬ GivesChild params.order (number node.private_key) (child_hash lib node i m))
        → GivesChild params.order (number node.private_key) (child_hash lib node i j)
        → j < fuel
        → (child : HdNode) × (hdnode_private_ckd lib fuel node i ≡ some child)
          × IsChild params node i (child_hash lib node i j) child
    unfolding hdnode_private_ckd made
    hdnode_private_ckd-IsChild i j fuel small fails gives less = (
      made i (child_hash lib node i j),
      rw
          (
            ckd_head-parent_bytes i small,
            take-all 32 node.chain_code is.chain_size,
            ckd_key-child i j fuel fails gives less,
          )
          refl,
      made-IsChild i (child_hash lib node i j)
          (ckd_hash-size lib.hash node.chain_code (write_be i) sha j (parent_bytes lib node i))
          (ckd_hash-bytes lib.hash node.chain_code (write_be i) sha j (parent_bytes lib node i))
          gives,
    )

    -- Where no hash below the fuel gives a child, hdnode_private_ckd gives none.
    pub hdnode_private_ckd-none :
        (i fuel : ℕ)
        → i < 2 ^ 32
        → ((m : ℕ)
            → m < fuel
            → ¬ GivesChild params.order (number node.private_key) (child_hash lib node i m))
        → hdnode_private_ckd lib fuel node i ≡ none
    unfolding hdnode_private_ckd
    hdnode_private_ckd-none i fuel small fails =
        let last =
          ckd_key-filled i fuel
          ∙ ckd_loop-none lib.hash node.chain_code (write_be i) sha params.order parent_number
              modulus parent_number-value.0 fuel (parent_bytes lib node i) (filled-keeps i).3
              (λ m before given.
                fails m before ((gives-value (child_hash lib node i m)).0 given)) in
        rw (ckd_head-parent_bytes i small, take-all 32 node.chain_code is.chain_size, last) refl
