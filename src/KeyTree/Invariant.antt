-- ===== src/KeyTree/Invariant.antt =====
-- Every node that hdnode_private_ckd of ios/Classes/bip32.c makes of a node is a node of the curve.
use flutter_sdk.Base.{
  ℕ, zero, suc, ◌%◌, ◌+◌, ◌^◌, ◌<◌, ◌≡◌, ◌⊎◌, inl, inr, arith, refl, List, [], ◌∷◌, Option, none,
  some, length, AllBelow,
}
use native.Mathlib.Decide.{dec_lt, ℕ_discrete}
use flutter_sdk.Hash.{sha512_of}
use flutter_sdk.Hash.Laws.{IsSha}
use flutter_sdk.Bignum.Limbs.{Bignum256, value, IsModulus}
use flutter_sdk.KeyTree.{EcdsaCurve, HdNode, Library, hdnode_private_ckd}
use flutter_sdk.KeyTree.Cached.{ckd_path}
use flutter_sdk.KeyTree.Child.{GivesChild, number}
use flutter_sdk.KeyTree.Node.{
  IsNode, child_hash, hdnode_private_ckd-IsChild, hdnode_private_ckd-none,
}

-- No number below the bound has the property, or there is a first that has.
first_below :
    (P : ℕ → Type 0) (decide : (m : ℕ) → Dec (P m)) (bound : ℕ)
    → ((m : ℕ) → m < bound → ¬ P m) ⊎ ((j : ℕ) × (j < bound) × P j × ((m : ℕ) → m < j → ¬ P m))
first_below P decide zero = inl (λ m less. absurd (omega arith))
first_below P decide (suc bound) = elim (first_below P decide bound) [
  | inr (j, less, here, before) ↦ inr (j, omega arith, here, before)
  | inl fails ↦ elim (decide bound) [
    | yes here ↦ inr (bound, omega arith, here, fails)
    | no not_here ↦ inl (λ m less here. elim (dec_lt m bound) [
      | yes below ↦ fails m below here
      | no last ↦ let same : m ≡ bound = omega arith in not_here (rw same at here)
    ])
  ]
]

decide_gives : (order : Bignum256) (k : ℕ) (hash : List ℕ) → Dec (GivesChild order k hash)
decide_gives order k hash = elim (dec_lt (number hash) (value order)) [
  | no high ↦ no (λ gives. high gives.0)
  | yes low ↦ elim (ℕ_discrete ((number hash + k) % value order) 0) [
    | yes zeros ↦ no (λ gives. gives.1 zeros)
    | no other ↦ yes (low, other)
  ]
]

module _ (lib : Library) (params : EcdsaCurve)
    (public_size : (curve : Option EcdsaCurve) (key : List ℕ)
      → length (lib.public_key33 curve key) ≡ 33)
    (sha : IsSha (sha512_of lib.hash)) (modulus : IsModulus params.order) (fuel : ℕ) where
  -- One step: none, or a node of the curve.
  pub child-IsNode :
      (node : HdNode) (i : ℕ)
      → IsNode params node
      → i < 2 ^ 32
      → (hdnode_private_ckd lib fuel node i ≡ none)
        ⊎ ((child : HdNode) × (hdnode_private_ckd lib fuel node i ≡ some child)
            × IsNode params child)
  child-IsNode node i is small =
      let k = number node.private_key in
      elim (first_below (λ j. GivesChild params.order k (child_hash lib node i j))
        (λ j. decide_gives params.order k (child_hash lib node i j)) fuel) [
          | inl fails ↦ inl (
              hdnode_private_ckd-none lib node params is public_size sha modulus i fuel small fails)
          | inr (j, less, gives, before) ↦
              let (child, made, is_child) =
                hdnode_private_ckd-IsChild lib node params is public_size sha modulus i j fuel small
                  before gives less in
              inr (child, made, is_child.is_node)
        ]

  -- Where the hash is a SHA-2 with digests of 64 bytes, a public key is 33 bytes and the order is
  -- in range: from a node of the curve with a private key, every path of 32-bit indexes gives none,
  -- where the fuel of a loop ends, or a node of the curve again, whose private key is 32 bytes for
  -- a number between 0 and the order.
  pub ckd_path-IsNode :
      (node : HdNode) (path : List ℕ)
      → IsNode params node
      → AllBelow (2 ^ 32) path
      → (ckd_path lib fuel node path ≡ none)
        ⊎ ((last : HdNode) × (ckd_path lib fuel node path ≡ some last) × IsNode params last)
  unfolding ckd_path
  ckd_path-IsNode node [] is small = inr (node, refl, is)
  ckd_path-IsNode node (i ∷ path) is small = elim (child-IsNode node i is small.0) [
    | inl failed ↦ inl (rw failed refl)
    | inr (child, made, is_child) ↦ elim (ckd_path-IsNode child path is_child small.1) [
      | inl failed ↦ inl (rw made failed)
      | inr (last, ended, is_last) ↦ inr (last, rw made ended, is_last)
    ]
  ]
