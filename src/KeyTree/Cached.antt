-- ===== src/KeyTree/Cached.antt =====
-- hdnode_private_ckd_cached of ios/Classes/bip32.c (USE_BIP32_CACHE). A call takes the static cache
-- and returns it. memcmp of two nodes compares their bytes, the padding of the struct included, and
-- `==` of two curves their addresses: both are parameters. An array i of an element has room for 8
-- indexes (BIP32_CACHE_MAXDEPTH), and the parent of a longer path is copied past it: the functions then
-- give none.
pub mod Path
use flutter_sdk.Base.{ℕ, zero, suc, ◌+◌, ◌-◌, ◌%◌, List, [], ◌∷◌, ◌++◌, Bool, true, false, ◌&&◌}
use flutter_sdk.Base.{
  Option, none, some, ◌==◌, if◌then◌else◌, take, length, get_or, replicate, ◌>>=◌, leb,
}
use flutter_sdk.Mnemonic.{str_eq}
use flutter_sdk.KeyTree.{CurveInfo, HdNode, Library, hdnode_private_ckd}

-- An element of private_ckd_cache that is set: depth, i and node.
pub record CkdEntry : Type 0 where
  pub depth : ℕ
  pub i : List ℕ
  pub node : HdNode

-- private_ckd_cache_root, none while private_ckd_cache_root_set is false, private_ckd_cache_index
-- and private_ckd_cache, whose elements are none while they are not set.
pub record CkdCache : Type 0 where
  pub root : Option HdNode
  pub index : ℕ
  pub entries : List (Option CkdEntry)

-- memcmp(a, b, sizeof(HDNode)) == 0, and `==` of curves.
pub record Comparison : Type 0 where
  pub same_node : HdNode → HdNode → Bool
  pub same_curve : CurveInfo → CurveInfo → Bool

-- The static variables at the start; BIP32_CACHE_SIZE is 10.
pub empty_ckd_cache : CkdCache
empty_ckd_cache = record { root = none; index = 0; entries = replicate 10 none }

-- private_ckd_cache_root_set && memcmp(...) == 0
pub root_is : Comparison → Option HdNode → HdNode → Bool
root_is eq none inout = false
root_is eq (some root) inout = eq.same_node root inout

-- The test of the search, for the i_count - 1 indexes of the parent.
pub entry_is : Comparison → CkdEntry → List ℕ → HdNode → Bool
entry_is eq e parent inout =
    e.depth == length parent
    && str_eq (take (length parent) e.i) parent
    && eq.same_curve e.node.curve inout.curve

-- "try to find parent"
pub find_parent : Comparison → List (Option CkdEntry) → List ℕ → HdNode → Option HdNode
find_parent eq [] parent inout = none
find_parent eq (none ∷ es) parent inout = find_parent eq es parent inout
find_parent eq (some e ∷ es) parent inout =
    let later = find_parent eq es parent inout in
    if entry_is eq e parent inout then some e.node else later

-- The loop over k: one hdnode_private_ckd after another.
unfoldable pub ckd_path : Library → ℕ → HdNode → List ℕ → Option HdNode
ckd_path lib fuel node [] = some node
ckd_path lib fuel node (i ∷ path) = do
  child ← hdnode_private_ckd lib fuel node i
  ckd_path lib fuel child path

-- private_ckd_cache[index] = e
pub set_parent : List (Option CkdEntry) → ℕ → CkdEntry → List (Option CkdEntry)
set_parent [] index e = []
set_parent (x ∷ xs) zero e = some e ∷ xs
set_parent (x ∷ xs) (suc index) e = x ∷ set_parent xs index e

-- "and save it"; none where memcpy writes past the array i.
pub save_parent : CkdCache → List ℕ → HdNode → Option CkdCache
save_parent cache parent node =
    let saved : CkdCache = record cache {
      index = (cache.index + 1) % 10;
      entries = set_parent cache.entries cache.index (record {
        depth = length parent;
        i = parent ++ replicate (8 - length parent) 0;
        node = node;
      });
    } in
    if leb (length parent) 8 then some saved else none

-- "if root is not set or not the same": the cache, and the parent if it was found.
pub open_cache : Comparison → CkdCache → List ℕ → HdNode → CkdCache × Option HdNode
open_cache eq cache parent inout =
    if root_is eq cache.root inout
    then (cache, find_parent eq cache.entries parent inout)
    else (record { root = some inout; index = 0; entries = replicate 10 none }, none)

-- "else derive parent": a derivation that fails saves nothing.
pub derive_parent : Library → ℕ → CkdCache → List ℕ → HdNode → Option (CkdCache × Option HdNode)
derive_parent lib fuel cache parent inout = elim (ckd_path lib fuel inout parent) [
  | none ↦ some (cache, none)
  | some node ↦ do saved ← save_parent cache parent node; some (saved, some node)
]

pub parent_of :
    Library → ℕ → CkdCache × Option HdNode → List ℕ → HdNode → Option (CkdCache × Option HdNode)
parent_of lib fuel (cache, some node) parent inout = some (cache, some node)
parent_of lib fuel (cache, none) parent inout = derive_parent lib fuel cache parent inout

pub hdnode_private_ckd_cached :
    Library → Comparison → ℕ → CkdCache → HdNode → List ℕ → Option (CkdCache × Option HdNode)
hdnode_private_ckd_cached lib eq fuel cache inout [] = some (cache, some inout)
hdnode_private_ckd_cached lib eq fuel cache inout (i ∷ []) =
    some (cache, hdnode_private_ckd lib fuel inout i)
hdnode_private_ckd_cached lib eq fuel cache inout (i ∷ j ∷ rest) =
    let parent = take (length rest + 1) (i ∷ j ∷ rest) in
    let last = get_or (i ∷ j ∷ rest) (length rest + 1) 0 in
    do
      (left, found) ← parent_of lib fuel (open_cache eq cache parent inout) parent inout
      some (left, found >>= λ node. hdnode_private_ckd lib fuel node last)
