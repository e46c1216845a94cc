-- ===== src/KeyTree/Cached/Path.antt =====
-- The cache of hdnode_private_ckd_cached (ios/Classes/bip32.c) cannot be seen in the nodes.
use flutter_sdk.Base.{ℕ, zero, suc, ◌+◌, ◌-◌, ◌≤◌, leb, ◌≡◌, refl, arith, ap, ◌∙◌, sym}
use flutter_sdk.Base.{List, [], ◌∷◌, ◌++◌, true, Option, none, some, map, ◌>>=◌}
use flutter_sdk.Base.{
  take, length, length-take, get_or, replicate, Bool-cases, Option-cases, inl, inr,
}
use mathlib.Core.Path.{subst}
use flutter_sdk.Mnemonic.Find.{str_eq→eq}
use flutter_sdk.KeyTree.{HdNode, Library, hdnode_private_ckd}
use flutter_sdk.KeyTree.Cached.{CkdEntry, CkdCache, Comparison, empty_ckd_cache, root_is, entry_is}
use flutter_sdk.KeyTree.Cached.{find_parent, ckd_path, set_parent, save_parent, open_cache}
use flutter_sdk.KeyTree.Cached.{derive_parent, parent_of, hdnode_private_ckd_cached}

-- memcmp finds two nodes the same only if they are.
abbrev pub IsSound : Comparison → Type 0
IsSound eq = (a b : HdNode) → eq.same_node a b ≡ true → a ≡ b

root_is-same :
    (eq : Comparison) (root : Option HdNode) (inout : HdNode)
    → IsSound eq
    → root_is eq root inout ≡ true
    → root ≡ some inout
unfolding root_is
root_is-same eq none inout sound same = cc
root_is-same eq (some root) inout sound same = ap some (sound root inout same)

take-front : (xs ys : List ℕ) → take (length xs) (xs ++ ys) ≡ xs
take-front [] ys = refl
take-front (x ∷ xs) ys = ap (λ t. x ∷ t) (take-front xs ys)

module _ (lib : Library) (fuel : ℕ) where
  -- The last step of a path comes after the others.
  ckd_path-last :
      (node : HdNode) (path : List ℕ) (n : ℕ)
      → length path ≡ suc n
      → ckd_path lib fuel node path ≡ (
          ckd_path lib fuel node (take n path) >>= λ parent.
          hdnode_private_ckd lib fuel parent (get_or path n 0))
  unfolding ckd_path
  ckd_path-last node [] n e = absurd (omega arith)
  ckd_path-last node (i ∷ []) zero e = elim (Option-cases (hdnode_private_ckd lib fuel node i)) [
    | inl failed ↦ rw failed refl
    | inr (child, made) ↦ rw made refl
  ]
  ckd_path-last node (i ∷ j ∷ path) zero e = absurd (omega arith)
  ckd_path-last node (i ∷ path) (suc n) e =
      elim (Option-cases (hdnode_private_ckd lib fuel node i)) [
        | inl failed ↦ rw failed refl
        | inr (child, made) ↦ rw made (ckd_path-last child path n (omega arith))
      ]

  -- Every element that is set holds the node of its path from the root.
  abbrev pub HoldsParents : HdNode → List (Option CkdEntry) → Type 0
  HoldsParents root [] = Unit {0}
  HoldsParents root (none ∷ es) = HoldsParents root es
  HoldsParents root (some e ∷ es) =
      (ckd_path lib fuel root (take e.depth e.i) ≡ some e.node) × HoldsParents root es

  abbrev pub IsRight : CkdCache → Type 0
  IsRight cache = (root : HdNode) → cache.root ≡ some root → HoldsParents root cache.entries

  find_parent-HoldsParents :
      (eq : Comparison) (es : List (Option CkdEntry)) (root inout : HdNode) (parent : List ℕ)
      {node : HdNode}
      → HoldsParents root es
      → find_parent eq es parent inout ≡ some node
      → ckd_path lib fuel root parent ≡ some node
  unfolding find_parent entry_is
  find_parent-HoldsParents eq [] root inout parent holds found = cc
  find_parent-HoldsParents eq (none ∷ es) root inout parent holds found =
      find_parent-HoldsParents eq es root inout parent holds found
  find_parent-HoldsParents eq (some e ∷ es) root inout parent {node} holds found =
      elim (Bool-cases (entry_is eq e parent inout)) [
        | inl hit ↦
            let depth : e.depth ≡ length parent = ground arith in
            let same : take (length parent) e.i ≡ parent =
              str_eq→eq (take (length parent) e.i) parent (ground arith) in
            let nodes : some e.node ≡ some node = rw hit at found in
            ap (ckd_path lib fuel root) (sym (ap (λ n. take n e.i) depth ∙ same)) ∙ holds.0 ∙ nodes
        | inr miss ↦ find_parent-HoldsParents eq es root inout parent holds.1 (rw miss at found)
      ]

  set_parent-HoldsParents :
      (es : List (Option CkdEntry)) (index : ℕ) (e : CkdEntry) (root : HdNode)
      → HoldsParents root es
      → ckd_path lib fuel root (take e.depth e.i) ≡ some e.node
      → HoldsParents root (set_parent es index e)
  unfolding set_parent
  set_parent-HoldsParents [] index e root holds right = tt
  set_parent-HoldsParents (none ∷ es) zero e root holds right = (right, holds)
  set_parent-HoldsParents (some x ∷ es) zero e root holds right = (right, holds.1)
  set_parent-HoldsParents (none ∷ es) (suc index) e root holds right =
      set_parent-HoldsParents es index e root holds right
  set_parent-HoldsParents (some x ∷ es) (suc index) e root holds right =
      (holds.0, set_parent-HoldsParents es index e root holds.1 right)

  -- A parent of at most 8 indexes is saved inside of its array.
  save_parent-HoldsParents :
      (cache : CkdCache) (root node : HdNode) (parent : List ℕ)
      → length parent ≤ 8
      → HoldsParents root cache.entries
      → ckd_path lib fuel root parent ≡ some node
      → (saved : CkdCache) × (save_parent cache parent node ≡ some saved)
        × (saved.root ≡ cache.root)
        × HoldsParents root saved.entries
  unfolding save_parent
  save_parent-HoldsParents cache root node parent room holds right =
      let inside : leb (length parent) 8 ≡ true = ground arith in
      let path =
        ap (ckd_path lib fuel root) (take-front parent (replicate (8 - length parent) 0)) ∙ right in
      rw inside (_, refl, refl, set_parent-HoldsParents cache.entries cache.index _ root holds path)

  -- The cache as it is opened for a node has that node as its root, holds its paths, and what was
  -- found is on one.
  record IsOpen (inout : HdNode) (parent : List ℕ) (found : CkdCache × Option HdNode) : Type 0 where
    root : found.0.root ≡ some inout
    holds : HoldsParents inout found.0.entries
    right : (node : HdNode) → found.1 ≡ some node → ckd_path lib fuel inout parent ≡ some node

  open_cache-IsOpen :
      (eq : Comparison) (cache : CkdCache) (parent : List ℕ) (inout : HdNode)
      → IsSound eq
      → IsRight cache
      → IsOpen inout parent (open_cache eq cache parent inout)
  unfolding open_cache
  open_cache-IsOpen eq cache parent inout sound is =
      elim (Bool-cases (root_is eq cache.root inout)) [
        | inl same ↦
            let here = root_is-same eq cache.root inout sound same in
            rw same (record {
              root = here;
              holds = is inout here;
              right = λ node.
                  find_parent-HoldsParents eq cache.entries inout inout parent (is inout here);
            })
        | inr other ↦ rw other (record { root = refl; holds = tt; right = λ node e. cc })
      ]

  holds-IsRight :
      (cache : CkdCache) (root : HdNode)
      → cache.root ≡ some root
      → HoldsParents root cache.entries
      → IsRight cache
  holds-IsRight cache root here holds other there =
      let same : root ≡ other = cc in subst (λ r. HoldsParents r cache.entries) same holds

  parent_of-path :
      (found : CkdCache × Option HdNode) (parent : List ℕ) (inout : HdNode)
      → length parent ≤ 8
      → IsOpen inout parent found
      → (left : CkdCache) × (parent_of lib fuel found parent inout
          ≡ some (left, ckd_path lib fuel inout parent))
        × IsRight left
  unfolding parent_of derive_parent
  parent_of-path (cache, some node) parent inout room is = (
    cache,
    ap (λ n. some (cache, n)) (sym (is.right node refl)),
    holds-IsRight cache inout is.root is.holds,
  )
  parent_of-path (cache, none) parent inout room is =
      elim (Option-cases (ckd_path lib fuel inout parent)) [
        | inl failed ↦
            rw (parent_of, derive_parent, failed)
              (cache, refl, holds-IsRight cache inout is.root is.holds)
        | inr (node, made) ↦
            let (left, saved, root, holds) =
              save_parent-HoldsParents cache inout node parent room is.holds made in
            rw (parent_of, derive_parent, made, saved)
              (left, refl, holds-IsRight left inout (root ∙ is.root) holds)
      ]

  -- For a path of at most 9 indexes the node is that of the path, found or derived, and the cache is
  -- right again.
  pub hdnode_private_ckd_cached-path :
      (eq : Comparison) (cache : CkdCache) (inout : HdNode) (path : List ℕ)
      → IsSound eq
      → length path ≤ 9
      → IsRight cache
      → (left : CkdCache) × (hdnode_private_ckd_cached lib eq fuel cache inout path
          ≡ some (left, ckd_path lib fuel inout path))
        × IsRight left
  unfolding hdnode_private_ckd_cached ckd_path
  hdnode_private_ckd_cached-path eq cache inout [] sound short is = (cache, refl, is)
  hdnode_private_ckd_cached-path eq cache inout (i ∷ []) sound short is =
      (cache, ap (λ n. some (cache, n)) (sym (ckd_path-last inout (i ∷ []) 0 refl)), is)
  hdnode_private_ckd_cached-path eq cache inout (i ∷ j ∷ rest) sound short is =
      let path = i ∷ j ∷ rest in
      let parent = take (length rest + 1) path in
      let (left, done, kept) =
        parent_of-path (open_cache eq cache parent inout) parent inout
          (omega (arith, length-take (length rest + 1) 1 path (omega arith)))
          (open_cache-IsOpen eq cache parent inout sound is) in
      (
        left,
        rw done (
            ap (λ n. some (left, n))
              (sym (ckd_path-last inout path (length rest + 1) (omega arith)))),
        kept,
      )

-- The nodes of a sequence of calls, each with its node and its path; none where one of them writes
-- past its array.
pub run_paths :
    Library → ℕ → Comparison → CkdCache → List (HdNode × List ℕ) → Option (List (Option HdNode))
run_paths lib fuel eq cache [] = some []
run_paths lib fuel eq cache ((node, path) ∷ rest) = do
  (left, result) ← hdnode_private_ckd_cached lib eq fuel cache node path
  results ← run_paths lib fuel eq left rest
  some (result ∷ results)

-- Every path has at most 9 indexes.
abbrev pub AreShort : List (HdNode × List ℕ) → Type 0
AreShort [] = Unit {0}
AreShort ((node, path) ∷ rest) = (length path ≤ 9) × AreShort rest

run_paths-IsRight :
    (lib : Library) (fuel : ℕ) (eq : Comparison) (cache : CkdCache) (calls : List (HdNode × List ℕ))
    → IsSound eq
    → AreShort calls
    → IsRight lib fuel cache
    → run_paths lib fuel eq cache calls ≡ some (map (λ c. ckd_path lib fuel c.0 c.1) calls)
unfolding run_paths
run_paths-IsRight lib fuel eq cache [] sound short is = refl
run_paths-IsRight lib fuel eq cache ((node, path) ∷ rest) sound short is =
    let (left, done, kept) =
      hdnode_private_ckd_cached-path lib fuel eq cache node path sound short.0 is in
    let later = run_paths-IsRight lib fuel eq left rest sound short.1 kept in rw (done, later) refl

-- From the empty cache on, every sequence of calls of hdnode_private_ckd_cached with paths of at
-- most 9 indexes writes inside of the arrays of the cache and gives the nodes that one
-- hdnode_private_ckd after another gives, the failures included: the cache makes no difference.
-- memcmp has to find two nodes the same only if they are.
pub run_paths-ckd_path :
    (lib : Library) (fuel : ℕ) (eq : Comparison) (calls : List (HdNode × List ℕ))
    → IsSound eq
    → AreShort calls
    → run_paths lib fuel eq empty_ckd_cache calls
      ≡ some (map (λ c. ckd_path lib fuel c.0 c.1) calls)
unfolding empty_ckd_cache
run_paths-ckd_path lib fuel eq calls sound short =
    run_paths-IsRight lib fuel eq empty_ckd_cache calls sound short (λ root e. tt)
