-- ===== src/Tree/Search.antt =====
-- `bst_search` (create_tree/createtree.c): which leaf it ends at.
use controller_project.Base.{◌≡◌, List, Bool, true, if◌then◌else◌, Bool-cases, inl, inr}
use controller_project.Tree.{
  Name, NodeData, TreeNode, null, node, ItemValue, Found, find_item, Result, search_loop,
  bst_search,
}
use controller_project.Tree.Build.{Full, leaf_of, split, to_node, Named}

module _ {F : Type 0} (le : F → F → Bool) where
  -- The class of a sample: at each node its value goes left up to the node's, and right above.
  unfoldable pub decide : (Name → F) → Full F → NodeData F
  decide sample (leaf_of d) = d
  decide sample (split d l r) =
      let left = decide sample l in
      let right = decide sample r in if le (sample d.name) d.value then left else right

  -- The table has the value of every parameter that the tree asks for.
  abbrev pub Covers : (Name → F) → List (ItemValue F) → Full F → Type 0
  Covers sample vs (leaf_of d) = Unit {0}
  Covers sample vs (split d l r) =
      ((v : ItemValue F) × (find_item d.name vs ≡ Found.found v) × (v.value ≡ sample d.name))
      × Covers sample vs l
      × Covers sample vs r

  search-decide :
      (t : Full F) (pre : TreeNode F) (sample : Name → F) (vs : List (ItemValue F))
      → Named t
      → Covers sample vs t
      → search_loop le (to_node t) pre vs true ≡ Result.returns (node (decide sample t) null null)
  unfolding search_loop decide
  search-decide (leaf_of d) pre sample vs n c = rw n
  search-decide (split d l r) pre sample vs n c =
      let e = c.0.2 in
      elim (Bool-cases (le (sample d.name) d.value)) [
        | inl f ↦
            rw (n.0, c.0.1, e, f)
              (search-decide l (node d (to_node l) (to_node r)) sample vs n.1 c.1)
        | inr f ↦
            rw (n.0, c.0.1, e, f)
              (search-decide r (node d (to_node l) (to_node r)) sample vs n.2 c.2)
      ]

  -- When the table has every parameter that the tree asks for, the search dereferences no null
  -- pointer and returns the leaf that the sample's values decide for.
  pub bst_search-decide :
      (t : Full F) (sample : Name → F) (vs : List (ItemValue F))
      → Named t
      → Covers sample vs t
      → bst_search le (to_node t) vs ≡ Result.returns (node (decide sample t) null null)
  unfolding bst_search search_loop decide
  bst_search-decide (leaf_of d) sample vs n c = rw n
  bst_search-decide (split d l r) sample vs n c =
      search-decide (split d l r) (to_node (split d l r)) sample vs n c
