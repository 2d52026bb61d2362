-- ===== src/Tests/Decision.antt =====
-- A decision tree with two leaves.
use controller_project.Base.{ℕ, ◌≡◌, refl, [], ◌∷◌, ◌++◌, some, leb, arith}
use controller_project.Tree.{
  Name, leaf, equal, NodeData, null, node, ItemValue, find_item, Result, create_tree, bst_search,
}
use controller_project.Tree.Build.{Full, leaf_of, split, to_node, rows, Named, create_tree-rows}
use controller_project.Tree.Search.{decide, Covers, bst_search-decide}

abbrev noise : Name
noise = 110 ∷ 111 ∷ []

abbrev root : NodeData ℕ
root = record { itself = 1; name = noise; value = 50; class = 0 }

abbrev left : NodeData ℕ
left = record { itself = 2; name = leaf; value = 0; class = 1 }

abbrev right : NodeData ℕ
right = record { itself = 3; name = leaf; value = 0; class = 2 }

abbrev tree : Full ℕ
tree = split root (leaf_of left) (leaf_of right)

tree-Named : Named tree
unfolding equal
tree-Named = (refl, refl, refl)

create_tree-rows_example : create_tree 2 (rows 0 tree ++ []) ≡ to_node tree
create_tree-rows_example = create_tree-rows tree 0 2 [] tree-Named (tt, tt, tt, tt) (omega arith)

abbrev item : ItemValue ℕ
item = record { name = some noise; value = 60 }

abbrev sample : Name → ℕ
sample name = 60

tree-Covers : Covers leb sample (item ∷ []) tree
unfolding find_item equal
tree-Covers = ((item, refl, refl), tt, tt)

bst_search-decide_example :
    bst_search leb (to_node tree) (item ∷ [])
    ≡ Result.returns (node (decide leb sample tree) null null)
bst_search-decide_example = bst_search-decide leb tree sample (item ∷ []) tree-Named tree-Covers
