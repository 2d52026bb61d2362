-- ===== src/Tree.antt =====
-- create_tree/createtree.c: the decision tree of the controller, built from the rows of a file and
-- searched with measured values. A `float` is a parameter with the test `<=`.
pub mod Build
pub mod Search
pub mod Names
pub mod Text
pub mod Parse
use controller_project.Base.{
  ℕ, zero, suc, ◌+◌, List, [], ◌∷◌, ◌++◌, Bool, true, false, ◌&&◌, not, Option, none, some, length,
  ltb, ◌==◌, if◌then◌else◌,
}

-- A C string by its characters.
abbrev pub Name : Type 0
Name = List ℕ

-- `strcmp (s, t) == 0`
unfoldable pub equal : Name → Name → Bool
equal [] [] = true
equal [] (y ∷ ys) = false
equal (x ∷ xs) [] = false
equal (x ∷ xs) (y ∷ ys) = (x == y) && equal xs ys

-- `"leaf"`
abbrev pub leaf : Name
leaf = 108 ∷ 101 ∷ 97 ∷ 102 ∷ []

-- `struct rawdata`; a chain of them is a list.
pub record RawData (F : Type 0) : Type 0 where
  pub father : ℕ
  pub itself : ℕ
  pub name : Name
  pub value : F
  pub class : ℕ

-- What `struct treenode` says of itself.
pub record NodeData (F : Type 0) : Type 0 where
  pub itself : ℕ
  pub name : Name
  pub value : F
  pub class : ℕ

-- A pointer to a `struct treenode`. `parent` is never set.
pub data TreeNode (F : Type 0) : Type 0 where
  null : TreeNode F
  node : NodeData F → TreeNode F → TreeNode F → TreeNode F

-- `struct item_value`; the name may be `NULL`.
pub record ItemValue (F : Type 0) : Type 0 where
  pub name : Option Name
  pub value : F

-- What the inner loop of `bst_search` ends with; `fault` is the comparison with a name that is
-- `NULL`.
pub data Found (F : Type 0) : Type 0 where
  found : ItemValue F → Found F
  missing : Found F
  fault : Found F

-- What `bst_search` returns; `crash` is a `NULL` dereference.
pub data Result (F : Type 0) : Type 0 where
  returns : TreeNode F → Result F
  crash : Result F

-- Whether a parameter has a slot already.
unfoldable pub member : Name → List Name → Bool
member name [] = false
member name (n ∷ ns) = if equal n name then true else member name ns

module _ {F : Type 0} where
  -- The chain from the row found on, empty for `NULL`.
  unfoldable pub find_lchild : List (RawData F) → ℕ → List (RawData F)
  find_lchild [] father = []
  find_lchild (r ∷ rs) father = if r.father == father then r ∷ rs else find_lchild rs father

  -- The loop of `find_rchild`.
  unfoldable pub find_rchild_loop : List (RawData F) → ℕ → ℕ → List (RawData F)
  find_rchild_loop [] father rchild = []
  find_rchild_loop (r ∷ rs) father rchild =
      let second = find_rchild_loop rs father (rchild + 1) in
      let other = find_rchild_loop rs father rchild in
      if r.father == father then (if rchild == 1 then r ∷ rs else second) else other

  unfoldable pub find_rchild : List (RawData F) → ℕ → List (RawData F)
  unfolding find_rchild_loop
  find_rchild rs father = find_rchild_loop rs father 0

  abbrev pub copied : RawData F → NodeData F
  copied r = record { itself = r.itself; name = r.name; value = r.value; class = r.class }

  -- The recursion is on the depth of the calls; each is on a later row. The copy of a name is taken to
  -- have room for the closing `0`, for which `all_room` of `Tree.Parse` tests.
  unfoldable pub create_tree : ℕ → List (RawData F) → TreeNode F
  unfolding find_lchild find_rchild
  create_tree fuel [] = null
  create_tree zero (r ∷ rs) = null
  create_tree (suc fuel) (r ∷ rs) =
      let left = create_tree fuel (find_lchild rs r.itself) in
      let right = create_tree fuel (find_rchild rs r.itself) in
      if equal r.name leaf then node (copied r) null null else node (copied r) left right

  unfoldable pub find_item : Name → List (ItemValue F) → Found F
  find_item name [] = Found.missing
  find_item name (v ∷ vs) =
      let rest = find_item name vs in
      elim v.name [ none ↦ Found.fault | some n ↦ if equal name n then Found.found v else rest ]

  -- The parameters that the rows name, each once; `none` when there is no room in the 80 slots.
  unfoldable pub get_parameters_loop : List (RawData F) → List Name → Option (List Name)
  unfolding member
  get_parameters_loop [] tmp = some tmp
  get_parameters_loop (r ∷ rs) tmp =
      let same = get_parameters_loop rs tmp in
      let more = get_parameters_loop rs (tmp ++ r.name ∷ []) in
      if equal r.name leaf
      then same
      else if member r.name tmp
      then same
      else if ltb (length tmp) 80
      then more
      else none

  -- `none` is a write behind the 80 pointers; the copies of the names are as in `create_tree`.
  unfoldable pub get_parameters : List (RawData F) → Option (List Name)
  unfolding get_parameters_loop
  get_parameters rs = get_parameters_loop rs []

module _ {F : Type 0} (le : F → F → Bool) where
  -- `while (node && strcmp (node->name, "leaf") != 0)`, with `found`.
  unfoldable pub search_loop : TreeNode F → TreeNode F → List (ItemValue F) → Bool → Result F
  unfolding find_item
  search_loop null node_pre vs seen = if seen then Result.returns null else Result.crash
  search_loop (node d l r) node_pre vs seen =
      let left = search_loop l (node d l r) vs true in
      let right = search_loop r (node d l r) vs true in
      if equal d.name leaf
      then (if seen then Result.returns (node d l r) else Result.returns node_pre)
      else elim (find_item d.name vs) [
        | found v ↦ if le v.value d.value then left else right
        | missing ↦ Result.returns null
        | fault ↦ Result.crash
      ]

  -- At the first test `node_pre` is the root.
  unfoldable pub bst_search : TreeNode F → List (ItemValue F) → Result F
  unfolding search_loop
  bst_search root vs = search_loop root root vs false
