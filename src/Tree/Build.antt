-- ===== src/Tree/Build.antt =====
-- `create_tree` (create_tree/createtree.c): the rows of a tree, each node before its children, give
-- the tree back.
use controller_project.Base.{
  ℕ, zero, suc, ◌+◌, ◌≤◌, ◌≡◌, ◌≢◌, refl, ap, ap₂, sym, ◌∙◌, max, List, [], ◌∷◌, ◌++◌, append_assoc,
  true, false, length, ◌==◌, ==_refl, Bool-cases, inl, inr, arith,
}
use controller_project.Tree.{
  equal, leaf, RawData, NodeData, TreeNode, null, node, find_lchild, find_rchild_loop, find_rchild,
  copied, create_tree,
}

ne-== : (i j : ℕ) → i ≢ j → (i == j) ≡ false
ne-== i j h = ground (arith, h)

-- A tree in which a node has two children or none.
pub data Full (F : Type 0) : Type 0 where
  leaf_of : NodeData F → Full F
  split : NodeData F → Full F → Full F → Full F

module _ {F : Type 0} where
  abbrev pub to_node : Full F → TreeNode F
  to_node (leaf_of d) = node d null null
  to_node (split d l r) = node d (to_node l) (to_node r)

  abbrev pub row : ℕ → NodeData F → RawData F
  row father d = record {
    father = father;
    itself = d.itself;
    name = d.name;
    value = d.value;
    class = d.class;
  }

  -- The rows of a tree below `father`.
  abbrev pub rows : ℕ → Full F → List (RawData F)
  rows father (leaf_of d) = row father d ∷ []
  rows father (split d l r) = row father d ∷ (rows d.itself l ++ rows d.itself r)

  -- The leaves are the nodes with the name `leaf`.
  abbrev pub Named : Full F → Type 0
  Named (leaf_of d) = equal d.name leaf ≡ true
  Named (split d l r) = (equal d.name leaf ≡ false) × Named l × Named r

  -- No node with children has the number `i`.
  abbrev pub Unused : ℕ → Full F → Type 0
  Unused i (leaf_of d) = Unit {0}
  Unused i (split d l r) = (d.itself ≢ i) × Unused i l × Unused i r

  -- No node has the number of one above it.
  abbrev pub Distinct : Full F → Type 0
  Distinct (leaf_of d) = Unit {0}
  Distinct (split d l r) = Unused d.itself l × Unused d.itself r × Distinct l × Distinct r

  abbrev pub height : Full F → ℕ
  height (leaf_of d) = 1
  height (split d l r) = suc (max (height l) (height r))

  find_first :
      (i : ℕ) (t : Full F) (rest : List (RawData F))
      → find_lchild (rows i t ++ rest) i ≡ rows i t ++ rest
  unfolding find_lchild
  find_first i (leaf_of d) rest = rw (==_refl i)
  find_first i (split d l r) rest = rw (==_refl i)

  find_at :
      (i : ℕ) (t : Full F) (rest : List (RawData F))
      → find_rchild_loop (rows i t ++ rest) i 1 ≡ rows i t ++ rest
  unfolding find_rchild_loop
  find_at i (leaf_of d) rest = rw (==_refl i)
  find_at i (split d l r) rest = rw (==_refl i)

  -- A subtree in which no row has the father `i` is passed over.
  find_skip :
      (i f n : ℕ) (t : Full F) (rest : List (RawData F))
      → f ≢ i
      → Unused i t
      → find_rchild_loop (rows f t ++ rest) i n ≡ find_rchild_loop rest i n
  unfolding find_rchild_loop
  find_skip i f n (leaf_of d) rest h u = rw (ne-== f i h)
  find_skip i f n (split d l r) rest h u =
      rw (ne-== f i h, append_assoc (rows d.itself l) (rows d.itself r) rest)
        (find_skip i d.itself n l (rows d.itself r ++ rest) u.0 u.1
          ∙ find_skip i d.itself n r rest u.0 u.2)

  find_second :
      (i : ℕ) (l r : Full F) (rest : List (RawData F))
      → Unused i l
      → find_rchild (rows i l ++ (rows i r ++ rest)) i ≡ rows i r ++ rest
  unfolding find_rchild find_rchild_loop
  find_second i (leaf_of d) r rest u = rw (==_refl i) (find_at i r rest)
  find_second i (split d l k) r rest u =
      rw (==_refl i, append_assoc (rows d.itself l) (rows d.itself k) (rows i r ++ rest))
        (find_skip i d.itself 1 l (rows d.itself k ++ (rows i r ++ rest)) u.0 u.1
          ∙ find_skip i d.itself 1 k (rows i r ++ rest) u.0 u.2
          ∙ find_at i r rest)

  create_leaf :
      (fuel : ℕ) (r : RawData F) (rs : List (RawData F))
      → equal r.name leaf ≡ true
      → create_tree (suc fuel) (r ∷ rs) ≡ node (copied r) null null
  unfolding create_tree
  create_leaf fuel r rs e = rw e

  create_split :
      (fuel : ℕ) (r : RawData F) (rs : List (RawData F))
      → equal r.name leaf ≡ false
      → create_tree (suc fuel) (r ∷ rs)
        ≡ node
            (copied r)
            (create_tree fuel (find_lchild rs r.itself))
            (create_tree fuel (find_rchild rs r.itself))
  unfolding create_tree
  create_split fuel r rs e = rw e

  -- The rows of a tree, each node before its left and its right subtree, give the tree back,
  -- whatever rows follow, when exactly the leaves are called `leaf`, every other node has two
  -- children and no node has the number of one above it.
  pub create_tree-rows :
      (t : Full F) (father fuel : ℕ) (rest : List (RawData F))
      → Named t
      → Distinct t
      → height t ≤ fuel
      → create_tree fuel (rows father t ++ rest) ≡ to_node t
  create_tree-rows (leaf_of d) father zero rest n u h = absurd (omega arith)
  create_tree-rows (split d l r) father zero rest n u h = absurd (omega arith)
  create_tree-rows (leaf_of d) father (suc fuel) rest n u h = create_leaf fuel (row father d) rest n
  create_tree-rows (split d l r) father (suc fuel) rest n u h =
      let below = rows d.itself l ++ (rows d.itself r ++ rest) in
      ap (λ rs. create_tree (suc fuel) (row father d ∷ rs))
        (append_assoc (rows d.itself l) (rows d.itself r) rest)
      ∙ create_split fuel (row father d) below n.0
      ∙ ap₂ (node d)
          (ap (create_tree fuel) (find_first d.itself l (rows d.itself r ++ rest))
            ∙ create_tree-rows l d.itself fuel (rows d.itself r ++ rest) n.1 u.2 (omega arith))
          (ap (create_tree fuel) (find_second d.itself l r rest u.0)
            ∙ create_tree-rows r d.itself fuel rest n.2 u.3 (omega arith))

  length-find_lchild : (rs : List (RawData F)) (i : ℕ) → length (find_lchild rs i) ≤ length rs
  unfolding find_lchild
  length-find_lchild [] i = omega arith
  length-find_lchild (r ∷ rs) i = ground (arith, length-find_lchild rs i)

  length-find_rchild_loop :
      (rs : List (RawData F)) (i n : ℕ) → length (find_rchild_loop rs i n) ≤ length rs
  unfolding find_rchild_loop
  length-find_rchild_loop [] i n = omega arith
  length-find_rchild_loop (r ∷ rs) i n =
      ground (arith, length-find_rchild_loop rs i n, length-find_rchild_loop rs i (n + 1))

  length-find_rchild : (rs : List (RawData F)) (i : ℕ) → length (find_rchild rs i) ≤ length rs
  unfolding find_rchild
  length-find_rchild rs i = length-find_rchild_loop rs i 0

  create_nil : (n : ℕ) → create_tree {F = F} n [] ≡ null
  unfolding create_tree
  create_nil n = refl

  -- Every call is on fewer rows, so that as many nested calls as there are rows are enough: more
  -- give the same tree, for any rows.
  pub create_tree_ends :
      (rs : List (RawData F)) (m n : ℕ)
      → length rs ≤ m
      → length rs ≤ n
      → create_tree m rs ≡ create_tree n rs
  create_tree_ends [] m n h k = create_nil m ∙ sym (create_nil n)
  create_tree_ends (r ∷ rs) zero n h k = absurd (omega arith)
  create_tree_ends (r ∷ rs) (suc m) zero h k = absurd (omega arith)
  create_tree_ends (r ∷ rs) (suc m) (suc n) h k = elim (Bool-cases (equal r.name leaf)) [
    | inl e ↦ create_leaf m r rs e ∙ sym (create_leaf n r rs e)
    | inr e ↦
        let left = length-find_lchild rs r.itself in
        let right = length-find_rchild rs r.itself in
        create_split m r rs e
        ∙ ap₂ (node (copied r))
            (create_tree_ends (find_lchild rs r.itself) m n (omega arith) (omega arith))
            (create_tree_ends (find_rchild rs r.itself) m n (omega arith) (omega arith))
        ∙ sym (create_split n r rs e)
  ]
