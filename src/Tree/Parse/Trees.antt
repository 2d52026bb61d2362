-- ===== src/Tree/Parse/Trees.antt =====
-- `init_linger` (create_tree/createtree.c) on the text of a whole tree: the tree is built from it.
use controller_project.Base.{
  ℕ, ◌≤◌, ◌<◌, ◌≡◌, refl, sym, ap, ap₂, ◌∙◌, List, [], ◌∷◌, ◌++◌, some, length, map, drop, true,
  arith, length-map, length-append, append-nil, map-append, lt→ltb,
}
use controller_project.Tree.{Name, RawData, NodeData, ItemValue, create_tree, get_parameters}
use controller_project.Tree.Build.{
  Full, leaf_of, split, to_node, row, rows, Named, Unused, Distinct, height, create_tree-rows,
}
use controller_project.Tree.Names.{Listed, Once, get_parameters_lem}
use controller_project.Tree.Text.{bar}
use controller_project.Tree.Text.Tokens.{joined}
use controller_project.Tree.Parse.{
  all_room, ready, Globals, build, create_items, no_items, init_linger,
}
use controller_project.Tree.Parse.Items.{
  Item, AllWritable, items_text, measured, named_room, create_items_lem,
}
use controller_project.Tree.Parse.RoundTrip.{line, AllPrintable, read_value, init_linger_rows}

module _ {F : Type 0} (atof : Name → F) where
  abbrev pub read_data : NodeData Name → NodeData F
  read_data d = record { itself = d.itself; name = d.name; value = atof d.value; class = d.class }

  -- A tree with its values read.
  abbrev pub read_tree : Full Name → Full F
  read_tree (leaf_of d) = leaf_of (read_data d)
  read_tree (split d l r) = split (read_data d) (read_tree l) (read_tree r)

  rows-read_tree : (f : ℕ) (t : Full Name) → map (read_value atof) (rows f t) ≡ rows f (read_tree t)
  rows-read_tree f (leaf_of d) = refl
  rows-read_tree f (split d l r) = ap (◌∷◌ (row f (read_data d))) (
      map-append (read_value atof) (rows d.itself l) (rows d.itself r)
      ∙ ap₂ ◌++◌ (rows-read_tree d.itself l) (rows-read_tree d.itself r))

  Named-read_tree : (t : Full Name) → Named t → Named (read_tree t)
  Named-read_tree (leaf_of d) h = h
  Named-read_tree (split d l r) h = (h.0, Named-read_tree l h.1, Named-read_tree r h.2)

  Unused-read_tree : (i : ℕ) (t : Full Name) → Unused i t → Unused i (read_tree t)
  Unused-read_tree i (leaf_of d) h = tt
  Unused-read_tree i (split d l r) h = (h.0, Unused-read_tree i l h.1, Unused-read_tree i r h.2)

  Distinct-read_tree : (t : Full Name) → Distinct t → Distinct (read_tree t)
  Distinct-read_tree (leaf_of d) h = tt
  Distinct-read_tree (split d l r) h = (
    Unused-read_tree d.itself l h.0,
    Unused-read_tree d.itself r h.1,
    Distinct-read_tree l h.2,
    Distinct-read_tree r h.3,
  )

  height-rows : (f : ℕ) (t : Full F) → height t ≤ length (rows f t)
  height-rows f (leaf_of d) = omega arith
  height-rows f (split d l r) = omega (
    arith,
    length-append (rows d.itself l) (rows d.itself r),
    height-rows d.itself l,
    height-rows d.itself r,
  )

  create_tree-read :
      (f : ℕ) (t : Full Name)
      → Named t
      → Distinct t
      → let node = map (read_value atof) (rows f t) in
        create_tree (length node) node ≡ to_node (read_tree t)
  create_tree-read f t n u =
      let t' = read_tree t in
      ap (λ rs. create_tree (length rs) rs) (rows-read_tree f t ∙ sym (append-nil (rows f t')))
      ∙ create_tree-rows t' f (length (rows f t' ++ [])) [] (Named-read_tree t n)
          (Distinct-read_tree t u) (omega (arith, length-append (rows f t') [], height-rows f t'))

-- The text of a file: the rows with `|` between them.
abbrev pub file : ℕ → Full Name → Name
file f t = joined bar (map line (rows f t))

module _ {F : Type 0} (atof : Name → F) (none_value zero_value : F) where
  -- What `init_linger` leaves behind.
  pub record Loaded (f : ℕ) (t : Full Name) (is : List Item) (g : Globals F) : Type 0 where
    pub tree : g.tnode ≡ to_node (read_tree atof t)
    pub items :
        g.items_list
        ≡ map (measured atof) is ++ drop (length is) (no_items atof none_value zero_value)
    pub listed : Listed (map (read_value atof) (rows f t)) g.parameters
    pub once : Once g.parameters

-- The blocks of all names of the rows have room for them.
abbrev pub RowsRoom : (ℕ → ℕ) → List (RawData Name) → Type 0
RowsRoom usable [] = Unit {0}
RowsRoom usable (r ∷ rs) = (length r.name < usable (length r.name)) × RowsRoom usable rs

abbrev pub ItemsRoom : (ℕ → ℕ) → List Item → Type 0
ItemsRoom usable [] = Unit {0}
ItemsRoom usable ((n, v) ∷ is) = (length n < usable (length n)) × ItemsRoom usable is

RowsRoom-all_room :
    {F : Type 0} (usable : ℕ → ℕ) (atof : Name → F) (rs : List (RawData Name))
    → RowsRoom usable rs
    → all_room usable (map (read_value atof) rs) ≡ true
unfolding all_room
RowsRoom-all_room usable atof [] h = refl
RowsRoom-all_room usable atof (r ∷ rs) h =
    rw (lt→ltb (length r.name) (usable (length r.name)) h.0, RowsRoom-all_room usable atof rs h.1)
      refl

ItemsRoom-named_room :
    (usable : ℕ → ℕ) (is : List Item) → ItemsRoom usable is → named_room usable is ≡ true
unfolding named_room
ItemsRoom-named_room usable [] h = refl
ItemsRoom-named_room usable ((n, v) ∷ is) h =
    rw (lt→ltb (length n) (usable (length n)) h.0) (ItemsRoom-named_room usable is h.1)

module _ {F : Type 0} (usable : ℕ → ℕ) (atof : Name → F) (none_value zero_value : F) where
  build-ready :
      (node : List (RawData F)) (item : Name) (ps : List Name) (items : List (ItemValue F))
      → all_room usable node ≡ true
      → get_parameters node ≡ some ps
      → create_items usable atof (no_items atof none_value zero_value) item ≡ some items
      → build usable atof none_value zero_value node item
        ≡ ready (record {
          node = node;
          tnode = create_tree (length node) node;
          parameters = ps;
          items_list = items;
        })
  unfolding build
  build-ready node item ps items r e f = rw (build, r, e, f) refl

  -- From the text of a tree and of at most 19 measured values, all of it printable, with at most 80
  -- rows, numbers up to `INT_MAX`, blocks that have room for the closing `0` of each name, exactly the leaves called `leaf` and no node with the number of one above it, `init_linger`
  -- builds that tree and these values, and lists the names that the tree asks for, each once.
  pub init_linger_lem :
      (f : ℕ) (t : Full Name) (is : List Item)
      → AllPrintable (rows f t)
      → Named t
      → Distinct t
      → length (rows f t) ≤ 80
      → AllWritable is
      → length is < 20
      → RowsRoom usable (rows f t)
      → ItemsRoom usable is
      → (g : Globals F) × (init_linger usable atof none_value zero_value []
            (file f t)
            (items_text is)
          ≡ ready g)
        × Loaded atof none_value zero_value f t is g
  init_linger_lem f t is p n u h w k rr ir =
      let node = map (read_value atof) (rows f t) in
      let nothing = no_items atof none_value zero_value in
      let (ps, e, listed, once) =
        get_parameters_lem node (omega (arith, length-map (rows f t) (read_value atof))) in
      let items = map (measured atof) is ++ drop (length is) nothing in
      let read : create_items usable atof nothing (items_text is) ≡ some items =
        create_items_lem usable atof nothing is w (omega arith)
        ∙ rw (lt→ltb (length is) 20 k, ItemsRoom-named_room usable is ir) refl in
      let g : Globals F = record {
        node = node;
        tnode = create_tree (length node) node;
        parameters = ps;
        items_list = items;
      } in
      (
        g,
        init_linger_rows atof none_value zero_value usable (rows f t) (items_text is) p
            ∙ build-ready node (items_text is) ps items
                (RowsRoom-all_room usable atof (rows f t) rr) e read,
        record { tree = create_tree-read atof f t n u; items = refl; listed = listed; once = once },
      )
