-- ===== src/Tree/Parse.antt =====
-- `init_linger` and `create_items` (create_tree/createtree.c): the rows of the tree and the measured
-- values are read from text. `atof` and the `float` constants are parameters, and so is `usable`: a
-- block of `malloc (n)` has `usable n` bytes.
pub mod Items
pub mod RoundTrip
pub mod Trees
use controller_project.Base.{
  ℕ, ◌+◌, ◌%◌, List, [], ◌∷◌, ◌++◌, Option, none, some, length, get_elem?, set, replicate, map, ltb,
  Bool, true, ◌&&◌, leb, ◌==◌, if◌then◌else◌,
}
use controller_project.Tree.{Name, RawData, TreeNode, ItemValue, create_tree, get_parameters}
use controller_project.Tree.Text.{bar, comma, semicolon, tokens, atoi}

-- A `struct rawdata` while its fields are read: the name is `NULL` before the third field.
pub record Row (F : Type 0) : Type 0 where
  pub father : ℕ
  pub itself : ℕ
  pub name : Option Name
  pub value : F
  pub class : ℕ

-- The globals that `init_linger` sets.
pub record Globals (F : Type 0) : Type 0 where
  pub node : List (RawData F)
  pub tnode : TreeNode F
  pub parameters : List Name
  pub items_list : List (ItemValue F)

-- What `init_linger` ends with; `crash` is a `NULL` dereference or a write out of bounds.
pub data Outcome (F : Type 0) : Type 0 where
  ready : Globals F → Outcome F
  crash : Outcome F

-- The pointers of `create_items`: `char *p[40]`. Each call of `strtok_r`, the last one included,
-- writes its result to `p[in]`; `none` is a write behind the array.
unfoldable pub store_tokens : List Name → List Name → Option (List Name)
store_tokens p [] = if ltb (length p) 40 then some p else none
store_tokens p (q ∷ qs) =
    let rest = store_tokens (p ++ q ∷ []) qs in if ltb (length p) 40 then rest else none

unfoldable pub collect : List Name → List Name → Option (List Name)
unfolding store_tokens tokens
collect p [] = if ltb (length p) 40 then some p else none
collect p (q ∷ qs) =
    if ltb (length p) 40
    then elim (store_tokens p (tokens comma q)) [ none ↦ none | some p' ↦ collect p' qs ]
    else none

-- `strcpy` of a name with its closing `0` into a block of `malloc (strlen (name))`: whether the block
-- has room for it.
abbrev pub has_room : (ℕ → ℕ) → Name → Bool
has_room usable s = ltb (length s) (usable (length s))

unfoldable pub all_room : {F : Type 0} → (ℕ → ℕ) → List (RawData F) → Bool
all_room usable [] = true
all_room usable (r ∷ rs) = has_room usable r.name && all_room usable rs

module _ {F : Type 0} where
  -- `items_list[index].name = malloc (...); strcpy (...)`: `none` is a write behind the block. A write
  -- behind `items_list` is left out, as the check that ends the program comes after it.
  unfoldable pub set_name : (ℕ → ℕ) → List (ItemValue F) → ℕ → Name → Option (List (ItemValue F))
  set_name usable items i s =
      if has_room usable s
      then elim (get_elem? items i) [
        | none ↦ some items
        | some v ↦ some (set items i (record v { name = some s }))
      ]
      else none

  unfoldable pub set_value : List (ItemValue F) → ℕ → F → List (ItemValue F)
  set_value items i x = elim (get_elem? items i) [
    | none ↦ items
    | some v ↦ set items i (record v { value = x })
  ]

  -- The rows of `create_tree` and `get_parameters`, which read every name: `none` for a row without.
  unfoldable pub named_rows : List (Row F) → Option (List (RawData F))
  named_rows [] = some []
  named_rows (r ∷ rs) = elim r.name [
    | none ↦ none
    | some s ↦ elim (named_rows rs) [
      | none ↦ none
      | some ds ↦ some (
          record {
            father = r.father;
            itself = r.itself;
            name = s;
            value = r.value;
            class = r.class;
          }
          ∷ ds)
    ]
  ]

module _ {F : Type 0} (atof : Name → F) where
  -- The body of the inner loop of `init_linger`, for the field `k`.
  unfoldable pub set_field : ℕ → Name → Row F → Row F
  unfolding atoi
  set_field k q r =
      if k == 0
      then record r { father = atoi q }
      else if k == 1
      then record r { itself = atoi q }
      else if k == 2
      then record r { name = some q }
      else if k == 3
      then record r { value = atof q }
      else if k == 4
      then record r { class = atoi q }
      else r

  unfoldable pub set_fields : ℕ → List Name → Row F → Row F
  unfolding set_field
  set_fields k [] r = r
  set_fields k (q ∷ qs) r = set_fields (k + 1) qs (set_field k q r)

module _ {F : Type 0} (usable : ℕ → ℕ) (atof : Name → F) where
  -- `for (j = 0; j < in; j++)` of `create_items`; `none` is `exit (-1)` or a write behind a block.
  unfoldable pub fill_items : ℕ → ℕ → List Name → List (ItemValue F) → Option (List (ItemValue F))
  unfolding set_name set_value
  fill_items j index [] items = some items
  fill_items j index (p ∷ ps) items =
      let named : Option (List (ItemValue F)) = elim (set_name usable items index p) [
        | none ↦ none
        | some items' ↦ fill_items (j + 1) index ps items'
      ] in
      let valued = fill_items (j + 1) (index + 1) ps (set_value items index (atof p)) in
      if j % 2 == 0 then named else if leb 100 index then none else valued

  unfoldable pub create_items : List (ItemValue F) → Name → Option (List (ItemValue F))
  unfolding collect fill_items tokens
  create_items items buffer = elim (collect [] (tokens semicolon buffer)) [
    | none ↦ none
    | some p ↦ fill_items 0 0 p items
  ]

module _ {F : Type 0} (atof : Name → F) (none_value zero_value : F) where
  -- `memset (newnode, 0, sizeof (struct rawdata))`
  abbrev pub blank : Row F
  blank = record { father = 0; itself = 0; name = none; value = zero_value; class = 0 }

  unfoldable pub read_row : Name → Row F
  unfolding set_fields tokens
  read_row p = set_fields atof 0 (tokens comma p) blank

  -- `items_list[i].name = NULL; items_list[i].value = -1000000.0`, `ITEM_AMOUNT` times.
  abbrev pub no_items : List (ItemValue F)
  no_items = replicate 100 (record { name = none; value = none_value })

module _ {F : Type 0} (usable : ℕ → ℕ) (atof : Name → F) (none_value zero_value : F) where
  -- What `init_linger` does with the rows that were read. Each name is copied when its row is read, by
  -- `create_tree` and by `get_parameters`, each time into a block of the same size.
  unfoldable pub build : List (RawData F) → Name → Outcome F
  unfolding create_tree get_parameters create_items
  build node item = elim (if all_room usable node then get_parameters node else none) [
    | none ↦ Outcome.crash
    | some ps ↦ elim (create_items usable atof (no_items atof none_value zero_value) item) [
      | none ↦ Outcome.crash
      | some items ↦ Outcome.ready (record {
        node = node;
        tnode = create_tree (length node) node;
        parameters = ps;
        items_list = items;
      })
    ]
  ]

  -- `node` is the chain of an earlier call: a row after it is written through `nodeptr`, which is
  -- still `NULL`.
  unfoldable pub init_linger : List (RawData F) → Name → Name → Outcome F
  unfolding read_row tokens build named_rows
  init_linger (r ∷ rs) inputtxt item = elim (tokens bar inputtxt) [
    | [] ↦ build (r ∷ rs) item
    | q ∷ qs ↦ Outcome.crash
  ]
  init_linger [] inputtxt item =
      elim (named_rows (map (read_row atof none_value zero_value) (tokens bar inputtxt))) [
        | none ↦ Outcome.crash
        | some node ↦ build node item
      ]
