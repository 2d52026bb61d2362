-- ===== src/Tests/Parsing.antt =====
-- The text of a tree and of measured values. A value is the number that `atoi` reads.
use controller_project.Base.{
  ℕ, ◌+◌, ◌-◌, ◌*◌, ◌/◌, ◌≡◌, ◌⊎◌, inl, inr, refl, [], ◌∷◌, ◌++◌, some, none, false, map, drop, ltb,
  if◌then◌else◌, arith,
}
use controller_project.Tree.{Name, leaf, equal, NodeData}
use controller_project.Tree.Build.{Full, leaf_of, split, rows, Named}
use controller_project.Tree.Text.{atoi, bar, comma, tokens, strtok_r}
use controller_project.Tree.Text.Tokens.{Free}
use controller_project.Tree.Parse.{Globals, ready, no_items, create_items, init_linger}
use controller_project.Tree.Parse.Items.{
  Item, Writable, items_text, measured, named_room, create_items_lem,
}
use controller_project.Tree.Parse.RoundTrip.{AllPrintable}
use controller_project.Tree.Parse.Trees.{file, Loaded, init_linger_lem}

-- `"no"`, `"50"` and `"0"`
abbrev noise : Name
noise = 110 ∷ 111 ∷ []

abbrev fifty : Name
fifty = 53 ∷ 48 ∷ []

abbrev nought : Name
nought = 48 ∷ []

-- Separators in front, behind and twice are passed over.
tokens_of_commas : tokens comma (44 ∷ 110 ∷ 111 ∷ 44 ∷ 44 ∷ 48 ∷ 44 ∷ []) ≡ noise ∷ nought ∷ []
unfolding tokens strtok_r
tokens_of_commas = refl

atoi_negative : atoi (32 ∷ 45 ∷ 49 ∷ 50 ∷ 44 ∷ []) ≡ 4294967284
unfolding atoi
atoi_negative = refl

-- An allocator whose blocks are multiples of 16 bytes, with 8 of them for itself.
abbrev usable : ℕ → ℕ
usable n = (n + 8 + 15) / 16 * 16 - 8

abbrev item : Item
item = (noise, fifty)

item-Writable : Writable item
item-Writable = (
  ((omega arith, (refl, (refl, tt))), ((omega arith, (refl, (refl, tt))), tt)),
  ((omega arith, (refl, (refl, tt))), ((omega arith, (refl, (refl, tt))), tt)),
)

create_items_lem_example : create_items usable atoi (no_items atoi 0 0) (items_text (item ∷ [])) ≡ (
    if ltb 1 20
    then (if named_room usable (item ∷ [])
        then some (map (measured atoi) (item ∷ []) ++ drop 1 (no_items atoi 0 0))
        else none)
    else none)
create_items_lem_example =
    create_items_lem usable atoi (no_items atoi 0 0) (item ∷ []) (item-Writable, tt) (omega arith)

abbrev root : NodeData Name
root = record { itself = 1; name = noise; value = fifty; class = 0 }

abbrev left : NodeData Name
left = record { itself = 2; name = leaf; value = nought; class = 1 }

abbrev right : NodeData Name
right = record { itself = 3; name = leaf; value = nought; class = 2 }

abbrev tree : Full Name
tree = split root (leaf_of left) (leaf_of right)

leaf-Free : (sep : ℕ) → (sep ≡ comma) ⊎ (sep ≡ bar) → Free sep leaf
leaf-Free sep h =
    (ground (arith, h), (ground (arith, h), (ground (arith, h), (ground (arith, h), tt))))

tree-AllPrintable : AllPrintable (rows 0 tree)
tree-AllPrintable = (
  record {
    father = omega arith;
    itself = omega arith;
    class = omega arith;
    name = (omega arith, (refl, (refl, tt)));
    value = (omega arith, (refl, (refl, tt)));
    name_free = (refl, (refl, tt));
    value_free = (refl, (refl, tt));
  },
  (
    record {
      father = omega arith;
      itself = omega arith;
      class = omega arith;
      name = (omega arith, leaf-Free comma (inl refl));
      value = (omega arith, (refl, tt));
      name_free = leaf-Free bar (inr refl);
      value_free = (refl, tt);
    },
    (
      record {
        father = omega arith;
        itself = omega arith;
        class = omega arith;
        name = (omega arith, leaf-Free comma (inl refl));
        value = (omega arith, (refl, tt));
        name_free = leaf-Free bar (inr refl);
        value_free = (refl, tt);
      },
      tt,
    ),
  ),
)

tree-Named : Named tree
unfolding equal
tree-Named = (refl, refl, refl)

init_linger_lem_example :
    (g : Globals ℕ) × (init_linger usable atoi 0 0 [] (file 0 tree) (items_text (item ∷ []))
      ≡ ready g)
    × Loaded atoi 0 0 0 tree (item ∷ []) g
init_linger_lem_example =
    init_linger_lem usable atoi 0 0 0 tree (item ∷ []) tree-AllPrintable tree-Named (tt, tt, tt, tt)
      (omega arith) (item-Writable, tt) (omega arith)
      (omega arith, (omega arith, (omega arith, tt))) (omega arith, tt)

-- A name of 24 characters fills its block, and the closing `0` is written behind it.
no_room :
    named_room usable (
      (
        112 ∷ 112 ∷ 112 ∷ 112 ∷ 112 ∷ 112 ∷ 112 ∷ 112 ∷ 112 ∷ 112 ∷ 112 ∷ 112 ∷ 112 ∷ 112 ∷ 112
            ∷ 112 ∷ 112 ∷ 112 ∷ 112 ∷ 112 ∷ 112 ∷ 112 ∷ 112 ∷ 112 ∷ [],
        fifty,
      )
      ∷ [])
    ≡ false
unfolding named_room
no_room = refl
