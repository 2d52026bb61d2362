-- ===== src/Tree/Parse/Items.antt =====
-- `create_items` (create_tree/createtree.c) on the text of measured values.
use controller_project.Base.{
  ℕ, ◌+◌, ◌*◌, ◌%◌, ◌≤◌, ◌<◌, ◌≡◌, refl, ap, ap₂, sym, ◌∙◌, List, [], ◌∷◌, ◌++◌, none, some, length,
  get_elem?, set, drop, map, ltb, leb, if◌then◌else◌, Bool-cases, inl, inr, Bool, true, false,
  ltb→lt, ltb→le, lt→ltb, le→ltb, length-append, append_assoc, append-nil, arith,
}
use controller_project.Tree.{Name, ItemValue}
use controller_project.Tree.Text.{comma, semicolon, tokens}
use controller_project.Tree.Text.Tokens.{Pieces, joined, tokens-joined, Piece-joined}
use controller_project.Tree.Parse.{
  store_tokens, collect, has_room, set_name, set_value, fill_items, create_items,
}

-- A name and its value as text, without separators.
abbrev pub Item : Type 0
Item = Name × Name

abbrev pub texts : List Item → List Name
texts [] = []
texts ((n, v) ∷ is) = n ∷ v ∷ texts is

abbrev pub written : Item → Name
written (n, v) = joined comma (n ∷ v ∷ [])

abbrev pub Writable : Item → Type 0
Writable (n, v) = Pieces comma (n ∷ v ∷ []) × Pieces semicolon (n ∷ v ∷ [])

abbrev pub AllWritable : List Item → Type 0
AllWritable [] = Unit {0}
AllWritable (i ∷ is) = Writable i × AllWritable is

-- `name,value;name,value`
abbrev pub items_text : List Item → Name
items_text is = joined semicolon (map written is)

written-Pieces : (is : List Item) → AllWritable is → Pieces semicolon (map written is)
written-Pieces [] h = tt
written-Pieces ((n, v) ∷ is) h =
    (Piece-joined semicolon comma n (v ∷ []) refl h.0.1, written-Pieces is h.1)

store_cons :
    (p : List Name) (q : Name) (qs : List Name)
    → store_tokens p (q ∷ qs) ≡ (if ltb (length p) 40 then store_tokens (p ++ q ∷ []) qs else none)
unfolding store_tokens
store_cons p q qs = refl

-- All fit, or one is written behind the array.
store_tokens_lem :
    (p qs : List Name)
    → store_tokens p qs ≡ (if ltb (length p + length qs) 40 then some (p ++ qs) else none)
unfolding store_tokens
store_tokens_lem p [] = let e : length p + 0 ≡ length p = omega arith in rw (e, append-nil p) refl
store_tokens_lem p (q ∷ qs) =
    store_cons p q qs
    ∙ rw (store_tokens_lem (p ++ q ∷ []) qs, append_assoc p (q ∷ []) qs, length-append p (q ∷ []))
        (ground arith)

collect_cons :
    (p : List Name) (q : Name) (qs ss : List Name)
    → tokens comma q ≡ ss
    → length ss ≡ 2
    → collect p (q ∷ qs) ≡ (if ltb (length p + 2) 40 then collect (p ++ ss) qs else none)
unfolding collect
collect_cons p q qs ss e l = rw (e, store_tokens_lem p ss, l) (ground arith)

collect_items :
    (p : List Name) (is : List Item)
    → AllWritable is
    → collect p (map written is)
      ≡ (if ltb (length p + 2 * length is) 40 then some (p ++ texts is) else none)
collect_items p [] h =
    let e : length p + 0 ≡ length p = omega arith in rw (e, append-nil p) (unfold collect in refl)
collect_items p ((n, v) ∷ is) h =
    let pair = n ∷ v ∷ [] in
    collect_cons p (joined comma pair) (map written is) pair (tokens-joined comma pair h.0.0) refl
    ∙ rw (collect_items (p ++ pair) is h.1, append_assoc p pair (texts is), length-append p pair)
        (ground arith)

module _ {F : Type 0} (atof : Name → F) where
  abbrev pub measured : Item → ItemValue F
  measured (n, v) = record { name = some n; value = atof v }

module _ {F : Type 0} where
  get_elem?-append :
      (pre rest : List (ItemValue F)) (x : ItemValue F)
      → get_elem? (pre ++ x ∷ rest) (length pre) ≡ some x
  get_elem?-append [] rest x = refl
  get_elem?-append (y ∷ pre) rest x = get_elem?-append pre rest x

  set-append :
      (pre rest : List (ItemValue F)) (x y : ItemValue F)
      → set (pre ++ x ∷ rest) (length pre) y ≡ pre ++ y ∷ rest
  set-append [] rest x y = refl
  set-append (z ∷ pre) rest x y = ap (◌∷◌ z) (set-append pre rest x y)

  set_name_at :
      (usable : ℕ → ℕ) (pre rest : List (ItemValue F)) (x : ItemValue F) (n : Name)
      → has_room usable n ≡ true
      → set_name usable (pre ++ x ∷ rest) (length pre) n
        ≡ some (pre ++ record x { name = some n } ∷ rest)
  unfolding set_name
  set_name_at usable pre rest x n h =
      rw (set_name, h, get_elem?-append pre rest x)
        (ap some (set-append pre rest x (record x { name = some n })))

  set_value_at :
      (pre rest : List (ItemValue F)) (x : ItemValue F) (v : F)
      → set_value (pre ++ x ∷ rest) (length pre) v ≡ pre ++ record x { value = v } ∷ rest
  unfolding set_value
  set_value_at pre rest x v =
      rw (set_value, get_elem?-append pre rest x) (set-append pre rest x (record x { value = v }))

-- Whether the blocks of all names have room for them.
unfoldable pub named_room : (ℕ → ℕ) → List Item → Bool
named_room usable [] = true
named_room usable ((n, v) ∷ is) = if has_room usable n then named_room usable is else false

module _ {F : Type 0} (usable : ℕ → ℕ) (atof : Name → F) where
  fill_name :
      (j index : ℕ) (n : Name) (ps : List Name) (items items' : List (ItemValue F))
      → j % 2 ≡ 0
      → set_name usable items index n ≡ some items'
      → fill_items usable atof j index (n ∷ ps) items
        ≡ fill_items usable atof (j + 1) index ps items'
  unfolding fill_items
  fill_name j index n ps items items' e f = rw (e, fill_items, f) refl

  fill_no_room :
      (j index : ℕ) (n : Name) (ps : List Name) (items : List (ItemValue F))
      → j % 2 ≡ 0
      → has_room usable n ≡ false
      → fill_items usable atof j index (n ∷ ps) items ≡ none
  unfolding fill_items set_name
  fill_no_room j index n ps items e f = rw (e, fill_items, set_name, f) refl

  fill_value :
      (j index : ℕ) (v : Name) (ps : List Name) (items : List (ItemValue F))
      → j % 2 ≡ 1
      → index < 100
      → fill_items usable atof j index (v ∷ ps) items
        ≡ fill_items usable atof (j + 1) (index + 1) ps (set_value items index (atof v))
  unfolding fill_items
  fill_value j index v ps items e h = let k : leb 100 index ≡ false = ground arith in rw (e, k) refl

  fill_items-texts :
      (is : List Item) (j : ℕ) (pre rest : List (ItemValue F))
      → j % 2 ≡ 0
      → length pre + length is ≤ 100
      → length is ≤ length rest
      → fill_items usable atof j (length pre) (texts is) (pre ++ rest) ≡ (
          if named_room usable is
          then some (pre ++ (map (measured atof) is ++ drop (length is) rest))
          else none)
  unfolding named_room
  fill_items-texts [] j pre rest e h k = unfold fill_items in refl
  fill_items-texts ((n, v) ∷ is) j pre [] e h k = absurd (omega arith)
  fill_items-texts ((n, v) ∷ is) j pre (x ∷ rest) e h k = elim (Bool-cases (has_room usable n)) [
    | inr f ↦ rw f (fill_no_room j (length pre) n (v ∷ texts is) (pre ++ x ∷ rest) e f)
    | inl f ↦ rw f (
        let named = record x { name = some n } in
        let i : ItemValue F = measured atof (n, v) in
        let l = length-append pre (i ∷ []) in
        let run = fill_items usable atof in
        fill_name j (length pre) n (v ∷ texts is) (pre ++ x ∷ rest) (pre ++ named ∷ rest) e
          (set_name_at usable pre rest x n f)
        ∙ fill_value (j + 1) (length pre) v (texts is) (pre ++ named ∷ rest) (omega arith)
            (omega arith)
        ∙ ap (run (j + 1 + 1) (length pre + 1) (texts is)) (set_value_at pre rest named (atof v))
        ∙ ap₂ (λ m items. run (j + 1 + 1) m (texts is) items) (sym l)
            (sym (append_assoc pre (i ∷ []) rest))
        ∙ fill_items-texts is (j + 1 + 1) (pre ++ i ∷ []) rest (omega arith) (omega arith)
            (omega arith)
        ∙ ap (λ z. if named_room usable is then some z else none)
            (append_assoc pre (i ∷ []) (map (measured atof) is ++ drop (length is) rest)))
  ]

  -- The text of at most 19 pairs of a name and a value, both without separators, fills the first
  -- items and keeps the others, when the block of each name has room for its closing `0`; otherwise,
  -- and with 20 or more pairs, `create_items` writes behind a block or behind its 40 pointers.
  pub create_items_lem :
      (items : List (ItemValue F)) (is : List Item)
      → AllWritable is
      → 20 ≤ length items
      → create_items usable atof items (items_text is) ≡ (
          if ltb (length is) 20
          then (if named_room usable is
              then some (map (measured atof) is ++ drop (length is) items)
              else none)
          else none)
  unfolding create_items
  create_items_lem items is h k =
      rw
        (
          create_items,
          tokens-joined semicolon (map written is) (written-Pieces is h),
          collect_items [] is h,
        )
        (elim (Bool-cases (ltb (length is) 20)) [
          | inl e ↦
              let l = ltb→lt (length is) 20 e in
              rw (e, lt→ltb (0 + 2 * length is) 40 (omega arith))
                (fill_items-texts is 0 [] items refl (omega arith) (omega arith))
          | inr e ↦
              let l = ltb→le (length is) 20 e in
              rw (e, le→ltb (0 + 2 * length is) 40 (omega arith)) refl
        ])
