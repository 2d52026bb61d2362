-- ===== src/Tree/Parse/RoundTrip.antt =====
-- `init_linger` (create_tree/createtree.c) on the text of a tree.
use controller_project.Base.{ℕ, ◌<◌, ◌^◌, ◌≡◌, refl, List, [], ◌∷◌, some, map, arith}
use controller_project.Tree.{Name, RawData}
use controller_project.Tree.Text.{bar, comma}
use controller_project.Tree.Text.Tokens.{Free, Piece, Pieces, joined, tokens-joined, Piece-joined}
use controller_project.Tree.Text.Digits.{
  decimal, atoi-decimal, Piece-decimal_above, Piece-decimal_below,
}
use controller_project.Tree.Parse.{Row, named_rows, blank, read_row, set_fields, build, init_linger}

-- The five fields of a row whose value is still text.
abbrev pub fields : RawData Name → List Name
fields r = decimal r.father ∷ decimal r.itself ∷ r.name ∷ r.value ∷ decimal r.class ∷ []

abbrev pub line : RawData Name → Name
line r = joined comma (fields r)

-- A row that can be written down: numbers of an `int`, a name and a value without separators.
pub record Printable (r : RawData Name) : Type 0 where
  pub father : r.father < 2 ^ 31
  pub itself : r.itself < 2 ^ 31
  pub class : r.class < 2 ^ 31
  pub name : Piece comma r.name
  pub value : Piece comma r.value
  pub name_free : Free bar r.name
  pub value_free : Free bar r.value

abbrev pub AllPrintable : List (RawData Name) → Type 0
AllPrintable [] = Unit {0}
AllPrintable (r ∷ rs) = Printable r × AllPrintable rs

module _ {F : Type 0} (atof : Name → F) where
  abbrev pub read_value : RawData Name → RawData F
  read_value r = record {
    father = r.father;
    itself = r.itself;
    name = r.name;
    value = atof r.value;
    class = r.class;
  }

module _ (r : RawData Name) (h : Printable r) where
  fields-comma : Pieces comma (fields r)
  fields-comma =
      let last : Pieces comma (decimal r.class ∷ []) =
        (Piece-decimal_below comma r.class (omega arith), tt) in
      (
        Piece-decimal_below comma r.father (omega arith),
        (Piece-decimal_below comma r.itself (omega arith), (h.name, (h.value, last))),
      )

  fields-bar : Pieces bar (fields r)
  fields-bar =
      let last : Pieces bar (decimal r.class ∷ []) =
        (Piece-decimal_above bar r.class (omega arith), tt) in
      let value : Pieces bar (r.value ∷ decimal r.class ∷ []) = ((h.value.0, h.value_free), last) in
      (
        Piece-decimal_above bar r.father (omega arith),
        (Piece-decimal_above bar r.itself (omega arith), ((h.name.0, h.name_free), value)),
      )

  line-Piece : Piece bar (line r)
  line-Piece =
      Piece-joined bar comma (decimal r.father)
        (decimal r.itself ∷ r.name ∷ r.value ∷ decimal r.class ∷ []) refl fields-bar

module _ {F : Type 0} (atof : Name → F) (none_value zero_value : F) where
  abbrev read : RawData Name → Row F
  read r = record {
    father = r.father;
    itself = r.itself;
    name = some r.name;
    value = atof r.value;
    class = r.class;
  }

  set_fields-fields :
      (r : RawData Name)
      → Printable r
      → set_fields atof 0 (fields r) (blank atof none_value zero_value) ≡ read r
  unfolding set_fields
  set_fields-fields r h =
      rw
        (
          atoi-decimal r.father (omega (arith, h.father)),
          atoi-decimal r.itself (omega (arith, h.itself)),
          atoi-decimal r.class (omega (arith, h.class)),
        )
        refl

  read_row-line :
      (r : RawData Name) → Printable r → read_row atof none_value zero_value (line r) ≡ read r
  unfolding read_row
  read_row-line r h = rw (tokens-joined comma (fields r) (fields-comma r h)) (set_fields-fields r h)

  named_rows-lines :
      (rs : List (RawData Name))
      → AllPrintable rs
      → named_rows (map (read_row atof none_value zero_value) (map line rs))
        ≡ some (map (read_value atof) rs)
  unfolding named_rows
  named_rows-lines [] h = refl
  named_rows-lines (r ∷ rs) h = rw (read_row-line r h.0, named_rows-lines rs h.1) refl

  lines-Pieces : (rs : List (RawData Name)) → AllPrintable rs → Pieces bar (map line rs)
  lines-Pieces [] h = tt
  lines-Pieces (r ∷ rs) h = (line-Piece r h.0, lines-Pieces rs h.1)

  pub init_linger_rows :
      (usable : ℕ → ℕ) (rs : List (RawData Name)) (item : Name)
      → AllPrintable rs
      → init_linger usable atof none_value zero_value [] (joined bar (map line rs)) item
        ≡ build usable atof none_value zero_value (map (read_value atof) rs) item
  unfolding init_linger
  init_linger_rows usable rs item h =
      rw (init_linger, tokens-joined bar (map line rs) (lines-Pieces rs h), named_rows-lines rs h)
        refl
