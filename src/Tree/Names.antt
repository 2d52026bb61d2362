-- ===== src/Tree/Names.antt =====
-- `get_parameters` (create_tree/createtree.c): the names that the tree asks for.
use controller_project.Base.{
  ◌+◌, ◌≤◌, ◌≡◌, refl, ◌∙◌, List, [], ◌∷◌, ◌++◌, true, false, some, length, lt→ltb, ==_refl,
  if◌then◌else◌, Bool-cases, inl, inr, length-append, arith,
}
use controller_project.Tree.{
  Name, equal, leaf, RawData, member, get_parameters_loop, get_parameters,
}

equal_refl : (n : Name) → equal n n ≡ true
unfolding equal
equal_refl [] = refl
equal_refl (c ∷ n) = rw (==_refl c) (equal_refl n)

-- No name stands twice.
abbrev pub Once : List Name → Type 0
Once [] = Unit {0}
Once (n ∷ ns) = (member n ns ≡ false) × Once ns

member-append :
    (n : Name) (xs ys : List Name)
    → member n (xs ++ ys) ≡ (if member n xs then true else member n ys)
unfolding member
member-append n [] ys = refl
member-append n (x ∷ xs) ys = elim (Bool-cases (equal x n)) [
  | inl e ↦ rw e
  | inr e ↦ rw e (member-append n xs ys)
]

equal_comm : (m n : Name) → equal m n ≡ equal n m
unfolding equal
equal_comm [] [] = refl
equal_comm [] (d ∷ n) = refl
equal_comm (c ∷ m) [] = refl
equal_comm (c ∷ m) (d ∷ n) = rw (equal_comm m n) (ground arith)

Once-snoc : (n : Name) (ns : List Name) → Once ns → member n ns ≡ false → Once (ns ++ n ∷ [])
unfolding member
Once-snoc n [] o h = (refl, tt)
Once-snoc n (m ∷ ns) o h =
    let c = equal_comm n m in
    (
      member-append m ns (n ∷ []) ∙ ground (arith, o.0, h, c),
      Once-snoc n ns o.1 (ground (arith, h)),
    )

member-snoc : (n : Name) (ns : List Name) → member n (ns ++ n ∷ []) ≡ true
unfolding member
member-snoc n ns = member-append n ns (n ∷ []) ∙ rw (equal_refl n) (ground arith)

module _ {F : Type 0} where
  -- Every row is a leaf or has its name in the list.
  abbrev pub Listed : List (RawData F) → List Name → Type 0
  Listed [] ps = Unit {0}
  Listed (r ∷ rs) ps =
      ((if equal r.name leaf then true else member r.name ps) ≡ true) × Listed rs ps

  -- What the loop makes of the slots filled so far.
  record Result (rs : List (RawData F)) (tmp : List Name) : Type 0 where
    ps : List Name
    result : get_parameters_loop rs tmp ≡ some ps
    listed : Listed rs ps
    once : Once ps
    kept : (n : Name) → member n tmp ≡ true → member n ps ≡ true

  loop_lem :
      (rs : List (RawData F)) (tmp : List Name)
      → length tmp + length rs ≤ 80
      → Once tmp
      → Result rs tmp
  unfolding get_parameters_loop
  loop_lem [] tmp h o = record { ps = tmp; result = refl; listed = tt; once = o; kept = λ n e. e }
  loop_lem (r ∷ rs) tmp h o = elim (Bool-cases (equal r.name leaf)) [
    | inl e ↦
        let i = loop_lem rs tmp (omega arith) o in
        record {
          ps = i.ps;
          result = rw e i.result;
          listed = (rw e refl, i.listed);
          once = i.once;
          kept = i.kept;
        }
    | inr e ↦ elim (Bool-cases (member r.name tmp)) [
      | inl f ↦
          let i = loop_lem rs tmp (omega arith) o in
          record {
            ps = i.ps;
            result = rw (e, f) i.result;
            listed = (rw e (i.kept r.name f), i.listed);
            once = i.once;
            kept = i.kept;
          }
      | inr f ↦
          let more = tmp ++ r.name ∷ [] in
          let i =
            loop_lem rs more (omega (arith, length-append tmp (r.name ∷ [])))
              (Once-snoc r.name tmp o f) in
          record {
            ps = i.ps;
            result = rw (e, f, lt→ltb (length tmp) 80 (omega arith)) i.result;
            listed = (rw e (i.kept r.name (member-snoc r.name tmp)), i.listed);
            once = i.once;
            kept = λ n g. i.kept n (member-append n tmp (r.name ∷ []) ∙ rw g refl);
          }
    ]
  ]

  -- A chain of at most 80 rows never runs out of slots, every row but the leaves finds its name in
  -- the result, and no name stands there twice.
  pub get_parameters_lem :
      (rs : List (RawData F))
      → length rs ≤ 80
      → (ps : List Name) × (get_parameters rs ≡ some ps) × Listed rs ps × Once ps
  unfolding get_parameters
  get_parameters_lem rs h =
      let i = loop_lem rs [] (omega (arith, h)) tt in (i.ps, i.result, i.listed, i.once)
