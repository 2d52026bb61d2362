-- ===== src/Receiver/Format/Order.antt =====
-- The lists of computed values (`format_data`, EXP/receive.c) stay ordered by their seconds.
use controller_project.Base.{
  ℕ, zero, suc, ◌≤◌, ◌<◌, ◌≡◌, ◌≢◌, refl, ap, ◌∙◌, List, [], ◌∷◌, ◌++◌, true, Option, none, some,
  length, get_elem?, take, drop, ltb, leb, ltb→lt, ltb→le, if◌then◌else◌, Bool-cases, inl, inr,
  length-append, length-take, arith,
}
use controller_project.Receiver.Format.{
  Timed, Buffer, no_buffer, not_before, position, insert_after, insert_at, insert,
}

module _ {D : Type 0} where
  -- No element is of an earlier second than the one before it, nor than `n`.
  abbrev pub Ordered : ℕ → List (Timed D) → Type 0
  Ordered n [] = Unit {0}
  Ordered n (q ∷ qs) = (n ≤ q.sec) × Ordered q.sec qs

  -- What holds of a list that has an element.
  pub record Inv (b : Buffer D) : Type 0 where
    pub ordered : Ordered 0 b.items
    pub l : ℕ
    pub last : b.last ≡ some l
    pub inside : l < length b.items

  none-some : (p : Timed D) → none ≢ some p
  none-some p e = cc

  length-between :
      (i : ℕ) (items : List (Timed D)) (x : Timed D)
      → length (take i items ++ x ∷ drop i items) ≡ suc (length items)
  length-between zero items x = refl
  length-between (suc i) [] x = refl
  length-between (suc i) (q ∷ qs) x = ap suc (length-between i qs x)

  sec_of : ℕ → Option (Timed D) → ℕ
  sec_of d none = d
  sec_of d (some p) = p.sec

  Ordered-behind :
      (items : List (Timed D)) (n l : ℕ) (p x : Timed D)
      → Ordered n items
      → get_elem? items l ≡ some p
      → p.sec ≤ x.sec
      → Ordered n (take (suc l) items ++ x ∷ [])
  unfolding sec_of
  Ordered-behind [] n l p x o e h = absurd (none-some p e)
  Ordered-behind (q ∷ qs) n zero p x o e h =
      let same : q.sec ≡ p.sec = ap (λ y. sec_of q.sec y) e in (o.0, (omega arith, tt))
  Ordered-behind (q ∷ qs) n (suc l) p x o e h = (o.0, Ordered-behind qs q.sec l p x o.1 e h)

  Ordered-position :
      (items : List (Timed D)) (n : ℕ) (x : Timed D)
      → Ordered n items
      → n ≤ x.sec
      → let i = position x.sec items in Ordered n (take i items ++ x ∷ drop i items)
  unfolding position
  Ordered-position [] n x o h = (h, tt)
  Ordered-position (q ∷ qs) n x o h = elim (Bool-cases (ltb x.sec q.sec)) [
    | inl e ↦ rw e (h, (omega (arith, ltb→lt x.sec q.sec e), o.1))
    | inr e ↦ rw e (o.0, Ordered-position qs q.sec x o.1 (ltb→le x.sec q.sec e))
  ]

  get_elem?-some :
      (items : List (Timed D)) (l : ℕ)
      → l < length items
      → (p : Timed D) × (get_elem? items l ≡ some p)
  get_elem?-some [] l h = absurd (omega arith)
  get_elem?-some (q ∷ qs) zero h = (q, refl)
  get_elem?-some (q ∷ qs) (suc l) h = get_elem?-some qs l (omega arith)

  position_le : (sec : ℕ) (items : List (Timed D)) → position sec items ≤ length items
  unfolding position
  position_le sec [] = omega arith
  position_le sec (q ∷ qs) = ground (arith, position_le sec qs)

  insert_after-Inv :
      (items : List (Timed D)) (l : ℕ) (p x : Timed D)
      → Ordered 0 items
      → get_elem? items l ≡ some p
      → not_before p x ≡ true
      → l < length items
      → Inv (insert_after items l x)
  unfolding insert_after not_before
  insert_after-Inv items l p x o e h k =
      let behind = length-append (take (suc l) items) (x ∷ []) in
      record {
        ordered = Ordered-behind items 0 l p x o e (ground (arith, h));
        l = suc l;
        last = refl;
        inside = omega (arith, behind, length-take (suc l) items);
      }

  insert_at-Inv :
      (items : List (Timed D)) (l i : ℕ) (x : Timed D)
      → Ordered 0 items
      → Ordered 0 (take i items ++ x ∷ drop i items)
      → i ≤ length items
      → l < length items
      → Inv (insert_at items l i x)
  unfolding insert_at
  insert_at-Inv items l zero x o o' h k = record { ordered = o; l = l; last = refl; inside = k }
  insert_at-Inv items l (suc i) x o o' h k =
      let more = length-between (suc i) items x in
      elim (Bool-cases (leb (suc i) l)) [
        | inl e ↦ record { ordered = o'; l = suc l; last = rw e refl; inside = omega (arith, more) }
        | inr e ↦ record { ordered = o'; l = l; last = rw e refl; inside = omega (arith, more) }
      ]

  pub insert_here :
      (q : Timed D) (qs : List (Timed D)) (l : ℕ) (p x : Timed D)
      → get_elem? (q ∷ qs) l ≡ some p
      → insert (record { items = q ∷ qs; last = some l }) x ≡ (
          if not_before p x
          then some (insert_after (q ∷ qs) l x)
          else some (insert_at (q ∷ qs) l (position x.sec (q ∷ qs)) x))
  unfolding insert
  insert_here q qs l p x e = rw (insert, e) refl

  pub insert_nil :
      (last : Option ℕ) (x : Timed D)
      → insert (record { items = []; last = last }) x
        ≡ some (record { items = x ∷ []; last = some 0 })
  unfolding insert
  insert_nil last x = refl

  -- Putting an element into an ordered list whose last element is not freed.
  insert-Ordered :
      (items : List (Timed D)) (l : ℕ) (x : Timed D)
      → Ordered 0 items
      → l < length items
      → (c : Buffer D) × (insert (record { items = items; last = some l }) x ≡ some c) × Inv c
  insert-Ordered [] l x o h = absurd (omega arith)
  insert-Ordered (q ∷ qs) l x o h =
      let (p, e) = get_elem?-some (q ∷ qs) l h in
      let i = position x.sec (q ∷ qs) in
      elim (Bool-cases (not_before p x)) [
        | inl n ↦ (
          insert_after (q ∷ qs) l x,
          insert_here q qs l p x e ∙ rw n refl,
          insert_after-Inv (q ∷ qs) l p x o e n h,
        )
        | inr n ↦ (
          insert_at (q ∷ qs) l i x,
          insert_here q qs l p x e ∙ rw n refl,
          insert_at-Inv (q ∷ qs) l i x o (Ordered-position (q ∷ qs) 0 x o (omega arith))
              (position_le x.sec (q ∷ qs)) h,
        )
      ]

  pub insert-Inv :
      (b : Buffer D) (x : Timed D) → Inv b → (c : Buffer D) × (insert b x ≡ some c) × Inv c
  insert-Inv b x v =
      let (c, e, w) = insert-Ordered b.items v.l x v.ordered v.inside in
      (c, ap (λ last. insert (record { items = b.items; last = last }) x) v.last ∙ e, w)

  -- The elements of many rounds, one after the other.
  unfoldable pub insert_all : Buffer D → List (Timed D) → Option (Buffer D)
  unfolding insert
  insert_all b [] = some b
  insert_all b (x ∷ xs) = elim (insert b x) [ none ↦ none | some c ↦ insert_all c xs ]

  insert_next :
      (b c : Buffer D) (x : Timed D) (xs : List (Timed D))
      → insert b x ≡ some c
      → insert_all b (x ∷ xs) ≡ insert_all c xs
  unfolding insert_all
  insert_next b c x xs e = rw (insert_all, e) refl

  insert_all-Inv :
      (b : Buffer D) (xs : List (Timed D))
      → Inv b
      → (c : Buffer D) × (insert_all b xs ≡ some c) × Inv c
  insert_all-Inv b [] v = (b, (unfold insert_all in refl), v)
  insert_all-Inv b (x ∷ xs) v =
      let (c, e, w) = insert-Inv b x v in
      let (d, f, u) = insert_all-Inv c xs w in (d, insert_next b c x xs e ∙ f, u)

  -- Computed values put into the empty list, in any order of their times, never use a freed element,
  -- and leave a list that is ordered by the seconds, in which the pointer to the last element is valid.
  pub insert_all_lem :
      (x : Timed D) (xs : List (Timed D))
      → (c : Buffer D) × (insert_all no_buffer (x ∷ xs) ≡ some c) × Inv c
  insert_all_lem x xs =
      let first : Buffer D = record { items = x ∷ []; last = some 0 } in
      let v : Inv first = record {
        ordered = (omega arith, tt);
        l = 0;
        last = refl;
        inside = omega arith;
      } in
      let (c, e, w) = insert_all-Inv first xs v in
      (c, insert_next no_buffer first x xs (insert_nil none x) ∙ e, w)
