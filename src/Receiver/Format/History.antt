-- ===== src/Receiver/Format/History.antt =====
-- The lists of computed values (`format_data`, EXP/receive.c) against the history of all values.
use controller_project.Base.{
  ℕ, zero, suc, ◌+◌, ◌-◌, ◌≤◌, ◌<◌, ◌≡◌, refl, sym, ap, ap₂, ◌∙◌, List, [], ◌∷◌, ◌++◌, inl, inr,
  true, Option, none, some, length, get_elem?, take, drop, le→leb, Bool-cases, append_assoc,
  append-nil, length-append, arith,
}
use controller_project.Receiver.Flows.{TimeStructure}
use controller_project.Receiver.Format.{
  Timed, Buffer, not_before, insert_after, insert, reached, keep, wait_to_del, del_before, look,
}
use controller_project.Receiver.Format.Order.{insert_here}
use controller_project.Receiver.Format.Search.{Later, keep-look}

-- What happens to one of the lists: a new value, or the search for a time.
pub data Action (D : Type 0) : Type 0 where
  value : Timed D → Action D
  search_for : TimeStructure → Action D

module _ {D : Type 0} where
  unfoldable pub run : Buffer D → List (Action D) → Option (Buffer D)
  unfolding insert look
  run b [] = some b
  run b (value x ∷ es) = elim (insert b x) [ none ↦ none | some c ↦ run c es ]
  run b (search_for tp ∷ es) = run (look tp b) es

  abbrev pub values : List (Action D) → List (Timed D)
  values [] = []
  values (value x ∷ es) = x ∷ values es
  values (search_for tp ∷ es) = values es

  -- The values come in the order of their times, the first not before `p`.
  abbrev pub InOrder : Timed D → List (Action D) → Type 0
  InOrder p [] = Unit {0}
  InOrder p (value x ∷ es) = (not_before p x ≡ true) × InOrder x es
  InOrder p (search_for tp ∷ es) = InOrder p es

  -- No search is for a later time than `t`.
  abbrev pub NotAfter : TimeStructure → List (Action D) → Type 0
  NotAfter t [] = Unit {0}
  NotAfter t (value x ∷ es) = NotAfter t es
  NotAfter t (search_for tp ∷ es) = Later tp t × NotAfter t es

  -- The list ends with `p`, and the pointer to the last element is right.
  pub record Tail (b : Buffer D) (p : Timed D) : Type 0 where
    pub front : List (Timed D)
    pub items : b.items ≡ front ++ p ∷ []
    pub last : b.last ≡ some (length front)

  get_elem?-last :
      (front : List (Timed D)) (p : Timed D) → get_elem? (front ++ p ∷ []) (length front) ≡ some p
  get_elem?-last [] p = refl
  get_elem?-last (q ∷ qs) p = get_elem?-last qs p

  take-all :
      (front : List (Timed D)) (p : Timed D)
      → take (suc (length front)) (front ++ p ∷ []) ≡ front ++ p ∷ []
  take-all [] p = refl
  take-all (q ∷ qs) p = ap (◌∷◌ q) (take-all qs p)

  insert_last :
      (front : List (Timed D)) (p x : Timed D)
      → not_before p x ≡ true
      → insert (record { items = front ++ p ∷ []; last = some (length front) }) x
        ≡ some (record { items = (front ++ p ∷ []) ++ x ∷ []; last = some (suc (length front)) })
  unfolding insert_after
  insert_last [] p x h = insert_here p [] 0 p x refl ∙ rw h refl
  insert_last (q ∷ qs) p x h =
      insert_here q (qs ++ p ∷ []) (suc (length qs)) p x (get_elem?-last qs p)
      ∙ rw h (rw (take-all qs p) refl)

  insert-Tail :
      (b : Buffer D) (p x : Timed D)
      → Tail b p
      → not_before p x ≡ true
      → (c : Buffer D) × (insert b x ≡ some c) × (c.items ≡ b.items ++ x ∷ []) × Tail c x
  insert-Tail b p x t h =
      let c : Buffer D = record {
        items = (t.front ++ p ∷ []) ++ x ∷ [];
        last = some (suc (length t.front));
      } in
      let l = length-append t.front (p ∷ []) in
      (
        c,
        ap₂ (λ items last. insert (record { items = items; last = last }) x) t.items t.last
            ∙ insert_last t.front p x h,
        ap (λ items. items ++ x ∷ []) (sym t.items),
        record { front = t.front ++ p ∷ []; items = refl; last = ap some (omega arith) },
      )

  wait_lt :
      (tp : TimeStructure) (items : List (Timed D)) (i wait : ℕ)
      → wait < i
      → wait_to_del tp items i wait < i + length items
  unfolding wait_to_del
  wait_lt tp [] i wait h = omega arith
  wait_lt tp (q ∷ qs) i wait h =
      let deleted = wait_lt tp qs (i + 1) i (omega arith) in
      let rest = wait_lt tp qs (i + 1) wait (omega arith) in ground (arith, deleted, rest)

  wait_first :
      (tp : TimeStructure) (q : Timed D) (qs : List (Timed D))
      → wait_to_del tp (q ∷ qs) 0 0 ≤ length qs
  unfolding wait_to_del
  wait_first tp q qs = let rest = wait_lt tp qs 1 0 (omega arith) in ground (arith, rest)

  wait_le :
      (tp : TimeStructure) (front : List (Timed D)) (p : Timed D)
      → wait_to_del tp (front ++ p ∷ []) 0 0 ≤ length front
  wait_le tp [] p = wait_first tp p []
  wait_le tp (q ∷ qs) p = omega (arith, wait_first tp q (qs ++ p ∷ []), length-append qs (p ∷ []))

  drop-front :
      (k : ℕ) (front : List (Timed D)) (p : Timed D)
      → k ≤ length front
      → drop k (front ++ p ∷ []) ≡ drop k front ++ p ∷ []
  drop-front zero front p h = refl
  drop-front (suc k) [] p h = absurd (omega arith)
  drop-front (suc k) (q ∷ qs) p h = drop-front k qs p (omega arith)

  length-drop : (k : ℕ) (front : List (Timed D)) → length (drop k front) ≡ length front - k
  length-drop zero front = omega arith
  length-drop (suc k) [] = omega arith
  length-drop (suc k) (q ∷ qs) = omega (arith, length-drop k qs)

  look-Tail : (b : Buffer D) (p : Timed D) (tp : TimeStructure) → Tail b p → Tail (look tp b) p
  unfolding look del_before
  look-Tail b p tp t =
      let k = wait_to_del tp b.items 0 0 in
      let h : k ≤ length t.front = rw t.items (wait_le tp t.front p) in
      record {
        front = drop k t.front;
        items = ap (drop k) t.items ∙ drop-front k t.front p h;
        last = rw (t.last, le→leb k (length t.front) h) (ap some (sym (length-drop k t.front)));
      }

  or_else : Option (Timed D) → Option (Timed D) → Option (Timed D)
  or_else none d = d
  or_else (some q) d = some q

  keep-append :
      (t : TimeStructure) (xs zs : List (Timed D))
      → keep t (xs ++ zs) ≡ or_else (keep t xs) (keep t zs)
  unfolding keep or_else
  keep-append t [] zs = refl
  keep-append t (x ∷ xs) zs = elim (Bool-cases (reached t x)) [
    | inl r ↦ rw r refl
    | inr r ↦ rw r (keep-append t xs zs)
  ]

  -- Lists that answer alike do so with the same values behind them.
  keep-front :
      (t : TimeStructure) (xs ys zs : List (Timed D))
      → keep t xs ≡ keep t ys
      → keep t (xs ++ zs) ≡ keep t (ys ++ zs)
  keep-front t xs ys zs e =
      keep-append t xs zs ∙ ap (λ o. or_else o (keep t zs)) e ∙ sym (keep-append t ys zs)

  run_value :
      (b c : Buffer D) (x : Timed D) (es : List (Action D))
      → insert b x ≡ some c
      → run b (value x ∷ es) ≡ run c es
  unfolding run
  run_value b c x es e = rw (run, e) refl

  run_search :
      (b : Buffer D) (tp : TimeStructure) (es : List (Action D))
      → run b (search_for tp ∷ es) ≡ run (look tp b) es
  unfolding run
  run_search b tp es = refl

  -- When the values come in the order of their times, a list that ends with its last value is never
  -- used after its end is freed, and after any searches up to the time `t` it answers a search for
  -- `t` as the list of all values would.
  pub run_lem :
      (b : Buffer D) (p : Timed D) (es : List (Action D)) (t : TimeStructure)
      → Tail b p
      → InOrder p es
      → NotAfter t es
      → (c : Buffer D) × (run b es ≡ some c) × (keep t c.items ≡ keep t (b.items ++ values es))
  run_lem b p [] t v o n = (b, (unfold run in refl), ap (keep t) (sym (append-nil b.items)))
  run_lem b p (value x ∷ es) t v o n =
      let (c, e, i, w) = insert-Tail b p x v o.0 in
      let (d, f, k) = run_lem c x es t w o.1 n in
      (
        d,
        run_value b c x es e ∙ f,
        k ∙ ap (keep t) (ap (λ l. l ++ values es) i ∙ append_assoc b.items (x ∷ []) (values es)),
      )
  run_lem b p (search_for tp ∷ es) t v o n =
      let c = look tp b in
      let (d, f, k) = run_lem c p es t (look-Tail b p tp v) o n.1 in
      (
        d,
        run_search b tp es ∙ f,
        k ∙ keep-front t c.items b.items (values es) (keep-look tp t b n.0),
      )
