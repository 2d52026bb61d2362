-- ===== src/Receiver/Format/Search.antt =====
-- The search for a time in a list of computed values (`format_data`, EXP/receive.c), and the
-- elements that it frees.
use controller_project.Base.{
  ℕ, zero, suc, ◌+◌, ◌≤◌, ◌<◌, ◌≡◌, refl, ◌∙◌, List, [], ◌∷◌, ◌⊎◌, inl, inr, false, drop,
  Bool-cases, arith,
}
use controller_project.Receiver.Flows.{TimeStructure}
use controller_project.Receiver.Format.{
  Timed, Buffer, reached, old, keep, wait_to_del, del_before, look,
}

-- A time that is not before another.
abbrev pub Later : TimeStructure → TimeStructure → Type 0
Later s t = (s.sec < t.sec) ⊎ ((s.sec ≡ t.sec) × (s.usec ≤ t.usec))

module _ {D : Type 0} where
  reached-Later :
      (s t : TimeStructure) (q : Timed D) → Later s t → reached s q ≡ false → reached t q ≡ false
  unfolding reached
  reached-Later s t q h e = ground (arith, h, e)

  -- The elements before the `k`-th are not reached by a time.
  abbrev Passed : TimeStructure → ℕ → List (Timed D) → Type 0
  Passed tp zero items = Unit {0}
  Passed tp (suc k) [] = Unit {0}
  Passed tp (suc k) (q ∷ qs) = (reached tp q ≡ false) × Passed tp k qs

  -- The place found is the one from before, or that of an element behind passed ones.
  abbrev Found : TimeStructure → List (Timed D) → (i wait found : ℕ) → Type 0
  Found tp items i wait found = (found ≡ wait) ⊎ ((k : ℕ) × (found ≡ i + k) × Passed tp k items)

  behind :
      (tp : TimeStructure) (q : Timed D) (qs : List (Timed D)) (i wait found : ℕ)
      → reached tp q ≡ false
      → Found tp qs (i + 1) wait found
      → Found tp (q ∷ qs) i wait found
  behind tp q qs i wait found r (inl e) = inl e
  behind tp q qs i wait found r (inr (k, e, p)) = inr (suc k, omega (arith, e), (r, p))

  at_head :
      (tp : TimeStructure) (q : Timed D) (qs : List (Timed D)) (i wait found : ℕ)
      → reached tp q ≡ false
      → Found tp qs (i + 1) i found
      → Found tp (q ∷ qs) i wait found
  at_head tp q qs i wait found r (inl e) = inr (0, omega (arith, e), tt)
  at_head tp q qs i wait found r (inr (k, e, p)) = inr (suc k, omega (arith, e), (r, p))

  Found-wait_to_del :
      (tp : TimeStructure) (items : List (Timed D)) (i wait : ℕ)
      → Found tp items i wait (wait_to_del tp items i wait)
  unfolding wait_to_del
  Found-wait_to_del tp [] i wait = inl refl
  Found-wait_to_del tp (q ∷ qs) i wait = elim (Bool-cases (reached tp q)) [
    | inl r ↦ rw r (inl refl)
    | inr r ↦ elim (Bool-cases (old tp q)) [
      | inl o ↦
          rw (r, o)
            (at_head tp q qs i wait (wait_to_del tp qs (i + 1) i) r
              (Found-wait_to_del tp qs (i + 1) i))
      | inr o ↦
          rw (r, o)
            (behind tp q qs i wait (wait_to_del tp qs (i + 1) wait) r
              (Found-wait_to_del tp qs (i + 1) wait))
    ]
  ]

  Passed-wait_to_del :
      (tp : TimeStructure) (items : List (Timed D)) → Passed tp (wait_to_del tp items 0 0) items
  Passed-wait_to_del tp items = elim (Found-wait_to_del tp items 0 0) [
    | inl e ↦ rw e tt
    | inr (k, e, p) ↦ let z : wait_to_del tp items 0 0 ≡ k = e ∙ omega arith in rw z p
  ]

  keep-drop :
      (s t : TimeStructure) (k : ℕ) (items : List (Timed D))
      → Later s t
      → Passed s k items
      → keep t (drop k items) ≡ keep t items
  unfolding keep
  keep-drop s t zero items h p = refl
  keep-drop s t (suc k) [] h p = refl
  keep-drop s t (suc k) (q ∷ qs) h p =
      keep-drop s t k qs h p.1 ∙ rw (reached-Later s t q h p.0) refl

  -- Freeing the old elements before a time changes no search for that time or a later one.
  pub keep-look :
      (s t : TimeStructure) (b : Buffer D) → Later s t → keep t (look s b).items ≡ keep t b.items
  unfolding look del_before
  keep-look s t b h =
      keep-drop s t (wait_to_del s b.items 0 0) b.items h (Passed-wait_to_del s b.items)
