-- ===== src/Sender/Collect/Marks.antt =====
-- The time marks of sendudp/sendudp.c: which entries of a driver's list are written.
use controller_project.Base.{
  ◌+◌, ◌≡◌, refl, ap, ◌∙◌, List, [], ◌∷◌, map, length, true, false, if◌then◌else◌, Bool-cases, inl,
  inr, arith,
}
use controller_project.Sender.Buffer.Framing.{write_all}
use controller_project.Sender.Collect.{
  Mark, Message, message_bytes, Progress, is_new, write_new, write_list,
}

module _ {X : Type 0} (time_of : X → Mark) where
  -- The entries that are later than the mark and than every entry before them.
  unfoldable pub fresh : Mark → List X → List X
  fresh m [] = []
  fresh m (x ∷ xs) =
      let later = fresh (time_of x) xs in
      let rest = fresh m xs in if is_new m (time_of x) then x ∷ later else rest

  -- Times strictly increase, from the mark on.
  abbrev pub Ascending : Mark → List X → Type 0
  Ascending m [] = Unit {0}
  Ascending m (x ∷ xs) = (is_new m (time_of x) ≡ true) × Ascending (time_of x) xs

  -- No entry is later than the mark.
  abbrev pub NoneNew : Mark → List X → Type 0
  NoneNew m [] = Unit {0}
  NoneNew m (x ∷ xs) = (is_new m (time_of x) ≡ false) × NoneNew m xs

is_new_irrefl : (m : Mark) → is_new m m ≡ false
unfolding is_new
is_new_irrefl m = ground arith

is_new_asymm : (m n : Mark) → is_new m n ≡ true → is_new n m ≡ false
unfolding is_new
is_new_asymm m n h = ground arith

is_new_trans : (l m n : Mark) → is_new l m ≡ false → is_new m n ≡ false → is_new l n ≡ false
unfolding is_new
is_new_trans l m n h g = ground arith

module _ {X : Type 0} (time_of : X → Mark) (message : X → Message) where
  step_grows : (x : X) (p : Progress) → is_new (write_new time_of message x p).mark p.mark ≡ false
  unfolding write_new
  step_grows x p = elim (Bool-cases (is_new p.mark (time_of x))) [
    | inl e ↦ rw e (is_new_asymm p.mark (time_of x) e)
    | inr e ↦ rw e (is_new_irrefl p.mark)
  ]

  step_none :
      (x : X) (p : Progress) → is_new (write_new time_of message x p).mark (time_of x) ≡ false
  unfolding write_new
  step_none x p = elim (Bool-cases (is_new p.mark (time_of x))) [
    | inl e ↦ rw e (is_new_irrefl (time_of x))
    | inr e ↦ rw (e, e)
  ]

  step_fresh :
      (x : X) (xs : List X) (p : Progress)
      → (write_all (write_new time_of message x p).out (
            map
              (λ y. message_bytes (message y))
              (fresh time_of (write_new time_of message x p).mark xs))
          ≡ write_all p.out (map (λ y. message_bytes (message y)) (fresh time_of p.mark (x ∷ xs))))
        × ((write_new time_of message x p).drop_c
              + length (fresh time_of (write_new time_of message x p).mark xs)
            ≡ p.drop_c + length (fresh time_of p.mark (x ∷ xs)))
  unfolding write_new fresh write_all
  step_fresh x xs p = elim (Bool-cases (is_new p.mark (time_of x))) [
    | inl e ↦ rw e (refl, omega arith)
    | inr e ↦ rw e (refl, refl)
  ]

  -- The mark never goes back.
  mark_grows :
      (xs : List X) (p : Progress) → is_new (write_list time_of message xs p).mark p.mark ≡ false
  unfolding write_list
  mark_grows [] p = is_new_irrefl p.mark
  mark_grows (x ∷ xs) p =
      is_new_trans (write_list time_of message (x ∷ xs) p).mark (write_new time_of message x p).mark
        p.mark (mark_grows xs (write_new time_of message x p)) (step_grows x p)

  pub fresh-Ascending : (m : Mark) (xs : List X) → Ascending time_of m (fresh time_of m xs)
  unfolding fresh
  fresh-Ascending m [] = tt
  fresh-Ascending m (x ∷ xs) = elim (Bool-cases (is_new m (time_of x))) [
    | inl e ↦ rw e (e, fresh-Ascending (time_of x) xs)
    | inr e ↦ rw e (fresh-Ascending m xs)
  ]

  pub Ascending-fresh : (m : Mark) (xs : List X) → Ascending time_of m xs → fresh time_of m xs ≡ xs
  unfolding fresh
  Ascending-fresh m [] h = refl
  Ascending-fresh m (x ∷ xs) h = rw (h.0, Ascending-fresh (time_of x) xs h.1)

  pub none_left :
      (xs : List X) (p : Progress) → NoneNew time_of (write_list time_of message xs p).mark xs
  unfolding write_list
  none_left [] p = tt
  none_left (x ∷ xs) p = (
    is_new_trans (write_list time_of message (x ∷ xs) p).mark (write_new time_of message x p).mark
        (time_of x) (mark_grows xs (write_new time_of message x p)) (step_none x p),
    none_left xs (write_new time_of message x p),
  )

  pub write_list-fresh :
      (xs : List X) (p : Progress)
      → ((write_list time_of message xs p).out
          ≡ write_all p.out (map (λ x. message_bytes (message x)) (fresh time_of p.mark xs)))
        × ((write_list time_of message xs p).drop_c ≡ p.drop_c + length (fresh time_of p.mark xs))
  unfolding write_list fresh write_all
  write_list-fresh [] p = (refl, omega arith)
  write_list-fresh (x ∷ xs) p =
      let h = write_list-fresh xs (write_new time_of message x p) in
      let g = step_fresh x xs p in (h.0 ∙ g.0, h.1 ∙ g.1)

  step_old :
      (x : X) (p : Progress) → is_new p.mark (time_of x) ≡ false → write_new time_of message x p ≡ p
  unfolding write_new
  step_old x p e = rw e

  write_none :
      (xs : List X) (p : Progress) → NoneNew time_of p.mark xs → write_list time_of message xs p ≡ p
  unfolding write_list
  write_none [] p h = refl
  write_none (x ∷ xs) p h =
      ap (write_list time_of message xs) (step_old x p h.0) ∙ write_none xs p h.1

-- A list that a driver returns is reduced to the entries later than the mark and than all entries
-- before them: these are written, in order and with strictly increasing times, each is counted,
-- and no entry of the list is later than the new mark.
pub write_list_lem :
    {X : Type 0} (time_of : X → Mark) (message : X → Message) (xs : List X) (p : Progress)
    → ((write_list time_of message xs p).out
        ≡ write_all p.out (map (λ x. message_bytes (message x)) (fresh time_of p.mark xs)))
      × ((write_list time_of message xs p).drop_c ≡ p.drop_c + length (fresh time_of p.mark xs))
      × Ascending time_of p.mark (fresh time_of p.mark xs)
      × NoneNew time_of (write_list time_of message xs p).mark xs
write_list_lem time_of message xs p =
    let h = write_list-fresh time_of message xs p in
    (h.0, h.1, fresh-Ascending time_of message p.mark xs, none_left time_of message xs p)

-- A list that a driver returns a second time is not written again, and not counted again.
pub write_list_twice :
    {X : Type 0} (time_of : X → Mark) (message : X → Message) (xs : List X) (p : Progress)
    → write_list time_of message xs (write_list time_of message xs p)
      ≡ write_list time_of message xs p
write_list_twice time_of message xs p =
    write_none time_of message xs (write_list time_of message xs p) (none_left time_of message xs p)

-- A list with strictly increasing times, all later than the mark, is written in full and in order.
pub write_list_in_order :
    {X : Type 0} (time_of : X → Mark) (message : X → Message) (xs : List X) (p : Progress)
    → Ascending time_of p.mark xs
    → (write_list time_of message xs p).out
      ≡ write_all p.out (map (λ x. message_bytes (message x)) xs)
write_list_in_order time_of message xs p h =
    (write_list-fresh time_of message xs p).0
    ∙ ap (λ ys. write_all p.out (map (λ x. message_bytes (message x)) ys))
        (Ascending-fresh time_of message p.mark xs h)
