-- ===== src/Tree/Text/Tokens.antt =====
-- The tokens of a text that was put together from pieces without the separator.
use controller_project.Base.{
  ℕ, zero, suc, ◌≤◌, ◌<◌, ◌≡◌, refl, ap, ◌∙◌, List, [], ◌∷◌, ◌++◌, false, some, length, ◌==◌,
  ==_refl, arith, length-append,
}
use controller_project.Tree.{Name}
use controller_project.Tree.Text.{skip, word, after, cut, strtok_r, tokens_loop, tokens}

-- The separator does not stand in the text.
abbrev pub Free : ℕ → Name → Type 0
Free sep [] = Unit {0}
Free sep (c ∷ cs) = ((c == sep) ≡ false) × Free sep cs

-- A piece that `strtok_r` gives back whole.
abbrev pub Piece : ℕ → Name → Type 0
Piece sep s = (0 < length s) × Free sep s

abbrev pub Pieces : ℕ → List Name → Type 0
Pieces sep [] = Unit {0}
Pieces sep (s ∷ ss) = Piece sep s × Pieces sep ss

-- The pieces with the separator between them.
abbrev pub joined : ℕ → List Name → Name
joined sep [] = []
joined sep (s ∷ []) = s
joined sep (s ∷ t ∷ ss) = s ++ sep ∷ joined sep (t ∷ ss)

pub Free-append : (sep : ℕ) (s t : Name) → Free sep s → Free sep t → Free sep (s ++ t)
Free-append sep [] t h k = k
Free-append sep (c ∷ s) t h k = (h.0, Free-append sep s t h.1 k)

pub Free-joined :
    (sep other : ℕ) (ss : List Name)
    → (other == sep) ≡ false
    → Pieces sep ss
    → Free sep (joined other ss)
Free-joined sep other [] d h = tt
Free-joined sep other (s ∷ []) d h = h.0.1
Free-joined sep other (s ∷ t ∷ ss) d h =
    Free-append sep s (other ∷ joined other (t ∷ ss)) h.0.1
      (d, Free-joined sep other (t ∷ ss) d h.1)

module _ (sep : ℕ) where
  word_end : (s rest : Name) → Free sep s → word sep (s ++ sep ∷ rest) ≡ s
  unfolding word
  word_end [] rest h = rw (==_refl sep) refl
  word_end (c ∷ s) rest h = rw h.0 (ap (◌∷◌ c) (word_end s rest h.1))

  word_all : (s : Name) → Free sep s → word sep s ≡ s
  unfolding word
  word_all [] h = refl
  word_all (c ∷ s) h = rw h.0 (ap (◌∷◌ c) (word_all s h.1))

  after_end : (s rest : Name) → Free sep s → after sep (s ++ sep ∷ rest) ≡ rest
  unfolding after
  after_end [] rest h = rw (==_refl sep) refl
  after_end (c ∷ s) rest h = rw h.0 (after_end s rest h.1)

  after_all : (s : Name) → Free sep s → after sep s ≡ []
  unfolding after
  after_all [] h = refl
  after_all (c ∷ s) h = rw h.0 (after_all s h.1)

  pub strtok_r_next :
      (s rest : Name) → Piece sep s → strtok_r sep (s ++ sep ∷ rest) ≡ some (s, rest)
  unfolding strtok_r skip cut
  strtok_r_next [] rest h = absurd (omega (arith, h.0))
  strtok_r_next (c ∷ s) rest h =
      rw h.1.0 (rw (word_end (c ∷ s) rest h.1, after_end (c ∷ s) rest h.1) refl)

  pub strtok_r_last : (s : Name) → Piece sep s → strtok_r sep s ≡ some (s, [])
  unfolding strtok_r skip cut
  strtok_r_last [] h = absurd (omega (arith, h.0))
  strtok_r_last (c ∷ s) h = rw h.1.0 (rw (word_all (c ∷ s) h.1, after_all (c ∷ s) h.1) refl)

  loop_nil : (fuel : ℕ) → tokens_loop sep fuel [] ≡ []
  unfolding tokens_loop strtok_r skip cut
  loop_nil zero = refl
  loop_nil (suc fuel) = refl

  loop_some :
      (fuel : ℕ) (s p rest : Name)
      → strtok_r sep s ≡ some (p, rest)
      → tokens_loop sep (suc fuel) s ≡ p ∷ tokens_loop sep fuel rest
  unfolding tokens_loop
  loop_some fuel s p rest e = rw (e, tokens_loop) refl

  loop_joined :
      (ss : List Name) (fuel : ℕ)
      → Pieces sep ss
      → length (joined sep ss) ≤ fuel
      → tokens_loop sep fuel (joined sep ss) ≡ ss
  loop_joined [] fuel h k = loop_nil fuel
  loop_joined (s ∷ []) zero h k = absurd (omega (arith, h.0.0))
  loop_joined (s ∷ []) (suc fuel) h k =
      loop_some fuel s s [] (strtok_r_last s h.0) ∙ ap (◌∷◌ s) (loop_nil fuel)
  loop_joined (s ∷ t ∷ ss) zero h k =
      absurd (omega (arith, length-append s (sep ∷ joined sep (t ∷ ss))))
  loop_joined (s ∷ t ∷ ss) (suc fuel) h k =
      let l = length-append s (sep ∷ joined sep (t ∷ ss)) in
      let rest = joined sep (t ∷ ss) in
      loop_some fuel (s ++ sep ∷ rest) s rest (strtok_r_next s rest h.0)
      ∙ ap (◌∷◌ s) (loop_joined (t ∷ ss) fuel h.1 (omega arith))

  pub tokens-joined : (ss : List Name) → Pieces sep ss → tokens sep (joined sep ss) ≡ ss
  unfolding tokens
  tokens-joined ss h = loop_joined ss (length (joined sep ss)) h (omega arith)

-- A nonempty list of pieces gives a piece for another separator.
pub Piece-joined :
    (sep other : ℕ) (s : Name) (ss : List Name)
    → (other == sep) ≡ false
    → Pieces sep (s ∷ ss)
    → Piece sep (joined other (s ∷ ss))
Piece-joined sep other s [] d h = h.0
Piece-joined sep other s (t ∷ ss) d h = (
  omega (arith, h.0.0, length-append s (other ∷ joined other (t ∷ ss))),
  Free-joined sep other (s ∷ t ∷ ss) d h,
)
