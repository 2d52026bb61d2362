-- ===== src/Window/Find.antt =====
-- `strlinger` of udp/server.c.
use controller_project.Base.{
  ℕ, suc, ◌+◌, ◌≤◌, ◌≡◌, ◌≢◌, refl, sym, ap, ◌∙◌, inl, inr, List, [], ◌∷◌, ◌++◌, Bool, true, false,
  Option, none, some, length, ◌==◌, ==_iff, ==_refl, if◌then◌else◌, Bool-cases, arith,
}
use controller_project.Tree.Text.Tokens.{Free}
use controller_project.Window.{starts, strlinger_loop, strlinger}

starts-past :
    (c : ℕ) (bp sub rest : List ℕ) → Free c sub → starts (bp ++ c ∷ rest) sub ≡ starts bp sub
unfolding starts
starts-past c [] [] rest h = refl
starts-past c (b ∷ bp) [] rest h = refl
starts-past c [] (s ∷ sub) rest h = let e : (c == s) ≡ false = ground (arith, h.0) in rw e refl
starts-past c (b ∷ bp) (s ∷ sub) rest h =
    ap (λ z. if b == s then z else false) (starts-past c bp sub rest h.1)

starts-here : (sub post : List ℕ) → starts (sub ++ post) sub ≡ true
unfolding starts
starts-here [] [] = refl
starts-here [] (p ∷ post) = refl
starts-here (s ∷ sub) post = rw (==_refl s, starts-here sub post) refl

no_hit :
    (b : Bool) (i : ℕ) (r : Option ℕ) → (if b then some i else r) ≡ none → (b ≡ false) × (r ≡ none)
no_hit true i r h = ground arith
no_hit false i r h = (refl, h)

-- Behind a character that `sub` does not have, after a text in which it is not.
loop-past :
    (c : ℕ) (p rest : List ℕ) (s : ℕ) (sub : List ℕ) (ind : ℕ)
    → Free c (s ∷ sub)
    → strlinger_loop p (s ∷ sub) ind ≡ none
    → strlinger_loop (p ++ c ∷ rest) (s ∷ sub) ind
      ≡ strlinger_loop rest (s ∷ sub) (ind + (length p + 1))
unfolding strlinger_loop
loop-past c [] rest s sub ind h k =
    let e : starts (c ∷ rest) (s ∷ sub) ≡ false =
      starts-past c [] (s ∷ sub) rest h ∙ (unfold starts in refl) in
    rw e refl
loop-past c (b ∷ p) rest s sub ind h k =
    let (t, k') = no_hit (starts (b ∷ p) (s ∷ sub)) ind (strlinger_loop p (s ∷ sub) (ind + 1)) k in
    let e = starts-past c (b ∷ p) (s ∷ sub) rest h ∙ t in
    rw e
      (loop-past c p rest s sub (ind + 1) h k' ∙ ap (strlinger_loop rest (s ∷ sub)) (omega arith))

-- `some i` counted from `n`.
abbrev pub plus : ℕ → Option ℕ → Option ℕ
plus n none = none
plus n (some i) = some (n + i)

plus-if :
    (n m : ℕ) (b : Bool) (r : Option ℕ)
    → (if b then some (n + m) else plus n r) ≡ plus n (if b then some m else r)
plus-if n m true r = refl
plus-if n m false r = refl

loop-plus :
    (buf sub : List ℕ) (n m : ℕ)
    → strlinger_loop buf sub (n + m) ≡ plus n (strlinger_loop buf sub m)
unfolding strlinger_loop
loop-plus [] sub n m = refl
loop-plus (b ∷ buf) sub n m =
    let e : strlinger_loop buf sub (n + m + 1) ≡ plus n (strlinger_loop buf sub (m + 1)) =
      ap (strlinger_loop buf sub) (omega arith) ∙ loop-plus buf sub n (m + 1) in
    ap (λ r. if starts (b ∷ buf) sub then some (n + m) else r) e
    ∙ plus-if n m (starts (b ∷ buf) sub) (strlinger_loop buf sub (m + 1))

pub strlinger-past :
    (c : ℕ) (p rest sub : List ℕ)
    → Free c sub
    → strlinger p sub ≡ none
    → strlinger (p ++ c ∷ rest) sub ≡ plus (length p + 1) (strlinger rest sub)
unfolding strlinger
strlinger-past c p rest [] h k = refl
strlinger-past c p rest (s ∷ sub) h k =
    loop-past c p rest s sub 0 h k
    ∙ ap (strlinger_loop rest (s ∷ sub)) (omega arith)
    ∙ loop-plus rest (s ∷ sub) (length p + 1) 0

-- A text that starts with `sub`.
pub strlinger-here : (s : ℕ) (sub post : List ℕ) → strlinger ((s ∷ sub) ++ post) (s ∷ sub) ≡ some 0
unfolding strlinger strlinger_loop
strlinger-here s sub post = rw (starts-here (s ∷ sub) post) refl

-- A text without the first character of `sub`.
loop-Free :
    (p : List ℕ) (s : ℕ) (sub : List ℕ) (ind : ℕ) → Free s p → strlinger_loop p (s ∷ sub) ind ≡ none
unfolding strlinger_loop
loop-Free [] s sub ind h = refl
loop-Free (b ∷ p) s sub ind h =
    let e : starts (b ∷ p) (s ∷ sub) ≡ false = unfold starts in rw h.0 refl in
    rw e (loop-Free p s sub (ind + 1) h.1)

pub strlinger-Free : (p : List ℕ) (s : ℕ) (sub : List ℕ) → Free s p → strlinger p (s ∷ sub) ≡ none
unfolding strlinger
strlinger-Free p s sub h = loop-Free p s sub 0 h

loop_char :
    (c : ℕ) (x rest : List ℕ) (ind : ℕ)
    → Free c x
    → strlinger_loop (x ++ c ∷ rest) (c ∷ []) ind ≡ some (length x + ind)
unfolding strlinger_loop
loop_char c [] rest ind h =
    let e : starts (c ∷ rest) (c ∷ []) ≡ true = starts-here (c ∷ []) rest in
    rw e (ap some (omega arith))
loop_char c (b ∷ x) rest ind h =
    let e : starts (b ∷ (x ++ c ∷ rest)) (c ∷ []) ≡ false = unfold starts in rw h.0 refl in
    rw e (loop_char c x rest (ind + 1) h.1 ∙ ap some (omega arith))

-- The first place of a character.
pub strlinger_char :
    (c : ℕ) (x rest : List ℕ) → Free c x → strlinger (x ++ c ∷ rest) (c ∷ []) ≡ some (length x)
unfolding strlinger
strlinger_char c x rest h = loop_char c x rest 0 h ∙ ap some (omega arith)

-- The places where `sub` occurs: none, or `i` as the first one.
abbrev pub First : List ℕ → List ℕ → Option ℕ → Type 0
First buf sub none = (pre post : List ℕ) → buf ≢ pre ++ (sub ++ post)
First buf sub (some i) =
    ((pre : List ℕ) × (post : List ℕ) × (buf ≡ pre ++ (sub ++ post)) × (length pre ≡ i))
    × ((pre post : List ℕ) → buf ≡ pre ++ (sub ++ post) → i ≤ length pre)

both : (b r : Bool) → (if b then r else false) ≡ true → (b ≡ true) × (r ≡ true)
both true r h = (refl, h)
both false r h = ground arith

starts_text : (bp sub : List ℕ) → starts bp sub ≡ true → (post : List ℕ) × (bp ≡ sub ++ post)
unfolding starts
starts_text bp [] h = (bp, refl)
starts_text [] (s ∷ sub) h = ground arith
starts_text (b ∷ bp) (s ∷ sub) h =
    let (e, k) = both (b == s) (starts bp sub) h in
    let (post, q) = starts_text bp sub k in
    let e' : b ≡ s = (==_iff b s).0 e in (post, rw (e', q) refl)

abbrev rest_of : List ℕ → List ℕ
rest_of [] = []
rest_of (x ∷ xs) = xs

-- Every place is behind the first character when the text does not start with `sub`.
later :
    (b : ℕ) (buf sub pre post : List ℕ)
    → starts (b ∷ buf) sub ≡ false
    → (b ∷ buf) ≡ pre ++ (sub ++ post)
    → (pre' : List ℕ) × (buf ≡ pre' ++ (sub ++ post)) × (length pre ≡ suc (length pre'))
later b buf sub [] post t e =
    let k : starts (b ∷ buf) sub ≡ true = ap (λ z. starts z sub) e ∙ starts-here sub post in
    absurd (false-ne-true (sym t ∙ k))
  where
    false-ne-true : false ≡ true → ⊥
    false-ne-true q = cc
later b buf sub (c ∷ pre) post t e = (pre, ap rest_of e, refl)

First-step :
    (b : ℕ) (buf sub : List ℕ) (o : Option ℕ)
    → starts (b ∷ buf) sub ≡ false
    → First buf sub o
    → First (b ∷ buf) sub (plus 1 o)
First-step b buf sub none t h =
    λ pre post e. let (pre', e', l) = later b buf sub pre post t e in h pre' post e'
First-step b buf sub (some i) t h =
    let ((pre, post, e, l), h') = h in
    (
      (b ∷ pre, post, ap (◌∷◌ b) e, omega (arith, l)),
      λ pre' post' e'.
          let (pre'', q, l') = later b buf sub pre' post' t e' in
          omega (arith, h' pre'' post' q, l'),
    )

no_text : (pre post : List ℕ) (s : ℕ) (sub : List ℕ) → [] ≢ pre ++ ((s ∷ sub) ++ post)
no_text [] post s sub = λ e. cc
no_text (b ∷ pre) post s sub = λ e. cc

loop-First :
    (buf : List ℕ) (s : ℕ) (sub : List ℕ) → First buf (s ∷ sub) (strlinger_loop buf (s ∷ sub) 0)
unfolding strlinger_loop
loop-First [] s sub = λ pre post. no_text pre post s sub
loop-First (b ∷ buf) s sub = elim (Bool-cases (starts (b ∷ buf) (s ∷ sub))) [
  | inl t ↦
      let (post, e) = starts_text (b ∷ buf) (s ∷ sub) t in
      rw t (([], post, e, refl), λ pre' post' e'. omega arith)
  | inr t ↦
      let ih =
        First-step b buf (s ∷ sub) (strlinger_loop buf (s ∷ sub) 0) t (loop-First buf s sub) in
      rw (t, loop-plus buf (s ∷ sub) 1 0) ih
]

-- What `strlinger` returns for a text that is not empty: its first place, or none when it does not
-- occur.
pub strlinger-First :
    (buf : List ℕ) (s : ℕ) (sub : List ℕ) → First buf (s ∷ sub) (strlinger buf (s ∷ sub))
unfolding strlinger
strlinger-First buf s sub = loop-First buf s sub

abbrev pub Hits : List ℕ → List ℕ → Type 0
Hits sub buf = (i : ℕ) × (strlinger buf sub ≡ some i)

Hits-cons :
    (b : ℕ) (buf : List ℕ) (s : ℕ) (sub : List ℕ) → Hits (s ∷ sub) buf → Hits (s ∷ sub) (b ∷ buf)
unfolding strlinger strlinger_loop
Hits-cons b buf s sub (i, e) = elim (Bool-cases (starts (b ∷ buf) (s ∷ sub))) [
  | inl t ↦ (0, rw t refl)
  | inr t ↦ (1 + i, rw (t, loop-plus buf (s ∷ sub) 1 0, e) refl)
]

-- What occurs still does behind more text.
pub Hits-append :
    (x buf : List ℕ) (s : ℕ) (sub : List ℕ) → Hits (s ∷ sub) buf → Hits (s ∷ sub) (x ++ buf)
Hits-append [] buf s sub h = h
Hits-append (b ∷ x) buf s sub h = Hits-cons b (x ++ buf) s sub (Hits-append x buf s sub h)
