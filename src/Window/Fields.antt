-- ===== src/Window/Fields.antt =====
-- What the server of udp/server.c reads of a line that is put together from pieces.
use controller_project.Base.{
  ℕ, zero, suc, ◌+◌, ◌^◌, ◌<◌, ◌≡◌, refl, sym, ap, ◌∙◌, List, [], ◌∷◌, ◌++◌, false, ◌&&◌, none,
  some, length, drop, take-length_append, drop-length_append, leb, ltb, ◌==◌, arith,
}
use controller_project.Tree.Text.{atoi_digits, atoi}
use controller_project.Tree.Text.Tokens.{Free}
use controller_project.Tree.Text.Digits.{
  decimal, Piece-decimal_below, AllDigits, AllDigits-digits, atoi_first, atoi_digits-append,
  length-digits, atoi-decimal,
}
use controller_project.Control.Text.{codes}
use controller_project.Window.{text, strlinger, from, same_text, port_of, read_field}
use controller_project.Window.Find.{
  strlinger_char, plus, Hits, Hits-append, strlinger-past, strlinger-here,
}

pub text-Free : (x y : List ℕ) → Free 0 x → text (x ++ y) ≡ x ++ text y
unfolding text
text-Free [] y h = refl
text-Free (c ∷ x) y h = rw h.0 (ap (◌∷◌ c) (text-Free x y h.1))

drop-nil : (n : ℕ) → drop {A = ℕ} n [] ≡ []
drop-nil zero = refl
drop-nil (suc n) = refl

drop-plus : (n m : ℕ) (xs : List ℕ) → drop (n + m) xs ≡ drop m (drop n xs)
drop-plus zero m xs = ap (λ k. drop k xs) (omega arith)
drop-plus (suc n) m [] = ap (λ k. drop k []) e ∙ sym (drop-nil m)
  where
    e : suc n + m ≡ suc (n + m)
    e = omega arith
drop-plus (suc n) m (x ∷ xs) = ap (λ k. drop k (x ∷ xs)) e ∙ drop-plus n m xs
  where
    e : suc n + m ≡ suc (n + m)
    e = omega arith

-- What is left of a line behind a piece.
pub drop-piece :
    (i n : ℕ) (line x rest : List ℕ)
    → n ≡ length x
    → drop i line ≡ x ++ rest
    → drop (i + n) line ≡ rest
drop-piece i n line x rest l e =
    drop-plus i n line ∙ ap (drop n) e ∙ ap (λ k. drop k (x ++ rest)) l ∙ drop-length_append x rest

-- The text behind `i` up to a character.
pub char_from :
    (c i : ℕ) (line x rest : List ℕ)
    → (c == 0) ≡ false
    → Free 0 x
    → Free c x
    → drop i line ≡ x ++ c ∷ rest
    → strlinger (from i line) (c ∷ []) ≡ some (length x)
char_from c i line x rest z h k e =
    let t : text (x ++ c ∷ rest) ≡ x ++ c ∷ text rest =
      text-Free x (c ∷ rest) h ∙ ap (◌++◌ x) (unfold text in rw z refl) in
    ap (λ l. strlinger (text l) (c ∷ [])) e
    ∙ ap (λ l. strlinger l (c ∷ [])) t
    ∙ strlinger_char c x (text rest) k

-- A piece before a space.
pub read_field_lem :
    (behind : ℕ → List ℕ) (i d : ℕ) (line x rest : List ℕ)
    → Free 0 (d ∷ x)
    → Free 32 (d ∷ x)
    → drop i line ≡ (d ∷ x) ++ 32 ∷ rest
    → read_field behind line i
      ≡ some ((d ∷ x) ++ text (behind (length (d ∷ x))), i + length (d ∷ x))
unfolding read_field
read_field_lem behind i d line x rest h k e =
    rw (read_field, char_from 32 i line (d ∷ x) rest refl h k e, e)
      (ap (λ z. some (z ++ text (behind (length (d ∷ x))), i + length (d ∷ x)))
        (take-length_append (d ∷ x) (32 ∷ rest)))

-- The character of a text is no digit.
abbrev pub Stops : List ℕ → Type 0
Stops [] = Unit {0}
Stops (c ∷ cs) = (leb 0x30 c && ltb c 0x3a) ≡ false

atoi_digits-Stops : (acc : ℕ) (b : List ℕ) → Stops b → atoi_digits acc b ≡ acc
unfolding atoi_digits
atoi_digits-Stops acc [] h = refl
atoi_digits-Stops acc (c ∷ cs) h = ground arith

-- The characters of a number, and what is read after them.
pub atoi-decimal-Stops : (n : ℕ) (b : List ℕ) → n < 2 ^ 32 → Stops b → atoi (decimal n ++ b) ≡ n
atoi-decimal-Stops n b h k =
    go (decimal n) (AllDigits-digits 9 n) (length-digits 9 n) ∙ atoi-decimal n h
  where
    go : (s : List ℕ) → AllDigits s → 0 < length s → atoi (s ++ b) ≡ atoi s
    go [] a l = absurd (omega arith)
    go (c ∷ s) a l =
        atoi_first c (s ++ b) a.0 a.1
        ∙ atoi_digits-append 0 (c ∷ s) b a
        ∙ atoi_digits-Stops (atoi_digits 0 (c ∷ s)) b k
        ∙ sym (atoi_first c s a.0 a.1)

same_text-digits :
    (name s b : List ℕ) → AllDigits s → 0 < length s → same_text (104 ∷ name) (s ++ b) ≡ false
unfolding same_text
same_text-digits name [] b a l = absurd (omega arith)
same_text-digits name (c ∷ s) b a l = let e : (104 == c) ≡ false = ground (arith, a.1) in rw e refl

-- A number is none of the two names.
pub port_of-decimal : (n : ℕ) (b : List ℕ) → n < 2 ^ 32 → Stops b → port_of (decimal n ++ b) ≡ n
unfolding port_of
port_of-decimal n b h k =
    let t =
      same_text-digits (codes "ttp") (decimal n) b (AllDigits-digits 9 n) (length-digits 9 n) in
    let u =
      same_text-digits (codes "ttps") (decimal n) b (AllDigits-digits 9 n) (length-digits 9 n) in
    rw (t, u) (atoi-decimal-Stops n b h k)

-- What is left of a line behind a piece and a character.
pub drop_next :
    (i c : ℕ) (line x rest : List ℕ)
    → drop i line ≡ x ++ c ∷ rest
    → drop (length x + 1 + i) line ≡ rest
drop_next i c line x rest e =
    ap (λ k. drop k line) (omega arith)
    ∙ drop-piece (i + length x) 1 line (c ∷ []) rest refl
        (drop-piece i (length x) line x (c ∷ rest) refl e)

read_piece :
    (behind : ℕ → List ℕ) (i : ℕ) (line x rest : List ℕ)
    → 0 < length x
    → Free 0 x
    → Free 32 x
    → drop i line ≡ x ++ 32 ∷ rest
    → read_field behind line i ≡ some (x ++ text (behind (length x)), i + length x)
read_piece behind i line [] rest l h k e = absurd (omega arith)
read_piece behind i line (d ∷ x) rest l h k e = read_field_lem behind i d line x rest h k e

-- A number before a space.
pub read_field-decimal :
    (behind : ℕ → List ℕ) (i n : ℕ) (line rest : List ℕ)
    → drop i line ≡ decimal n ++ 32 ∷ rest
    → read_field behind line i
      ≡ some (decimal n ++ text (behind (length (decimal n))), i + length (decimal n))
read_field-decimal behind i n line rest e =
    let (l, h) = Piece-decimal_below 0 n (omega arith) in
    let (l', k) = Piece-decimal_below 32 n (omega arith) in
    read_piece behind i line (decimal n) rest l h k e

pub Hits-text :
    (x rest : List ℕ) (s : ℕ) (sub : List ℕ)
    → Free 0 x
    → Hits (s ∷ sub) (text rest)
    → Hits (s ∷ sub) (text (x ++ rest))
Hits-text x rest s sub h (i, e) =
    let (j, k) = Hits-append x (text rest) s sub (i, e) in
    (j, ap (λ z. strlinger z (s ∷ sub)) (text-Free x rest h) ∙ k)

-- A text that occurs behind a space in front of which it does not.
pub place_behind :
    (x rest : List ℕ) (s : ℕ) (sub : List ℕ)
    → Free 0 x
    → Free 32 (s ∷ sub)
    → strlinger x (s ∷ sub) ≡ none
    → strlinger (text (x ++ 32 ∷ rest)) (s ∷ sub)
      ≡ plus (length x + 1) (strlinger (text rest) (s ∷ sub))
place_behind x rest s sub h k e =
    let t : text (x ++ 32 ∷ rest) ≡ x ++ 32 ∷ text rest =
      text-Free x (32 ∷ rest) h ∙ ap (◌++◌ x) (unfold text in refl) in
    ap (λ z. strlinger z (s ∷ sub)) t ∙ strlinger-past 32 x (text rest) (s ∷ sub) k e

pub text_here :
    (s : ℕ) (sub rest : List ℕ)
    → Free 0 (s ∷ sub)
    → strlinger (text ((s ∷ sub) ++ rest)) (s ∷ sub) ≡ some 0
text_here s sub rest h =
    ap (λ z. strlinger z (s ∷ sub)) (text-Free (s ∷ sub) rest h) ∙ strlinger-here s sub (text rest)
