-- ===== src/Window/Numbers.antt =====
-- The line behind that of a flow, from which the server of udp/server.c reads its numbers.
use controller_project.Base.{
  ℕ, ◌+◌, ◌^◌, ◌<◌, ◌≡◌, refl, ap, ap₂, ◌∙◌, List, ◌∷◌, ◌++◌, append_assoc, true, none, some,
  length, drop, arith,
}
use controller_project.Tree.Text.Tokens.{Free}
use controller_project.Tree.Text.Digits.{decimal, Piece-decimal_below, Piece-decimal_above}
use controller_project.Control.Text.{codes}
use controller_project.Window.{text, strlinger, cwnd_text, mss_text, Found, read_window}
use controller_project.Window.Find.{plus, strlinger-Free}
use controller_project.Window.Fields.{
  place_behind, text_here, drop-piece, drop_next, read_field-decimal, Stops, atoi-decimal-Stops,
}

-- The line behind it, with what stands before the numbers and behind.
abbrev pub window_line : List ℕ → ℕ → ℕ → List ℕ → List ℕ
window_line info cwnd mss rest =
    info
    ++ 32 ∷ ((codes "mss:" ++ decimal mss) ++ 32 ∷ (codes "cwnd:" ++ (decimal cwnd ++ 32 ∷ rest)))

pub record IsWindow (info : List ℕ) (cwnd mss : ℕ) : Type 0 where
  pub closed_info : Free 0 info
  pub no_cwnd : strlinger info cwnd_text ≡ none
  pub no_mss : strlinger info mss_text ≡ none
  pub cwnd_fits : cwnd < 2 ^ 32
  pub mss_fits : mss < 2 ^ 32

mss_place :
    (info : List ℕ) (cwnd mss : ℕ) (rest : List ℕ)
    → IsWindow info cwnd mss
    → strlinger (text (window_line info cwnd mss rest)) mss_text ≡ some (length info + 1)
mss_place info cwnd mss rest v =
    let l1 = codes "cwnd:" ++ (decimal cwnd ++ 32 ∷ rest) in
    place_behind info ((codes "mss:" ++ decimal mss) ++ 32 ∷ l1) 109 (codes "ss") v.closed_info
      (refl, (refl, (refl, tt))) v.no_mss
    ∙ ap (plus (length info + 1))
        (text_here 109 (codes "ss") (58 ∷ (decimal mss ++ 32 ∷ l1)) (refl, (refl, (refl, tt))))
    ∙ ap some (omega arith)

cwnd_place :
    (info : List ℕ) (cwnd mss : ℕ) (rest : List ℕ)
    → IsWindow info cwnd mss
    → strlinger (text (window_line info cwnd mss rest)) cwnd_text
      ≡ some (length info + 1 + (length (codes "mss:" ++ decimal mss) + 1))
cwnd_place info cwnd mss rest v =
    let l1 = codes "cwnd:" ++ (decimal cwnd ++ 32 ∷ rest) in
    let free : Free 99 (codes "mss:" ++ decimal mss) =
      (refl, (refl, (refl, (refl, (Piece-decimal_above 99 mss (omega arith)).1)))) in
    let closed : Free 0 (codes "mss:" ++ decimal mss) =
      (refl, (refl, (refl, (refl, (Piece-decimal_below 0 mss (omega arith)).1)))) in
    place_behind info ((codes "mss:" ++ decimal mss) ++ 32 ∷ l1) 99 (codes "wnd") v.closed_info
      (refl, (refl, (refl, (refl, tt)))) v.no_cwnd
    ∙ ap (plus (length info + 1)) (
        place_behind (codes "mss:" ++ decimal mss) l1 99 (codes "wnd") closed
          (refl, (refl, (refl, (refl, tt))))
          (strlinger-Free (codes "mss:" ++ decimal mss) 99 (codes "wnd") free)
        ∙ ap (plus (length (codes "mss:" ++ decimal mss) + 1)) (
            text_here 99 (codes "wnd") (58 ∷ (decimal cwnd ++ 32 ∷ rest))
              (refl, (refl, (refl, (refl, tt))))))
    ∙ ap some (omega arith)

pub window_line-append :
    (info : List ℕ) (cwnd mss : ℕ) (rest more : List ℕ)
    → window_line info cwnd mss rest ++ more ≡ window_line info cwnd mss (rest ++ more)
window_line-append info cwnd mss rest more =
    let l1 = codes "cwnd:" ++ (decimal cwnd ++ 32 ∷ rest) in
    append_assoc info (32 ∷ ((codes "mss:" ++ decimal mss) ++ 32 ∷ l1)) more
    ∙ ap (λ t. info ++ 32 ∷ t)
        (append_assoc (codes "mss:" ++ decimal mss) (32 ∷ l1) more
          ∙ ap (λ t. (codes "mss:" ++ decimal mss) ++ 32 ∷ (codes "cwnd:" ++ t))
              (append_assoc (decimal cwnd) (32 ∷ rest) more))

abbrev pub found_window : ℕ → ℕ → Found
found_window cwnd mss = record { found_cwnd = true; window = record { cwnd = cwnd; mss = mss } }

-- Both numbers are read.
pub read_window_lem :
    (behind : ℕ → List ℕ) (info : List ℕ) (cwnd mss : ℕ) (rest : List ℕ) (found : Found)
    → ((n : ℕ) → Stops (text (behind n)))
    → IsWindow info cwnd mss
    → read_window behind (window_line info cwnd mss rest) found ≡ (found_window cwnd mss, true)
unfolding read_window
read_window_lem behind info cwnd mss rest found stops v =
    let l = window_line info cwnd mss rest in
    let m = codes "mss:" ++ decimal mss in
    let l1 = codes "cwnd:" ++ (decimal cwnd ++ 32 ∷ rest) in
    let d0 : drop (length info + 1 + 0) l ≡ m ++ 32 ∷ l1 =
      drop_next 0 32 l info (m ++ 32 ∷ l1) refl in
    let d1 = drop_next (length info + 1 + 0) 32 l m l1 d0 in
    let d2 =
      drop-piece (length m + 1 + (length info + 1 + 0)) 5 l (codes "cwnd:")
        (decimal cwnd ++ 32 ∷ rest) refl d1 in
    let i = length info + 1 + (length m + 1) + 5 in
    let n : i ≡ length m + 1 + (length info + 1 + 0) + 5 = omega arith in
    let f1 = read_field-decimal behind i cwnd l rest (ap (λ k. drop k l) n ∙ d2) in
    let d3 = drop-piece (length info + 1 + 0) 4 l (codes "mss:") (decimal mss ++ 32 ∷ l1) refl d0 in
    let j = length info + 1 + 4 in
    let n' : j ≡ length info + 1 + 0 + 4 = omega arith in
    let f2 = read_field-decimal behind j mss l l1 (ap (λ k. drop k l) n' ∙ d3) in
    rw (read_window, cwnd_place info cwnd mss rest v, f1, mss_place info cwnd mss rest v, f2)
      (ap₂ (λ a b. (found_window a b, true))
        (atoi-decimal-Stops cwnd (text (behind (length (decimal cwnd)))) v.cwnd_fits
          (stops (length (decimal cwnd))))
        (atoi-decimal-Stops mss (text (behind (length (decimal mss)))) v.mss_fits
          (stops (length (decimal mss)))))
