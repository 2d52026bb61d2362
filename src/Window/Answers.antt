-- ===== src/Window/Answers.antt =====
-- What the server of udp/server.c answers for a flow that the output lists.
use controller_project.Base.{
  ℕ, zero, suc, ◌+◌, ◌<◌, lt→ltb, arith, ◌≡◌, refl, ap, ◌∙◌, List, [], ◌∷◌, ◌++◌, append-nil, true,
  false, Option, none, some, length, drop,
}
use controller_project.Tree.Text.Tokens.{Free}
use controller_project.Control.State.{TcpSs}
use controller_project.Control.{to_window}
use controller_project.Window.{
  line_length, pieces, pieces_of, text, strlinger, fgets, Found, is_flow, read_window, read_lines,
  answer,
}
use controller_project.Window.Fields.{text-Free, Stops}
use controller_project.Window.Lines.{flow_line, flow_line-append, IsFlow, is_flow_lem}
use controller_project.Window.Numbers.{
  window_line, window_line-append, IsWindow, found_window, read_window_lem,
}

-- A line without the second address.
abbrev pub Quiet : TcpSs → List (List ℕ) → Type 0
Quiet q [] = Unit {0}
Quiet q (l ∷ ls) = Free 0 l × (strlinger l q.ip_dst ≡ none) × Quiet q ls

text-fgets : (l line : List ℕ) → Free 0 l → text (fgets l line) ≡ l
unfolding fgets
text-fgets l line h =
    let closed : text (0 ∷ drop (length l + 1) line) ≡ [] = unfold text in refl in
    text-Free l (0 ∷ drop (length l + 1) line) h ∙ ap (◌++◌ l) closed ∙ append-nil l

is_flow_quiet :
    (behind : ℕ → List ℕ) (q : TcpSs) (l line : List ℕ)
    → Free 0 l
    → strlinger l q.ip_dst ≡ none
    → is_flow behind q (fgets l line) ≡ false
unfolding is_flow
is_flow_quiet behind q l line h k = go (strlinger (text (fgets l line)) q.ip_src) refl
  where
    e : strlinger (text (fgets l line)) q.ip_dst ≡ none
    e = ap (λ z. strlinger z q.ip_dst) (text-fgets l line h) ∙ k

    go :
        (o : Option ℕ)
        → strlinger (text (fgets l line)) q.ip_src ≡ o
        → is_flow behind q (fgets l line) ≡ false
    go none t = rw (is_flow, t) refl
    go (some zero) t = rw (is_flow, t) refl
    go (some (suc i)) t = rw (is_flow, t, e) refl

read_lines-Quiet :
    (behind : ℕ → List ℕ) (q : TcpSs) (line : List ℕ) (found : Found) (ls : List (List ℕ))
    → Quiet q ls
    → read_lines behind q line found ls ≡ found
unfolding read_lines
read_lines-Quiet behind q line found [] h = refl
read_lines-Quiet behind q line found (l ∷ []) h = refl
read_lines-Quiet behind q line found (l ∷ m ∷ ms) h =
    rw (read_lines, is_flow_quiet behind q l line h.0 h.1)
      (read_lines-Quiet behind q (fgets l line) found (m ∷ ms) h.2)

after_quiet : List (List ℕ) → List ℕ → List ℕ
after_quiet [] line = line
after_quiet (l ∷ ls) line = after_quiet ls (fgets l line)

read_lines_behind :
    (behind : ℕ → List ℕ) (q : TcpSs) (line : List ℕ) (found : Found) (ls : List (List ℕ))
    (m : List ℕ) (ms : List (List ℕ))
    → Quiet q ls
    → read_lines behind q line found (ls ++ m ∷ ms)
      ≡ read_lines behind q (after_quiet ls line) found (m ∷ ms)
unfolding read_lines after_quiet
read_lines_behind behind q line found [] m ms h = refl
read_lines_behind behind q line found (l ∷ []) m ms h =
    rw (read_lines, is_flow_quiet behind q l line h.0 h.1) refl
read_lines_behind behind q line found (l ∷ k ∷ ls) m ms h =
    rw (read_lines, is_flow_quiet behind q l line h.0 h.1)
      (read_lines_behind behind q (fgets l line) found (k ∷ ls) m ms h.2)

read_lines_found :
    (behind : ℕ → List ℕ) (q : TcpSs) (line state gap rest info more : List ℕ) (cwnd mss : ℕ)
    (found : Found) (ls : List (List ℕ))
    → ((n : ℕ) → Stops (text (behind n)))
    → IsFlow q state gap
    → IsWindow info cwnd mss
    → Quiet q ls
    → read_lines behind q line found
        (flow_line q state gap rest ∷ window_line info cwnd mss more ∷ ls)
      ≡ found_window cwnd mss
unfolding read_lines
read_lines_found behind q line state gap rest info more cwnd mss found ls stops f w quiet =
    let j1 = 0 ∷ drop (length (flow_line q state gap rest) + 1) line in
    let l1 = fgets (flow_line q state gap rest) line in
    let j2 = 0 ∷ drop (length (window_line info cwnd mss more) + 1) l1 in
    let l2 = fgets (window_line info cwnd mss more) l1 in
    let r1 : l1 ≡ flow_line q state gap (rest ++ j1) =
      unfold fgets in flow_line-append q state gap rest j1 in
    let r2 : l2 ≡ window_line info cwnd mss (more ++ j2) =
      unfold fgets in window_line-append info cwnd mss more j2 in
    let e : is_flow behind q l1 ≡ true =
      ap (is_flow behind q) r1 ∙ is_flow_lem behind stops q state gap (rest ++ j1) f in
    let e' : read_window behind l2 found ≡ (found_window cwnd mss, true) =
      ap (λ l. read_window behind l found) r2
      ∙ read_window_lem behind info cwnd mss (more ++ j2) found stops w in
    rw (read_lines, e, e')
      (ap (λ r. read_lines behind q l2 r.0 ls) e'
        ∙ read_lines-Quiet behind q l2 (found_window cwnd mss) ls quiet)

-- No line is longer than one call of `fgets` reads.
abbrev pub Fits : List (List ℕ) → Type 0
Fits [] = Unit {0}
Fits (l ∷ ls) = (length l < line_length) × Fits ls

piece_of_line : (l : List ℕ) → length l < line_length → pieces (length l + 1) l ≡ l ∷ []
piece_of_line l h =
    let n : length l + 1 ≡ suc (length l) = omega arith in
    ap (λ k. pieces k l) n ∙ (unfold pieces in rw (lt→ltb (length l) line_length h) refl)

pieces_of-Fits : (ls : List (List ℕ)) → Fits ls → pieces_of ls ≡ ls
unfolding pieces_of
pieces_of-Fits [] h = refl
pieces_of-Fits (l ∷ ls) h = rw (piece_of_line l h.0, pieces_of-Fits ls h.1) refl

-- When the output has a line with the two addresses of the flow, each with a colon and its port as a
-- decimal number behind and no other colon between, and the line behind it has `mss:` and a number
-- and directly then `cwnd:` and a number, the server answers these numbers, whatever the array held
-- before. The conditions: every number has a space behind it and fits into its type; the addresses
-- have no space or colon; before the first address and a space the line holds neither of the two, and
-- before `mss:` and a space the line behind has neither `mss` nor `cwnd`; no other line holds the
-- address of the peer; all lines have less than 300 characters; and the bytes behind an unterminated
-- number are no digits.
pub answer_lem :
    (behind : ℕ → List ℕ) (q : TcpSs) (line state gap rest info more : List ℕ) (cwnd mss : ℕ)
    (before ls : List (List ℕ))
    → ((n : ℕ) → Stops (text (behind n)))
    → IsFlow q state gap
    → IsWindow info cwnd mss
    → Quiet q before
    → Quiet q ls
    → Fits (before ++ flow_line q state gap rest ∷ window_line info cwnd mss more ∷ ls)
    → answer behind line q
        (before ++ flow_line q state gap rest ∷ window_line info cwnd mss more ∷ ls)
      ≡ (found_window cwnd mss).window
unfolding answer
answer_lem behind q line state gap rest info more cwnd mss before ls stops f w h k fits =
    let nothing : Found = record { found_cwnd = false; window = record { cwnd = 0; mss = 0 } } in
    let output = before ++ flow_line q state gap rest ∷ window_line info cwnd mss more ∷ ls in
    let e =
      ap (read_lines behind q line nothing) (pieces_of-Fits output fits)
      ∙ read_lines_behind behind q line nothing before (flow_line q state gap rest)
          (window_line info cwnd mss more ∷ ls) h
      ∙ read_lines_found behind q (after_quiet before line) state gap rest info more cwnd mss
          nothing ls stops f w k in
    rw e refl

-- When no line of the output, each with less than 300 characters, holds the address of the peer, the
-- answer gives a window of 1, the product of -1 and -1, in the controller.
pub window_unknown :
    (behind : ℕ → List ℕ) (q : TcpSs) (line : List ℕ) (output : List (List ℕ))
    → Quiet q output
    → Fits output
    → to_window (some ((answer behind line q output).cwnd, (answer behind line q output).mss)) ≡ 1
unfolding answer to_window
window_unknown behind q line output h fits =
    let nothing : Found = record { found_cwnd = false; window = record { cwnd = 0; mss = 0 } } in
    let e =
      ap (read_lines behind q line nothing) (pieces_of-Fits output fits)
      ∙ read_lines-Quiet behind q line nothing output h in
    rw e refl
