-- ===== src/Tests/Window.antt =====
-- A host with two flows is asked for the window of one.
use controller_project.Base.{
  ℕ, ◌≡◌, ◌-◌, ◌^◌, refl, List, [], ◌∷◌, ◌++◌, some, length, replicate, arith, ◌<◌, Bool, true,
  false, not, ◌&&◌, ◌==◌,
}
use controller_project.Tree.Text.Tokens.{Free}
use controller_project.Control.Text.{codes}
use controller_project.Control.State.{TcpSs}
use controller_project.Control.{to_window}
use controller_project.Window.{
  pieces, pieces_of, text, starts, strlinger, strlinger_loop, same_text, port_of, answer,
}
use controller_project.Window.Find.{First, strlinger-First}
use controller_project.Window.Lines.{flow_line, Address, IsFlow}
use controller_project.Window.Numbers.{window_line, IsWindow, found_window}
use controller_project.Window.Answers.{Quiet, answer_lem}

abbrev asked : TcpSs
asked = record {
  ip_src = codes "192.168.11.103";
  ip_dst = codes "106.11.62.72";
  src_port = 47796;
  dst_port = 8080;
}

abbrev behind : ℕ → List ℕ
behind n = []

abbrev array : List ℕ
array = replicate 40 7

abbrev title : List (List ℕ)
title = codes "State  Local Address:Port  Peer Address:Port" ∷ []

abbrev other : List (List ℕ)
other =
    codes "ESTAB 0 0 192.168.11.103:22 10.0.0.9:http "
    ∷ codes " cubic mss:1448 cwnd:10 rto:204"
    ∷ []

abbrev state : List ℕ
state = codes "ESTAB 0 0"

abbrev info : List ℕ
info = codes " cubic rto:252 ato:40"

abbrev output : List (List ℕ)
output =
    title
    ++ flow_line asked state (codes " ") [] ∷ window_line info 10 1448 (codes "send 2Mbps") ∷ other

http_port : port_of (codes "http") ≡ 80
unfolding port_of same_text
http_port = refl

place_of_colon : strlinger (codes "ESTAB 10.0.0.9:80") (codes ":") ≡ some 14
unfolding strlinger strlinger_loop starts
place_of_colon = refl

-- Whether a character does not stand in a text.
abbrev lacks : ℕ → List ℕ → Bool
lacks c [] = true
lacks c (b ∷ bs) = not (b == c) && lacks c bs

lacks-Free : (c : ℕ) (s : List ℕ) → lacks c s ≡ true → Free c s
lacks-Free c [] h = tt
lacks-Free c (b ∷ bs) h = let (e, k) = both (b == c) (lacks c bs) h in (e, lacks-Free c bs k)
  where
    both : (a r : Bool) → (not a && r) ≡ true → (a ≡ false) × (r ≡ true)
    both true r q = ground arith
    both false r q = (refl, q)

address :
    (a : List ℕ)
    → 0 < length a
    → lacks 0 a ≡ true
    → lacks 32 a ≡ true
    → lacks 58 a ≡ true
    → Address a
address a l h i j = record {
  filled = l;
  closed = lacks-Free 0 a h;
  one_word = lacks-Free 32 a i;
  no_port = lacks-Free 58 a j;
}

asked-IsFlow : IsFlow asked state (codes " ")
unfolding strlinger strlinger_loop starts
asked-IsFlow = record {
  src = address asked.ip_src (omega arith) refl refl refl;
  dst = address asked.ip_dst (omega arith) refl refl refl;
  src_port_fits = omega arith;
  dst_port_fits = omega arith;
  closed_state = lacks-Free 0 state refl;
  no_src = refl;
  no_dst = refl;
  closed_gap = (refl, tt);
  no_colon = (refl, tt);
}

info-IsWindow : IsWindow info 10 1448
unfolding strlinger strlinger_loop starts
info-IsWindow = record {
  closed_info = lacks-Free 0 info refl;
  no_cwnd = refl;
  no_mss = refl;
  cwnd_fits = omega arith;
  mss_fits = omega arith;
}

title-Quiet : Quiet asked title
unfolding strlinger strlinger_loop starts
title-Quiet = (lacks-Free 0 (codes "State  Local Address:Port  Peer Address:Port") refl, refl, tt)

other-Quiet : Quiet asked other
unfolding strlinger strlinger_loop starts
other-Quiet = (
  lacks-Free 0 (codes "ESTAB 0 0 192.168.11.103:22 10.0.0.9:http ") refl,
  refl,
  (lacks-Free 0 (codes " cubic mss:1448 cwnd:10 rto:204") refl, refl, tt),
)

strlinger-First_example :
    First
      (codes "ESTAB 10.0.0.9:80")
      (codes ":")
      (strlinger (codes "ESTAB 10.0.0.9:80") (codes ":"))
strlinger-First_example = strlinger-First (codes "ESTAB 10.0.0.9:80") 58 []

answer_lem_example : answer behind array asked output ≡ (found_window 10 1448).window
answer_lem_example =
    answer_lem behind asked array state (codes " ") [] info (codes "send 2Mbps") 10 1448 title other
      (λ n. unfold text in tt) asked-IsFlow info-IsWindow title-Quiet other-Quiet
      (omega arith, (omega arith, (omega arith, (omega arith, (omega arith, tt)))))

unknown_window : to_window (some (2 ^ 32 - 1, 2 ^ 32 - 1)) ≡ 1
unfolding to_window
unknown_window = refl

-- A line of 300 characters takes two calls.
long_line : length (pieces_of (replicate 300 65 ∷ [])) ≡ 2
unfolding pieces_of pieces
long_line = refl
