-- ===== src/Window.antt =====
-- udp/server.c: the server on the host of a flow that is asked for its window. It searches the output
-- of `ss -4 -t -i` for the flow, whose numbers are in the line behind.
pub mod Find
pub mod Answers
pub mod Fields
pub mod Lines
pub mod Numbers
use controller_project.Base.{
  ℕ, zero, suc, ◌+◌, ◌-◌, ◌^◌, List, [], ◌∷◌, ◌++◌, Bool, true, false, ◌&&◌, Option, none, some,
  length, take, drop, ltb, ◌==◌, if◌then◌else◌,
}
use controller_project.Tree.Text.{atoi}
use controller_project.Control.Text.{codes}
use controller_project.Control.State.{TcpSs}

-- The characters up to the closing `0`; a text that the array does not close ends with it.
unfoldable pub text : List ℕ → List ℕ
text [] = []
text (c ∷ cs) = let rest = text cs in if c == 0 then [] else c ∷ rest

-- The inner loop of `strlinger`: whether `sub` stands at `bp`.
unfoldable pub starts : List ℕ → List ℕ → Bool
starts bp [] = true
starts [] (s ∷ sp) = false
starts (b ∷ bp) (s ∷ sp) = let rest = starts bp sp in if b == s then rest else false

unfoldable pub strlinger_loop : List ℕ → List ℕ → ℕ → Option ℕ
unfolding starts
strlinger_loop [] sub ind = none
strlinger_loop (b ∷ buf) sub ind =
    let rest = strlinger_loop buf sub (ind + 1) in if starts (b ∷ buf) sub then some ind else rest

-- `none` is -1.
unfoldable pub strlinger : List ℕ → List ℕ → Option ℕ
unfolding strlinger_loop
strlinger buf [] = none
strlinger buf (s ∷ sub) = strlinger_loop buf (s ∷ sub) 0

abbrev pub colon : List ℕ
colon = codes ":"

abbrev pub space : List ℕ
space = codes " "

abbrev pub cwnd_text : List ℕ
cwnd_text = codes "cwnd"

abbrev pub mss_text : List ℕ
mss_text = codes "mss"

-- `strlinger (...) + n`, for `n` above 0.
abbrev pub offset : Option ℕ → ℕ → ℕ
offset none n = n - 1
offset (some i) n = i + n

-- `line + i`
abbrev pub from : ℕ → List ℕ → List ℕ
from i line = text (drop i line)

-- Whether two texts are equal, `strcmp (a, b) == 0`.
unfoldable pub same_text : List ℕ → List ℕ → Bool
same_text [] [] = true
same_text [] (b ∷ bs) = false
same_text (a ∷ ys) [] = false
same_text (a ∷ ys) (b ∷ bs) = let rest = same_text ys bs in if a == b then rest else false

unfoldable pub port_of : List ℕ → ℕ
unfolding same_text
port_of str =
    if same_text (codes "http") str
    then 80
    else if same_text (codes "https") str
    then 8089
    else atoi str

-- `struct cwnd_mss`, each an `int` by its 32 bits.
pub record CwndMss : Type 0 where
  pub cwnd : ℕ
  pub mss : ℕ

-- `found_cwnd`, `cwnd` and `mss`.
pub record Found : Type 0 where
  pub found_cwnd : Bool
  pub window : CwndMss

abbrev pub line_length : ℕ
line_length = 300

-- The calls of `fgets` that it takes to read a line with its end: each reads `line_length - 1`
-- characters at most.
unfoldable pub pieces : ℕ → List ℕ → List (List ℕ)
pieces zero l = []
pieces (suc fuel) l =
    let rest = pieces fuel (drop (line_length - 1) l) in
    if ltb (length l) line_length then l ∷ [] else take (line_length - 1) l ∷ rest

-- A piece takes a character at least.
unfoldable pub pieces_of : List (List ℕ) → List (List ℕ)
unfolding pieces
pieces_of [] = []
pieces_of (l ∷ ls) = pieces (length l + 1) l ++ pieces_of ls

-- What `fgets` writes: the rest of the array keeps its contents.
unfoldable pub fgets : List ℕ → List ℕ → List ℕ
fgets chunk line = chunk ++ 0 ∷ drop (length chunk + 1) line

-- The block that `str` points at has no room for a closing `0`, so that `behind n` is read after its
-- `n` characters.
module _ (behind : ℕ → List ℕ) where
  -- The characters from `index3` up to a space, and `index4`; `none` when there are none.
  unfoldable pub read_field : List ℕ → ℕ → Option (List ℕ × ℕ)
  read_field line index3 = elim (strlinger (from index3 line) space) [
    | none ↦ none
    | some zero ↦ none
    | some (suc k) ↦ some (take (suc k) (drop index3 line) ++ text (behind (suc k)), index3 + suc k)
  ]

  -- The two ports of a line with both addresses.
  unfoldable pub same_ports : TcpSs → List ℕ → ℕ → Bool
  same_ports q line index1 =
      elim (read_field line (offset (strlinger (from index1 line) colon) 1 + index1)) [
        | none ↦ false
        | some (src, index4) ↦
            elim (read_field line (offset (strlinger (from index4 line) colon) 1 + index4)) [
              | none ↦ false
              | some (dst, end) ↦ (atoi src == q.src_port) && (port_of dst == q.dst_port)
            ]
      ]

  -- Whether the server goes on to the line behind; every other line is passed over.
  unfoldable pub is_flow : TcpSs → List ℕ → Bool
  is_flow q line = elim (strlinger (text line) q.ip_src) [
    | none ↦ false
    | some zero ↦ false
    | some (suc i) ↦ elim (strlinger (text line) q.ip_dst) [
      | none ↦ false
      | some zero ↦ false
      | some (suc j) ↦ same_ports q line (suc i)
    ]
  ]

  -- The numbers of the line behind, and whether the loop goes on.
  unfoldable pub read_window : List ℕ → Found → Found × Bool
  read_window line found = elim (read_field line (offset (strlinger (text line) cwnd_text) 5)) [
    | none ↦ (found, false)
    | some (s, e) ↦ elim (read_field line (offset (strlinger (text line) mss_text) 4)) [
      | none ↦ (
        record { found_cwnd = true; window = record { cwnd = atoi s; mss = found.window.mss } },
        false,
      )
      | some (t, f) ↦
          (record { found_cwnd = true; window = record { cwnd = atoi s; mss = atoi t } }, true)
    ]
  ]

  -- `while (fgets (line, ...) != NULL)`, over the pieces of the output.
  unfoldable pub read_lines : TcpSs → List ℕ → Found → List (List ℕ) → Found
  read_lines q line found [] = found
  read_lines q line found (l ∷ []) = found
  read_lines q line found (l ∷ m ∷ ms) =
      let (found', goes_on) = read_window (fgets m (fgets l line)) found in
      elim (is_flow q (fgets l line)) [
        | false ↦ read_lines q (fgets l line) found (m ∷ ms)
        | true ↦ elim goes_on [
          | false ↦ found'
          | true ↦ read_lines q (fgets m (fgets l line)) found' ms
        ]
      ]

  -- What the server answers to the lines of the output, -1 twice when it found nothing. `line` is what
  -- the array held before.
  unfoldable pub answer : List ℕ → TcpSs → List (List ℕ) → CwndMss
  unfolding read_lines
  answer line q output =
      let nothing : Found = record { found_cwnd = false; window = record { cwnd = 0; mss = 0 } } in
      let found = read_lines q line nothing (pieces_of output) in
      if found.found_cwnd then found.window else record { cwnd = 2 ^ 32 - 1; mss = 2 ^ 32 - 1 }
