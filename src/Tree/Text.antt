-- ===== src/Tree/Text.antt =====
-- `strtok_r`, `atoi` and the loops of create_tree/createtree.c that cut a text: one character
-- separates, a text is the list of its characters before the `\0`.
pub mod Tokens
pub mod Digits
use controller_project.Base.{
  ℕ, zero, suc, ◌+◌, ◌-◌, ◌*◌, ◌%◌, ◌^◌, List, [], ◌∷◌, Option, none, some, Bool, true, false,
  length, ltb, leb, ◌==◌, if◌then◌else◌,
}
use controller_project.Tree.{Name}

-- `|`, `,` and `;`
abbrev pub bar : ℕ
bar = 124

abbrev pub comma : ℕ
comma = 44

abbrev pub semicolon : ℕ
semicolon = 59

-- Separators in front of a token are passed over.
unfoldable pub skip : ℕ → Name → Name
skip sep [] = []
skip sep (c ∷ cs) = let rest = skip sep cs in if c == sep then rest else c ∷ cs

-- The token, and what the saved pointer points at after its end.
unfoldable pub word : ℕ → Name → Name
word sep [] = []
word sep (c ∷ cs) = let rest = word sep cs in if c == sep then [] else c ∷ rest

unfoldable pub after : ℕ → Name → Name
after sep [] = []
after sep (c ∷ cs) = let rest = after sep cs in if c == sep then cs else rest

unfoldable pub cut : ℕ → Name → Option (Name × Name)
unfolding word after
cut sep [] = none
cut sep (c ∷ cs) = some (word sep (c ∷ cs), after sep (c ∷ cs))

-- `strtok_r`: the next token with the text behind it, `none` for `NULL`.
unfoldable pub strtok_r : ℕ → Name → Option (Name × Name)
unfolding skip cut
strtok_r sep s = cut sep (skip sep s)

-- `while (p != NULL) { ...; p = strtok_r (NULL, ...) }`: the tokens in order. Each takes a character
-- at least.
unfoldable pub tokens_loop : ℕ → ℕ → Name → List Name
tokens_loop sep zero s = []
tokens_loop sep (suc fuel) s = elim (strtok_r sep s) [
  | none ↦ []
  | some (p, rest) ↦ p ∷ tokens_loop sep fuel rest
]

unfoldable pub tokens : ℕ → Name → List Name
unfolding tokens_loop
tokens sep s = tokens_loop sep (length s) s

-- The digits at the start, added to what was read; an `int` by its 32 bits.
unfoldable pub atoi_digits : ℕ → Name → ℕ
atoi_digits acc [] = acc
atoi_digits acc (c ∷ cs) =
    let rest = atoi_digits ((acc * 10 + (c - 0x30)) % 2 ^ 32) cs in
    if leb 0x30 c then (if ltb c 0x3a then rest else acc) else acc

abbrev is_space : ℕ → Bool
is_space c = if c == 0x20 then true else if leb 9 c then ltb c 14 else false

-- `atoi`: white space, a sign, digits. Above `INT_MAX`, where C leaves the result open, it is taken
-- modulo `2 ^ 32`.
unfoldable pub atoi : Name → ℕ
unfolding atoi_digits
atoi [] = 0
atoi (c ∷ cs) =
    let later = atoi cs in
    if is_space c
    then later
    else if c == 0x2d
    then (2 ^ 32 - atoi_digits 0 cs) % 2 ^ 32
    else if c == 0x2b
    then atoi_digits 0 cs
    else atoi_digits 0 (c ∷ cs)
