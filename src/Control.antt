-- ===== src/Control.antt =====
-- create_tree/createtree.c: `main`, which reads the tree again in each turn, and `main_linger`, the
-- turn. It asks the kernel module of the access point for the states, searches the tree with them,
-- and sets the window of the flow that has sent the most packets.
pub mod Acts
pub mod BuiltIn
pub mod Busiest
pub mod State
pub mod Socket
pub mod Text
use controller_project.Base.{
  ℕ, zero, suc, ◌+◌, ◌*◌, ◌%◌, ◌^◌, List, [], ◌∷◌, ◌++◌, Bool, Option, none, some, length, map, ltb,
  ◌==◌, if◌then◌else◌,
}
use controller_project.Tree.{
  Name, RawData, TreeNode, null, node, ItemValue, Result, create_tree, get_parameters, bst_search,
}
use controller_project.Tree.Text.{bar, tokens}
use controller_project.Tree.Parse.{read_row, named_rows}
use controller_project.Control.Text.{TcpFlow, codes, dotted_high, set_cwnd, copy}
use controller_project.Control.State.{
  ApStates, TcpSs, Event, request, connected, question, command, Answers, Machine, Outcome, goes_on,
  exits, crash, sent, and_then, Floats,
}

abbrev pub flows_keep : ℕ
flows_keep = 10

abbrev pub no_flow : TcpFlow
no_flow = record {
  ip_src = 0;
  ip_dst = 0;
  sourceaddr = 0;
  destination = 0;
  winsize = 0;
  sec = 0;
  usec = 0;
  packets = 0;
}

-- The loop over the messages with the flows; `max_flow` starts as zeroes.
unfoldable pub max_flow : (ℕ → TcpFlow) → ℕ → TcpFlow
max_flow flows zero = no_flow
max_flow flows (suc i) =
    let before = max_flow flows i in
    if ltb before.packets (flows i).packets then flows i else before

-- `tmp.cwnd * tmp.mss`, an `int`, or 0 when nothing is read.
unfoldable pub to_window : Option (ℕ × ℕ) → ℕ
to_window none = 0
to_window (some (cwnd, mss)) = cwnd * mss % 2 ^ 32

-- `check_cwnd` up to its `write`: the addresses are copied to arrays of 18 characters.
unfoldable pub to_question : List ℕ → List ℕ → TcpFlow → Option TcpSs
to_question ip_src ip_dst f = elim (copy 18 ip_src) [
  | none ↦ none
  | some src ↦ elim (copy 18 ip_dst) [
    | none ↦ none
    | some dst ↦
        some
          (record { ip_src = src; ip_dst = dst; src_port = f.sourceaddr; dst_port = f.destination })
  ]
]

-- `if (sock > 0) ...`: `none` is a write out of bounds.
unfoldable pub set_window : TcpFlow → Answers → ℕ → Option (List Event)
unfolding to_question to_window
set_window f a zero = some []
set_window f a (suc n) = elim (dotted_high f.ip_src) [
  | none ↦ none
  | some src ↦ elim (dotted_high f.ip_dst) [
    | none ↦ none
    | some dst ↦ elim (to_question src dst f) [
      | none ↦ none
      | some q ↦ elim (set_cwnd f 200 (to_window a.window)) [
        | none ↦ none
        | some text ↦ some (question q ∷ command text ∷ [])
      ]
    ]
  ]
]

abbrev pub states_text : List ℕ
states_text = codes "states"

-- `flows` is copied over the first five characters of `states`, whose last one stays.
abbrev pub flows_text : List ℕ
flows_text = codes "flowss"

abbrev pub maxras_text : List ℕ
maxras_text = codes "maxras"

abbrev pub flooss_text : List ℕ
flooss_text = codes "flooss"

module _ {F : Type 0} (floats : Floats F) (behind : ℕ → Name) where
  open floats use {of_nat, of_s8, scaled, le, atof, nought}

  -- `assign_string`: the block gets the characters without a `0` at their end, so that `strcmp` reads
  -- what lies behind the block as well.
  abbrev pub item : ℕ → Name → F → ItemValue F
  item i s x = record { name = some (s ++ behind i); value = x }

  -- `requeues` and `overlimits` are the enumerators 12 and 13, as in the source.
  unfoldable pub fstates : ApStates → List (ItemValue F)
  fstates s =
      item 0 (codes "drop_count") (scaled (of_nat s.drop_count))
      ∷ item 1 (codes "time_busy") (scaled (of_nat s.time_busy))
      ∷ item 2 (codes "time_ext_busy") (scaled (of_nat s.time_ext_busy))
      ∷ item 3 (codes "time_rx") (scaled (of_nat s.time_rx))
      ∷ item 4 (codes "time_tx") (scaled (of_nat s.time_tx))
      ∷ item 5 (codes "time_scan") (scaled (of_nat s.time_scan))
      ∷ item 6 (codes "noise") (of_s8 s.noise)
      ∷ item 7 (codes "packets") (scaled (of_nat s.packets))
      ∷ item 8 (codes "bytes") (scaled (of_nat s.bytes))
      ∷ item 9 (codes "qlen") (of_nat s.qlen)
      ∷ item 10 (codes "backlog") (of_nat s.backlog)
      ∷ item 11 (codes "drops") (of_nat s.drops)
      ∷ item 12 (codes "requeues") (scaled (of_nat 12))
      ∷ item 13 (codes "overlimits") (scaled (of_nat 13))
      ∷ []

  -- The rows behind those of an earlier call, of which there are none at the start. A row after them
  -- is written through `nodeptr`, which is still `NULL`.
  unfoldable pub grow : List (RawData F) → List Name → Option (List (RawData F))
  grow [] rows = named_rows (map (read_row atof nought nought) rows)
  grow (r ∷ rs) [] = some (r ∷ rs)
  grow (r ∷ rs) (q ∷ qs) = none

  unfoldable pub plant : Machine F → Option (List (RawData F)) → Option (Machine F)
  plant m none = none
  plant m (some rs) = elim (get_parameters rs) [
    | none ↦ none
    | some ps ↦ some (record m { node = rs; tnode = create_tree (length rs) rs; parameters = ps })
  ]

  -- `none` is a row without a name, one behind the rows of an earlier call, or a write behind the 80
  -- parameters. The blocks of the names are taken to have room for the closing `0`.
  unfoldable pub init_linger_m : Machine F → Name → Option (Machine F)
  unfolding grow plant
  init_linger_m m inputtxt = plant m (grow m.node (tokens bar inputtxt))

  abbrev pub destroy_everything : Machine F → Machine F
  destroy_everything m = record m { node = []; tnode = null; parameters = [] }

  -- The end of a turn that found a leaf.
  unfoldable pub finish : Machine F → List Event → List Event → Outcome F
  finish m events more =
      goes_on (destroy_everything m)
        (events ++ (more ++ request maxras_text ∷ request flooss_text ∷ []))

  unfoldable pub with_socket : Machine F → List Event → TcpFlow → Answers → ℕ → Outcome F
  unfolding finish set_window
  with_socket m events f a sock = elim (set_window f a sock) [
    | none ↦ crash
    | some more ↦ finish (record m { sock = some sock }) events more
  ]

  -- `if (sock < 0) sock = ppp (port, ip_src)`; `ppp` ends the program when it cannot connect.
  unfoldable pub contact : Machine F → List Event → TcpFlow → Answers → Outcome F
  unfolding with_socket
  contact m events f a = elim m.sock [
    | some sock ↦ with_socket m events f a sock
    | none ↦ elim (dotted_high f.ip_src) [
      | none ↦ crash
      | some ip ↦ elim a.socket [
        | none ↦ exits events
        | some sock ↦ with_socket m (events ++ connected f.sourceaddr ip ∷ []) f a sock
      ]
    ]
  ]

  -- `if (max_flow.sec != 0) ...`
  unfoldable pub serve : Machine F → Answers → TcpFlow → Outcome F
  unfolding contact finish
  serve m a f =
      let events = request states_text ∷ request flows_text ∷ [] in
      if f.sec == 0 then finish m events [] else contact m events f a

  -- What follows a search that found something.
  unfoldable pub act : Machine F → Answers → Outcome F
  act m a = serve m a (max_flow a.flows flows_keep)

  unfoldable pub main_linger : Machine F → Answers → Outcome F
  unfolding act fstates
  main_linger m a = elim a.states [
    | none ↦ goes_on (destroy_everything m) (request states_text ∷ [])
    | some s ↦ elim (bst_search le m.tnode (fstates s)) [
      | Result.crash ↦ crash
      | Result.returns t ↦ elim t [
        | null ↦ goes_on (destroy_everything m) (request states_text ∷ [])
        | node d l r ↦ act m a
      ]
    ]
  ]

  -- The loop of `main` over the turns. The text is the same each time.
  unfoldable pub main : Name → Machine F → List Answers → Outcome F
  unfolding init_linger_m main_linger and_then
  main inputtxt m [] = goes_on m []
  main inputtxt m (a ∷ turns) = elim (init_linger_m m inputtxt) [
    | none ↦ crash
    | some m' ↦ and_then (main_linger m' a) (λ m''. main inputtxt m'' turns)
  ]
