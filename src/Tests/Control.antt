-- ===== src/Tests/Control.antt =====
-- Turns of the controller, with natural numbers for `float`.
use controller_project.Base.{ℕ, ◌/◌, ◌≡◌, ◌≤◌, refl, false, [], ◌∷◌, none, some, leb, replicate}
use controller_project.Tree.{Name, leaf, equal, NodeData, find_item}
use controller_project.Tree.Build.{Full, leaf_of, split, to_node, Named}
use controller_project.Tree.Search.{Covers}
use controller_project.Tree.Text.{atoi}
use controller_project.Control.Text.{TcpFlow, codes, set_cwnd}
use controller_project.Control.Text.Bounds.{command_for, set_cwnd_fits}
use controller_project.Control.State.{ApStates, Answers, Machine, Outcome, Floats, start, request}
use controller_project.Control.{max_flow, fstates, main_linger, main, states_text, flows_keep}
use controller_project.Control.Busiest.{Busiest}
use controller_project.Control.Acts.{turn_for, main_linger_acts}
use controller_project.Control.Socket.{connections, events_of, main_connects_once}
use controller_project.Control.BuiltIn.{get_openflow_input, built_in_never_acts}

abbrev numbers : Floats ℕ
numbers = record {
  of_nat = λ n. n;
  of_s8 = λ n. n;
  scaled = λ n. n / 1000000;
  le = leb;
  atof = atoi;
  nought = 0;
}

abbrev behind : ℕ → Name
behind i = []

-- Packets of `i` seconds, from 192.168.11.`i`.
abbrev flow : ℕ → TcpFlow
flow i = record {
  ip_src = 0xc0a8_0b00;
  ip_dst = 0xc0a8_0b67;
  sourceaddr = 0x0c30;
  destination = 0x0d30;
  winsize = 0;
  sec = 100;
  usec = 0;
  packets = i;
}

abbrev states : ApStates
states = record {
  sec = 1;
  usec = 2;
  drop_count = 0;
  time = 0;
  time_busy = 0;
  time_ext_busy = 0;
  time_rx = 0;
  time_tx = 0;
  time_scan = 0;
  noise = 161;
  stations = 1;
  packets = 0;
  bytes = 0;
  qlen = 0;
  backlog = 0;
  drops = 40;
  requeues = 0;
  overlimits = 0;
}

abbrev answers : Answers
answers = record { states = some states; flows = flow; socket = some 3; window = some (10, 1460) }

abbrev root : NodeData ℕ
root = record { itself = 1; name = codes "drops"; value = 50; class = 0 }

abbrev left : NodeData ℕ
left = record { itself = 2; name = leaf; value = 0; class = 1 }

abbrev right : NodeData ℕ
right = record { itself = 3; name = leaf; value = 0; class = 2 }

abbrev tree : Full ℕ
tree = split root (leaf_of left) (leaf_of right)

tree-Named : Named tree
unfolding equal
tree-Named = (refl, refl, refl)

abbrev machine : Machine ℕ
machine = record { node = []; tnode = to_node tree; parameters = []; sock = none }

tree-Covers : Covers leb (λ n. 40) (fstates numbers behind states) tree
unfolding find_item equal fstates
tree-Covers = ((record { name = some (codes "drops"); value = 40 }, refl, refl), tt, tt)

main_linger_acts_example :
    Busiest flow flows_keep (max_flow flow flows_keep)
    × (main_linger numbers behind machine answers
        ≡ turn_for machine answers (max_flow flow flows_keep))
main_linger_acts_example =
    main_linger_acts numbers behind machine answers states tree (λ n. 40) refl refl tree-Named
      tree-Covers

main_connects_once_example :
    connections
      (events_of (main numbers behind (codes "0,1,leaf,0,1") start (answers ∷ answers ∷ [])))
    ≤ 1
main_connects_once_example =
    main_connects_once numbers behind (codes "0,1,leaf,0,1") (answers ∷ answers ∷ [])

set_cwnd_fits_example : set_cwnd (flow 7) 200 14600 ≡ some (command_for (flow 7) 14600)
set_cwnd_fits_example = set_cwnd_fits (flow 7) 14600

no_match : equal (codes "_3") (behind 12) ≡ false
unfolding equal
no_match = refl

built_in_never_acts_example :
    main numbers behind get_openflow_input start (answers ∷ answers ∷ [])
    ≡ Outcome.goes_on start (replicate 2 (request states_text))
built_in_never_acts_example = built_in_never_acts numbers behind (answers ∷ answers ∷ []) no_match
