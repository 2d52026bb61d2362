-- ===== src/Control/BuiltIn.antt =====
-- The tree that createtree.c has in its text, `get_openflow_input`.
use controller_project.Base.{
  ℕ, ◌≡◌, refl, subst, List, [], ◌∷◌, false, Option, none, some, length, replicate,
}
use controller_project.Tree.{
  Name, NodeData, TreeNode, null, node, Found, find_item, ItemValue, leaf, Result, search_loop,
  bst_search, equal,
}
use controller_project.Tree.Text.{bar, tokens}
use controller_project.Control.Text.{codes}
use controller_project.Control.Socket.{sock-plant}
use controller_project.Control.State.{
  ApStates, request, Answers, Machine, goes_on, Floats, start, sent, and_then,
}
use controller_project.Control.{
  fstates, grow, init_linger_m, main_linger, main, states_text, destroy_everything,
}

abbrev pub get_openflow_input : List ℕ
get_openflow_input =
    codes
      "0,0,requeues_3,5158.975,0|0,1,busy_time_1,808.831,2|1,2,leaf,0,2|1,3,allpackets_1,150.5,2|3,4,leaf,0,2|3,5,requeues_1,678.932,2|5,6,drops_1,3211.45,2|6,7,leaf,0,2|6,8,leaf,0,2|5,9,leaf,0,2|0,10,busy_time_1,808.542,0|10,11,retrans_4,14.5,0|11,12,allpackets_3,182.5,0|12,13,retrans_5,14.5,0|13,14,retrans_3,0.5,0|14,15,receive_time_1,122.551,0|15,16,leaf,0,0|15,17,leaf,0,1|14,18,transmit_time_4,32.177,0|18,19,leaf,0,0|18,20,leaf,0,0|13,21,leaf,0,0|12,22,allpackets_1,202.5,0|22,23,rbytes_3,257018.672,0|23,24,leaf,0,0|23,25,allpackets_1,170.5,0|25,26,leaf,0,0|25,27,leaf,0,0|22,28,leaf,0,0|11,29,leaf,0,0|10,30,leaf,0,2"

abbrev root_of : {F : Type 0} → TreeNode F → Option Name
root_of null = none
root_of (node d l r) = some d.name

abbrev root_name : {F : Type 0} → Option (Machine F) → Option Name
root_name none = none
root_name (some m) = root_of m.tnode

module _ {F : Type 0} (floats : Floats F) (behind : ℕ → Name) where
  root_requeues :
      root_name (init_linger_m floats behind start get_openflow_input) ≡ some (codes "requeues_3")
  unfolding init_linger_m tokens controller_project.Tree.Parse.named_rows
      controller_project.Tree.Text.strtok_r controller_project.Tree.Parse.read_row
      controller_project.Tree.get_parameters equal controller_project.Tree.create_tree
  root_requeues = refl

  -- None of the items has the name, unless what lies behind `requeues` completes it.
  requeues_missing :
      (s : ApStates)
      → equal (codes "_3") (behind 12) ≡ false
      → find_item (codes "requeues_3") (fstates floats behind s) ≡ Found.missing
  unfolding find_item fstates equal
  requeues_missing s h = rw h refl

  search-root :
      (t : TreeNode F) (n : Name) (vs : List (ItemValue F))
      → root_of t ≡ some n
      → equal n leaf ≡ false
      → find_item n vs ≡ Found.missing
      → bst_search floats.le t vs ≡ Result.returns null
  unfolding bst_search
  search-root null n vs e l f = cc
  search-root (node d left right) n vs e l f =
      let same : n ≡ d.name = cc in
      let l' : equal d.name leaf ≡ false = subst (λ k. equal k leaf ≡ false) same l in
      let f' = subst (λ k. find_item k vs ≡ Found.missing) same f in
      rw (bst_search, search_loop, l', f') refl

  turn_not_found :
      (m : Machine F) (a : Answers) (states : Option ApStates)
      → a.states ≡ states
      → root_of m.tnode ≡ some (codes "requeues_3")
      → equal (codes "_3") (behind 12) ≡ false
      → main_linger floats behind m a
        ≡ goes_on (destroy_everything floats behind m) (request states_text ∷ [])
  unfolding main_linger equal
  turn_not_found m a none e r h = rw (main_linger, e) refl
  turn_not_found m a (some s) e r h =
      rw
        (
          main_linger,
          e,
          search-root m.tnode (codes "requeues_3") (fstates floats behind s) r refl
              (requeues_missing s h),
        )
        refl

  -- The tree is planted; its root asks for `requeues_3`, and there is no socket.
  planted :
      (o : Option (Machine F))
      → root_name o ≡ some (codes "requeues_3")
      → (m : Machine F) × (o ≡ some m) × (root_of m.tnode ≡ some (codes "requeues_3"))
  planted none h = cc
  planted (some m) h = (m, refl, h)

  -- With the text that the program has built in, however many turns it takes and whatever it is
  -- answered, it sends the request for the states in each turn and nothing else: the tree's root asks
  -- for `requeues_3`, and the items have names without a number. The condition is that the bytes behind
  -- the unterminated name `requeues` do not happen to read `_3`.
  pub built_in_never_acts :
      (turns : List Answers)
      → equal (codes "_3") (behind 12) ≡ false
      → main floats behind get_openflow_input start turns
        ≡ goes_on start (replicate (length turns) (request states_text))
  unfolding main init_linger_m and_then sent
  built_in_never_acts [] h = refl
  built_in_never_acts (a ∷ turns) h =
      let (m, e, r) =
        planted (init_linger_m floats behind start get_openflow_input) root_requeues in
      let same =
        sock-plant floats behind start m (grow floats behind [] (tokens bar get_openflow_input))
          e in
      rw
        (main, e, and_then, turn_not_found m a a.states refl r h, same, built_in_never_acts turns h)
        refl
