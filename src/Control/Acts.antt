-- ===== src/Control/Acts.antt =====
-- What a turn of createtree.c sends when the tree decides on the states.
use controller_project.Base.{
  ℕ, zero, suc, ◌≡◌, refl, sym, ap, inl, inr, List, [], ◌∷◌, ◌++◌, append_assoc, false, Option,
  none, some, ◌==◌, if◌then◌else◌, Bool-cases, arith,
}
use controller_project.Tree.{Name, null}
use controller_project.Tree.Build.{Full, to_node, Named}
use controller_project.Tree.Search.{Covers, bst_search-decide}
use controller_project.Control.Text.{TcpFlow}
use controller_project.Control.Text.Bounds.{
  high, length-high, dotted_high_lem, copy-fits, command_for, set_cwnd_fits,
}
use controller_project.Control.Busiest.{Busiest, max_flow-Busiest}
use controller_project.Control.State.{
  ApStates, TcpSs, Event, request, connected, question, command, Answers, Machine, Outcome, goes_on,
  Floats,
}
use controller_project.Control.{
  flows_keep, max_flow, to_window, to_question, set_window, states_text, flows_text, maxras_text,
  flooss_text, fstates, finish, with_socket, contact, serve, act, main_linger,
}

-- The question about the window of a flow.
abbrev pub question_for : TcpFlow → TcpSs
question_for f = record {
  ip_src = high f.ip_src;
  ip_dst = high f.ip_dst;
  src_port = f.sourceaddr;
  dst_port = f.destination;
}

to_question_fits :
    (f : TcpFlow) → to_question (high f.ip_src) (high f.ip_dst) f ≡ some (question_for f)
unfolding to_question
to_question_fits f =
    let src = copy-fits 18 (high f.ip_src) (omega (arith, length-high f.ip_src)) in
    let dst = copy-fits 18 (high f.ip_dst) (omega (arith, length-high f.ip_dst)) in
    rw (to_question, src, dst) refl

-- The events over a socket.
unfoldable pub over_socket : TcpFlow → Answers → ℕ → List Event
over_socket f a zero = []
over_socket f a (suc n) =
    question (question_for f) ∷ command (command_for f (to_window a.window)) ∷ []

set_window_lem :
    (f : TcpFlow) (a : Answers) (sock : ℕ) → set_window f a sock ≡ some (over_socket f a sock)
unfolding over_socket set_window
set_window_lem f a zero = refl
set_window_lem f a (suc n) =
    rw
      (
        set_window,
        dotted_high_lem f.ip_src,
        dotted_high_lem f.ip_dst,
        to_question_fits f,
        set_cwnd_fits f (to_window a.window),
      )
      refl

module _ {F : Type 0} where
  -- A turn that goes on over a socket, with what it sends between the requests.
  unfoldable pub through : Machine F → Option ℕ → List Event → Outcome F
  through m sock middle =
      goes_on (record m { node = []; tnode = null; parameters = []; sock = sock })
        (request states_text
          ∷ request flows_text
          ∷ (middle ++ request maxras_text ∷ request flooss_text ∷ []))

  -- The turn for a flow: without a time it is no flow. The connection stays for later turns.
  unfoldable pub turn_for : Machine F → Answers → TcpFlow → Outcome F
  unfolding through over_socket
  turn_for m a f = if f.sec == 0 then through m m.sock [] else elim m.sock [
    | some sock ↦ through m (some sock) (over_socket f a sock)
    | none ↦ elim a.socket [
      | none ↦ Outcome.exits (request states_text ∷ request flows_text ∷ [])
      | some sock ↦
          through m (some sock) (connected f.sourceaddr (high f.ip_src) ∷ over_socket f a sock)
    ]
  ]

module _ {F : Type 0} (floats : Floats F) (behind : ℕ → Name) where
  with_socket_lem :
      (m : Machine F) (middle : List Event) (f : TcpFlow) (a : Answers) (sock : ℕ)
      → with_socket floats behind m (request states_text ∷ request flows_text ∷ middle) f a sock
        ≡ through m (some sock) (middle ++ over_socket f a sock)
  unfolding finish through with_socket over_socket
  with_socket_lem m middle f a sock =
      rw (with_socket, set_window_lem f a sock)
        (ap
          (λ z.
            goes_on (record m { node = []; tnode = null; parameters = []; sock = some sock })
              (request states_text ∷ request flows_text ∷ z))
          (sym (
            append_assoc middle (over_socket f a sock)
              (request maxras_text ∷ request flooss_text ∷ []))))

  contact_lem :
      (m : Machine F) (a : Answers) (f : TcpFlow) (sock answer : Option ℕ)
      → m.sock ≡ sock
      → a.socket ≡ answer
      → (f.sec == 0) ≡ false
      → serve floats behind m a f ≡ turn_for m a f
  unfolding turn_for serve contact with_socket
  contact_lem m a f (some sock) answer e g h =
      rw (serve, turn_for, h, contact, e) (with_socket_lem m [] f a sock)
  contact_lem m a f none none e g h =
      rw (serve, turn_for, h, contact, e, dotted_high_lem f.ip_src, g) refl
  contact_lem m a f none (some sock) e g h =
      rw (serve, turn_for, h, contact, e, dotted_high_lem f.ip_src, g)
        (with_socket_lem m (connected f.sourceaddr (high f.ip_src) ∷ []) f a sock)

  pub serve_lem :
      (m : Machine F) (a : Answers) (f : TcpFlow) → serve floats behind m a f ≡ turn_for m a f
  unfolding serve finish turn_for through
  serve_lem m a f = elim (Bool-cases (f.sec == 0)) [
    | inl t ↦ rw (t) refl
    | inr t ↦ contact_lem m a f m.sock a.socket refl refl t
  ]

  -- When the tree decides on the states, the turn ends without a fault as `turn_for` says for the flow
  -- with the most packets: with a time and a socket above 0 it sends one question and one command,
  -- the one for that flow and the product of the numbers read; it connects only when there is no
  -- socket yet, and ends the program when that fails.
  pub main_linger_acts :
      (m : Machine F) (a : Answers) (s : ApStates) (t : Full F) (sample : Name → F)
      → a.states ≡ some s
      → m.tnode ≡ to_node t
      → Named t
      → Covers floats.le sample (fstates floats behind s) t
      → Busiest a.flows flows_keep (max_flow a.flows flows_keep)
        × (main_linger floats behind m a ≡ turn_for m a (max_flow a.flows flows_keep))
  unfolding main_linger turn_for act
  main_linger_acts m a s t sample e f n c =
      let found = bst_search-decide floats.le t sample (fstates floats behind s) n c in
      (
        max_flow-Busiest a.flows flows_keep,
        rw (main_linger, e, f, found) (serve_lem m a (max_flow a.flows flows_keep)),
      )
