-- ===== src/Control/Socket.antt =====
-- `main` of createtree.c connects once: the socket is a global that is never closed in the loop.
use controller_project.Base.{
  ℕ, zero, suc, ◌+◌, ◌≤◌, ◌≡◌, refl, sym, subst, inl, inr, List, [], ◌∷◌, ◌++◌, false, Bool-cases,
  Option-cases, Option, none, some, ◌==◌, arith,
}
use controller_project.Tree.Text.{bar, tokens}
use controller_project.Tree.{Name, RawData, null, node, Result, bst_search}
use controller_project.Control.Text.{TcpFlow}
use controller_project.Control.Acts.{over_socket, through, turn_for, serve_lem}
use controller_project.Control.State.{
  Event, request, connected, question, command, Answers, Machine, Outcome, goes_on, exits, crash,
  Floats, start, sent, and_then, ApStates,
}
use controller_project.Control.{
  act, grow, plant, init_linger_m, main_linger, main, states_text, maxras_text, flooss_text,
  destroy_everything, fstates, max_flow, flows_keep,
}

unfoldable pub connections : List Event → ℕ
connections [] = 0
connections (connected port ip ∷ es) = suc (connections es)
connections (request s ∷ es) = connections es
connections (question q ∷ es) = connections es
connections (command s ∷ es) = connections es

connections-append : (xs ys : List Event) → connections (xs ++ ys) ≡ connections xs + connections ys
unfolding connections
connections-append [] ys = omega arith
connections-append (connected port ip ∷ xs) ys = omega (arith, connections-append xs ys)
connections-append (request s ∷ xs) ys = connections-append xs ys
connections-append (question q ∷ xs) ys = connections-append xs ys
connections-append (command s ∷ xs) ys = connections-append xs ys

abbrev pub events_of : {F : Type 0} → Outcome F → List Event
events_of (goes_on m events) = events
events_of (exits events) = events
events_of crash = []

-- 1 with a socket, 0 without.
abbrev pub open_sockets : Option ℕ → ℕ
open_sockets none = 0
open_sockets (some k) = 1

-- `n` sockets before, `e` connections: at the end there are as many sockets.
abbrev Counts : {F : Type 0} → ℕ → Outcome F → Type 0
Counts n (goes_on m events) = open_sockets m.sock ≡ n + connections events
Counts n (exits events) = n + connections events ≤ 1
Counts n crash = Unit {0}

abbrev last_requests : List Event
last_requests = request maxras_text ∷ request flooss_text ∷ []

connections-over_socket :
    (f : TcpFlow) (a : Answers) (sock : ℕ) (rest : List Event)
    → connections (over_socket f a sock ++ rest) ≡ connections rest
unfolding connections over_socket
connections-over_socket f a zero rest = refl
connections-over_socket f a (suc n) rest = refl

Counts-served :
    {F : Type 0} (m : Machine F) (a : Answers) (f : TcpFlow) (sock answer : Option ℕ)
    → m.sock ≡ sock
    → a.socket ≡ answer
    → (f.sec == 0) ≡ false
    → Counts (open_sockets sock) (turn_for m a f)
unfolding turn_for through connections
Counts-served m a f (some k) answer e g t =
    rw (turn_for, t, e) (omega (arith, connections-over_socket f a k last_requests))
Counts-served m a f none none e g t = rw (turn_for, t, e, g) (omega arith)
Counts-served m a f none (some k) e g t =
    rw (turn_for, t, e, g) (omega (arith, connections-over_socket f a k last_requests))

Counts-turn_for :
    {F : Type 0} (m : Machine F) (a : Answers) (f : TcpFlow)
    → Counts (open_sockets m.sock) (turn_for m a f)
unfolding turn_for through connections
Counts-turn_for m a f = elim (Bool-cases (f.sec == 0)) [
  | inl t ↦ rw (turn_for, t) (omega arith)
  | inr t ↦ Counts-served m a f m.sock a.socket refl refl t
]

counted : {F : Type 0} (o : Outcome F) → Counts 0 o → connections (events_of o) ≤ 1
unfolding connections
counted (goes_on m events) h = at_most m.sock (connections events) h
  where
    at_most : (o : Option ℕ) (n : ℕ) → open_sockets o ≡ 0 + n → n ≤ 1
    at_most none n h = omega arith
    at_most (some k) n h = omega arith
counted (exits events) h = omega arith
counted crash h = omega arith

module _ {F : Type 0} (floats : Floats F) (behind : ℕ → Name) where
  Counts-act : (m : Machine F) (a : Answers) → Counts (open_sockets m.sock) (act floats behind m a)
  unfolding act
  Counts-act m a =
      let f = max_flow a.flows flows_keep in
      subst (λ o. Counts (open_sockets m.sock) o) (sym (serve_lem floats behind m a f))
        (Counts-turn_for m a f)

  Counts-searched :
      (m : Machine F) (a : Answers) (r : Result F)
      → Counts (open_sockets m.sock) (elim r [
        | Result.crash ↦ crash
        | Result.returns t ↦ elim t [
          | null ↦ goes_on (destroy_everything floats behind m) (request states_text ∷ [])
          | node d l r ↦ act floats behind m a
        ]
      ])
  unfolding connections
  Counts-searched m a Result.crash = tt
  Counts-searched m a (Result.returns null) = omega arith
  Counts-searched m a (Result.returns (node d l r)) = Counts-act m a

  Counts-main_linger :
      (m : Machine F) (a : Answers) (states : Option ApStates)
      → a.states ≡ states
      → Counts (open_sockets m.sock) (main_linger floats behind m a)
  unfolding main_linger connections
  Counts-main_linger m a none e = rw (main_linger, e) (omega arith)
  Counts-main_linger m a (some s) e =
      rw (main_linger, e)
        (Counts-searched m a (bst_search floats.le m.tnode (fstates floats behind s)))

  pub sock-plant :
      (m m' : Machine F) (rows : Option (List (RawData F)))
      → plant floats behind m rows ≡ some m'
      → m'.sock ≡ m.sock
  unfolding plant
  sock-plant m m' none h = cc
  sock-plant m m' (some rs) h = ground arith

  Counts-sent :
      (n : ℕ) (m : Machine F) (events : List Event) (o : Outcome F)
      → open_sockets m.sock ≡ n + connections events
      → Counts (open_sockets m.sock) o
      → Counts n (sent events o)
  unfolding sent
  Counts-sent n m events crash h k = tt
  Counts-sent n m events (exits more) h k = omega (arith, connections-append events more)
  Counts-sent n m events (goes_on last more) h k = omega (arith, connections-append events more)

  Counts-and_then :
      (n : ℕ) (o : Outcome F) (rest : Machine F → Outcome F)
      → Counts n o
      → ((m : Machine F) → Counts (open_sockets m.sock) (rest m))
      → Counts n (and_then o rest)
  unfolding and_then
  Counts-and_then n crash rest h k = tt
  Counts-and_then n (exits events) rest h k = h
  Counts-and_then n (goes_on m events) rest h k = Counts-sent n m events (rest m) h (k m)

  Counts-main :
      (text : Name) (m : Machine F) (turns : List Answers)
      → Counts (open_sockets m.sock) (main floats behind text m turns)
  unfolding main connections init_linger_m
  Counts-main text m [] = omega arith
  Counts-main text m (a ∷ turns) = elim (Option-cases (init_linger_m floats behind m text)) [
    | inl e ↦ rw (main, e) tt
    | inr (m', e) ↦
        let rest = λ (m'' : Machine F). main floats behind text m'' turns in
        let same = sock-plant m m' (grow floats behind m.node (tokens bar text)) e in
        let turn =
          Counts-and_then (open_sockets m'.sock) (main_linger floats behind m' a) rest
            (Counts-main_linger m' a a.states refl) (λ m''. Counts-main text m'' turns) in
        rw (main, e)
          (subst (λ o. Counts (open_sockets o) (and_then (main_linger floats behind m' a) rest))
            same turn)
  ]

  -- However many turns the program takes, whatever the text of the tree and the answers, it connects
  -- at most once.
  pub main_connects_once :
      (text : Name) (turns : List Answers)
      → connections (events_of (main floats behind text start turns)) ≤ 1
  main_connects_once text turns =
      counted (main floats behind text start turns) (Counts-main text start turns)
