-- ===== src/Control/State.antt =====
-- The data of createtree.c: what a turn gets, what it sends, and the globals.
use controller_project.Base.{ℕ, List, [], ◌++◌, Bool, Option, none}
use controller_project.Tree.{Name, RawData, TreeNode, null}
use controller_project.Control.Text.{TcpFlow}

-- `struct apstates` of createtree.c; the padding is left out.
pub record ApStates : Type 0 where
  pub sec : ℕ
  pub usec : ℕ
  pub drop_count : ℕ
  pub time : ℕ
  pub time_busy : ℕ
  pub time_ext_busy : ℕ
  pub time_rx : ℕ
  pub time_tx : ℕ
  pub time_scan : ℕ
  pub noise : ℕ
  pub stations : ℕ
  pub packets : ℕ
  pub bytes : ℕ
  pub qlen : ℕ
  pub backlog : ℕ
  pub drops : ℕ
  pub requeues : ℕ
  pub overlimits : ℕ

-- `struct tcp_ss`, with `state` and `cwnd` 0.
pub record TcpSs : Type 0 where
  pub ip_src : List ℕ
  pub ip_dst : List ℕ
  pub src_port : ℕ
  pub dst_port : ℕ

-- What a turn sends: a request to the kernel module, a connection, a question over it. A command is
-- printed.
pub data Event : Type 0 where
  request : List ℕ → Event
  connected : (port : ℕ) → (ip : List ℕ) → Event
  question : TcpSs → Event
  command : List ℕ → Event

-- What a turn gets: the states, `none` for the text `nonedata`; one message for each flow; the socket
-- of a connection, `none` when it is refused; and `cwnd` and `mss`, `none` when nothing is read.
pub record Answers : Type 0 where
  pub states : Option ApStates
  pub flows : ℕ → TcpFlow
  pub socket : Option ℕ
  pub window : Option (ℕ × ℕ)

-- The globals; `sock` is `none` below 0.
pub record Machine (F : Type 0) : Type 0 where
  pub node : List (RawData F)
  pub tnode : TreeNode F
  pub parameters : List Name
  pub sock : Option ℕ

-- `exits` is a call of `exit`; `crash` is a `NULL` dereference or a write out of bounds.
pub data Outcome (F : Type 0) : Type 0 where
  goes_on : Machine F → List Event → Outcome F
  exits : List Event → Outcome F
  crash : Outcome F

-- What the source uses of `float`: the conversions of unsigned and of `__s8` values, the latter as
-- bit patterns, and the product with 0.000001.
pub record Floats (F : Type 0) : Type 0 where
  pub of_nat : ℕ → F
  pub of_s8 : ℕ → F
  pub scaled : F → F
  pub le : F → F → Bool
  pub atof : Name → F
  pub nought : F

-- The program goes on after what it has sent.
unfoldable pub sent : {F : Type 0} → List Event → Outcome F → Outcome F
sent events (goes_on m more) = goes_on m (events ++ more)
sent events (exits more) = exits (events ++ more)
sent events crash = crash

unfoldable pub and_then : {F : Type 0} → Outcome F → (Machine F → Outcome F) → Outcome F
unfolding sent
and_then (goes_on m events) k = sent events (k m)
and_then (exits events) k = exits events
and_then crash k = crash

abbrev pub start : {F : Type 0} → Machine F
start = record { node = []; tnode = null; parameters = []; sock = none }
