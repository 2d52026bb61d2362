-- ===== src/Datapath/Table.antt =====
-- The table `flow_linger` of project/flow.c, and what `key_extract` does to it.
pub mod Places
use controller_project.Base.{
  ℕ, zero, suc, ◌+◌, ◌-◌, ◌*◌, ◌%◌, ◌^◌, List, [], ◌∷◌, Bool, true, false, ◌||◌, ltb, ◌==◌,
  if◌then◌else◌,
}
use controller_project.Records.{Mac}
use controller_project.Datapath.{zero_mac, Packet, Clock}

-- `struct tcp_flow`; `count` and the padding are never set.
pub record TcpFlow : Type 0 where
  pub ip_src : ℕ
  pub ip_dst : ℕ
  pub sourceaddr : ℕ
  pub destination : ℕ
  pub winsize : ℕ
  pub wscale : ℕ
  pub sec : ℕ
  pub usec : ℕ
  pub packets : ℕ
  pub eth_src : Mac
  pub eth_dst : Mac

-- `memset (ttt, 0, sizeof (struct tcp_flow))`
abbrev pub empty : TcpFlow
empty = record {
  ip_src = 0;
  ip_dst = 0;
  sourceaddr = 0;
  destination = 0;
  winsize = 0;
  wscale = 0;
  sec = 0;
  usec = 0;
  packets = 0;
  eth_src = zero_mac;
  eth_dst = zero_mac;
}

-- `flow_linger` with its ten places, and `flow_count`, an `int` by its 32 bits.
pub record Flows : Type 0 where
  pub flow_linger : List TcpFlow
  pub flow_count : ℕ

-- A new entry of the table.
abbrev pub to_flow : Packet → Clock → ℕ → TcpFlow
to_flow p now wscale = record {
  ip_src = p.ip_src;
  ip_dst = p.ip_dst;
  sourceaddr = p.source;
  destination = p.dest;
  winsize = p.window;
  wscale = wscale;
  sec = now.sec;
  usec = now.usec;
  packets = 1;
  eth_src = p.h_source;
  eth_dst = p.h_dest;
}

abbrev one : Bool → ℕ
one b = if b then 1 else 0

-- `condition == 4`
unfoldable pub matches : Packet → TcpFlow → Bool
matches p f =
    one (f.ip_src == p.ip_src)
      + one (f.ip_dst == p.ip_dst)
      + one (f.sourceaddr == p.source)
      + one (f.destination == p.dest)
    == 4

-- `insert_linger` after the first loop, and what the loop does to the first entry of the flow. The
-- time is read again there.
unfoldable pub known : Packet → List TcpFlow → Bool
known p [] = false
known p (f ∷ fs) = matches p f || known p fs

unfoldable pub touch : Packet → Clock → List TcpFlow → List TcpFlow
touch p now [] = []
touch p now (f ∷ fs) =
    let rest = touch p now fs in
    if matches p f
    then record f { sec = now.sec; usec = now.usec; packets = (f.packets + 1) % 2 ^ 64 } ∷ fs
    else f ∷ rest

-- The second loop, which has no `break`: every free place takes the new entry.
unfoldable pub fill : TcpFlow → List TcpFlow → List TcpFlow
fill new [] = []
fill new (f ∷ fs) = (if f.sec == 0 then new else f) ∷ fill new fs

unfoldable pub free_places : List TcpFlow → ℕ
free_places [] = 0
free_places (f ∷ fs) = one (f.sec == 0) + free_places fs

-- `(wz_linger.sec - ttt->sec) > 2`, of `__be32`.
unfoldable pub outdated : Clock → TcpFlow → Bool
outdated now f = ltb 2 ((now.sec + 2 ^ 32 - f.sec) % 2 ^ 32)

-- The last loop.
unfoldable pub age : Clock → List TcpFlow → List TcpFlow
age now [] = []
age now (f ∷ fs) = (if outdated now f then empty else f) ∷ age now fs

unfoldable pub count_outdated : Clock → List TcpFlow → ℕ
count_outdated now [] = 0
count_outdated now (f ∷ fs) = one (outdated now f) + count_outdated now fs

abbrev pub set_first : TcpFlow → List TcpFlow → List TcpFlow
set_first new [] = []
set_first new (f ∷ fs) = new ∷ fs

-- The table before the outdated entries go: `now` is `wz_linger`'s time, `later` that of the second
-- reading of the clock.
unfoldable pub place : Flows → Packet → Clock → Clock → ℕ → Flows
unfolding known touch fill free_places
place s p now later wscale =
    if s.flow_count == 0
    then record { flow_linger = set_first (to_flow p now wscale) s.flow_linger; flow_count = 1 }
    else if known p s.flow_linger
    then record s { flow_linger = touch p later s.flow_linger }
    else record {
      flow_linger = fill (to_flow p now wscale) s.flow_linger;
      flow_count = (s.flow_count + free_places s.flow_linger) % 2 ^ 32;
    }

unfoldable pub track : Flows → Packet → Clock → Clock → ℕ → Flows
unfolding place age count_outdated
track s p now later wscale =
    let t = place s p now later wscale in
    record {
      flow_linger = age now t.flow_linger;
      flow_count = (t.flow_count + 2 ^ 32 - count_outdated now t.flow_linger) % 2 ^ 32;
    }
