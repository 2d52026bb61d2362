-- ===== src/Receiver/Flows.antt =====
-- EXP/receive.c: the table of TCP flows with their recent sequence numbers, and what
-- `decode_winsize` does with it.
pub mod Insert
pub mod Clear
pub mod Ack
use controller_project.Base.{
  ℕ, zero, suc, ◌+◌, ◌-◌, ◌%◌, ◌^◌, bit_and, List, [], ◌∷◌, map, Bool, true, false, ◌||◌, ◌&&◌,
  Option, none, some, set, ltb, ◌==◌, if◌then◌else◌,
}
use controller_project.Records.{DataWinsize}

-- `struct seq_info` and `struct time_structure`.
pub record SeqInfo : Type 0 where
  pub seq : ℕ
  pub sec : ℕ
  pub usec : ℕ

pub record TimeStructure : Type 0 where
  pub sec : ℕ
  pub usec : ℕ

-- `struct winsize_record`. In the source both arrays have `SEQLIST`, 10000, elements; here they
-- have as many as the list.
pub record WinsizeRecord : Type 0 where
  pub ip_src : ℕ
  pub ip_dst : ℕ
  pub sourceaddr : ℕ
  pub destination : ℕ
  pub seq_list : List SeqInfo
  pub ack_seq : ℕ
  pub sec : ℕ

abbrev pub thundred : ℕ
thundred = 100000

-- `retrans_times` with `retrans_head`, and `winsize_times` with `winsize_head`.
pub record Times : Type 0 where
  pub times : ℕ → TimeStructure
  pub head : ℕ

-- `times[head] = …; head += 1; head = head % THUNDRED`
unfoldable pub push_time : Times → TimeStructure → Times
push_time t x = record {
  times = λ i. if i == t.head then x else t.times i;
  head = (t.head + 1) % thundred;
}

pub record Flows : Type 0 where
  pub flow_seq_list : List WinsizeRecord
  pub retrans : Times
  pub count_retrans : ℕ

abbrev pub modify {ℓ} : {A : Type ℓ} → List A → ℕ → (A → A) → List A
modify [] i f = []
modify (x ∷ xs) zero f = f x ∷ xs
modify (x ∷ xs) (suc i) f = x ∷ modify xs i f

abbrev to_ℕ : Bool → ℕ
to_ℕ true = 1
to_ℕ false = 0

-- `condition == 4`
unfoldable pub same_flow : WinsizeRecord → ℕ → ℕ → ℕ → ℕ → Bool
same_flow t src dst port_src port_dst =
    to_ℕ (t.ip_src == src)
      + to_ℕ (t.ip_dst == dst)
      + to_ℕ (t.sourceaddr == port_src)
      + to_ℕ (t.destination == port_dst)
    == 4

abbrev pub seq_of : DataWinsize → SeqInfo
seq_of p = record { seq = p.sequence; sec = p.sec; usec = p.usec }

-- The assignments of `insert_flow_info` to its slot. Only the first sequence number is written;
-- the others, and `ack_seq`, stay.
unfoldable pub place : DataWinsize → WinsizeRecord → WinsizeRecord
place p t = record t {
  ip_src = p.ip_src;
  ip_dst = p.ip_dst;
  sourceaddr = p.sourceaddr;
  destination = p.destination;
  seq_list = set t.seq_list 0 (seq_of p);
  sec = p.sec;
}

-- The first loop: the first slot whose source port is 0.
unfoldable pub free_slot : List WinsizeRecord → ℕ → Option ℕ
free_slot [] i = none
free_slot (t ∷ ts) i = let rest = free_slot ts (i + 1) in if t.sourceaddr == 0 then some i else rest

-- The second loop, over the slots from `i` on, with the smallest `sec` so far and its slot.
unfoldable pub oldest_slot : List WinsizeRecord → ℕ → ℕ → ℕ → ℕ
oldest_slot [] i sec_max best = best
oldest_slot (t ∷ ts) i sec_max best =
    oldest_slot ts (i + 1) (if ltb t.sec sec_max then t.sec else sec_max)
      (if ltb t.sec sec_max then i else best)

unfoldable pub full_slot : List WinsizeRecord → ℕ
unfolding oldest_slot
full_slot [] = 0
full_slot (t ∷ ts) = oldest_slot ts 1 t.sec 0

unfoldable pub insert_flow_info : List WinsizeRecord → DataWinsize → List WinsizeRecord
insert_flow_info table p = elim (free_slot table 0) [
  | some i ↦ modify table i (place p)
  | none ↦ modify table (full_slot table) (place p)
]

-- `memset(tmp, 0, sizeof(struct winsize_record))`
unfoldable pub cleared : WinsizeRecord → WinsizeRecord
cleared t = record {
  ip_src = 0;
  ip_dst = 0;
  sourceaddr = 0;
  destination = 0;
  seq_list = map (λ _. record { seq = 0; sec = 0; usec = 0 }) t.seq_list;
  ack_seq = 0;
  sec = 0;
}

unfoldable pub clear_flow_info : List WinsizeRecord → DataWinsize → List WinsizeRecord
clear_flow_info [] p = []
clear_flow_info (t ∷ ts) p =
    if same_flow t p.ip_src p.ip_dst p.sourceaddr p.destination
    then cleared t ∷ ts
    else t ∷ clear_flow_info ts p

-- `-1` as a `__be32`.
abbrev pub minus_one : ℕ
minus_one = 2 ^ 32 - 1

-- The loops that find a flow: an empty slot, with `sec == 0`, is passed over.
unfoldable pub find_flow : List WinsizeRecord → ℕ → ℕ → ℕ → ℕ → ℕ → Option ℕ
find_flow [] i src dst port_src port_dst = none
find_flow (t ∷ ts) i src dst port_src port_dst =
    let rest = find_flow ts (i + 1) src dst port_src port_dst in
    if t.sec == 0 then rest else if same_flow t src dst port_src port_dst then some i else rest

-- What the loop over the sequence numbers changes: the entries, `retrans_times`, `count_retrans`
-- and `insert`.
pub record Seen : Type 0 where
  pub entries : List SeqInfo
  pub retrans : Times
  pub count : ℕ
  pub insert : Bool

-- An entry that holds the sequence number is a retransmission: the time of the earlier packet goes
-- to `retrans_times`, and the entry takes the new time. The loop goes on behind it.
unfoldable pub seen_loop : List SeqInfo → DataWinsize → Times → ℕ → Bool → Seen
seen_loop [] p times count ins = record {
  entries = [];
  retrans = times;
  count = count;
  insert = ins;
}
seen_loop (e ∷ es) p times count ins =
    let keep = seen_loop es p times count ins in
    let again =
      seen_loop es p (push_time times (record { sec = e.sec; usec = e.usec })) (count + 1) true in
    if e.seq == minus_one
    then record keep { entries = e ∷ keep.entries }
    else if e.seq == p.sequence
    then record again { entries = record e { sec = p.sec; usec = p.usec } ∷ again.entries }
    else record keep { entries = e ∷ keep.entries }

-- A new sequence number goes to the first free entry; with none free, nothing is stored.
unfoldable pub store_seq : List SeqInfo → DataWinsize → List SeqInfo
store_seq [] p = []
store_seq (e ∷ es) p =
    if (e.seq == 0) || (e.seq == minus_one) then seq_of p ∷ es else e ∷ store_seq es p

-- The second part: acknowledged numbers older than five seconds are dropped. The difference is
-- taken in 32 bits.
abbrev pub sub32 : ℕ → ℕ → ℕ
sub32 a b = (a + 2 ^ 32 - b) % 2 ^ 32

unfoldable pub drop_acked : List SeqInfo → DataWinsize → List SeqInfo
drop_acked [] p = []
drop_acked (e ∷ es) p =
    if ltb e.seq p.ack_sequence && ltb 5 (sub32 p.sec e.sec)
    then record { seq = 0; sec = 0; usec = 0 } ∷ drop_acked es p
    else e ∷ drop_acked es p

abbrev pub entries_at : List WinsizeRecord → ℕ → List SeqInfo
entries_at [] i = []
entries_at (t ∷ ts) zero = t.seq_list
entries_at (t ∷ ts) (suc i) = entries_at ts i

abbrev pub with_entries : List SeqInfo → WinsizeRecord → WinsizeRecord
with_entries es t = record t { seq_list = es }

-- The first part of `ack_flow_info`, for a packet that carries data on the flow in slot `i`.
unfoldable pub record_seq : Flows → ℕ → DataWinsize → Flows
record_seq f i p =
    let seen = seen_loop (entries_at f.flow_seq_list i) p f.retrans f.count_retrans false in
    record {
      flow_seq_list =
          modify f.flow_seq_list i
            (with_entries (if seen.insert then seen.entries else store_seq seen.entries p));
      retrans = seen.retrans;
      count_retrans = seen.count;
    }

unfoldable pub ack_data : Flows → DataWinsize → Flows
ack_data f p =
    if p.datalength == 0
    then f
    else elim (find_flow f.flow_seq_list 0 p.ip_src p.ip_dst p.sourceaddr p.destination) [
      | some i ↦ record_seq f i p
      | none ↦ record f { flow_seq_list = insert_flow_info f.flow_seq_list p }
    ]

unfoldable pub ack_flow_info : Flows → DataWinsize → Flows
ack_flow_info f p =
    let g = ack_data f p in
    elim (find_flow g.flow_seq_list 0 p.ip_dst p.ip_src p.destination p.sourceaddr) [
      | none ↦ g
      | some i ↦ record g {
        flow_seq_list =
            modify g.flow_seq_list i (with_entries (drop_acked (entries_at g.flow_seq_list i) p));
      }
    ]

-- What `decode_winsize` does with a packet, `rdata.flags & 0x0017` being its flags.
unfoldable pub update_flows : Flows → DataWinsize → Flows
update_flows f p =
    let flags = bit_and p.flags 0x0017 in
    if (flags == 2) || (flags == 18)
    then record f { flow_seq_list = insert_flow_info f.flow_seq_list p }
    else if (flags == 17) || (bit_and flags 0x0004 == 1)
    then record f { flow_seq_list = clear_flow_info f.flow_seq_list p }
    else if flags == 16
    then ack_flow_info f p
    else f
