-- ===== src/Codel.antt =====
-- codel.h and project/sch_fq_codel.c: the list of the TCP packets that the queue dropped, which
-- the module on the access point asks for and then gives back.
pub mod Chain
pub mod Delivery
pub mod Handed
pub mod Phases
use controller_project.Base.{
  ℕ, ◌+◌, List, [], ◌∷◌, ◌++◌, Bool, true, false, Option, none, some, map, ◌==◌, if◌then◌else◌,
}

-- What the code reads of a `struct sk_buff`, and of the clocks at that moment.
pub record Skb : Type 0 where
  pub protocol : ℕ
  pub saddr : ℕ
  pub daddr : ℕ
  pub source : ℕ
  pub dest : ℕ
  pub seq : ℕ
  pub ack_seq : ℕ
  pub systime : ℕ
  pub jiffies : ℕ

-- `struct dp_packet` of codel.h; the padding and `next` are left out.
pub record DpPacket : Type 0 where
  pub ip_src : ℕ
  pub ip_dst : ℕ
  pub systime : ℕ
  pub port_src : ℕ
  pub port_dst : ℕ
  pub sequence : ℕ
  pub ack_sequence : ℕ
  pub drop_count : ℕ
  pub dpl : ℕ
  pub in_time : ℕ

-- A node at its address.
pub record Node (X : Type 0) : Type 0 where
  pub address : ℕ
  pub packet : X

-- The globals. `packet_linger` is the chain of nodes from that pointer on, `lst_call` and
-- `last_pkt_linger` are addresses or `NULL`.
pub record Drops (X : Type 0) : Type 0 where
  pub packet_linger : List (Node X)
  pub last_pkt_linger : Option ℕ
  pub lst_call : Option ℕ
  pub read_lin : Bool

abbrev pub no_drops : {X : Type 0} → Drops X
no_drops = record { packet_linger = []; last_pkt_linger = none; lst_call = none; read_lin = false }

unfoldable pub is_at : {X : Type 0} → Option ℕ → Node X → Bool
is_at none n = false
is_at (some p) n = n.address == p

-- The loop `while ((ptr != NULL) && (ptr != lst_call))`: where `ptr` ends; the nodes before are
-- freed.
unfoldable pub skip_to : {X : Type 0} → Option ℕ → List (Node X) → List (Node X)
unfolding is_at
skip_to call [] = []
skip_to call (n ∷ ns) = if is_at call n then n ∷ ns else skip_to call ns

-- What follows the loop. `none` stands for a `lst_call` that is `NULL`, whose `next` is read all the
-- same, or that is no node of the chain.
unfoldable pub cut_behind : {X : Type 0} → Drops X → List (Node X) → Option (Drops X)
cut_behind d [] = none
cut_behind d (n ∷ []) =
    some (record d { packet_linger = []; last_pkt_linger = none; read_lin = false })
cut_behind d (n ∷ m ∷ ns) = some (record d { packet_linger = m ∷ ns; read_lin = false })

unfoldable pub delete_before_last_call_codel : {X : Type 0} → Drops X → Option (Drops X)
delete_before_last_call_codel d = cut_behind d (skip_to d.lst_call d.packet_linger)

-- `last_pkt_linger->next = pkt_new`, where the `next` of the new node is `NULL`.
unfoldable pub link : {X : Type 0} → ℕ → Node X → List (Node X) → List (Node X)
link p new [] = []
link p new (n ∷ ns) = if n.address == p then n ∷ new ∷ [] else n ∷ link p new ns

unfoldable pub append_node : {X : Type 0} → Node X → List (Node X) → Option ℕ → Drops X → Drops X
append_node new [] last d = record d {
  packet_linger = new ∷ [];
  last_pkt_linger = some new.address;
}
append_node new (n ∷ ns) none d = d
append_node new (n ∷ ns) (some p) d = record d {
  packet_linger = link p new (n ∷ ns);
  last_pkt_linger = some new.address;
}

abbrev pub to_packet : Skb → DpPacket
to_packet skb = record {
  ip_src = skb.saddr;
  ip_dst = skb.daddr;
  systime = skb.systime;
  port_src = skb.source;
  port_dst = skb.dest;
  sequence = skb.seq;
  ack_sequence = skb.ack_seq;
  drop_count = 1;
  dpl = 1777;
  in_time = skb.jiffies;
}

unfoldable pub add : {X : Type 0} → (Drops X → ℕ) → X → Drops X → Drops X
add kmalloc x d =
    append_node (record { address = kmalloc d; packet = x }) d.packet_linger d.last_pkt_linger d

-- What `codel_dequeue` does before it drops a packet. `kmalloc` gives the address of the new node.
unfoldable pub drop_packet : (Drops DpPacket → ℕ) → Skb → Drops DpPacket → Option (Drops DpPacket)
drop_packet kmalloc skb d =
    if skb.protocol == 6
    then elim (if d.read_lin then delete_before_last_call_codel d else some d) [
      | none ↦ none
      | some e ↦ some (add kmalloc (to_packet skb) e)
    ]
    else some d

-- The pointer it returns stands for the packets of the chain at that moment, `NULL` for none: a
-- callback that is not interrupted finds these when it follows the pointers.
unfoldable pub dpt_queue_linger : {X : Type 0} → Drops X → Drops X × List X
dpt_queue_linger d =
    if d.read_lin
    then (d, [])
    else (record d { lst_call = d.last_pkt_linger }, map (λ n. n.packet) d.packet_linger)

unfoldable pub destroy_after_transmitted_codel : {X : Type 0} → Drops X → Drops X
destroy_after_transmitted_codel d = record d { read_lin = true }

-- A packet is dropped, or the timer's `callback` runs as a whole: it asks for the list, follows it to
-- its end and gives it back.
pub data Step : Type 0 where
  dropped : Skb → Step
  callback : Step

-- The list, and the packets that the callback was handed.
pub record World : Type 0 where
  pub drops : Drops DpPacket
  pub handed : List DpPacket

abbrev pub start : World
start = record { drops = no_drops; handed = [] }

-- `if (dp_que)`: the list is given back when one was handed out.
unfoldable pub give_back : {X : Type 0} → List X → Drops X → Drops X
unfolding destroy_after_transmitted_codel
give_back [] d = d
give_back (x ∷ xs) d = destroy_after_transmitted_codel d

unfoldable pub step : (Drops DpPacket → ℕ) → Step → World → Option World
step kmalloc (dropped skb) w = elim (drop_packet kmalloc skb w.drops) [
  | none ↦ none
  | some d ↦ some (record w { drops = d })
]
step kmalloc callback w =
    let (d, xs) = dpt_queue_linger w.drops in
    some (record { drops = give_back xs d; handed = w.handed ++ xs })

unfoldable pub run : (Drops DpPacket → ℕ) → List Step → World → Option World
run kmalloc [] w = some w
run kmalloc (s ∷ ss) w = elim (step kmalloc s w) [ none ↦ none | some v ↦ run kmalloc ss v ]
