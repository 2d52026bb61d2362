-- ===== src/Status.antt =====
-- project/status.c: the list of the TCP packets that a station did not acknowledge, which the module
-- on the access point asks for. The nodes and the chain are those of `Codel`, with `p_linger`,
-- `pkt_linger_last`, `last_call` and `readed_linger` for the four globals.
pub mod Refine
use controller_project.Base.{
  ℕ, List, [], ◌∷◌, ◌++◌, Bool, true, false, ◌||◌, Option, none, some, map, ◌==◌, if◌then◌else◌,
}
use controller_project.Records.{DpPacket}
use controller_project.Codel.{Node, Drops, no_drops, is_at, skip_to, append_node}

-- What the code reads of a `struct sk_buff` and of the clocks.
pub record Skb : Type 0 where
  pub protocol : ℕ
  pub saddr : ℕ
  pub daddr : ℕ
  pub source : ℕ
  pub dest : ℕ
  pub seq : ℕ
  pub ack_seq : ℕ
  pub sec : ℕ
  pub usec : ℕ
  pub jiffies : ℕ

-- The globals, and the addresses that were given to `kfree`.
pub record Lost : Type 0 where
  pub drops : Drops DpPacket
  pub freed : List ℕ

-- The nodes that `while ((ptr != NULL) && (ptr != last_call))` frees.
unfoldable pub skipped : Option ℕ → List (Node DpPacket) → List ℕ
unfolding is_at
skipped call [] = []
skipped call (n ∷ ns) = if is_at call n then [] else n.address ∷ skipped call ns

-- What follows the loop, for the `ptr` it ends with. `none` is `last_call->next` with `last_call`
-- `NULL`, or a `p_linger` that is left at a node that was freed.
unfoldable pub cut : Drops DpPacket → List ℕ → List (Node DpPacket) → Option Lost
cut d freed [] = elim d.lst_call [
  | none ↦ none
  | some p ↦ elim d.packet_linger [
    | [] ↦ some (record { drops = record d { read_lin = false }; freed = freed })
    | n ∷ ns ↦ none
  ]
]
cut d freed (n ∷ []) = some (record {
  drops = record d { packet_linger = []; last_pkt_linger = none; read_lin = false };
  freed = freed;
})
cut d freed (n ∷ m ∷ ns) = some (record {
  drops = record d { packet_linger = m ∷ ns; lst_call = none; read_lin = false };
  freed = freed ++ n.address ∷ [];
})

unfoldable pub delete_before_last_call : Lost → Option Lost
unfolding cut skipped
delete_before_last_call s =
    cut s.drops (s.freed ++ skipped s.drops.lst_call s.drops.packet_linger)
      (skip_to s.drops.lst_call s.drops.packet_linger)

abbrev pub to_packet : Skb → DpPacket
to_packet skb = record {
  ip_src = skb.saddr;
  ip_dst = skb.daddr;
  sec = skb.sec;
  usec = skb.usec;
  port_src = skb.source;
  port_dst = skb.dest;
  sequence = skb.seq;
  ack_sequence = skb.ack_seq;
  drop_count = 1;
  dpl = 3337;
  in_time = skb.jiffies;
}

module _ (kmalloc : Drops DpPacket → ℕ) where
  unfoldable pub add : DpPacket → Lost → Lost
  add x s =
      let d = s.drops in
      let new : Node DpPacket = record { address = kmalloc d; packet = x } in
      record s { drops = append_node new d.packet_linger d.last_pkt_linger d }

  -- What `ieee80211_tx_status` does with a packet that was not acknowledged.
  unfoldable pub drop_packet : Skb → Lost → Option Lost
  unfolding add
  drop_packet skb s =
      if skb.protocol == 6
      then elim (if s.drops.read_lin then delete_before_last_call s else some s) [
        | none ↦ none
        | some t ↦ some (add (to_packet skb) t)
      ]
      else some s

-- The pointer it returns stands for the packets of the chain at that moment.
unfoldable pub dpt_mac_linger : Lost → Lost × List DpPacket
dpt_mac_linger s = (
  record s { drops = record s.drops { lst_call = s.drops.last_pkt_linger } },
  map (λ n. n.packet) s.drops.packet_linger,
)

unfoldable pub destroy_after_transmitted_mac80211 : Lost → Lost
destroy_after_transmitted_mac80211 s = record s { drops = record s.drops { read_lin = true } }

-- A packet is lost, or the timer's `callback` runs as a whole.
pub data Step : Type 0 where
  lost : Skb → Step
  callback : Step

pub record World : Type 0 where
  pub lost_packets : Lost
  pub handed : List (List DpPacket)

abbrev pub is_list : List DpPacket → Bool
is_list [] = false
is_list (x ∷ xs) = true

unfoldable pub step : (Drops DpPacket → ℕ) → Step → World → Option World
step kmalloc (lost skb) w = elim (drop_packet kmalloc skb w.lost_packets) [
  | none ↦ none
  | some s ↦ some (record w { lost_packets = s })
]
step kmalloc callback w =
    let (s, xs) = dpt_mac_linger w.lost_packets in
    some (record {
      lost_packets = if is_list xs then destroy_after_transmitted_mac80211 s else s;
      handed = w.handed ++ xs ∷ [];
    })

unfoldable pub run : (Drops DpPacket → ℕ) → List Step → World → Option World
unfolding step
run kmalloc [] w = some w
run kmalloc (s ∷ ss) w = elim (step kmalloc s w) [ none ↦ none | some v ↦ run kmalloc ss v ]

abbrev pub start : World
start = record { lost_packets = record { drops = no_drops; freed = [] }; handed = [] }
