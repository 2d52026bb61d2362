-- ===== src/Tests/Status.antt =====
-- The list of packets that were not acknowledged.
use controller_project.Base.{
  ℕ, suc, ◌+◌, ◌≡◌, ◌<◌, refl, List, [], ◌∷◌, ◌++◌, true, false, some, arith,
}
use controller_project.Records.{DpPacket}
use controller_project.Codel.{Node, Drops}
use controller_project.Codel.Chain.{has, packets}
use controller_project.Status.{
  Skb, Lost, to_packet, drop_packet, dpt_mac_linger, Step, lost, callback, World, start, run,
}
use controller_project.Status.Refine.{
  nothing, promised_all, state, addresses, run_promised, freed_under_walk,
}

abbrev total : List (Node DpPacket) → ℕ
total [] = 0
total (n ∷ ns) = n.address + total ns

abbrev malloc : Drops DpPacket → ℕ
malloc d = suc (total d.packet_linger)

has-total : (a : ℕ) (ns : List (Node DpPacket)) → total ns < a → has a ns ≡ false
unfolding has
has-total a [] h = refl
has-total a (n ∷ ns) h = ground (arith, has-total a ns)

malloc-fresh : (d : Drops DpPacket) → has (malloc d) d.packet_linger ≡ false
malloc-fresh d = has-total (malloc d) d.packet_linger (omega arith)

abbrev tcp : ℕ → Skb
tcp n = record {
  protocol = 6;
  saddr = 1;
  daddr = 2;
  source = 80;
  dest = 81;
  seq = n;
  ack_seq = 0;
  sec = n;
  usec = 0;
  jiffies = n;
}

abbrev steps : List Step
steps = lost (tcp 1) ∷ callback ∷ callback ∷ lost (tcp 2) ∷ lost (tcp 3) ∷ callback ∷ []

run_promised_example :
    (w : World) × (run malloc steps start ≡ some w)
    × (w.handed ≡ (promised_all steps nothing).handed)
    × (packets w.lost_packets.drops.packet_linger ≡ (promised_all steps nothing).collected)
run_promised_example = run_promised malloc malloc-fresh steps

-- The first packet is handed out twice.
promised_twice :
    (promised_all steps nothing).handed
    ≡ (to_packet (tcp 1) ∷ [])
      ∷ (to_packet (tcp 1) ∷ [])
      ∷ (to_packet (tcp 2) ∷ to_packet (tcp 3) ∷ [])
      ∷ []
unfolding promised_all controller_project.Status.Refine.promised
promised_twice = refl

abbrev node_at : ℕ → Node DpPacket
node_at n = record { address = n; packet = to_packet (tcp n) }

apart : has 2 (node_at 1 ∷ []) ≡ false
unfolding has
apart = refl

freed_under_walk_example :
    let (s, xs) = dpt_mac_linger (record {
      drops = state (node_at 1 ∷ [] ++ node_at 2 ∷ []) (some 2) (some 2) true;
      freed = [];
    }) in
    (xs ≡ packets (node_at 1 ∷ [] ++ node_at 2 ∷ []))
    × (t : Lost) × (drop_packet malloc (tcp 3) s ≡ some t)
    × (t.freed ≡ [] ++ addresses (node_at 1 ∷ []))
freed_under_walk_example =
    freed_under_walk malloc malloc-fresh (node_at 1 ∷ []) (node_at 2) [] (tcp 3) apart refl
