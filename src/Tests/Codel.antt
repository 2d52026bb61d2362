-- ===== src/Tests/Codel.antt =====
-- The list of dropped packets, with an allocator that takes an address behind all others.
use controller_project.Base.{
  ℕ, suc, ◌+◌, ◌<◌, ◌≡◌, refl, List, [], ◌∷◌, ◌++◌, false, Option, none, some, arith,
}
use controller_project.Codel.{
  Skb, DpPacket, Node, Drops, Step, dropped, callback, World, start, run, dpt_queue_linger,
  to_packet,
}
use controller_project.Codel.Delivery.{run_delivers}
use controller_project.Codel.Chain.{has}
use controller_project.Codel.Handed.{tcp_packets, run_hands_out_once}

abbrev total : List (Node DpPacket) → ℕ
total [] = 0
total (n ∷ ns) = n.address + total ns

abbrev malloc : Drops DpPacket → ℕ
malloc d = suc (total d.packet_linger)

has-total : (a : ℕ) (ns : List (Node DpPacket)) → total ns < a → has a ns ≡ false
unfolding has
has-total a [] h = refl
has-total a (n ∷ ns) h = ground (arith, has-total a ns)

malloc-fresh : (d : Drops DpPacket) → has (malloc d) d.packet_linger ≡ false
malloc-fresh d = has-total (malloc d) d.packet_linger (omega arith)

abbrev tcp : ℕ → Skb
tcp n = record {
  protocol = 6;
  saddr = 1;
  daddr = 2;
  source = 80;
  dest = 81;
  seq = n;
  ack_seq = 0;
  systime = n;
  jiffies = n;
}

abbrev three_drops : List Step
three_drops =
    dropped (tcp 1) ∷ callback ∷ callback ∷ dropped (tcp 2) ∷ dropped (tcp 3) ∷ callback ∷ []

run_hands_out_once_example :
    (v : World) × (ys : List DpPacket) × (run malloc three_drops start ≡ some v)
    × (v.handed ++ ys ≡ tcp_packets three_drops)
    × (v.drops.read_lin ≡ false → (dpt_queue_linger v.drops).1 ≡ ys)
run_hands_out_once_example = run_hands_out_once malloc malloc-fresh three_drops

abbrev two_drops : List Step
two_drops = dropped (tcp 1) ∷ callback ∷ dropped (tcp 2) ∷ []

run_delivers_example :
    (v : World) × (run malloc (two_drops ++ dropped (tcp 3) ∷ callback ∷ []) start ≡ some v)
    × (v.handed ≡ tcp_packets two_drops ++ to_packet (tcp 3) ∷ [])
run_delivers_example = run_delivers malloc malloc-fresh two_drops (tcp 3) refl

abbrev sequences : List DpPacket → List ℕ
sequences [] = []
sequences (x ∷ xs) = x.sequence ∷ sequences xs

abbrev handed_by : Option World → List ℕ
handed_by none = []
handed_by (some w) = sequences w.handed

three_handed : handed_by (run malloc three_drops start) ≡ 1 ∷ 2 ∷ 3 ∷ []
unfolding run controller_project.Codel.step controller_project.Codel.drop_packet dpt_queue_linger
    controller_project.Codel.add controller_project.Codel.append_node
    controller_project.Codel.destroy_after_transmitted_codel
    controller_project.Codel.delete_before_last_call_codel controller_project.Codel.cut_behind
    controller_project.Codel.skip_to controller_project.Codel.link
    controller_project.Codel.give_back
three_handed = refl
