-- ===== src/Tests/Switch.antt =====
-- Packets that the switch of the access point forwards.
use controller_project.Base.{
  ◌≡◌, refl, List, [], ◌∷◌, ◌++◌, true, replicate, if◌then◌else◌, ◌==◌, arith,
}
use controller_project.Datapath.{Packet, Clock}
use controller_project.Datapath.Options.{read_scale}
use controller_project.Datapath.Table.{
  TcpFlow, empty, Flows, to_flow, matches, known, free_places, age, track,
}
use controller_project.Datapath.Options.Endings.{
  Opt, nop, other, window_scale, no_length, bytes, ending_bytes, meaning, read_scale_lem,
}
use controller_project.Datapath.Table.Places.{copies, seen_again, track_unknown, track-known}
use controller_project.Tests.{router, neighbour}

-- A maximum segment size and a filler in front of the window scale.
abbrev options : List Opt
options = other 2 (5 ∷ 180 ∷ []) ∷ nop ∷ []

abbrev syn : Packet
syn = record {
  ip_src = 3232235777;
  ip_dst = 3232235778;
  source = 5001;
  dest = 80;
  seq = 70;
  ack_seq = 0;
  flags = 2;
  window = 512;
  tot_len = 48;
  ihl = 5;
  doff = 7;
  syn = true;
  options = bytes options ++ (ending_bytes (window_scale 7) ++ []);
  h_source = router;
  h_dest = neighbour;
}

read_scale_lem_example : read_scale 3 syn ≡ meaning (window_scale 7)
read_scale_lem_example =
    read_scale_lem syn options (window_scale 7) [] 3 refl refl ((refl, refl), (tt, tt))
      (omega arith) (omega arith)

-- The padding `0 0 0 0` of a packet with one maximum segment size is never left.
abbrev padded : Packet
padded = record syn { options = 2 ∷ 4 ∷ 5 ∷ 180 ∷ 0 ∷ 0 ∷ 0 ∷ 0 ∷ [] }

padded_hangs : read_scale 100 padded ≡ meaning (no_length 0)
padded_hangs =
    read_scale_lem padded (other 2 (5 ∷ 180 ∷ []) ∷ []) (no_length 0) (0 ∷ 0 ∷ []) 100 refl refl
      ((refl, refl), tt) (omega arith, refl, refl) (omega arith)

abbrev now : Clock
now = record { sec = 1000; usec = 5 }

abbrev next_second : Clock
next_second = record { sec = 1001; usec = 0 }

abbrev other_flow : TcpFlow
other_flow = record (to_flow syn now 7) { sourceaddr = 5002 }

-- Nine places are free, and the count has not been spoilt yet.
abbrev one_flow : Flows
one_flow = record { flow_linger = other_flow ∷ replicate 9 empty; flow_count = 1 }

track_unknown_example :
    copies syn (track one_flow syn now now 7).flow_linger ≡ free_places one_flow.flow_linger
unfolding known matches
track_unknown_example =
    track_unknown one_flow syn now now 7 (omega arith) refl (omega arith) (omega arith)

abbrev two_flows : Flows
two_flows = record { flow_linger = other_flow ∷ to_flow syn now 7 ∷ []; flow_count = 2 }

track-known_example :
    (track two_flows syn now next_second 7).flow_linger
    ≡ age now (other_flow ∷ [])
      ++ (if 1001 == 1000 then seen_again (to_flow syn now 7) next_second else empty) ∷ age now []
unfolding known matches
track-known_example =
    track-known two_flows syn now next_second 7 (other_flow ∷ []) [] (to_flow syn now 7)
      (omega arith) refl refl refl (omega arith) (omega arith) (omega arith)
