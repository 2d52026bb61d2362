-- ===== src/Tests/Beacons.antt =====
-- Access points that are heard, with an allocator that takes an address behind all others.
use controller_project.Base.{
  ℕ, suc, ◌+◌, ◌≡◌, ◌<◌, ◌≤◌, refl, List, [], ◌∷◌, ◌++◌, true, false, none, some, ◌&&◌, not,
  if◌then◌else◌, arith,
}
use controller_project.Records.{Mac}
use controller_project.Beacons.{
  Node, Scan, Frame, to_beacon, no_beacons, find_beacon, is_empty, outdated, hear, beacon_time_out,
  run,
}
use controller_project.Beacons.Entries.{entry, occurs}
use controller_project.Beacons.TimeOut.{
  has, Apart, any_outdated, recent, beacon_time_out-recent, beacon_last_dangles,
}
use controller_project.Beacons.Heard.{summary, run-summary}

abbrev total : List Node → ℕ
total [] = 0
total (n ∷ ns) = n.address + total ns

abbrev malloc : Scan → ℕ
malloc s = suc (total s.beacon_global)

has-total : (a : ℕ) (ns : List Node) → total ns < a → has a ns ≡ false
unfolding has
has-total a [] h = refl
has-total a (n ∷ ns) h = ground (arith, has-total a ns)

malloc-fresh : (s : Scan) → has (malloc s) s.beacon_global ≡ false
malloc-fresh s = has-total (malloc s) s.beacon_global (omega arith)

abbrev mac : ℕ → Mac
mac n = record { b0 = 2; b1 = 0; b2 = 0; b3 = 0; b4 = 0; b5 = n }

abbrev frame : (n jiffies : ℕ) → Frame
frame n jiffies = record {
  bssid = mac n;
  freq = 2412;
  signal = 190;
  sec = jiffies;
  usec = 0;
  jiffies = jiffies;
}

abbrev frames : List Frame
frames = frame 1 5000 ∷ frame 2 5010 ∷ frame 1 5200 ∷ []

run-summary_example :
    (s : Scan) × (run true malloc frames no_beacons ≡ some s)
    × ((b : Mac) → occurs b s.beacon_global ≤ 1)
    × ((b : Mac) → entry b s.beacon_global ≡ summary b frames none)
run-summary_example = run-summary malloc malloc-fresh 5000 true frames (omega arith) (omega arith)

abbrev heard : (n jiffies : ℕ) → Node
heard n jiffies = record { address = n; beacon = to_beacon (frame n jiffies) }

abbrev two_heard : Scan
two_heard = record { beacon_global = heard 1 5000 ∷ heard 2 3000 ∷ []; beacon_last = some 2 }

two_heard-Apart : Apart two_heard.beacon_global
unfolding has
two_heard-Apart = (refl, (refl, tt))

beacon_time_out-recent_example : beacon_time_out false 5100 two_heard ≡ (
    if any_outdated 5100 two_heard.beacon_global && not false
    then none
    else some (record two_heard { beacon_global = recent 5100 two_heard.beacon_global }))
beacon_time_out-recent_example = beacon_time_out-recent false 5100 two_heard two_heard-Apart

two_is_outdated : outdated 5100 (heard 2 3000) ≡ true
unfolding outdated
two_is_outdated = refl

one_stays : is_empty (recent 5100 (heard 1 5000 ∷ [])) ≡ false
unfolding recent outdated
one_stays = refl

three_is_new : find_beacon (recent 5100 (heard 1 5000 ∷ [])) (mac 3) ≡ false
unfolding recent outdated find_beacon controller_project.Wire.Compare.same
    controller_project.Wire.Compare.strcmp_lin controller_project.Wire.Compare.condition
three_is_new = refl

beacon_last_dangles_example :
    (t : Scan) × (beacon_time_out true 5100
        (record { beacon_global = heard 1 5000 ∷ [] ++ heard 2 3000 ∷ []; beacon_last = some 2 })
      ≡ some t)
    × (t.beacon_global ≡ recent 5100 (heard 1 5000 ∷ []))
    × (hear malloc (frame 3 5101) t ≡ none)
beacon_last_dangles_example =
    beacon_last_dangles 5100 (heard 1 5000 ∷ []) (heard 2 3000) malloc (frame 3 5101)
      two_heard-Apart two_is_outdated one_stays three_is_new
