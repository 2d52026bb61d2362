-- ===== src/Beacons.antt =====
-- project/scan.c: the list of the access points that are heard, which the module on the access point
-- asks for. What was added to `ieee80211_scan_rx`, with `find_beacon`, `del_node` and
-- `beacon_time_out`.
pub mod Entries
pub mod Heard
pub mod TimeOut
use controller_project.Base.{
  ℕ, ◌+◌, ◌-◌, ◌%◌, ◌^◌, List, [], ◌∷◌, Bool, true, false, ◌&&◌, ◌||◌, Option, none, some, map, ltb,
  ◌==◌, if◌then◌else◌,
}
use controller_project.Wire.Compare.{same}
use controller_project.Records.{Mac, mac_bytes, DataBeacon}

-- A `struct data_beacon` at its address.
pub record Node : Type 0 where
  pub address : ℕ
  pub beacon : DataBeacon

-- The globals: the chain of nodes from `beacon_global` on, and the address in `beacon_last`.
pub record Scan : Type 0 where
  pub beacon_global : List Node
  pub beacon_last : Option ℕ

abbrev pub no_beacons : Scan
no_beacons = record { beacon_global = []; beacon_last = none }

-- What the code reads of a beacon, and of the clocks.
pub record Frame : Type 0 where
  pub bssid : Mac
  pub freq : ℕ
  pub signal : ℕ
  pub sec : ℕ
  pub usec : ℕ
  pub jiffies : ℕ

-- `strcmp_linger (a, b) == 0`
abbrev pub same_bssid : Mac → Mac → Bool
same_bssid a b = same (mac_bytes a) (mac_bytes b)

abbrev pub to_beacon : Frame → DataBeacon
to_beacon fr = record {
  sec = fr.sec;
  usec = fr.usec;
  data_rate = 0;
  freq = fr.freq;
  timein = fr.jiffies;
  signal = fr.signal;
  bssid = fr.bssid;
}

-- The node that is found keeps the time of the clock.
abbrev pub refreshed : Frame → DataBeacon → DataBeacon
refreshed fr b = record b {
  freq = fr.freq;
  signal = fr.signal;
  bssid = fr.bssid;
  timein = fr.jiffies;
}

unfoldable pub find_beacon : List Node → Mac → Bool
find_beacon [] bssid = false
find_beacon (n ∷ ns) bssid = if same_bssid n.beacon.bssid bssid then true else find_beacon ns bssid

-- What is written to the node that `find_beacon` found.
unfoldable pub refresh : Frame → List Node → List Node
refresh fr [] = []
refresh fr (n ∷ ns) =
    if same_bssid n.beacon.bssid fr.bssid
    then record n { beacon = refreshed fr n.beacon } ∷ ns
    else n ∷ refresh fr ns

-- `beacon_last->next = newb`; `none` when no node of the chain lies there, so that the memory was
-- freed.
unfoldable pub link : ℕ → Node → List Node → Option (List Node)
link p new [] = none
link p new (n ∷ ns) =
    if n.address == p
    then some (n ∷ new ∷ [])
    else elim (link p new ns) [ none ↦ none | some l ↦ some (n ∷ l) ]

unfoldable pub append_node : Node → Scan → Option Scan
unfolding link
append_node new s = elim s.beacon_last [
  | none ↦ some (record s { beacon_last = some new.address })
  | some p ↦ elim (link p new s.beacon_global) [
    | none ↦ none
    | some l ↦ some (record { beacon_global = l; beacon_last = some new.address })
  ]
]

abbrev pub is_empty : List Node → Bool
is_empty [] = true
is_empty (n ∷ ns) = false

module _ (kmalloc : Scan → ℕ) where
  abbrev pub to_node : Frame → Scan → Node
  to_node fr s = record { address = kmalloc s; beacon = to_beacon fr }

  -- `ieee80211_scan_rx` up to `beacon_time_out`.
  unfoldable pub hear : Frame → Scan → Option Scan
  unfolding find_beacon refresh append_node
  hear fr s =
      if is_empty s.beacon_global
      then some (record { beacon_global = to_node fr s ∷ []; beacon_last = some (kmalloc s) })
      else if find_beacon s.beacon_global fr.bssid
      then some (record s { beacon_global = refresh fr s.beacon_global })
      else append_node (to_node fr s) s

-- `int tmp = jiffies - beacon->timein; tmp > 1000`, in 32 bits.
unfoldable pub outdated : ℕ → Node → Bool
outdated jiffies n =
    let tmp = (jiffies + 2 ^ 32 - n.beacon.timein) % 2 ^ 32 in ltb 1000 tmp && ltb tmp (2 ^ 31)

-- `del_node` of a node of the chain.
unfoldable pub del_node : ℕ → List Node → List Node
del_node p [] = []
del_node p (n ∷ ns) = if n.address == p then ns else n ∷ del_node p ns

-- The loop of `beacon_time_out` from a node on. After `del_node` it reads the `next` of the node that
-- was freed: `stale` says whether freed memory keeps its contents until then; `none` is the read of
-- other contents.
unfoldable pub time_out_loop : Bool → ℕ → List Node → List Node → Option (List Node)
unfolding outdated del_node
time_out_loop stale jiffies [] chain = some chain
time_out_loop stale jiffies (n ∷ ns) chain =
    let deleted = time_out_loop stale jiffies ns (del_node n.address chain) in
    let kept = time_out_loop stale jiffies ns chain in
    if outdated jiffies n then (if stale then deleted else none) else kept

unfoldable pub beacon_time_out : Bool → ℕ → Scan → Option Scan
unfolding time_out_loop
beacon_time_out stale jiffies s =
    elim (time_out_loop stale jiffies s.beacon_global s.beacon_global) [
      | none ↦ none
      | some l ↦ some (record s { beacon_global = l })
    ]

unfoldable pub scan_rx : Bool → (Scan → ℕ) → Frame → Scan → Option Scan
unfolding hear beacon_time_out
scan_rx stale kmalloc fr s = elim (hear kmalloc fr s) [
  | none ↦ none
  | some t ↦ beacon_time_out stale fr.jiffies t
]

unfoldable pub run : Bool → (Scan → ℕ) → List Frame → Scan → Option Scan
unfolding scan_rx
run stale kmalloc [] s = some s
run stale kmalloc (fr ∷ frs) s = elim (scan_rx stale kmalloc fr s) [
  | none ↦ none
  | some t ↦ run stale kmalloc frs t
]

-- `get_beacon_global_linger`
unfoldable pub get_beacon_global_linger : Scan → List DataBeacon
get_beacon_global_linger s = map (λ n. n.beacon) s.beacon_global
