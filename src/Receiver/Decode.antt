-- ===== src/Receiver/Decode.antt =====
-- The decoders of EXP/receive.c: what each message changes in the collector's lists. What they
-- print is left out. `decode_iw`, which does not compile in the source, is a parameter.
pub mod Reads
pub mod Neighbours
use controller_project.Base.{
  ℕ, zero, suc, ◌+◌, ◌-◌, ◌*◌, ◌%◌, ◌^◌, bit_and, List, [], ◌∷◌, ◌++◌, Bool, true, false, leb, ltb,
  ◌==◌, if◌then◌else◌,
}
use controller_project.Wire.Compare.{same}
use controller_project.Records.{
  Mac, mac_bytes, Category, DataWinsize, DpPacket, DataSurvey, DataBeacon, DataQueue,
}
use controller_project.Receiver.Read.{
  read_mac, read_winsize, read_drops, read_survey, read_beacon, read_queue,
}
use controller_project.Receiver.Flows.{Flows, Times, push_time, update_flows}

-- `struct drop_time`
pub record DropTime : Type 0 where
  pub sec : ℕ
  pub usec : ℕ
  pub count : ℕ

-- `struct station_list`, of which `decode_beacon` uses these members; a chain of them is a list.
pub record StationList : Type 0 where
  pub station : Mac
  pub sec : ℕ
  pub count : ℕ

-- The globals of the collector. The `…_last` pointers are the last elements of the lists.
pub record Collector : Type 0 where
  pub flows : Flows
  pub winsize_times : Times
  pub drop_count : ℕ
  pub last_100_ms_drop : DropTime
  pub queue_list_3 : List DataQueue
  pub queue_list_f : List DataQueue
  pub survey_list : List DataSurvey
  pub neibour_lists : List StationList

unfoldable pub masked : DataWinsize → DataWinsize
masked p = record p { flags = bit_and p.flags 0x0017 }

-- What `decode_winsize` does with the packet that it has read.
unfoldable pub take_winsize : DataWinsize → Collector → Collector
unfolding push_time update_flows masked
take_winsize p c =
    let rdata = masked p in
    record c {
      winsize_times = push_time c.winsize_times (record { sec = rdata.sec; usec = rdata.usec });
      flows = update_flows c.flows rdata;
    }

unfoldable pub decode_winsize : List ℕ → Collector → Collector
unfolding read_winsize take_winsize
decode_winsize buf c = take_winsize (read_winsize buf) c

-- `timex`, a `__be64`.
abbrev pub micros : ℕ → ℕ → ℕ
micros sec usec = sec * 1000000 + usec

-- What `decode_drops` does with the packet that it has read.
unfoldable pub take_drops : DpPacket → Collector → Collector
take_drops rdata c =
    let last = c.last_100_ms_drop in
    if leb 900000 ((micros rdata.sec rdata.usec + 2 ^ 64 - micros last.sec last.usec) % 2 ^ 64)
    then record c {
      drop_count = (rdata.drop_count + 2 ^ 32 - last.count) % 2 ^ 32;
      last_100_ms_drop = record { sec = rdata.sec; usec = rdata.usec; count = rdata.drop_count };
    }
    else c

unfoldable pub decode_drops : List ℕ → Collector → Collector
unfolding read_drops take_drops
decode_drops buf c = take_drops (read_drops buf) c

-- The queue goes to the end of the list of its id; other ids are only printed.
unfoldable pub append_queue : DataQueue → Collector → Collector
append_queue q c =
    if q.queue_id == 3
    then record c { queue_list_3 = c.queue_list_3 ++ q ∷ [] }
    else if q.queue_id == 4294967295
    then record c { queue_list_f = c.queue_list_f ++ q ∷ [] }
    else c

unfoldable pub decode_queue : List ℕ → Collector → Collector
unfolding read_queue append_queue
decode_queue buf c = append_queue (read_queue buf) c

unfoldable pub decode_survey : List ℕ → Collector → Collector
unfolding read_survey
decode_survey buf c = record c { survey_list = c.survey_list ++ read_survey buf ∷ [] }

-- `(beacon.sec - tlist->sec) > 10` on `__u32`.
abbrev pub outdated : ℕ → StationList → Bool
outdated now t = ltb 10 ((now + 2 ^ 32 - t.sec) % 2 ^ 32)

-- The first loop behind its first element: the last element is removed when it is outdated; an
-- outdated element before it is removed as well, and the loop goes on behind the next one.
unfoldable pub age_rest : ℕ → List StationList → List StationList
age_rest now [] = []
age_rest now (t ∷ []) = if outdated now t then [] else t ∷ []
age_rest now (t ∷ u ∷ ts) =
    let skipped = age_rest now ts in
    let rest = age_rest now (u ∷ ts) in if outdated now t then u ∷ skipped else t ∷ rest

-- The first loop at the head of the list.
unfoldable pub age : ℕ → List StationList → List StationList
unfolding age_rest
age now [] = []
age now (t ∷ ts) = let rest = age now ts in if outdated now t then rest else t ∷ age_rest now ts

-- The second loop: the station is found and gets the new time.
unfoldable pub refresh : Mac → ℕ → List StationList → List StationList
refresh bssid now [] = []
refresh bssid now (t ∷ ts) =
    if same (mac_bytes t.station) (mac_bytes bssid)
    then record t { sec = now } ∷ ts
    else t ∷ refresh bssid now ts

unfoldable pub listed : Mac → List StationList → Bool
listed bssid [] = false
listed bssid (t ∷ ts) =
    if same (mac_bytes t.station) (mac_bytes bssid) then true else listed bssid ts

-- `found == 0`: a new last element; the head counts.
unfoldable pub add_station : Mac → ℕ → List StationList → List StationList
add_station bssid now [] = record { station = bssid; sec = now; count = 1 } ∷ []
add_station bssid now (t ∷ ts) =
    record t { count = (t.count + 1) % 2 ^ 32 }
    ∷ (ts ++ record { station = bssid; sec = now; count = 0 } ∷ [])

-- The list after a beacon; `mac` is the access point that sent the message.
unfoldable pub neighbours : Mac → DataBeacon → List StationList → List StationList
unfolding age listed refresh add_station
neighbours mac b [] = record { station = mac; sec = b.sec; count = 1 } ∷ []
neighbours mac b (t ∷ ts) =
    let aged = age b.sec (t ∷ ts) in
    if listed b.bssid aged then refresh b.bssid b.sec aged else add_station b.bssid b.sec aged

unfoldable pub decode_beacon : List ℕ → Collector → Collector
unfolding read_mac read_beacon neighbours
decode_beacon buf c = record c {
  neibour_lists = neighbours (read_mac buf 0) (read_beacon buf) c.neibour_lists;
}

module _ (decode_iw : List ℕ → Collector → Collector) where
  -- The calls in the `switch` of `process`.
  unfoldable pub decode : Category → List ℕ → Collector → Collector
  unfolding decode_winsize decode_drops decode_queue decode_beacon decode_survey
  decode Category.winsize buf c = decode_winsize buf c
  decode Category.drops buf c = decode_drops buf c
  decode Category.iw buf c = decode_iw buf c
  decode Category.queue buf c = decode_queue buf c
  decode Category.beacon buf c = decode_beacon buf c
  decode Category.survey buf c = decode_survey buf c
