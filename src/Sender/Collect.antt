-- ===== src/Sender/Collect.antt =====
-- sendudp/sendudp.c: what the timer's `callback` does every millisecond, `get_information`. The
-- lists that status.c, scan.c, mac80211 and codel.h return are its arguments.
pub mod Marks
pub mod Messages
pub mod Ring
pub mod Rounds
use controller_project.Base.{
  ℕ, zero, suc, ◌+◌, ◌-◌, ◌%◌, ◌^◌, List, [], ◌∷◌, ◌++◌, Bool, true, false, ◌&&◌, length, map, ltb,
  ◌==◌, if◌then◌else◌,
}
use controller_project.Wire.{be16}
use controller_project.Records.{
  Mac, mac_bytes, Category, category_code, DpPacket, DataIw, DataSurvey, DataBeacon, DataQueue,
  drops_bytes, iw_bytes, survey_bytes, beacon_bytes, queue_bytes,
}
use controller_project.Sender.Buffer.{Out, write_2_public_buffer}

abbrev pub apsl : ℕ
apsl = 250

-- `struct apstates`; the padding is left out.
pub record ApStates : Type 0 where
  pub sec : ℕ
  pub usec : ℕ
  pub q3packets : ℕ
  pub q3qlen : ℕ
  pub q3backlog : ℕ
  pub q3drops : ℕ
  pub q3requeues : ℕ
  pub q3overlimits : ℕ
  pub qfpackets : ℕ
  pub qfqlen : ℕ
  pub qfbacklog : ℕ
  pub qfdrops : ℕ
  pub qfrequeues : ℕ
  pub qfoverlimits : ℕ
  pub drop_count : ℕ
  pub noise : ℕ
  pub stations : ℕ
  pub time : ℕ
  pub time_busy : ℕ
  pub time_ext_busy : ℕ
  pub time_rx : ℕ
  pub time_tx : ℕ
  pub time_scan : ℕ
  pub q3bytes : ℕ
  pub qfbytes : ℕ

-- `struct iw_record`
pub record IwRecord : Type 0 where
  pub station : Mac
  pub sec : ℕ
  pub usec : ℕ
  pub bytes : ℕ
  pub rates : ℕ
  pub computed : ℕ

-- A pair of globals such as `last_sec_iw` and `last_usec_iw`.
pub record Mark : Type 0 where
  pub last_sec : ℕ
  pub last_usec : ℕ

-- `struct dp_t`, `di_t`, `dq_t`, `db_t` and `ds_t`, with the `next` pointer `NULL`.
pub data Message : Type 0 where
  dp_t : Mac → DpPacket → Message
  di_t : Mac → DataIw → Message
  dq_t : Mac → DataQueue → Message
  db_t : Mac → DataBeacon → Message
  ds_t : Mac → DataSurvey → Message

unfoldable pub category : Message → Category
category (dp_t mac r) = Category.drops
category (di_t mac r) = Category.iw
category (dq_t mac r) = Category.queue
category (db_t mac r) = Category.beacon
category (ds_t mac r) = Category.survey

-- The memory behind the category.
unfoldable pub body : Message → List ℕ
body (dp_t mac r) = mac_bytes mac ++ drops_bytes r
body (di_t mac r) = mac_bytes mac ++ iw_bytes r
body (dq_t mac r) = mac_bytes mac ++ queue_bytes r
body (db_t mac r) = mac_bytes mac ++ beacon_bytes r
body (ds_t mac r) = mac_bytes mac ++ survey_bytes r

abbrev pub message_bytes : Message → List ℕ
message_bytes m = be16 (category_code (category m)) ++ body m

-- The test before each message that has a time: not older than the last one that was written.
unfoldable pub is_new : Mark → Mark → Bool
is_new last t =
    if ltb last.last_sec t.last_sec
    then true
    else (t.last_sec == last.last_sec) && ltb last.last_usec t.last_usec

-- A loop over a driver's list: what is new is written and moves the mark; `drop_c` counts.
pub record Progress : Type 0 where
  pub mark : Mark
  pub out : Out
  pub drop_c : ℕ

module _ {X : Type 0} (time_of : X → Mark) (message : X → Message) where
  unfoldable pub write_new : X → Progress → Progress
  write_new x p =
      if is_new p.mark (time_of x)
      then record {
        mark = time_of x;
        out = write_2_public_buffer p.out (message_bytes (message x));
        drop_c = p.drop_c + 1;
      }
      else p

  unfoldable pub write_list : List X → Progress → Progress
  unfolding write_new
  write_list [] p = p
  write_list (x ∷ xs) p = write_list xs (write_new x p)

abbrev pub iw_time : DataIw → Mark
iw_time r = record { last_sec = r.sec; last_usec = r.usec }

abbrev pub survey_time : DataSurvey → Mark
survey_time r = record { last_sec = r.sec; last_usec = r.usec }

abbrev pub beacon_time : DataBeacon → Mark
beacon_time r = record { last_sec = r.sec; last_usec = r.usec }

abbrev pub drop_time : DpPacket → Mark
drop_time r = record { last_sec = r.sec; last_usec = r.usec }

-- The globals of the module.
pub record Collector : Type 0 where
  pub out : Out
  pub mac_global : Mac
  pub mark_iw : Mark
  pub mark_beacon : Mark
  pub mark_survey : Mark
  pub mark_drop_mac : Mark
  pub mark_drop_queue : Mark
  pub control_beacon : ℕ
  pub count_iw : ℕ
  pub iw_rec : List IwRecord
  pub queue_previous : List DataQueue
  pub beacon_last : List DataBeacon
  pub apstates_global : ℕ → ApStates
  pub aps_head : ℕ
  pub aps_tail : ℕ

-- What the drivers return in one round; an empty list is `NULL`.
pub record Drivers : Type 0 where
  pub iwlist : List DataIw
  pub survey_linger : DataSurvey
  pub beacons : List DataBeacon
  pub dp_que : List DpPacket
  pub dp_mac : List DpPacket
  pub queue_global : List DataQueue

-- The slot `apstates_global[aps_head]`.
abbrev pub put_slot : Collector → ApStates → Collector
put_slot c a = record c {
  apstates_global = λ i. if i == c.aps_head then a else c.apstates_global i;
}

abbrev pub slot : Collector → ApStates
slot c = c.apstates_global c.aps_head

-- The loop over `iw_rec`: a record more than two seconds older than the survey is cleared. The
-- difference is an `int`.
unfoldable pub age_iw_rec : ℕ → List IwRecord → List IwRecord
age_iw_rec duration [] = []
age_iw_rec duration (r ∷ rs) =
    let duration1 = (duration + 2 ^ 32 - r.sec) % 2 ^ 32 in
    (if ltb 2 duration1 && ltb duration1 (2 ^ 31)
      then record {
        station = record { b0 = 0; b1 = 0; b2 = 0; b3 = 0; b4 = 0; b5 = 0 };
        sec = 0;
        usec = 0;
        bytes = 0;
        rates = 0;
        computed = 0;
      }
      else r)
    ∷ age_iw_rec duration rs

unfoldable pub compare_and_iwlist : Collector → List DataIw → DataSurvey → Collector
unfolding write_new write_list age_iw_rec
compare_and_iwlist c ptr sur =
    let s : Progress =
      write_new survey_time (ds_t c.mac_global) sur
        (record { mark = c.mark_survey; out = c.out; drop_c = 0 }) in
    let w : Progress =
      write_list iw_time (di_t c.mac_global) ptr
        (record { mark = c.mark_iw; out = s.out; drop_c = 0 }) in
    let tmp_aps : ApStates = record (slot c) { stations = length ptr % 2 ^ 8 } in
    put_slot
      (record c {
        out = w.out;
        mark_survey = s.mark;
        mark_iw = w.mark;
        iw_rec = age_iw_rec sur.sec c.iw_rec;
        count_iw = (c.count_iw + 1) % 500000;
      })
      tmp_aps

-- The last part of a round of `compare_and_queue`: the counters of queue 3 and of the queue with
-- the id `(__u32) -1` go to the slot.
unfoldable pub queue_state : DataQueue → ApStates → ApStates
queue_state q xx =
    if q.queue_id == 4294967295
    then record xx {
      qfpackets = q.packets;
      qfbytes = q.bytes;
      qfqlen = q.qlen;
      qfbacklog = q.backlog;
      qfdrops = q.drops;
      qfrequeues = q.requeues;
      qfoverlimits = q.overlimits;
    }
    else if q.queue_id == 3
    then record xx {
      q3packets = q.packets;
      q3bytes = q.bytes;
      q3qlen = q.qlen;
      q3backlog = q.backlog;
      q3drops = q.drops;
      q3requeues = q.requeues;
      q3overlimits = q.overlimits;
    }
    else xx

pub record Queues : Type 0 where
  pub previous : List DataQueue
  pub out : Out
  pub xx : ApStates

-- The loop over `queue_global` and `queue_previous`: a queue is reported when its bytes changed.
unfoldable pub queue_loop : Mac → List DataQueue → List DataQueue → Out → ApStates → Queues
unfolding queue_state
queue_loop mac [] pre o xx = record { previous = pre; out = o; xx = xx }
queue_loop mac (q ∷ qs) [] o xx = record { previous = []; out = o; xx = xx }
queue_loop mac (q ∷ qs) (p ∷ ps) o xx =
    let changed : Queues =
      queue_loop mac qs ps (write_2_public_buffer o (message_bytes (dq_t mac q)))
        (queue_state q xx) in
    let kept : Queues = queue_loop mac qs ps o xx in
    if q.bytes == p.bytes
    then record kept { previous = p ∷ kept.previous }
    else record changed { previous = q ∷ changed.previous }

unfoldable pub compare_and_queue : Collector → List DataQueue → Collector
unfolding queue_loop
compare_and_queue c queues =
    let r : Queues = queue_loop c.mac_global queues c.queue_previous c.out (slot c) in
    put_slot (record c { queue_previous = r.previous; out = r.out }) r.xx

-- `copy_last_beacon` copies four of the members into cleared nodes.
unfoldable pub copy_last_beacon : List DataBeacon → List DataBeacon
copy_last_beacon [] = []
copy_last_beacon (b ∷ bs) =
    record {
      sec = 0;
      usec = 0;
      data_rate = b.data_rate;
      freq = b.freq;
      timein = 0;
      signal = b.signal;
      bssid = b.bssid;
    }
    ∷ copy_last_beacon bs

unfoldable pub compare_and_beacon : Collector → List DataBeacon → Collector
unfolding write_list copy_last_beacon
compare_and_beacon c ptr =
    let w : Progress =
      write_list beacon_time (db_t c.mac_global) ptr
        (record { mark = c.mark_beacon; out = c.out; drop_c = 0 }) in
    record c { out = w.out; mark_beacon = w.mark; beacon_last = copy_last_beacon ptr }

-- `if (iwlist)`: the slot takes over the survey.
unfoldable pub collect_stations : Collector → List DataIw → DataSurvey → Collector
unfolding compare_and_iwlist
collect_stations c [] s = c
collect_stations c (r ∷ rs) s =
    let tmp : ApStates = record (slot c) {
      time = s.time;
      time_busy = s.time_busy;
      time_ext_busy = s.time_ext_busy;
      time_rx = s.time_rx;
      time_tx = s.time_tx;
      time_scan = s.time_scan;
      noise = s.noise;
      sec = s.sec;
      usec = s.usec;
    } in
    compare_and_iwlist (put_slot c tmp) (r ∷ rs) s

-- `if (beacon)`, where `beacon` is asked for in every tenth round.
unfoldable pub collect_beacons : Collector → List DataBeacon → Collector
unfolding compare_and_beacon
collect_beacons c [] = c
collect_beacons c (b ∷ bs) = if c.control_beacon % 10 == 0 then compare_and_beacon c (b ∷ bs) else c

-- The end of the round: the slot is closed, and when the ring is full its oldest slot leaves.
unfoldable pub close_slot : Collector → ℕ → Collector
close_slot c drop_c =
    let aps_head = (c.aps_head + 1) % apsl in
    let d : Collector = put_slot c (record (slot c) { drop_count = drop_c }) in
    record d {
      aps_head = aps_head;
      aps_tail = if aps_head == c.aps_tail then (c.aps_tail + 1) % apsl else c.aps_tail;
    }

unfoldable pub get_information : Collector → Drivers → Collector
unfolding write_list collect_stations collect_beacons compare_and_queue close_slot
get_information c d =
    let c1 : Collector = record c { control_beacon = (c.control_beacon + 1) % 10000000 } in
    let c2 : Collector = collect_stations c1 d.iwlist d.survey_linger in
    let m : Progress =
      write_list drop_time (dp_t c.mac_global) d.dp_mac
        (record { mark = c2.mark_drop_mac; out = c2.out; drop_c = 0 }) in
    let c3 : Collector = record c2 { out = m.out; mark_drop_mac = m.mark } in
    let c4 : Collector = compare_and_queue (collect_beacons c3 d.beacons) d.queue_global in
    let q : Progress =
      write_list drop_time (dp_t c.mac_global) d.dp_que
        (record { mark = c4.mark_drop_queue; out = c4.out; drop_c = m.drop_c }) in
    close_slot (record c4 { out = q.out; mark_drop_queue = q.mark }) q.drop_c

unfoldable pub run : Collector → List Drivers → Collector
unfolding get_information
run c [] = c
run c (d ∷ ds) = run (get_information c d) ds
