-- ===== src/Tests/Receiver.antt =====
-- The collector on concrete data.
use controller_project.Base.{
  ℕ, ◌+◌, ◌≤◌, ◌≡◌, ◌⊎◌, refl, List, [], ◌∷◌, ◌++◌, false, none, some, length, replicate,
  if◌then◌else◌, ◌==◌, ◌||◌, bit_and, arith,
}
use controller_project.Wire.{reversebytes_uint32t}
use controller_project.Records.{
  mac_bytes, Category, winsize_bytes, drops_bytes, iw_bytes, survey_bytes, beacon_bytes,
  queue_bytes,
}
use controller_project.Records.Valid.{
  DataWinsizeIsValid, DpPacketIsValid, DataIwIsValid, DataSurveyIsValid, DataBeaconIsValid,
  DataQueueIsValid, MacIsValid,
}
use controller_project.Receiver.Read.{
  read_winsize, read_drops, read_iw, read_survey, read_beacon, read_queue,
}
use controller_project.Receiver.Read.RoundTrip.{read_structures}
use controller_project.Receiver.Process.{Counts, process}
use controller_project.Receiver.Process.Frames.{Frame, frames_bytes, handle_all, process_frames}
use controller_project.Receiver.Pool.{Pool, Event, receives, takes, receive, run, ulen}
use controller_project.Receiver.Pool.Fifo.{
  IsValid, contents, queue_run, receive_overruns, run_refines,
}
use controller_project.Receiver.Flows.{
  SeqInfo, WinsizeRecord, Flows, modify, place, insert_flow_info, find_flow, ack_data, entries_at,
  clear_flow_info, same_flow, ack_flow_info, update_flows,
}
use controller_project.Receiver.Flows.Insert.{FirstFree, Oldest, insert_flow_info_lem}
use controller_project.Receiver.Flows.Ack.{holds, has_room, ack_data_counts}
use controller_project.Receiver.Flows.Clear.{update_flows_lem}
use controller_project.Receiver.Decode.{StationList, Collector, decode}
use controller_project.Receiver.Decode.Reads.{decode_reads_own}
use controller_project.Tests.{router, neighbour, segment, packet, station, survey, beacon, queue}

mac-IsValid : MacIsValid neighbour
mac-IsValid = record {
  v0 = omega arith;
  v1 = omega arith;
  v2 = omega arith;
  v3 = omega arith;
  v4 = omega arith;
  v5 = omega arith;
}

winsize-IsValid : DataWinsizeIsValid segment
winsize-IsValid = record {
  ip_src_ok = omega arith;
  ip_dst_ok = omega arith;
  sourceaddr_ok = omega arith;
  destination_ok = omega arith;
  sequence_ok = omega arith;
  ack_sequence_ok = omega arith;
  flags_ok = omega arith;
  windowsize_ok = omega arith;
  sec_ok = omega arith;
  usec_ok = omega arith;
  datalength_ok = omega arith;
  wscale0_ok = omega arith;
  wscale1_ok = omega arith;
  wscale2_ok = omega arith;
}

drops-IsValid : DpPacketIsValid packet
drops-IsValid = record {
  ip_src_ok = omega arith;
  ip_dst_ok = omega arith;
  sec_ok = omega arith;
  usec_ok = omega arith;
  port_src_ok = omega arith;
  port_dst_ok = omega arith;
  sequence_ok = omega arith;
  ack_sequence_ok = omega arith;
  drop_count_ok = omega arith;
  dpl_ok = omega arith;
  in_time_ok = omega arith;
}

iw-IsValid : DataIwIsValid station
iw-IsValid = record {
  station_ok = mac-IsValid;
  device_ok = omega arith;
  sec_ok = omega arith;
  usec_ok = omega arith;
  inactive_time_ok = omega arith;
  rx_bytes_ok = omega arith;
  rx_packets_ok = omega arith;
  tx_bytes_ok = omega arith;
  tx_packets_ok = omega arith;
  tx_retries_ok = omega arith;
  tx_failed_ok = omega arith;
  signal_ok = omega arith;
  signal_avg_ok = omega arith;
  expected_throughput_ok = omega arith;
}

survey-IsValid : DataSurveyIsValid survey
survey-IsValid = record {
  time_ok = omega arith;
  sec_ok = omega arith;
  usec_ok = omega arith;
  time_busy_ok = omega arith;
  time_ext_busy_ok = omega arith;
  time_rx_ok = omega arith;
  time_tx_ok = omega arith;
  time_scan_ok = omega arith;
  filled_ok = omega arith;
  noise_ok = omega arith;
  center_freq_ok = omega arith;
}

beacon-IsValid : DataBeaconIsValid beacon
beacon-IsValid = record {
  sec_ok = omega arith;
  usec_ok = omega arith;
  data_rate_ok = omega arith;
  freq_ok = omega arith;
  timein_ok = omega arith;
  signal_ok = omega arith;
  bssid_ok = mac-IsValid;
}

queue-IsValid : DataQueueIsValid queue
queue-IsValid = record {
  queue_id_ok = omega arith;
  packets_ok = omega arith;
  bytes_ok = omega arith;
  sec_ok = omega arith;
  usec_ok = omega arith;
  qlen_ok = omega arith;
  backlog_ok = omega arith;
  drops_ok = omega arith;
  requeues_ok = omega arith;
  overlimits_ok = omega arith;
}

read_structures_example :
    (read_winsize (mac_bytes router ++ (winsize_bytes segment ++ (9 ∷ []))) ≡ segment)
    × (read_drops (mac_bytes router ++ (drops_bytes packet ++ (9 ∷ []))) ≡ packet)
    × (read_iw (mac_bytes router ++ (iw_bytes station ++ (9 ∷ []))) ≡ station)
    × (read_survey (mac_bytes router ++ (survey_bytes survey ++ (9 ∷ []))) ≡ survey)
    × (read_beacon (mac_bytes router ++ (beacon_bytes beacon ++ (9 ∷ [])))
        ≡ record beacon { timein = reversebytes_uint32t beacon.timein })
    × (read_queue (mac_bytes router ++ (queue_bytes queue ++ (9 ∷ []))) ≡ queue)
read_structures_example =
    read_structures router (9 ∷ []) segment packet station survey beacon queue winsize-IsValid
      drops-IsValid iw-IsValid survey-IsValid beacon-IsValid queue-IsValid

-- A decoder that adds up the bytes it is given.
abbrev counting : Category → List ℕ → ℕ → ℕ
counting c buf s = s + length buf

abbrev zero_counts : Counts
zero_counts = record { count_winsize = 1; count_iw = 0; count_survey = 0; count_queue = 0 }

abbrev frame : Frame
frame = record { category = Category.beacon; payload = replicate 38 1 }

process_frames_example :
    process counting (frames_bytes (frame ∷ frame ∷ []) ++ replicate 944 0) 1024 (0, zero_counts)
    ≡ some (handle_all counting (frame ∷ frame ∷ []) (replicate 944 0) (0, zero_counts))
process_frames_example =
    process_frames counting (frame ∷ frame ∷ []) 944 1024 (0, zero_counts) (refl, (refl, tt))
      (unfold controller_project.Wire.be16 in refl)

abbrev empty_pool : Pool
empty_pool = record { buffer_pool = λ i. 0; tail = 0; head = 0 }

empty_pool-IsValid : IsValid empty_pool
empty_pool-IsValid = record {
  head_in = omega arith;
  tail_in = omega arith;
  head_slot = omega arith;
  tail_slot = omega arith;
}

abbrev events : List Event
events = receives (some (1 ∷ 2 ∷ [])) ∷ receives none ∷ receives (some (3 ∷ [])) ∷ takes ∷ []

run_refines_example : run empty_pool events ≡ queue_run (contents empty_pool) events
run_refines_example = run_refines events empty_pool-IsValid (omega arith, (omega arith, tt))

-- The pool with one free place.
abbrev full_pool : Pool
full_pool = record { buffer_pool = λ i. 0; tail = 10238976; head = 0 }

full_pool-IsValid : IsValid full_pool
full_pool-IsValid = record {
  head_in = omega arith;
  tail_in = omega arith;
  head_slot = omega arith;
  tail_slot = omega arith;
}

receive_overruns_example :
    (ulen (receive full_pool (some (7 ∷ []))) ≡ 0)
    × ((receive full_pool (some (7 ∷ []))).head ≡ (receive full_pool (some (7 ∷ []))).tail)
    × (contents (receive full_pool (some (7 ∷ []))) ≡ [])
receive_overruns_example = receive_overruns full_pool (7 ∷ []) full_pool-IsValid (omega arith)

abbrev entry : SeqInfo
entry = record { seq = 70; sec = 19; usec = 0 }

abbrev free_entry : SeqInfo
free_entry = record { seq = 0; sec = 0; usec = 0 }

abbrev flow : WinsizeRecord
flow = record {
  ip_src = 3232235777;
  ip_dst = 3232235778;
  sourceaddr = 5001;
  destination = 80;
  seq_list = entry ∷ free_entry ∷ [];
  ack_seq = 0;
  sec = 19;
}

abbrev flows : Flows
flows = record {
  flow_seq_list = flow ∷ [];
  retrans = record { times = λ i. record { sec = 0; usec = 0 }; head = 0 };
  count_retrans = 4;
}

insert_flow_info_lem_example :
    (i : ℕ) × (insert_flow_info (flow ∷ []) segment ≡ modify (flow ∷ []) i (place segment))
    × (FirstFree (flow ∷ []) i ⊎ Oldest (flow ∷ []) i)
insert_flow_info_lem_example = insert_flow_info_lem (flow ∷ []) segment (omega arith)

flow-found :
    find_flow flows.flow_seq_list 0 segment.ip_src segment.ip_dst segment.sourceaddr
      segment.destination
    ≡ some 0
unfolding find_flow same_flow
flow-found = refl

ack_data_counts_example :
    ((ack_data flows segment).count_retrans
      ≡ flows.count_retrans + holds (entries_at flows.flow_seq_list 0) segment.sequence)
    × ((1 ≤ holds (entries_at (ack_data flows segment).flow_seq_list 0) segment.sequence)
        ⊎ (holds (entries_at flows.flow_seq_list 0) segment.sequence ≡ 0)
          × (has_room (entries_at flows.flow_seq_list 0) ≡ false))
ack_data_counts_example =
    ack_data_counts flows segment 0 (omega arith) (omega arith) flow-found (omega arith)

abbrev known : StationList
known = record { station = router; sec = 18; count = 1 }

update_flows_lem_example :
    let flags = bit_and segment.flags 0x0017 in
    update_flows flows segment ≡ (
      if (flags == 2) || (flags == 18)
      then record flows { flow_seq_list = insert_flow_info flows.flow_seq_list segment }
      else if flags == 17
      then record flows { flow_seq_list = clear_flow_info flows.flow_seq_list segment }
      else if flags == 16
      then ack_flow_info flows segment
      else flows)
update_flows_lem_example = update_flows_lem flows segment

abbrev pub collector : Collector
collector = record {
  flows = flows;
  winsize_times = record { times = λ i. record { sec = 0; usec = 0 }; head = 0 };
  drop_count = 0;
  last_100_ms_drop = record { sec = 0; usec = 0; count = 0 };
  queue_list_3 = [];
  queue_list_f = [];
  survey_list = [];
  neibour_lists = [];
}

-- A `decode_iw` that counts in `drop_count`.
abbrev count_iw : List ℕ → Collector → Collector
count_iw buf c = record c { drop_count = c.drop_count + 1 }

decode_reads_own_example :
    decode count_iw Category.queue (replicate 54 3 ++ (9 ∷ [])) collector
    ≡ decode count_iw Category.queue (replicate 54 3) collector
decode_reads_own_example =
    decode_reads_own count_iw (λ own rest s h. refl) Category.queue (replicate 54 3) (9 ∷ [])
      collector refl
