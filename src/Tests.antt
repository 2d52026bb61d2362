-- ===== src/Tests.antt =====
-- Concrete data, and the modules that run the definitions on it.
pub mod Wire
pub mod Sender
pub mod Receiver
pub mod Lookup
pub mod Decision
pub mod Pipeline
pub mod Parsing
pub mod Switch
pub mod Averages
pub mod Codel
pub mod Control
pub mod Beacons
pub mod Status
pub mod Window
use controller_project.Base.{ℕ, zero, suc, ◌+◌, List, [], ◌∷◌}
use controller_project.Records.{
  Mac, DataWinsize, DpPacket, DataIw, DataSurvey, DataBeacon, DataQueue,
}
use controller_project.Sender.Buffer.{init}
use controller_project.Sender.Collect.{ApStates, Mark, Collector, Drivers}

abbrev pub router : Mac
router = record { b0 = 0; b1 = 13; b2 = 185; b3 = 1; b4 = 2; b5 = 3 }

abbrev pub neighbour : Mac
neighbour = record { b0 = 0; b1 = 13; b2 = 185; b3 = 7; b4 = 8; b5 = 9 }

abbrev pub segment : DataWinsize
segment = record {
  ip_src = 3232235777;
  ip_dst = 3232235778;
  sourceaddr = 5001;
  destination = 80;
  sequence = 70;
  ack_sequence = 40;
  flags = 16;
  windowsize = 512;
  sec = 20;
  usec = 5;
  datalength = 1448;
  wscale0 = 1;
  wscale1 = 3;
  wscale2 = 7;
}

abbrev pub packet : DpPacket
packet = record {
  ip_src = 3232235777;
  ip_dst = 3232235778;
  sec = 20;
  usec = 900;
  port_src = 5001;
  port_dst = 80;
  sequence = 70;
  ack_sequence = 40;
  drop_count = 3;
  dpl = 1500;
  in_time = 12;
}

abbrev pub station : DataIw
station = record {
  station = neighbour;
  device = 1;
  sec = 20;
  usec = 7;
  inactive_time = 4;
  rx_bytes = 1000;
  rx_packets = 10;
  tx_bytes = 2000;
  tx_packets = 20;
  tx_retries = 1;
  tx_failed = 0;
  signal = 4294967240;
  signal_avg = 4294967241;
  expected_throughput = 30000;
}

abbrev pub survey : DataSurvey
survey = record {
  time = 90000000000;
  sec = 20;
  usec = 8;
  time_busy = 500;
  time_ext_busy = 5;
  time_rx = 300;
  time_tx = 200;
  time_scan = 1;
  filled = 127;
  noise = 161;
  center_freq = 2437;
}

abbrev pub beacon : DataBeacon
beacon = record {
  sec = 20;
  usec = 9;
  data_rate = 60;
  freq = 2437;
  timein = 77;
  signal = 200;
  bssid = neighbour;
}

abbrev pub queue : DataQueue
queue = record {
  queue_id = 3;
  packets = 12;
  bytes = 90000000000;
  sec = 20;
  usec = 10;
  qlen = 5;
  backlog = 4096;
  drops = 1;
  requeues = 0;
  overlimits = 0;
}

-- A queue that reports nothing new.
abbrev pub idle : DataQueue
idle = record {
  queue_id = 0;
  packets = 0;
  bytes = 0;
  sec = 0;
  usec = 0;
  qlen = 0;
  backlog = 0;
  drops = 0;
  requeues = 0;
  overlimits = 0;
}

abbrev pub no_state : ApStates
no_state = record {
  sec = 0;
  usec = 0;
  q3packets = 0;
  q3qlen = 0;
  q3backlog = 0;
  q3drops = 0;
  q3requeues = 0;
  q3overlimits = 0;
  qfpackets = 0;
  qfqlen = 0;
  qfbacklog = 0;
  qfdrops = 0;
  qfrequeues = 0;
  qfoverlimits = 0;
  drop_count = 0;
  noise = 0;
  stations = 0;
  time = 0;
  time_busy = 0;
  time_ext_busy = 0;
  time_rx = 0;
  time_tx = 0;
  time_scan = 0;
  q3bytes = 0;
  qfbytes = 0;
}

abbrev pub start : Mark
start = record { last_sec = 0; last_usec = 0 }

-- `n` reports of stations, with times that increase.
abbrev pub stations : ℕ → ℕ → List DataIw
stations zero from = []
stations (suc n) from = record station { usec = from } ∷ stations n (from + 1)

-- The module after it is loaded.
abbrev pub loaded : Collector
loaded = record {
  out = init;
  mac_global = router;
  mark_iw = start;
  mark_beacon = start;
  mark_survey = start;
  mark_drop_mac = start;
  mark_drop_queue = start;
  control_beacon = 0;
  count_iw = 0;
  iw_rec = [];
  queue_previous = idle ∷ idle ∷ [];
  beacon_last = [];
  apstates_global = λ i. no_state;
  aps_head = 0;
  aps_tail = 0;
}

abbrev pub drivers : Drivers
drivers = record {
  iwlist = stations 16 7;
  survey_linger = survey;
  beacons = beacon ∷ [];
  dp_que = [];
  dp_mac = packet ∷ packet ∷ [];
  queue_global = queue ∷ idle ∷ [];
}
