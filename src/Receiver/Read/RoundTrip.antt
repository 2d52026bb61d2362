-- ===== src/Receiver/Read/RoundTrip.antt =====
-- The decoders read back what the access point laid out in memory.
use controller_project.Base.{ℕ, ◌+◌, ◌*◌, ◌/◌, ◌%◌, ◌^◌, ◌<◌, ◌≡◌, refl, ◌∙◌, List, ◌++◌, arith}
use controller_project.Wire.{reversebytes_uint32t, reversebytes_uint64t, load32, load64, load16}
use controller_project.Wire.Order.{
  reverse-swapped16, reverse-swapped32, reverse-swapped64, swapped32, swapped32-eq-reverse,
}
use controller_project.Records.{
  Mac, mac_bytes, DataWinsize, DpPacket, DataIw, DataSurvey, DataBeacon, DataQueue, winsize_bytes,
  drops_bytes, iw_bytes, survey_bytes, beacon_bytes, queue_bytes,
}
use controller_project.Records.Valid.{
  DataWinsizeIsValid, DpPacketIsValid, DataIwIsValid, DataSurveyIsValid, DataBeaconIsValid,
  DataQueueIsValid,
}
use controller_project.Receiver.Read.{
  read_mac, read_winsize, read_drops, read_iw, read_survey, read_beacon, read_queue,
}

field64 :
    (v : ℕ)
    → v < 2 ^ 64
    → reversebytes_uint64t (swapped32 (v / 2 ^ 32) + swapped32 (v % 2 ^ 32) * 2 ^ 32) ≡ v
field64 v h = reverse-swapped64 (v / 2 ^ 32) (v % 2 ^ 32) (omega arith) (omega arith) ∙ omega arith

-- The sender's mac, which stands before every structure.
pub read_mac-mac_bytes : (m : Mac) (rest : List ℕ) → read_mac (mac_bytes m ++ rest) 0 ≡ m
unfolding read_mac
read_mac-mac_bytes m rest = refl

pub read_winsize-winsize_bytes :
    (m : Mac) (r : DataWinsize) (rest : List ℕ)
    → DataWinsizeIsValid r
    → read_winsize (mac_bytes m ++ (winsize_bytes r ++ rest)) ≡ r
unfolding read_winsize winsize_bytes load16 load32 load64
read_winsize-winsize_bytes m r rest h = λ i. record {
  ip_src = reverse-swapped32 r.ip_src h.ip_src_ok i;
  ip_dst = reverse-swapped32 r.ip_dst h.ip_dst_ok i;
  sourceaddr = reverse-swapped16 r.sourceaddr h.sourceaddr_ok i;
  destination = reverse-swapped16 r.destination h.destination_ok i;
  sequence = reverse-swapped32 r.sequence h.sequence_ok i;
  ack_sequence = reverse-swapped32 r.ack_sequence h.ack_sequence_ok i;
  flags = reverse-swapped16 r.flags h.flags_ok i;
  windowsize = reverse-swapped16 r.windowsize h.windowsize_ok i;
  sec = reverse-swapped32 r.sec h.sec_ok i;
  usec = reverse-swapped32 r.usec h.usec_ok i;
  datalength = reverse-swapped32 r.datalength h.datalength_ok i;
  wscale0 = r.wscale0;
  wscale1 = r.wscale1;
  wscale2 = r.wscale2;
}

pub read_drops-drops_bytes :
    (m : Mac) (r : DpPacket) (rest : List ℕ)
    → DpPacketIsValid r
    → read_drops (mac_bytes m ++ (drops_bytes r ++ rest)) ≡ r
unfolding read_drops drops_bytes load16 load32 load64
read_drops-drops_bytes m r rest h = λ i. record {
  ip_src = reverse-swapped32 r.ip_src h.ip_src_ok i;
  ip_dst = reverse-swapped32 r.ip_dst h.ip_dst_ok i;
  sec = reverse-swapped32 r.sec h.sec_ok i;
  usec = reverse-swapped32 r.usec h.usec_ok i;
  port_src = reverse-swapped16 r.port_src h.port_src_ok i;
  port_dst = reverse-swapped16 r.port_dst h.port_dst_ok i;
  sequence = reverse-swapped32 r.sequence h.sequence_ok i;
  ack_sequence = reverse-swapped32 r.ack_sequence h.ack_sequence_ok i;
  drop_count = reverse-swapped32 r.drop_count h.drop_count_ok i;
  dpl = reverse-swapped16 r.dpl h.dpl_ok i;
  in_time = reverse-swapped32 r.in_time h.in_time_ok i;
}

pub read_iw-iw_bytes :
    (m : Mac) (r : DataIw) (rest : List ℕ)
    → DataIwIsValid r
    → read_iw (mac_bytes m ++ (iw_bytes r ++ rest)) ≡ r
unfolding read_iw iw_bytes load16 load32 load64
read_iw-iw_bytes m r rest h = λ i. record {
  device = reverse-swapped16 r.device h.device_ok i;
  sec = reverse-swapped32 r.sec h.sec_ok i;
  usec = reverse-swapped32 r.usec h.usec_ok i;
  inactive_time = reverse-swapped32 r.inactive_time h.inactive_time_ok i;
  rx_bytes = reverse-swapped32 r.rx_bytes h.rx_bytes_ok i;
  rx_packets = reverse-swapped32 r.rx_packets h.rx_packets_ok i;
  tx_bytes = reverse-swapped32 r.tx_bytes h.tx_bytes_ok i;
  tx_packets = reverse-swapped32 r.tx_packets h.tx_packets_ok i;
  tx_retries = reverse-swapped32 r.tx_retries h.tx_retries_ok i;
  tx_failed = reverse-swapped32 r.tx_failed h.tx_failed_ok i;
  signal = reverse-swapped32 r.signal h.signal_ok i;
  signal_avg = reverse-swapped32 r.signal_avg h.signal_avg_ok i;
  expected_throughput = reverse-swapped32 r.expected_throughput h.expected_throughput_ok i;
  station = r.station;
}

pub read_survey-survey_bytes :
    (m : Mac) (r : DataSurvey) (rest : List ℕ)
    → DataSurveyIsValid r
    → read_survey (mac_bytes m ++ (survey_bytes r ++ rest)) ≡ r
unfolding read_survey survey_bytes load16 load32 load64
read_survey-survey_bytes m r rest h = λ i. record {
  time = field64 r.time h.time_ok i;
  sec = reverse-swapped32 r.sec h.sec_ok i;
  usec = reverse-swapped32 r.usec h.usec_ok i;
  time_busy = field64 r.time_busy h.time_busy_ok i;
  time_ext_busy = field64 r.time_ext_busy h.time_ext_busy_ok i;
  time_rx = field64 r.time_rx h.time_rx_ok i;
  time_tx = field64 r.time_tx h.time_tx_ok i;
  time_scan = field64 r.time_scan h.time_scan_ok i;
  filled = reverse-swapped32 r.filled h.filled_ok i;
  center_freq = reverse-swapped16 r.center_freq h.center_freq_ok i;
  noise = r.noise;
}

pub read_beacon-beacon_bytes :
    (m : Mac) (r : DataBeacon) (rest : List ℕ)
    → DataBeaconIsValid r
    → read_beacon (mac_bytes m ++ (beacon_bytes r ++ rest))
      ≡ record r { timein = reversebytes_uint32t r.timein }
unfolding read_beacon beacon_bytes load16 load32 load64
read_beacon-beacon_bytes m r rest h = λ i. record {
  sec = reverse-swapped32 r.sec h.sec_ok i;
  usec = reverse-swapped32 r.usec h.usec_ok i;
  data_rate = reverse-swapped16 r.data_rate h.data_rate_ok i;
  freq = reverse-swapped16 r.freq h.freq_ok i;
  timein = swapped32-eq-reverse r.timein h.timein_ok i;
  signal = r.signal;
  bssid = r.bssid;
}

pub read_queue-queue_bytes :
    (m : Mac) (r : DataQueue) (rest : List ℕ)
    → DataQueueIsValid r
    → read_queue (mac_bytes m ++ (queue_bytes r ++ rest)) ≡ r
unfolding read_queue queue_bytes load16 load32 load64
read_queue-queue_bytes m r rest h = λ i. record {
  queue_id = reverse-swapped32 r.queue_id h.queue_id_ok i;
  packets = reverse-swapped32 r.packets h.packets_ok i;
  bytes = field64 r.bytes h.bytes_ok i;
  sec = reverse-swapped32 r.sec h.sec_ok i;
  usec = reverse-swapped32 r.usec h.usec_ok i;
  qlen = reverse-swapped32 r.qlen h.qlen_ok i;
  backlog = reverse-swapped32 r.backlog h.backlog_ok i;
  drops = reverse-swapped32 r.drops h.drops_ok i;
  requeues = reverse-swapped32 r.requeues h.requeues_ok i;
  overlimits = reverse-swapped32 r.overlimits h.overlimits_ok i;
}

-- What an access point lays out in memory, the collector reads back: behind the six bytes of the
-- address each of the six structures, its members within their types, gives the same members,
-- whatever follows. Only `timein` of a beacon comes back with its bytes swapped.
pub read_structures :
    (m : Mac) (rest : List ℕ) (w : DataWinsize) (d : DpPacket) (a : DataIw) (s : DataSurvey)
    (b : DataBeacon) (q : DataQueue)
    → DataWinsizeIsValid w
    → DpPacketIsValid d
    → DataIwIsValid a
    → DataSurveyIsValid s
    → DataBeaconIsValid b
    → DataQueueIsValid q
    → (read_winsize (mac_bytes m ++ (winsize_bytes w ++ rest)) ≡ w)
      × (read_drops (mac_bytes m ++ (drops_bytes d ++ rest)) ≡ d)
      × (read_iw (mac_bytes m ++ (iw_bytes a ++ rest)) ≡ a)
      × (read_survey (mac_bytes m ++ (survey_bytes s ++ rest)) ≡ s)
      × (read_beacon (mac_bytes m ++ (beacon_bytes b ++ rest))
          ≡ record b { timein = reversebytes_uint32t b.timein })
      × (read_queue (mac_bytes m ++ (queue_bytes q ++ rest)) ≡ q)
read_structures m rest w d a s b q hw hd ha hs hb hq = (
  read_winsize-winsize_bytes m w rest hw,
  read_drops-drops_bytes m d rest hd,
  read_iw-iw_bytes m a rest ha,
  read_survey-survey_bytes m s rest hs,
  read_beacon-beacon_bytes m b rest hb,
  read_queue-queue_bytes m q rest hq,
)
