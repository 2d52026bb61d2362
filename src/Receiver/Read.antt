-- ===== src/Receiver/Read.antt =====
-- What each decoder of EXP/receive.c reads: `memcpy(mac, buf, 6)`, `memcpy(&rdata, buf + 6, …)` and
-- the byte swaps of the fields. Offsets are those of the structures on the collector.
pub mod RoundTrip
use controller_project.Base.{ℕ, ◌+◌, List, get_or}
use controller_project.Wire.{
  reversebytes_uint16t, reversebytes_uint32t, reversebytes_uint64t, load16, load32, load64,
}
use controller_project.Records.{
  Mac, DataWinsize, DpPacket, DataIw, DataSurvey, DataBeacon, DataQueue,
}

unfoldable pub read_mac : List ℕ → ℕ → Mac
read_mac b i = record {
  b0 = get_or b i 0;
  b1 = get_or b (i + 1) 0;
  b2 = get_or b (i + 2) 0;
  b3 = get_or b (i + 3) 0;
  b4 = get_or b (i + 4) 0;
  b5 = get_or b (i + 5) 0;
}

unfoldable pub read_winsize : List ℕ → DataWinsize
unfolding read_mac
read_winsize b = record {
  ip_src = reversebytes_uint32t (load32 b 6);
  ip_dst = reversebytes_uint32t (load32 b 10);
  sourceaddr = reversebytes_uint16t (load16 b 14);
  destination = reversebytes_uint16t (load16 b 16);
  sequence = reversebytes_uint32t (load32 b 18);
  ack_sequence = reversebytes_uint32t (load32 b 22);
  flags = reversebytes_uint16t (load16 b 26);
  windowsize = reversebytes_uint16t (load16 b 28);
  sec = reversebytes_uint32t (load32 b 30);
  usec = reversebytes_uint32t (load32 b 34);
  datalength = reversebytes_uint32t (load32 b 38);
  wscale0 = get_or b 42 0;
  wscale1 = get_or b 43 0;
  wscale2 = get_or b 44 0;
}

unfoldable pub read_drops : List ℕ → DpPacket
unfolding read_mac
read_drops b = record {
  ip_src = reversebytes_uint32t (load32 b 6);
  ip_dst = reversebytes_uint32t (load32 b 10);
  sec = reversebytes_uint32t (load32 b 14);
  usec = reversebytes_uint32t (load32 b 18);
  port_src = reversebytes_uint16t (load16 b 22);
  port_dst = reversebytes_uint16t (load16 b 24);
  sequence = reversebytes_uint32t (load32 b 26);
  ack_sequence = reversebytes_uint32t (load32 b 30);
  drop_count = reversebytes_uint32t (load32 b 34);
  dpl = reversebytes_uint16t (load16 b 38);
  in_time = reversebytes_uint32t (load32 b 42);
}

unfoldable pub read_iw : List ℕ → DataIw
unfolding read_mac
read_iw b = record {
  station = read_mac b 6;
  device = reversebytes_uint16t (load16 b 12);
  sec = reversebytes_uint32t (load32 b 14);
  usec = reversebytes_uint32t (load32 b 18);
  inactive_time = reversebytes_uint32t (load32 b 22);
  rx_bytes = reversebytes_uint32t (load32 b 26);
  rx_packets = reversebytes_uint32t (load32 b 30);
  tx_bytes = reversebytes_uint32t (load32 b 34);
  tx_packets = reversebytes_uint32t (load32 b 38);
  tx_retries = reversebytes_uint32t (load32 b 42);
  tx_failed = reversebytes_uint32t (load32 b 46);
  signal = reversebytes_uint32t (load32 b 50);
  signal_avg = reversebytes_uint32t (load32 b 54);
  expected_throughput = reversebytes_uint32t (load32 b 58);
}

unfoldable pub read_survey : List ℕ → DataSurvey
unfolding read_mac
read_survey b = record {
  time = reversebytes_uint64t (load64 b 6);
  sec = reversebytes_uint32t (load32 b 14);
  usec = reversebytes_uint32t (load32 b 18);
  time_busy = reversebytes_uint64t (load64 b 22);
  time_ext_busy = reversebytes_uint64t (load64 b 30);
  time_rx = reversebytes_uint64t (load64 b 38);
  time_tx = reversebytes_uint64t (load64 b 46);
  time_scan = reversebytes_uint64t (load64 b 54);
  filled = reversebytes_uint32t (load32 b 62);
  noise = get_or b 66 0;
  center_freq = reversebytes_uint16t (load16 b 68);
}

unfoldable pub read_beacon : List ℕ → DataBeacon
unfolding read_mac
read_beacon b = record {
  sec = reversebytes_uint32t (load32 b 6);
  usec = reversebytes_uint32t (load32 b 10);
  data_rate = reversebytes_uint16t (load16 b 14);
  freq = reversebytes_uint16t (load16 b 16);
  timein = load32 b 18;
  signal = get_or b 22 0;
  bssid = read_mac b 24;
}

unfoldable pub read_queue : List ℕ → DataQueue
unfolding read_mac
read_queue b = record {
  queue_id = reversebytes_uint32t (load32 b 6);
  packets = reversebytes_uint32t (load32 b 10);
  bytes = reversebytes_uint64t (load64 b 14);
  sec = reversebytes_uint32t (load32 b 22);
  usec = reversebytes_uint32t (load32 b 26);
  qlen = reversebytes_uint32t (load32 b 30);
  backlog = reversebytes_uint32t (load32 b 34);
  drops = reversebytes_uint32t (load32 b 38);
  requeues = reversebytes_uint32t (load32 b 42);
  overlimits = reversebytes_uint32t (load32 b 46);
}
