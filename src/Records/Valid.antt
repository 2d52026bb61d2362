-- ===== src/Records/Valid.antt =====
-- Which structures a C program can hold: every field within its width.
use controller_project.Base.{◌^◌, ◌<◌}
use controller_project.Records.{
  Mac, DataWinsize, DpPacket, DataIw, DataSurvey, DataBeacon, DataQueue,
}

pub record MacIsValid (m : Mac) : Type 0 where
  pub v0 : m.b0 < 256
  pub v1 : m.b1 < 256
  pub v2 : m.b2 < 256
  pub v3 : m.b3 < 256
  pub v4 : m.b4 < 256
  pub v5 : m.b5 < 256

pub record DataWinsizeIsValid (r : DataWinsize) : Type 0 where
  pub ip_src_ok : r.ip_src < 2 ^ 32
  pub ip_dst_ok : r.ip_dst < 2 ^ 32
  pub sourceaddr_ok : r.sourceaddr < 2 ^ 16
  pub destination_ok : r.destination < 2 ^ 16
  pub sequence_ok : r.sequence < 2 ^ 32
  pub ack_sequence_ok : r.ack_sequence < 2 ^ 32
  pub flags_ok : r.flags < 2 ^ 16
  pub windowsize_ok : r.windowsize < 2 ^ 16
  pub sec_ok : r.sec < 2 ^ 32
  pub usec_ok : r.usec < 2 ^ 32
  pub datalength_ok : r.datalength < 2 ^ 32
  pub wscale0_ok : r.wscale0 < 2 ^ 8
  pub wscale1_ok : r.wscale1 < 2 ^ 8
  pub wscale2_ok : r.wscale2 < 2 ^ 8

pub record DpPacketIsValid (r : DpPacket) : Type 0 where
  pub ip_src_ok : r.ip_src < 2 ^ 32
  pub ip_dst_ok : r.ip_dst < 2 ^ 32
  pub sec_ok : r.sec < 2 ^ 32
  pub usec_ok : r.usec < 2 ^ 32
  pub port_src_ok : r.port_src < 2 ^ 16
  pub port_dst_ok : r.port_dst < 2 ^ 16
  pub sequence_ok : r.sequence < 2 ^ 32
  pub ack_sequence_ok : r.ack_sequence < 2 ^ 32
  pub drop_count_ok : r.drop_count < 2 ^ 32
  pub dpl_ok : r.dpl < 2 ^ 16
  pub in_time_ok : r.in_time < 2 ^ 32

pub record DataIwIsValid (r : DataIw) : Type 0 where
  pub station_ok : MacIsValid r.station
  pub device_ok : r.device < 2 ^ 16
  pub sec_ok : r.sec < 2 ^ 32
  pub usec_ok : r.usec < 2 ^ 32
  pub inactive_time_ok : r.inactive_time < 2 ^ 32
  pub rx_bytes_ok : r.rx_bytes < 2 ^ 32
  pub rx_packets_ok : r.rx_packets < 2 ^ 32
  pub tx_bytes_ok : r.tx_bytes < 2 ^ 32
  pub tx_packets_ok : r.tx_packets < 2 ^ 32
  pub tx_retries_ok : r.tx_retries < 2 ^ 32
  pub tx_failed_ok : r.tx_failed < 2 ^ 32
  pub signal_ok : r.signal < 2 ^ 32
  pub signal_avg_ok : r.signal_avg < 2 ^ 32
  pub expected_throughput_ok : r.expected_throughput < 2 ^ 32

pub record DataSurveyIsValid (r : DataSurvey) : Type 0 where
  pub time_ok : r.time < 2 ^ 64
  pub sec_ok : r.sec < 2 ^ 32
  pub usec_ok : r.usec < 2 ^ 32
  pub time_busy_ok : r.time_busy < 2 ^ 64
  pub time_ext_busy_ok : r.time_ext_busy < 2 ^ 64
  pub time_rx_ok : r.time_rx < 2 ^ 64
  pub time_tx_ok : r.time_tx < 2 ^ 64
  pub time_scan_ok : r.time_scan < 2 ^ 64
  pub filled_ok : r.filled < 2 ^ 32
  pub noise_ok : r.noise < 2 ^ 8
  pub center_freq_ok : r.center_freq < 2 ^ 16

pub record DataBeaconIsValid (r : DataBeacon) : Type 0 where
  pub sec_ok : r.sec < 2 ^ 32
  pub usec_ok : r.usec < 2 ^ 32
  pub data_rate_ok : r.data_rate < 2 ^ 16
  pub freq_ok : r.freq < 2 ^ 16
  pub timein_ok : r.timein < 2 ^ 32
  pub signal_ok : r.signal < 2 ^ 8
  pub bssid_ok : MacIsValid r.bssid

pub record DataQueueIsValid (r : DataQueue) : Type 0 where
  pub queue_id_ok : r.queue_id < 2 ^ 32
  pub packets_ok : r.packets < 2 ^ 32
  pub bytes_ok : r.bytes < 2 ^ 64
  pub sec_ok : r.sec < 2 ^ 32
  pub usec_ok : r.usec < 2 ^ 32
  pub qlen_ok : r.qlen < 2 ^ 32
  pub backlog_ok : r.backlog < 2 ^ 32
  pub drops_ok : r.drops < 2 ^ 32
  pub requeues_ok : r.requeues < 2 ^ 32
  pub overlimits_ok : r.overlimits < 2 ^ 32
