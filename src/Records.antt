-- ===== src/Records.antt =====
-- The structures that travel from the access point (sendudp/sendudp.c) to the collector
-- (EXP/newstructures.h), and their memory on the access point: 32 bits wide, big endian.
-- A `__s8` or `__s32` is kept as its bit pattern.
pub mod Valid
use controller_project.Base.{ℕ, List, [], ◌∷◌, ◌++◌}
use controller_project.Wire.{be16, be32, be64}

-- A hardware address, `char mac[6]`.
pub record Mac : Type 0 where
  pub b0 : ℕ
  pub b1 : ℕ
  pub b2 : ℕ
  pub b3 : ℕ
  pub b4 : ℕ
  pub b5 : ℕ

abbrev pub mac_bytes : Mac → List ℕ
mac_bytes m = m.b0 ∷ m.b1 ∷ m.b2 ∷ m.b3 ∷ m.b4 ∷ m.b5 ∷ []

-- `enum data_category`, and the `__u16` of that name.
pub data Category : Type 0 where
  winsize drops iw queue beacon survey : Category

abbrev pub category_code : Category → ℕ
category_code Category.winsize = 1
category_code Category.drops = 2
category_code Category.iw = 3
category_code Category.queue = 4
category_code Category.beacon = 5
category_code Category.survey = 6

-- `struct data_winsize`; the padding byte is left out.
pub record DataWinsize : Type 0 where
  pub ip_src : ℕ
  pub ip_dst : ℕ
  pub sourceaddr : ℕ
  pub destination : ℕ
  pub sequence : ℕ
  pub ack_sequence : ℕ
  pub flags : ℕ
  pub windowsize : ℕ
  pub sec : ℕ
  pub usec : ℕ
  pub datalength : ℕ
  pub wscale0 : ℕ
  pub wscale1 : ℕ
  pub wscale2 : ℕ

-- `struct dp_packet`; `next` is `NULL` when it is sent, and padding carries nothing.
pub record DpPacket : Type 0 where
  pub ip_src : ℕ
  pub ip_dst : ℕ
  pub sec : ℕ
  pub usec : ℕ
  pub port_src : ℕ
  pub port_dst : ℕ
  pub sequence : ℕ
  pub ack_sequence : ℕ
  pub drop_count : ℕ
  pub dpl : ℕ
  pub in_time : ℕ

-- `struct data_iw`.
pub record DataIw : Type 0 where
  pub station : Mac
  pub device : ℕ
  pub sec : ℕ
  pub usec : ℕ
  pub inactive_time : ℕ
  pub rx_bytes : ℕ
  pub rx_packets : ℕ
  pub tx_bytes : ℕ
  pub tx_packets : ℕ
  pub tx_retries : ℕ
  pub tx_failed : ℕ
  pub signal : ℕ
  pub signal_avg : ℕ
  pub expected_throughput : ℕ

-- `struct data_survey`.
pub record DataSurvey : Type 0 where
  pub time : ℕ
  pub sec : ℕ
  pub usec : ℕ
  pub time_busy : ℕ
  pub time_ext_busy : ℕ
  pub time_rx : ℕ
  pub time_tx : ℕ
  pub time_scan : ℕ
  pub filled : ℕ
  pub noise : ℕ
  pub center_freq : ℕ

-- `struct data_beacon`.
pub record DataBeacon : Type 0 where
  pub sec : ℕ
  pub usec : ℕ
  pub data_rate : ℕ
  pub freq : ℕ
  pub timein : ℕ
  pub signal : ℕ
  pub bssid : Mac

-- `struct data_queue`.
pub record DataQueue : Type 0 where
  pub queue_id : ℕ
  pub packets : ℕ
  pub bytes : ℕ
  pub sec : ℕ
  pub usec : ℕ
  pub qlen : ℕ
  pub backlog : ℕ
  pub drops : ℕ
  pub requeues : ℕ
  pub overlimits : ℕ

unfoldable pub winsize_bytes : DataWinsize → List ℕ
unfolding be16 be32 be64
winsize_bytes r =
    be32 r.ip_src
    ++ (be32 r.ip_dst
        ++ (be16 r.sourceaddr
            ++ (be16 r.destination
                ++ (be32 r.sequence
                    ++ (be32 r.ack_sequence
                        ++ (be16 r.flags
                            ++ (be16 r.windowsize
                                ++ (be32 r.sec
                                    ++ (be32 r.usec
                                        ++ (be32 r.datalength
                                            ++ ((r.wscale0 ∷ [])
                                                ++ ((r.wscale1 ∷ [])
                                                    ++ ((r.wscale2 ∷ []) ++ ((0 ∷ [])))))))))))))))

unfoldable pub drops_bytes : DpPacket → List ℕ
unfolding be16 be32 be64
drops_bytes r =
    be32 r.ip_src
    ++ (be32 r.ip_dst
        ++ (be32 r.sec
            ++ (be32 r.usec
                ++ (be16 r.port_src
                    ++ (be16 r.port_dst
                        ++ (be32 r.sequence
                            ++ (be32 r.ack_sequence
                                ++ (be32 r.drop_count
                                    ++ (be16 r.dpl
                                        ++ ((0 ∷ 0 ∷ [])
                                            ++ (be32 r.in_time
                                                ++ ((0 ∷ 0 ∷ 0 ∷ 0 ∷ 0 ∷ 0 ∷ 0 ∷ 0 ∷ [])))))))))))))

unfoldable pub iw_bytes : DataIw → List ℕ
unfolding be16 be32 be64
iw_bytes r =
    mac_bytes r.station
    ++ (be16 r.device
        ++ (be32 r.sec
            ++ (be32 r.usec
                ++ (be32 r.inactive_time
                    ++ (be32 r.rx_bytes
                        ++ (be32 r.rx_packets
                            ++ (be32 r.tx_bytes
                                ++ (be32 r.tx_packets
                                    ++ (be32 r.tx_retries
                                        ++ (be32 r.tx_failed
                                            ++ (be32 r.signal
                                                ++ (be32 r.signal_avg
                                                    ++ (be32 r.expected_throughput
                                                        ++ ((0 ∷ 0 ∷ 0 ∷ 0 ∷ 0 ∷ 0 ∷ 0 ∷ 0
                                                            ∷ [])))))))))))))))

unfoldable pub survey_bytes : DataSurvey → List ℕ
unfolding be16 be32 be64
survey_bytes r =
    be64 r.time
    ++ (be32 r.sec
        ++ (be32 r.usec
            ++ (be64 r.time_busy
                ++ (be64 r.time_ext_busy
                    ++ (be64 r.time_rx
                        ++ (be64 r.time_tx
                            ++ (be64 r.time_scan
                                ++ (be32 r.filled
                                    ++ ((r.noise ∷ [])
                                        ++ ((0 ∷ []) ++ (be16 r.center_freq)))))))))))

unfoldable pub beacon_bytes : DataBeacon → List ℕ
unfolding be16 be32 be64
beacon_bytes r =
    be32 r.sec
    ++ (be32 r.usec
        ++ (be16 r.data_rate
            ++ (be16 r.freq
                ++ (be32 r.timein
                    ++ ((r.signal ∷ [])
                        ++ ((0 ∷ [])
                            ++ (mac_bytes r.bssid ++ ((0 ∷ 0 ∷ 0 ∷ 0 ∷ 0 ∷ 0 ∷ 0 ∷ 0 ∷ [])))))))))

unfoldable pub queue_bytes : DataQueue → List ℕ
unfolding be16 be32 be64
queue_bytes r =
    be32 r.queue_id
    ++ (be32 r.packets
        ++ (be64 r.bytes
            ++ (be32 r.sec
                ++ (be32 r.usec
                    ++ (be32 r.qlen
                        ++ (be32 r.backlog
                            ++ (be32 r.drops
                                ++ (be32 r.requeues
                                    ++ (be32 r.overlimits ++ ((0 ∷ 0 ∷ 0 ∷ 0 ∷ [])))))))))))
