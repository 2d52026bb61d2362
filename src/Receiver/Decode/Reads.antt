-- ===== src/Receiver/Decode/Reads.antt =====
-- The decoders of EXP/receive.c read only the structure they are called for.
use controller_project.Base.{
  ℕ, ◌+◌, ◌<◌, ◌*◌, ◌^◌, ◌≡◌, refl, ap, ap₂, List, [], ◌∷◌, ◌++◌, length, get_or, get_or-append,
  arith,
}
use controller_project.Wire.{
  reversebytes_uint16t, reversebytes_uint32t, reversebytes_uint64t, load16, load32, load64,
}
use controller_project.Records.{Category}
use controller_project.Receiver.Process.{size_of}
use controller_project.Receiver.Read.{
  read_mac, read_winsize, read_drops, read_survey, read_beacon, read_queue,
}
use controller_project.Receiver.Decode.{
  Collector, take_winsize, take_drops, append_queue, neighbours, decode, decode_winsize,
  decode_drops, decode_queue, decode_beacon, decode_survey,
}

module _ (own rest : List ℕ) where
  byte_own : (k : ℕ) → k < length own → get_or (own ++ rest) k 0 ≡ get_or own k 0
  byte_own k h = get_or-append own rest k 0 h

  load16_own : (k : ℕ) → k + 1 < length own → load16 (own ++ rest) k ≡ load16 own k
  unfolding load16
  load16_own k h = rw (byte_own k (omega arith), byte_own (k + 1) h) refl

  load32_own : (k : ℕ) → k + 3 < length own → load32 (own ++ rest) k ≡ load32 own k
  unfolding load32
  load32_own k h =
      rw
        (
          byte_own k (omega arith),
          byte_own (k + 1) (omega arith),
          byte_own (k + 2) (omega arith),
          byte_own (k + 3) h,
        )
        refl

  load64_own : (k : ℕ) → k + 7 < length own → load64 (own ++ rest) k ≡ load64 own k
  unfolding load64
  load64_own k h =
      ap₂ (λ x y. x + y * 2 ^ 32) (load32_own k (omega arith)) (load32_own (k + 4) (omega arith))

  mac_own : (k : ℕ) → k + 5 < length own → read_mac (own ++ rest) k ≡ read_mac own k
  unfolding read_mac
  mac_own k h = λ i. record {
    b0 = byte_own k (omega arith) i;
    b1 = byte_own (k + 1) (omega arith) i;
    b2 = byte_own (k + 2) (omega arith) i;
    b3 = byte_own (k + 3) (omega arith) i;
    b4 = byte_own (k + 4) (omega arith) i;
    b5 = byte_own (k + 5) h i;
  }

  winsize_own : length own ≡ 46 → read_winsize (own ++ rest) ≡ read_winsize own
  unfolding read_winsize
  winsize_own h = λ i. record {
    ip_src = ap reversebytes_uint32t (load32_own 6 (omega arith)) i;
    ip_dst = ap reversebytes_uint32t (load32_own 10 (omega arith)) i;
    sourceaddr = ap reversebytes_uint16t (load16_own 14 (omega arith)) i;
    destination = ap reversebytes_uint16t (load16_own 16 (omega arith)) i;
    sequence = ap reversebytes_uint32t (load32_own 18 (omega arith)) i;
    ack_sequence = ap reversebytes_uint32t (load32_own 22 (omega arith)) i;
    flags = ap reversebytes_uint16t (load16_own 26 (omega arith)) i;
    windowsize = ap reversebytes_uint16t (load16_own 28 (omega arith)) i;
    sec = ap reversebytes_uint32t (load32_own 30 (omega arith)) i;
    usec = ap reversebytes_uint32t (load32_own 34 (omega arith)) i;
    datalength = ap reversebytes_uint32t (load32_own 38 (omega arith)) i;
    wscale0 = byte_own 42 (omega arith) i;
    wscale1 = byte_own 43 (omega arith) i;
    wscale2 = byte_own 44 (omega arith) i;
  }

  drops_own : length own ≡ 54 → read_drops (own ++ rest) ≡ read_drops own
  unfolding read_drops
  drops_own h = λ i. record {
    ip_src = ap reversebytes_uint32t (load32_own 6 (omega arith)) i;
    ip_dst = ap reversebytes_uint32t (load32_own 10 (omega arith)) i;
    sec = ap reversebytes_uint32t (load32_own 14 (omega arith)) i;
    usec = ap reversebytes_uint32t (load32_own 18 (omega arith)) i;
    port_src = ap reversebytes_uint16t (load16_own 22 (omega arith)) i;
    port_dst = ap reversebytes_uint16t (load16_own 24 (omega arith)) i;
    sequence = ap reversebytes_uint32t (load32_own 26 (omega arith)) i;
    ack_sequence = ap reversebytes_uint32t (load32_own 30 (omega arith)) i;
    drop_count = ap reversebytes_uint32t (load32_own 34 (omega arith)) i;
    dpl = ap reversebytes_uint16t (load16_own 38 (omega arith)) i;
    in_time = ap reversebytes_uint32t (load32_own 42 (omega arith)) i;
  }

  survey_own : length own ≡ 70 → read_survey (own ++ rest) ≡ read_survey own
  unfolding read_survey
  survey_own h = λ i. record {
    time = ap reversebytes_uint64t (load64_own 6 (omega arith)) i;
    sec = ap reversebytes_uint32t (load32_own 14 (omega arith)) i;
    usec = ap reversebytes_uint32t (load32_own 18 (omega arith)) i;
    time_busy = ap reversebytes_uint64t (load64_own 22 (omega arith)) i;
    time_ext_busy = ap reversebytes_uint64t (load64_own 30 (omega arith)) i;
    time_rx = ap reversebytes_uint64t (load64_own 38 (omega arith)) i;
    time_tx = ap reversebytes_uint64t (load64_own 46 (omega arith)) i;
    time_scan = ap reversebytes_uint64t (load64_own 54 (omega arith)) i;
    filled = ap reversebytes_uint32t (load32_own 62 (omega arith)) i;
    noise = byte_own 66 (omega arith) i;
    center_freq = ap reversebytes_uint16t (load16_own 68 (omega arith)) i;
  }

  beacon_own : length own ≡ 38 → read_beacon (own ++ rest) ≡ read_beacon own
  unfolding read_beacon
  beacon_own h = λ i. record {
    sec = ap reversebytes_uint32t (load32_own 6 (omega arith)) i;
    usec = ap reversebytes_uint32t (load32_own 10 (omega arith)) i;
    data_rate = ap reversebytes_uint16t (load16_own 14 (omega arith)) i;
    freq = ap reversebytes_uint16t (load16_own 16 (omega arith)) i;
    timein = load32_own 18 (omega arith) i;
    signal = byte_own 22 (omega arith) i;
    bssid = mac_own 24 (omega arith) i;
  }

  queue_own : length own ≡ 54 → read_queue (own ++ rest) ≡ read_queue own
  unfolding read_queue
  queue_own h = λ i. record {
    queue_id = ap reversebytes_uint32t (load32_own 6 (omega arith)) i;
    packets = ap reversebytes_uint32t (load32_own 10 (omega arith)) i;
    bytes = ap reversebytes_uint64t (load64_own 14 (omega arith)) i;
    sec = ap reversebytes_uint32t (load32_own 22 (omega arith)) i;
    usec = ap reversebytes_uint32t (load32_own 26 (omega arith)) i;
    qlen = ap reversebytes_uint32t (load32_own 30 (omega arith)) i;
    backlog = ap reversebytes_uint32t (load32_own 34 (omega arith)) i;
    drops = ap reversebytes_uint32t (load32_own 38 (omega arith)) i;
    requeues = ap reversebytes_uint32t (load32_own 42 (omega arith)) i;
    overlimits = ap reversebytes_uint32t (load32_own 46 (omega arith)) i;
  }

-- The decoders read the address and the structure that they are called for, whatever stands behind
-- it, provided that `decode_iw` does.
pub decode_reads_own :
    (decode_iw : List ℕ → Collector → Collector)
    → ((own rest : List ℕ) (s : Collector)
        → length own ≡ size_of Category.iw + 6
        → decode_iw (own ++ rest) s ≡ decode_iw own s)
    → (c : Category) (own rest : List ℕ) (s : Collector) → length own ≡ size_of c + 6
    → decode decode_iw c (own ++ rest) s ≡ decode decode_iw c own s
unfolding decode decode_winsize decode_drops decode_queue decode_beacon decode_survey
decode_reads_own iw g Category.winsize own rest s h =
    ap (λ r. take_winsize r s) (winsize_own own rest h)
decode_reads_own iw g Category.drops own rest s h = ap (λ r. take_drops r s) (drops_own own rest h)
decode_reads_own iw g Category.iw own rest s h = g own rest s h
decode_reads_own iw g Category.queue own rest s h =
    ap (λ r. append_queue r s) (queue_own own rest h)
decode_reads_own iw g Category.beacon own rest s h =
    ap₂ (λ m r. record s { neibour_lists = neighbours m r s.neibour_lists })
      (mac_own own rest 0 (omega arith)) (beacon_own own rest h)
decode_reads_own iw g Category.survey own rest s h =
    ap (λ r. record s { survey_list = s.survey_list ++ r ∷ [] }) (survey_own own rest h)
