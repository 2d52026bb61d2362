-- ===== src/Tests/Pipeline.antt =====
-- Two rounds of an access point, taken apart by the collector.
use controller_project.Base.{
  ℕ, ◌≤◌, flatten, length, ◌+◌, ◌≡◌, refl, List, [], ◌∷◌, ◌++◌, map, some, arith,
}
use controller_project.Sender.Buffer.{b_s}
use controller_project.Records.{Category}
use controller_project.Records.Valid.{DataQueueIsValid}
use controller_project.Sender.Collect.{
  Message, message_bytes, Drivers, run, is_new, get_information, collect_stations,
  compare_and_iwlist, collect_beacons, compare_and_queue, queue_loop, close_slot, write_list,
  write_new,
}
use controller_project.Sender.Collect.Marks.{fresh}
use controller_project.Sender.Collect.Messages.{
  run_messages, round_messages, station_messages, beacon_messages, changed,
}
use controller_project.Receiver.Pool.{padded}
use controller_project.Receiver.Process.{size_of, Counts}
use controller_project.Receiver.Decode as Receiver
use controller_project.Pipeline.{process_all, handle_messages, process_all-run}
use controller_project.Pipeline.Delivery.{QueuesAreValid, queues_3, queues_arrive}
use controller_project.Tests.{loaded, drivers, queue}

abbrev zero_counts : Counts
zero_counts = record { count_winsize = 1; count_iw = 0; count_survey = 0; count_queue = 0 }

abbrev rounds : List Drivers
rounds = drivers ∷ drivers ∷ []

-- A decoder that adds up the codes it is called for.
abbrev tally : Category → List ℕ → ℕ → ℕ
tally c buf s = s + size_of c

process_all-run_example :
    (sent waiting : List Message) × (sent ++ waiting ≡ run_messages loaded rounds)
    × (length (flatten (map message_bytes waiting)) ≤ b_s)
    × (process_all tally (map padded (run loaded rounds).out.sent) (0, zero_counts)
        ≡ some (handle_messages tally sent (0, zero_counts)))
process_all-run_example =
    process_all-run tally (λ c own rest s h. refl) loaded rounds (0, zero_counts) refl

abbrev collector : Receiver.Collector
collector = record {
  flows = record {
    flow_seq_list = [];
    retrans = record { times = λ i. record { sec = 0; usec = 0 }; head = 0 };
    count_retrans = 0;
  };
  winsize_times = record { times = λ i. record { sec = 0; usec = 0 }; head = 0 };
  drop_count = 0;
  last_100_ms_drop = record { sec = 0; usec = 0; count = 0 };
  queue_list_3 = queue ∷ [];
  queue_list_f = [];
  survey_list = [];
  neibour_lists = [];
}

abbrev count_iw : List ℕ → Receiver.Collector → Receiver.Collector
count_iw buf c = record c { drop_count = c.drop_count + 1 }

queue-valid : DataQueueIsValid queue
queue-valid = record {
  queue_id_ok = omega arith;
  packets_ok = omega arith;
  bytes_ok = omega arith;
  sec_ok = omega arith;
  usec_ok = omega arith;
  qlen_ok = omega arith;
  backlog_ok = omega arith;
  drops_ok = omega arith;
  requeues_ok = omega arith;
  overlimits_ok = omega arith;
}

queues-valid : QueuesAreValid (run_messages loaded rounds)
unfolding run_messages round_messages station_messages beacon_messages changed fresh is_new
    get_information collect_stations compare_and_iwlist collect_beacons compare_and_queue queue_loop
    close_slot write_list write_new
queues-valid = (queue-valid, tt)

queues_arrive_example :
    (sent waiting : List Message) × (t : Receiver.Collector × Counts) × (sent ++ waiting
      ≡ run_messages loaded rounds)
    × (length (flatten (map message_bytes waiting)) ≤ b_s)
    × (process_all
          (Receiver.decode count_iw)
          (map padded (run loaded rounds).out.sent)
          (collector, zero_counts)
        ≡ some t)
    × (t.0.queue_list_3 ≡ collector.queue_list_3 ++ queues_3 sent)
queues_arrive_example =
    queues_arrive count_iw (λ buf c. refl) (λ own rest s h. refl) loaded rounds
      (collector, zero_counts) refl queues-valid
