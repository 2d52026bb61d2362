-- ===== src/Pipeline/Delivery.antt =====
-- The queues of an access point (sendudp/sendudp.c) in the lists of the collector (EXP/receive.c).
use controller_project.Base.{
  ℕ, ◌+◌, ◌≤◌, ◌≡◌, refl, flatten, ap, subst, sym, ◌∙◌, List, [], ◌∷◌, ◌++◌, append_assoc,
  append-nil, map, length, some, ◌==◌, if◌then◌else◌, Bool-cases, inl, inr, arith,
}
use controller_project.Records.{
  Category, Mac, mac_bytes, DpPacket, DataQueue, queue_bytes, drops_bytes, iw_bytes,
}
use controller_project.Records.Valid.{DataQueueIsValid}
use controller_project.Sender.Buffer.{b_s, init}
use controller_project.Sender.Collect.{
  Message, message_bytes, dp_t, di_t, dq_t, db_t, ds_t, category, body, Drivers, run,
}
use controller_project.Sender.Collect as Sender
use controller_project.Sender.Collect.Messages.{run_messages}
use controller_project.Receiver.Pool.{padded}
use controller_project.Receiver.Process.{size_of, Counts}
use controller_project.Receiver.Read.{read_queue, read_drops}
use controller_project.Receiver.Read.RoundTrip.{read_queue-queue_bytes}
use controller_project.Receiver.Decode.{
  Collector, decode, decode_queue, take_drops, decode_drops, append_queue, decode_beacon,
  decode_survey,
}
use controller_project.Receiver.Decode.Reads.{decode_reads_own}
use controller_project.Pipeline.{process_all, handle_messages, process_all-run}

-- The counters of queue 3 among the messages.
unfoldable pub queues_3 : List Message → List DataQueue
queues_3 [] = []
queues_3 (dq_t mac q ∷ ms) = if q.queue_id == 3 then q ∷ queues_3 ms else queues_3 ms
queues_3 (dp_t mac r ∷ ms) = queues_3 ms
queues_3 (di_t mac r ∷ ms) = queues_3 ms
queues_3 (db_t mac r ∷ ms) = queues_3 ms
queues_3 (ds_t mac r ∷ ms) = queues_3 ms

-- The members of each queue fit their types.
abbrev pub QueuesAreValid : List Message → Type 0
QueuesAreValid [] = Unit {0}
QueuesAreValid (dq_t mac q ∷ ms) = DataQueueIsValid q × QueuesAreValid ms
QueuesAreValid (dp_t mac r ∷ ms) = QueuesAreValid ms
QueuesAreValid (di_t mac r ∷ ms) = QueuesAreValid ms
QueuesAreValid (db_t mac r ∷ ms) = QueuesAreValid ms
QueuesAreValid (ds_t mac r ∷ ms) = QueuesAreValid ms

valid_prefix : (ms ns : List Message) → QueuesAreValid (ms ++ ns) → QueuesAreValid ms
valid_prefix [] ns h = tt
valid_prefix (dq_t mac q ∷ ms) ns h = (h.0, valid_prefix ms ns h.1)
valid_prefix (dp_t mac r ∷ ms) ns h = valid_prefix ms ns h
valid_prefix (di_t mac r ∷ ms) ns h = valid_prefix ms ns h
valid_prefix (db_t mac r ∷ ms) ns h = valid_prefix ms ns h
valid_prefix (ds_t mac r ∷ ms) ns h = valid_prefix ms ns h

read_back :
    (mac : Mac) (q : DataQueue)
    → DataQueueIsValid q
    → read_queue (mac_bytes mac ++ queue_bytes q) ≡ q
read_back mac q h =
    ap (λ t. read_queue (mac_bytes mac ++ t)) (sym (append-nil (queue_bytes q)))
    ∙ read_queue-queue_bytes mac q [] h

append_3 :
    (q : DataQueue) (c : Collector) (rest : List DataQueue)
    → (append_queue q c).queue_list_3 ++ rest
      ≡ c.queue_list_3 ++ (if q.queue_id == 3 then q ∷ rest else rest)
unfolding append_queue
append_3 q c rest = elim (Bool-cases (q.queue_id == 3)) [
  | inl e ↦ rw e (append_assoc c.queue_list_3 (q ∷ []) rest)
  | inr e ↦ elim (Bool-cases (q.queue_id == 4294967295)) [
    | inl f ↦ rw (e, f) refl
    | inr f ↦ rw (e, f) refl
  ]
]

drops_keep : (r : DpPacket) (c : Collector) → (take_drops r c).queue_list_3 ≡ c.queue_list_3
unfolding take_drops
drops_keep r c = ground arith

module _ (decode_iw : List ℕ → Collector → Collector) where
  -- `decode_iw` leaves the queues alone.
  abbrev pub KeepsQueues : Type 0
  KeepsQueues = (buf : List ℕ) (c : Collector) → (decode_iw buf c).queue_list_3 ≡ c.queue_list_3

  handle_queues :
      KeepsQueues
      → (ms : List Message) (s : Collector × Counts) → QueuesAreValid ms
      → (handle_messages (decode decode_iw) ms s).0.queue_list_3 ≡ s.0.queue_list_3 ++ queues_3 ms
  unfolding handle_messages queues_3 decode decode_queue decode_drops decode_beacon decode_survey
      category body
  handle_queues k [] s h = sym (append-nil s.0.queue_list_3)
  handle_queues k (dq_t mac q ∷ ms) s h =
      handle_queues k ms (_, _) h.1
      ∙ ap (λ r. (append_queue r s.0).queue_list_3 ++ queues_3 ms) (read_back mac q h.0)
      ∙ append_3 q s.0 (queues_3 ms)
  handle_queues k (dp_t mac r ∷ ms) s h =
      handle_queues k ms (_, _) h
      ∙ ap (λ t. t ++ queues_3 ms) (drops_keep (read_drops (mac_bytes mac ++ drops_bytes r)) s.0)
  handle_queues k (di_t mac r ∷ ms) s h =
      handle_queues k ms (_, _) h ∙ ap (λ t. t ++ queues_3 ms) (k (mac_bytes mac ++ iw_bytes r) s.0)
  handle_queues k (db_t mac r ∷ ms) s h = handle_queues k ms (_, _) h
  handle_queues k (ds_t mac r ∷ ms) s h = handle_queues k ms (_, _) h

  -- The counters of queue 3 that an access point reports arrive: after the datagrams of any number
  -- of rounds are processed, the collector's list of queue 3 is what it was before, followed by the
  -- counters of queue 3 among the messages sent, in order, unchanged. The messages sent are those of
  -- the rounds but for a last part of at most 1024 bytes, which waits in the buffer. The members of
  -- the queues fit their types, and `decode_iw` reads only its own structure and leaves the queues alone.
  pub queues_arrive :
      KeepsQueues
      → ((own rest : List ℕ) (s : Collector)
          → length own ≡ size_of Category.iw + 6
          → decode_iw (own ++ rest) s ≡ decode_iw own s)
      → (c : Sender.Collector) (ds : List Drivers) (s : Collector × Counts) → c.out ≡ init
      → QueuesAreValid (run_messages c ds)
      → (sent waiting : List Message) × (t : Collector × Counts) × (sent ++ waiting
          ≡ run_messages c ds)
        × (length (flatten (map message_bytes waiting)) ≤ b_s)
        × (process_all (decode decode_iw) (map padded (run c ds).out.sent) s ≡ some t)
        × (t.0.queue_list_3 ≡ s.0.queue_list_3 ++ queues_3 sent)
  queues_arrive k own c ds s e v =
      let r = process_all-run (decode decode_iw) (decode_reads_own decode_iw own) c ds s e in
      (
        r.0,
        r.1,
        handle_messages (decode decode_iw) r.0 s,
        r.2,
        r.3,
        r.4,
        handle_queues k r.0 s (valid_prefix r.0 r.1 (subst QueuesAreValid (sym r.2) v)),
      )
