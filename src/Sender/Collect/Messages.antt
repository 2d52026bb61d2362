-- ===== src/Sender/Collect/Messages.antt =====
-- What a round of `get_information` (sendudp/sendudp.c) writes, as a list of messages.
use controller_project.Base.{
  ℕ, ◌+◌, ◌%◌, ◌≡◌, refl, ap, ap₂, subst, ◌∙◌, List, [], ◌∷◌, ◌++◌, map, ◌==◌, if◌then◌else◌,
  Bool-cases, inl, inr,
}
use controller_project.Records.{DpPacket, DataIw, DataSurvey, DataBeacon, DataQueue, Mac}
use controller_project.Sender.Buffer.{Out, write_2_public_buffer}
use controller_project.Sender.Buffer.Framing.{write_all}
use controller_project.Sender.Collect.{
  ApStates, Mark, Message, dp_t, di_t, dq_t, db_t, ds_t, message_bytes, Progress, Collector,
  Drivers, iw_time, survey_time, beacon_time, drop_time, write_new, write_list, queue_loop,
  compare_and_iwlist, compare_and_queue, compare_and_beacon, collect_stations, collect_beacons,
  close_slot, slot, get_information, run, queue_state,
}
use controller_project.Sender.Collect.Marks.{fresh, write_list-fresh}

-- The queues whose byte counter differs from the one that was reported last.
unfoldable pub changed : List DataQueue → List DataQueue → List DataQueue
changed [] pre = []
changed (q ∷ qs) [] = []
changed (q ∷ qs) (p ∷ ps) = if q.bytes == p.bytes then changed qs ps else q ∷ changed qs ps

unfoldable pub station_messages : Collector → List DataIw → DataSurvey → List Message
unfolding fresh
station_messages c [] s = []
station_messages c (r ∷ rs) s =
    map (ds_t c.mac_global) (fresh survey_time c.mark_survey (s ∷ []))
    ++ map (di_t c.mac_global) (fresh iw_time c.mark_iw (r ∷ rs))

unfoldable pub beacon_messages : Collector → List DataBeacon → List Message
unfolding fresh
beacon_messages c bs =
    if (c.control_beacon + 1) % 10000000 % 10 == 0
    then map (db_t c.mac_global) (fresh beacon_time c.mark_beacon bs)
    else []

-- The messages of a round: the survey and the stations, the drops of the driver, in every tenth
-- round the beacons, the queues that changed, the drops of the queues; of each the new ones.
unfoldable pub round_messages : Collector → Drivers → List Message
unfolding station_messages beacon_messages changed fresh
round_messages c d =
    station_messages c d.iwlist d.survey_linger
    ++ (map (dp_t c.mac_global) (fresh drop_time c.mark_drop_mac d.dp_mac)
        ++ (beacon_messages c d.beacons
            ++ (map (dq_t c.mac_global) (changed d.queue_global c.queue_previous)
                ++ map (dp_t c.mac_global) (fresh drop_time c.mark_drop_queue d.dp_que))))

unfoldable pub run_messages : Collector → List Drivers → List Message
unfolding round_messages
run_messages c [] = []
run_messages c (d ∷ ds) = round_messages c d ++ run_messages (get_information c d) ds

abbrev pub write_messages : Out → List Message → Out
write_messages o ms = write_all o (map message_bytes ms)

pub write_messages-append :
    (o : Out) (ms ns : List Message)
    → write_messages (write_messages o ms) ns ≡ write_messages o (ms ++ ns)
unfolding write_all
write_messages-append o [] ns = refl
write_messages-append o (m ∷ ms) ns =
    write_messages-append (write_2_public_buffer o (message_bytes m)) ms ns

map-map :
    {X : Type 0} (f : X → Message) (xs : List X)
    → map (λ x. message_bytes (f x)) xs ≡ map message_bytes (map f xs)
map-map f [] = refl
map-map f (x ∷ xs) = ap (λ t. message_bytes (f x) ∷ t) (map-map f xs)

list_out :
    {X : Type 0} (time_of : X → Mark) (f : X → Message) (xs : List X) (p : Progress)
    → (write_list time_of f xs p).out ≡ write_messages p.out (map f (fresh time_of p.mark xs))
list_out time_of f xs p =
    (write_list-fresh time_of f xs p).0 ∙ ap (write_all p.out) (map-map f (fresh time_of p.mark xs))

queue_out :
    (mac : Mac) (qs ps : List DataQueue) (o : Out) (xx : ApStates)
    → (queue_loop mac qs ps o xx).out ≡ write_messages o (map (dq_t mac) (changed qs ps))
unfolding queue_loop changed write_all
queue_out mac [] ps o xx = refl
queue_out mac (q ∷ qs) [] o xx = refl
queue_out mac (q ∷ qs) (p ∷ ps) o xx = elim (Bool-cases (q.bytes == p.bytes)) [
  | inl e ↦ rw e (queue_out mac qs ps o xx)
  | inr e ↦ rw e (
      queue_out mac qs ps (write_2_public_buffer o (message_bytes (dq_t mac q))) (queue_state q xx))
]

stations_out :
    (c : Collector) (rs : List DataIw) (s : DataSurvey)
    → (collect_stations c rs s).out ≡ write_messages c.out (station_messages c rs s)
unfolding collect_stations compare_and_iwlist station_messages write_all
stations_out c [] s = refl
stations_out c (r ∷ rs) s =
    let p : Progress = record { mark = c.mark_survey; out = c.out; drop_c = 0 } in
    let q : Progress = write_new survey_time (ds_t c.mac_global) s p in
    list_out iw_time (di_t c.mac_global) (r ∷ rs)
      (record { mark = c.mark_iw; out = q.out; drop_c = 0 })
    ∙ ap (λ o. write_messages o (map (di_t c.mac_global) (fresh iw_time c.mark_iw (r ∷ rs))))
        (list_out survey_time (ds_t c.mac_global) (s ∷ []) p)
    ∙ write_messages-append c.out
        (map (ds_t c.mac_global) (fresh survey_time c.mark_survey (s ∷ [])))
        (map (di_t c.mac_global) (fresh iw_time c.mark_iw (r ∷ rs)))

beacons_out :
    (c : Collector) (bs : List DataBeacon)
    → (collect_beacons c bs).out
      ≡ write_messages c.out (
          if c.control_beacon % 10 == 0
          then map (db_t c.mac_global) (fresh beacon_time c.mark_beacon bs)
          else [])
unfolding collect_beacons compare_and_beacon write_all fresh
beacons_out c [] = elim (Bool-cases (c.control_beacon % 10 == 0)) [ inl e ↦ rw e | inr e ↦ rw e ]
beacons_out c (b ∷ bs) = elim (Bool-cases (c.control_beacon % 10 == 0)) [
  | inl e ↦ rw e (
      list_out beacon_time (db_t c.mac_global) (b ∷ bs)
        (record { mark = c.mark_beacon; out = c.out; drop_c = 0 }))
  | inr e ↦ rw e
]

-- What the later parts of the round read of the state is not changed by the earlier ones.
pub record SameFields (c d : Collector) : Type 0 where
  pub mac : c.mac_global ≡ d.mac_global
  pub control : c.control_beacon ≡ d.control_beacon
  pub mark_drop_queue : c.mark_drop_queue ≡ d.mark_drop_queue
  pub mark_drop_mac : c.mark_drop_mac ≡ d.mark_drop_mac
  pub mark_beacon : c.mark_beacon ≡ d.mark_beacon
  pub previous : c.queue_previous ≡ d.queue_previous

pub stations_keep :
    (c : Collector) (rs : List DataIw) (s : DataSurvey) → SameFields (collect_stations c rs s) c
unfolding collect_stations compare_and_iwlist
stations_keep c [] s = record {
  mac = refl;
  control = refl;
  mark_drop_queue = refl;
  mark_drop_mac = refl;
  mark_beacon = refl;
  previous = refl;
}
stations_keep c (r ∷ rs) s = record {
  mac = refl;
  control = refl;
  mark_drop_queue = refl;
  mark_drop_mac = refl;
  mark_beacon = refl;
  previous = refl;
}

pub record SameQueues (c d : Collector) : Type 0 where
  pub mac : c.mac_global ≡ d.mac_global
  pub mark_drop_queue : c.mark_drop_queue ≡ d.mark_drop_queue
  pub previous : c.queue_previous ≡ d.queue_previous

pub beacons_keep : (c : Collector) (bs : List DataBeacon) → SameQueues (collect_beacons c bs) c
unfolding collect_beacons compare_and_beacon
beacons_keep c [] = record { mac = refl; mark_drop_queue = refl; previous = refl }
beacons_keep c (b ∷ bs) = elim (Bool-cases (c.control_beacon % 10 == 0)) [
  | inl e ↦ rw e (record { mac = refl; mark_drop_queue = refl; previous = refl })
  | inr e ↦ rw e (record { mac = refl; mark_drop_queue = refl; previous = refl })
]

chain_out :
    (o : Out) (ms ns : List Message) {p q : Out}
    → p ≡ write_messages o ms
    → q ≡ write_messages p ns
    → q ≡ write_messages o (ms ++ ns)
chain_out o ms ns e f = f ∙ ap (λ t. write_messages t ns) e ∙ write_messages-append o ms ns

drops_out :
    (mac : Mac) (xs : List DpPacket) (m n : Mark) (o : Out) (count : ℕ)
    → m ≡ n
    → (write_list drop_time (dp_t mac) xs (record { mark = m; out = o; drop_c = count })).out
      ≡ write_messages o (map (dp_t mac) (fresh drop_time n xs))
drops_out mac xs m n o count e =
    list_out drop_time (dp_t mac) xs (record { mark = m; out = o; drop_c = count })
    ∙ ap (λ t. write_messages o (map (dp_t mac) (fresh drop_time t xs))) e

queues_out :
    (c d : Collector) (qs : List DataQueue)
    → c.mac_global ≡ d.mac_global
    → c.queue_previous ≡ d.queue_previous
    → (compare_and_queue c qs).out
      ≡ write_messages c.out (map (dq_t d.mac_global) (changed qs d.queue_previous))
unfolding compare_and_queue
queues_out c d qs e f =
    queue_out c.mac_global qs c.queue_previous c.out (slot c)
    ∙ ap₂ (λ m ps. write_messages c.out (map (dq_t m) (changed qs ps))) e f

beacons_at :
    (c b : Collector) (bs : List DataBeacon)
    → c.mac_global ≡ b.mac_global
    → c.mark_beacon ≡ b.mark_beacon
    → c.control_beacon ≡ (b.control_beacon + 1) % 10000000
    → (collect_beacons c bs).out ≡ write_messages c.out (beacon_messages b bs)
unfolding beacon_messages
beacons_at c b bs e f g =
    subst
      (λ n.
        (collect_beacons c bs).out
        ≡ write_messages c.out (
            if n % 10 == 0
            then map (db_t b.mac_global) (fresh beacon_time b.mark_beacon bs)
            else []))
      g
      (beacons_out c bs
        ∙ ap₂
            (λ m k.
              write_messages c.out
                (if c.control_beacon % 10 == 0 then map (db_t m) (fresh beacon_time k bs) else []))
            e f)

station_messages_eq :
    (c : Collector) (n : ℕ) (rs : List DataIw) (s : DataSurvey)
    → station_messages (record c { control_beacon = n }) rs s ≡ station_messages c rs s
unfolding station_messages
station_messages_eq c n [] s = refl
station_messages_eq c n (r ∷ rs) s = refl

-- A round of `get_information` writes exactly the messages of `round_messages`, in that order.
pub get_information-round_messages :
    (c : Collector) (d : Drivers)
    → (get_information c d).out ≡ write_messages c.out (round_messages c d)
unfolding get_information compare_and_queue close_slot round_messages beacon_messages
get_information-round_messages c d =
    let c1 : Collector = record c { control_beacon = (c.control_beacon + 1) % 10000000 } in
    let c2 = collect_stations c1 d.iwlist d.survey_linger in
    let k = stations_keep c1 d.iwlist d.survey_linger in
    let m =
      write_list drop_time (dp_t c.mac_global) d.dp_mac
        (record { mark = c2.mark_drop_mac; out = c2.out; drop_c = 0 }) in
    let c3 : Collector = record c2 { out = m.out; mark_drop_mac = m.mark } in
    let c4 = collect_beacons c3 d.beacons in
    let l = beacons_keep c3 d.beacons in
    let c5 = compare_and_queue c4 d.queue_global in
    chain_out c.out (station_messages c d.iwlist d.survey_linger) _
      (stations_out c1 d.iwlist d.survey_linger
        ∙ ap (write_messages c.out)
            (station_messages_eq c c1.control_beacon d.iwlist d.survey_linger))
      (chain_out c2.out _ _
        (drops_out c.mac_global d.dp_mac c2.mark_drop_mac c.mark_drop_mac c2.out 0 k.mark_drop_mac)
        (chain_out c3.out (beacon_messages c d.beacons) _
          (beacons_at c3 c d.beacons k.mac k.mark_beacon k.control)
          (chain_out c4.out _ _
            (queues_out c4 c d.queue_global (l.mac ∙ k.mac) (l.previous ∙ k.previous))
            (drops_out c.mac_global d.dp_que c5.mark_drop_queue c.mark_drop_queue c5.out m.drop_c
              (l.mark_drop_queue ∙ k.mark_drop_queue)))))

-- Over any number of rounds `get_information` writes exactly the messages of the rounds: of each
-- round the survey and the stations, the drops of the driver, in every tenth round the beacons, the
-- queues whose byte counter changed and the drops of the queues, of each the new ones, in that order.
pub run-run_messages :
    (c : Collector) (ds : List Drivers) → (run c ds).out ≡ write_messages c.out (run_messages c ds)
unfolding run run_messages write_all
run-run_messages c [] = refl
run-run_messages c (d ∷ ds) =
    chain_out c.out (round_messages c d) (run_messages (get_information c d) ds)
      (get_information-round_messages c d) (run-run_messages (get_information c d) ds)
