-- ===== src/Sender/Collect/Rounds.antt =====
-- What a round of `get_information` (sendudp/sendudp.c) leaves in `apstates_global`.
use controller_project.Base.{
  ℕ, ◌+◌, ◌%◌, ◌≡◌, refl, ap, ap₂, ◌∙◌, List, [], ◌∷◌, ◌++◌, length, ◌==◌, Bool-cases, inl, inr,
  arith,
}
use controller_project.Records.{Mac, DpPacket, DataIw, DataSurvey, DataBeacon, DataQueue}
use controller_project.Sender.Buffer.{Out, write_2_public_buffer}
use controller_project.Sender.Collect.{
  ApStates, Mark, message_bytes, dp_t, dq_t, Collector, Drivers, drop_time, write_list, queue_state,
  queue_loop, compare_and_iwlist, compare_and_queue, compare_and_beacon, collect_stations,
  collect_beacons, close_slot, slot, get_information,
}
use controller_project.Sender.Collect.Ring.{
  recent, IsValid, trim, Filled, Filled-put, close-IsValid, close_ring,
}
use controller_project.Sender.Collect.Marks.{fresh, write_list-fresh}
use controller_project.Sender.Collect.Messages.{changed, stations_keep, beacons_keep}

-- What a round makes of the slot it finds.
unfoldable pub survey_state : List DataIw → DataSurvey → ApStates → ApStates
survey_state [] s a = a
survey_state (r ∷ rs) s a = record a {
  time = s.time;
  time_busy = s.time_busy;
  time_ext_busy = s.time_ext_busy;
  time_rx = s.time_rx;
  time_tx = s.time_tx;
  time_scan = s.time_scan;
  noise = s.noise;
  sec = s.sec;
  usec = s.usec;
  stations = length (r ∷ rs) % 256;
}

unfoldable pub queue_states : List DataQueue → ApStates → ApStates
unfolding queue_state
queue_states [] a = a
queue_states (q ∷ qs) a = queue_states qs (queue_state q a)

unfoldable pub round_state : Collector → Drivers → ApStates
unfolding survey_state queue_states changed fresh
round_state c d =
    record (queue_states (changed d.queue_global c.queue_previous)
      (survey_state d.iwlist d.survey_linger (slot c))) {
        drop_count =
            length (fresh drop_time c.mark_drop_mac d.dp_mac)
            + length (fresh drop_time c.mark_drop_queue d.dp_que);
      }

Filled-stations :
    (c : Collector) (rs : List DataIw) (s : DataSurvey)
    → Filled c (collect_stations c rs s) (survey_state rs s (slot c))
unfolding collect_stations compare_and_iwlist survey_state
Filled-stations c [] s = record { head = refl; tail = refl; here = refl; others = λ i n. refl }
Filled-stations c (r ∷ rs) s = record {
  head = refl;
  tail = refl;
  here = ground arith;
  others = λ i n. ground arith;
}

Filled-beacons :
    {c d : Collector} (a : ApStates) (bs : List DataBeacon)
    → Filled c d a
    → Filled c (collect_beacons d bs) a
unfolding collect_beacons compare_and_beacon
Filled-beacons a [] f = f
Filled-beacons {c} {d} a (b ∷ bs) f = elim (Bool-cases (d.control_beacon % 10 == 0)) [
  | inl e ↦ rw e (record { head = f.head; tail = f.tail; here = f.here; others = f.others })
  | inr e ↦ rw e f
]

loop-queue_states :
    (mac : Mac) (qs ps : List DataQueue) (o : Out) (xx : ApStates)
    → (queue_loop mac qs ps o xx).xx ≡ queue_states (changed qs ps) xx
unfolding queue_loop changed queue_states
loop-queue_states mac [] ps o xx = refl
loop-queue_states mac (q ∷ qs) [] o xx = refl
loop-queue_states mac (q ∷ qs) (p ∷ ps) o xx = elim (Bool-cases (q.bytes == p.bytes)) [
  | inl e ↦ rw e (loop-queue_states mac qs ps o xx)
  | inr e ↦ rw e (
      loop-queue_states mac qs ps (write_2_public_buffer o (message_bytes (dq_t mac q)))
        (queue_state q xx))
]

Filled-queues :
    {c d : Collector} (a : ApStates) (qs : List DataQueue)
    → Filled c d a
    → d.queue_previous ≡ c.queue_previous
    → Filled c (compare_and_queue d qs) (queue_states (changed qs c.queue_previous) a)
unfolding compare_and_queue
Filled-queues {c} {d} a qs f e =
    let r = queue_loop d.mac_global qs d.queue_previous d.out (slot d) in
    let here : slot d ≡ a = ap d.apstates_global f.head ∙ f.here in
    let xx : r.xx ≡ queue_states (changed qs c.queue_previous) a =
      loop-queue_states d.mac_global qs d.queue_previous d.out (slot d)
      ∙ ap₂ (λ ps b. queue_states (changed qs ps) b) e here in
    let g = Filled-put c d a r.xx f in
    record { head = g.head; tail = g.tail; here = g.here ∙ xx; others = g.others }

drops_count :
    (mac : Mac) (xs : List DpPacket) (m n : Mark) (o : Out) (count : ℕ)
    → m ≡ n
    → (write_list drop_time (dp_t mac) xs (record { mark = m; out = o; drop_c = count })).drop_c
      ≡ count + length (fresh drop_time n xs)
drops_count mac xs m n o count e =
    (write_list-fresh drop_time (dp_t mac) xs (record { mark = m; out = o; drop_c = count })).1
    ∙ ap (λ t. count + length (fresh drop_time t xs)) e

-- The ring before the round is closed.
Filled-round :
    (c : Collector) (d : Drivers)
    → (e : Collector) × (n : ℕ) × Filled c e (
        queue_states
          (changed d.queue_global c.queue_previous)
          (survey_state d.iwlist d.survey_linger (slot c)))
      × (n
          ≡ length (fresh drop_time c.mark_drop_mac d.dp_mac)
            + length (fresh drop_time c.mark_drop_queue d.dp_que))
      × (get_information c d ≡ close_slot e n)
unfolding get_information compare_and_queue
Filled-round c d =
    let c1 : Collector = record c { control_beacon = (c.control_beacon + 1) % 10000000 } in
    let c2 = collect_stations c1 d.iwlist d.survey_linger in
    let k = stations_keep c1 d.iwlist d.survey_linger in
    let m =
      write_list drop_time (dp_t c.mac_global) d.dp_mac
        (record { mark = c2.mark_drop_mac; out = c2.out; drop_c = 0 }) in
    let c3 : Collector = record c2 { out = m.out; mark_drop_mac = m.mark } in
    let l = beacons_keep c3 d.beacons in
    let c4 = compare_and_queue (collect_beacons c3 d.beacons) d.queue_global in
    let q =
      write_list drop_time (dp_t c.mac_global) d.dp_que
        (record { mark = c4.mark_drop_queue; out = c4.out; drop_c = m.drop_c }) in
    let f2 = Filled-stations c1 d.iwlist d.survey_linger in
    let f3 : Filled c c3 (survey_state d.iwlist d.survey_linger (slot c)) = record {
      head = f2.head;
      tail = f2.tail;
      here = f2.here;
      others = f2.others;
    } in
    let f4 =
      Filled-queues (survey_state d.iwlist d.survey_linger (slot c)) d.queue_global
        (Filled-beacons (survey_state d.iwlist d.survey_linger (slot c)) d.beacons f3)
        (l.previous ∙ k.previous) in
    let mac_count =
      drops_count c.mac_global d.dp_mac c2.mark_drop_mac c.mark_drop_mac c2.out 0 k.mark_drop_mac in
    let queue_count =
      drops_count c.mac_global d.dp_que c4.mark_drop_queue c.mark_drop_queue c4.out m.drop_c
        (l.mark_drop_queue ∙ k.mark_drop_queue) in
    (
      record c4 { out = q.out; mark_drop_queue = q.mark },
      q.drop_c,
      record { head = f4.head; tail = f4.tail; here = f4.here; others = f4.others },
      omega (arith, mac_count, queue_count),
      refl,
    )

-- The ring of states is a queue of the last 249 rounds: each round appends its state, the slot
-- found at the head overwritten with the survey, the counters of the queues that changed and the
-- number of new drops, and once 249 are held the oldest leaves.
pub get_information_ring :
    (c : Collector) (d : Drivers)
    → IsValid c
    → IsValid (get_information c d)
      × (recent (get_information c d) ≡ trim (recent c ++ round_state c d ∷ []))
unfolding round_state
get_information_ring c d v =
    let r = Filled-round c d in
    let a =
      queue_states (changed d.queue_global c.queue_previous)
        (survey_state d.iwlist d.survey_linger (slot c)) in
    let count : record a { drop_count = r.1 } ≡ round_state c d =
      ap (λ k. record a { drop_count = k }) r.3 in
    (
      rw (r.4) (close-IsValid c r.0 r.1 v r.2.tail),
      rw (r.4) (close_ring c r.0 a r.1 v r.2 ∙ ap (λ b. trim (recent c ++ b ∷ [])) count),
    )
