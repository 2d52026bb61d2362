-- ===== src/Receiver/Format/Round.antt =====
-- One turn of the loop of `format_data` (EXP/receive.c). The number of stations, the head of
-- `station_lists`, is an argument, and so is what the stack holds in the variables that keep the
-- values found. Writing a line is an element of the result; a new file every 50000 lines is left out.
pub mod Ends
use controller_project.Base.{
  ℕ, zero, suc, ◌+◌, ◌-◌, ◌*◌, ◌%◌, ◌^◌, List, [], ◌∷◌, ◌++◌, Bool, true, false, ◌&&◌, ◌||◌, not,
  Option, none, some, get_elem?, ltb, leb, ◌==◌, if◌then◌else◌,
}
use controller_project.Receiver.Flows.{TimeStructure, Times, thundred}
use controller_project.Receiver.Decode.{Collector, StationList}
use controller_project.Sender.Report.{int_sub}
use controller_project.Receiver.Format.Gather.{Local, is_null, gather}
use controller_project.Receiver.Format.{Floats, QueueRates, SurveyRates, Timed, Buffer, keep, look}

-- `s_keep`, `q_keep_3` and `q_keep_f`.
pub record Keeps (F : Type 0) : Type 0 where
  pub s_keep : Timed (SurveyRates F)
  pub q_keep_3 : Timed (QueueRates F)
  pub q_keep_f : Timed (QueueRates F)

-- A line of the file.
pub record Row (F : Type 0) : Type 0 where
  pub drop : ℕ
  pub drop_count : ℕ
  pub neibours : ℕ
  pub stations : ℕ
  pub keeps : Keeps F

-- Where the loop over the times of packets ends: `time_tp` holds the last time that was read.
pub record Ended (F : Type 0) : Type 0 where
  pub local : Local F
  pub rows : List (Row F)
  pub time_tp : TimeStructure

pub record Turn (F : Type 0) : Type 0 where
  pub collector : Collector
  pub local : Local F
  pub rows : List (Row F)

-- The second of the last element; `none` when it was freed.
unfoldable pub last_sec : {D : Type 0} → Buffer D → Option ℕ
last_sec b = elim b.last [
  | none ↦ none
  | some l ↦ elim (get_elem? b.items l) [ none ↦ none | some p ↦ some p.sec ]
]

unfoldable pub head_count : List StationList → ℕ
head_count [] = 0
head_count (t ∷ ts) = t.count

unfoldable pub or_stack : {D : Type 0} → Option D → D → D
or_stack none d = d
or_stack (some q) d = q

-- `duration < 0`, of an `int` by its 32 bits.
unfoldable pub negative : TimeStructure → TimeStructure → Bool
negative tmp1 tmp =
    leb (2 ^ 31) ((int_sub tmp1.sec tmp.sec + int_sub tmp1.usec tmp.usec * 1000000) % 2 ^ 32)

-- The times that wait. Behind the end of the ring the comparison is the operand of the
-- assignment, so that the number is 0 or 1.
unfoldable pub amount : ℕ → ℕ → ℕ
amount head tail =
    if ltb tail head then head - tail else if ltb (tail + thundred) head then 1 else 0

-- `while ((duration < 0) && amount > 0)`
unfoldable pub skip_times : Collector → ℕ → TimeStructure → ℕ → ℕ → ℕ × ℕ
unfolding negative amount
skip_times c zero tmp tail n = (tail, n)
skip_times c (suc fuel) tmp tail n =
    let next = (tail + 1) % thundred in
    let more = skip_times c fuel tmp next (amount c.winsize_times.head next) in
    if negative (c.winsize_times.times tail) tmp && ltb 0 n then more else (tail, n)

module _ {F : Type 0} where
  unfoldable pub delete_old : TimeStructure → Local F → Local F
  unfolding look
  delete_old tp s = record s {
    queue_3 = look tp s.queue_3;
    queue_f = look tp s.queue_f;
    survey = look tp s.survey;
  }

  -- `(s_keep.sec != 0) && (q_keep_3.sec != 0)`
  abbrev pub complete : Keeps F → Bool
  complete k = not (k.s_keep.sec == 0) && not (k.q_keep_3.sec == 0)

  abbrev pub missing : Local F → Bool
  missing s = is_null s.queue_3.items || is_null s.survey.items || is_null s.queue_f.items

  -- `tmp`: the earlier one of the two times found.
  unfoldable pub earlier : Keeps F → TimeStructure
  earlier k =
      let s : TimeStructure = record { sec = k.s_keep.sec; usec = k.s_keep.usec } in
      let q : TimeStructure = record { sec = k.q_keep_3.sec; usec = k.q_keep_3.usec } in
      if ltb q.sec s.sec
      then q
      else if s.sec == q.sec
      then (if ltb q.usec s.usec then q else s)
      else s

  -- Whether a time lies before the last computed values; `none` is a use of a freed one.
  unfoldable pub ready : TimeStructure → Local F → Option Bool
  unfolding last_sec
  ready tp s = elim (last_sec s.queue_3) [
    | none ↦ none
    | some q ↦ elim (last_sec s.survey) [
      | none ↦ none
      | some v ↦ some (ltb tp.sec q && ltb tp.sec v)
    ]
  ]

module _ {F : Type 0} (stations drop : ℕ) (stack : Keeps F) (c : Collector) where
  -- The three searches. `stack` is what the uninitialized `keeps` hold, in each round anew.
  unfoldable pub look_up : TimeStructure → Local F → Keeps F
  unfolding keep or_stack
  look_up tp s = record {
    s_keep = or_stack (keep tp s.survey.items) stack.s_keep;
    q_keep_3 = or_stack (keep tp s.queue_3.items) stack.q_keep_3;
    q_keep_f = or_stack (keep tp s.queue_f.items) stack.q_keep_f;
  }

  unfoldable pub line : Keeps F → List (Row F)
  unfolding head_count
  line k =
      if complete k
      then record {
        drop = drop;
        drop_count = c.drop_count;
        neibours = head_count c.neibour_lists;
        stations = stations;
        keeps = k;
      }
        ∷ []
      else []

  -- The block behind `if (time_tp.sec)` at the end of a turn.
  unfoldable pub report_time : TimeStructure → Local F → Local F × List (Row F)
  unfolding look_up delete_old line is_null
  report_time tp s = if missing s then (s, []) else (delete_old tp s, line (look_up tp s))

  -- The body of the loop behind the check: the lines, and the times skipped.
  unfoldable pub report_packet : TimeStructure → Local F → ℕ → Local F × ℕ × List (Row F)
  unfolding look_up delete_old line skip_times earlier is_null
  report_packet tp s n =
      let k = look_up tp s in
      let s' = delete_old tp s in
      let (tail, left) = skip_times c n (earlier k) s.winsize_tail n in
      if (tp.sec == 0) || missing s
      then (s, n, [])
      else if complete k
      then (record s' { winsize_tail = tail }, left, line k)
      else (s', n, [])

  -- `while (amount > 0)`. The head of the ring is that of `c` in all rounds: between two rounds the
  -- source gives up `mutex_rdata`, and a time that is added then is not part of the model.
  unfoldable pub packets_loop : ℕ → ℕ → TimeStructure → Local F → Option (Ended F)
  unfolding ready report_packet
  packets_loop zero n tp s = some (record { local = s; rows = []; time_tp = tp })
  packets_loop (suc fuel) n tp s =
      let next = c.winsize_times.times s.winsize_tail in
      let advanced = record s { winsize_tail = (s.winsize_tail + 1) % thundred } in
      let (s', left, rows) = report_packet next advanced (n - 1) in
      let rest = packets_loop fuel left next s' in
      if n == 0 then some (record { local = s; rows = []; time_tp = tp }) else elim (ready next s) [
        | none ↦ none
        | some false ↦ some (record { local = s; rows = []; time_tp = next })
        | some true ↦ elim rest [ none ↦ none | some e ↦ some (record e { rows = rows ++ e.rows }) ]
      ]

abbrev pub no_time : TimeStructure
no_time = record { sec = 0; usec = 0 }

module _ {F : Type 0} (c : Collector) where
  -- The next retransmission: its time, `drop`, and the new tail.
  unfoldable pub next_retrans : Local F → Option (TimeStructure × ℕ × Local F)
  unfolding ready
  next_retrans s =
      let tp = c.flows.retrans.times s.retrans_tail in
      if ltb s.retrans_tail c.flows.retrans.head
      then elim (ready tp s) [
        | none ↦ none
        | some true ↦ some (tp, 1, record s { retrans_tail = (s.retrans_tail + 1) % thundred })
        | some false ↦ some (no_time, 0, s)
      ]
      else some (no_time, 0, s)

  -- The packets are looked at when there is no retransmission.
  unfoldable pub packets : ℕ → Keeps F → ℕ → TimeStructure → Local F → Option (Ended F)
  unfolding packets_loop amount
  packets stations stack drop tp s =
      let n = amount c.winsize_times.head s.winsize_tail in
      if tp.sec == 0
      then packets_loop stations drop stack c n n tp s
      else some (record { local = s; rows = []; time_tp = tp })

  -- The time that the loop over the packets ended with is reported, once more or too early.
  unfoldable pub finish : ℕ → Keeps F → ℕ → Ended F → Turn F
  unfolding report_time
  finish stations stack drop e =
      let (s, rows) = report_time stations drop stack c e.time_tp e.local in
      if e.time_tp.sec == 0
      then record { collector = c; local = e.local; rows = e.rows }
      else record { collector = c; local = s; rows = e.rows ++ rows }

  unfoldable pub report_turn : ℕ → Keeps F → Local F → Option (Turn F)
  unfolding next_retrans packets finish is_null
  report_turn stations stack s =
      if is_null s.survey.items || is_null s.queue_3.items
      then some (record { collector = c; local = s; rows = [] })
      else elim (next_retrans s) [
        | none ↦ none
        | some (tp, drop, s1) ↦ elim (packets stations stack drop tp s1) [
          | none ↦ none
          | some e ↦ some (finish stations stack drop e)
        ]
      ]

-- A turn of `while (1)`.
unfoldable pub format_turn :
    {F : Type 0} → Floats F → ℕ → Keeps F → Collector → Local F → Option (Turn F)
unfolding gather report_turn
format_turn fl stations stack c s = elim (gather fl c s) [
  | none ↦ none
  | some (c', s') ↦ report_turn c' stations stack s'
]
