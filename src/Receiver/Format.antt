-- ===== src/Receiver/Format.antt =====
-- `format_data` of EXP/receive.c: the averages over the lists that the decoders fill, kept in order
-- of time, and looked up for each retransmission and each packet. `float` is a parameter. The code
-- stands three times in the source, for the queue 3, the other queue and the survey.
pub mod Order
pub mod Search
pub mod History
pub mod Gather
pub mod Round
use controller_project.Base.{
  ℕ, zero, suc, ◌+◌, ◌-◌, ◌*◌, ◌%◌, ◌^◌, List, [], ◌∷◌, ◌++◌, Bool, true, false, ◌&&◌, ◌||◌, Option,
  none, some, length, get_elem?, take, drop, ltb, leb, ◌==◌, if◌then◌else◌,
}
use controller_project.Records.{DataQueue, DataSurvey}
use controller_project.Receiver.Flows.{TimeStructure}
use controller_project.Sender.Report.{sub_bits, int_sub, int_div1000}

-- The operations on `float`: the conversion of an unsigned number, and the division.
pub record Floats (F : Type 0) : Type 0 where
  pub of_nat : ℕ → F
  pub over : F → F → F

-- What `struct data_queue_computed` and `struct data_survey_computed` hold behind their time.
pub record QueueRates (F : Type 0) : Type 0 where
  pub packets : F
  pub bytes : F
  pub qlen : F
  pub backlog : F
  pub drops : F
  pub requeues : F
  pub overlimits : F

pub record SurveyRates (F : Type 0) : Type 0 where
  pub time_busy : F
  pub time_ext_busy : F
  pub time_rx : F
  pub time_tx : F
  pub time_scan : F
  pub noise : ℕ

-- An element of one of the lists of computed values.
pub record Timed (D : Type 0) : Type 0 where
  pub sec : ℕ
  pub usec : ℕ
  pub value : D

-- `queue_p_buffer_3` with `queue_p_last_3`, and so on: the elements, and the place of the last one
-- among them, `none` when the element was freed. Both pointers are `NULL` when the list is empty.
pub record Buffer (D : Type 0) : Type 0 where
  pub items : List (Timed D)
  pub last : Option ℕ

abbrev pub no_buffer : {D : Type 0} → Buffer D
no_buffer = record { items = []; last = none }

-- `d1 * 1000 + d2 / 1000`, an `int` by its 32 bits.
unfoldable pub millis : DataQueue → DataQueue → ℕ
unfolding int_div1000
millis new last =
    (int_sub last.sec new.sec * 1000 + int_div1000 (int_sub last.usec new.usec)) % 2 ^ 32

-- `duration >= 900`. The conversion of an `int` to `float` keeps the order, and 900.
abbrev pub long : ℕ → Bool
long d = leb 900 d && ltb d (2 ^ 31)

-- What is done to one list of measurements: the element at its head is dropped when the last one is
-- at least 900 ms younger.
pub data Taken (A D : Type 0) : Type 0 where
  none_yet : List A → Taken A D
  computed : List A → Timed D → Taken A D
  -- A `NULL` dereference.
  crash : Taken A D

unfoldable pub last_of : {A : Type 0} → A → List A → A
last_of x [] = x
last_of x (y ∷ ys) = last_of y ys

module _ {F : Type 0} (fl : Floats F) where
  abbrev pub rate : ℕ → ℕ → F
  rate diff duration = fl.over (fl.of_nat diff) (fl.of_nat duration)

  -- `drops` is left 0.
  unfoldable pub compute_queue : DataQueue → DataQueue → ℕ → Timed (QueueRates F)
  compute_queue new last d = record {
    sec = last.sec;
    usec = last.usec;
    value = record {
      packets = rate (sub_bits 32 last.packets new.packets) d;
      bytes = rate (sub_bits 64 last.bytes new.bytes) d;
      qlen = fl.of_nat last.qlen;
      backlog = fl.of_nat last.backlog;
      drops = fl.of_nat 0;
      requeues = rate (sub_bits 32 last.requeues new.requeues) d;
      overlimits = rate (sub_bits 32 last.overlimits new.overlimits) d;
    };
  }

  unfoldable pub compute_survey : DataSurvey → DataSurvey → ℕ → Timed (SurveyRates F)
  compute_survey new last d = record {
    sec = last.sec;
    usec = last.usec;
    value = record {
      time_busy = rate (sub_bits 64 last.time_busy new.time_busy) d;
      time_ext_busy = rate (sub_bits 64 last.time_ext_busy new.time_ext_busy) d;
      time_rx = rate (sub_bits 64 last.time_rx new.time_rx) d;
      time_tx = rate (sub_bits 64 last.time_tx new.time_tx) d;
      time_scan = rate (sub_bits 64 last.time_scan new.time_scan) d;
      noise = last.noise;
    };
  }

  -- `stale` is the duration that the variables hold from before.
  unfoldable pub queue_duration : ℕ → List DataQueue → ℕ
  unfolding millis last_of
  queue_duration stale [] = stale
  queue_duration stale (new ∷ rest) = millis new (last_of new rest)

  unfoldable pub take_queue : ℕ → List DataQueue → Taken DataQueue (QueueRates F)
  unfolding compute_queue last_of millis
  take_queue stale [] = if long stale then Taken.crash else Taken.none_yet []
  take_queue stale (new ∷ rest) =
      let last = last_of new rest in
      let d = millis new last in
      if long d then Taken.computed rest (compute_queue new last d) else Taken.none_yet (new ∷ rest)

  unfoldable pub take_survey : ℕ → List DataSurvey → Taken DataSurvey (SurveyRates F)
  unfolding compute_survey last_of
  take_survey stale [] = if long stale then Taken.crash else Taken.none_yet []
  take_survey stale (new ∷ rest) =
      let last = last_of new rest in
      let d = sub_bits 64 last.time new.time in
      if leb 900 d
      then Taken.computed rest (compute_survey new last d)
      else Taken.none_yet (new ∷ rest)

module _ {D : Type 0} where
  -- `condition`: the element is not before the last one.
  unfoldable pub not_before : Timed D → Timed D → Bool
  not_before p x = ltb p.sec x.sec || ((x.sec == p.sec) && leb p.usec x.usec)

  -- Where the loop over the elements stops: at the first one of a later second.
  unfoldable pub position : ℕ → List (Timed D) → ℕ
  position sec [] = 0
  position sec (q ∷ qs) = let rest = position sec qs in if ltb sec q.sec then 0 else suc rest

  -- Behind the last element, which cuts off what stood behind it; or where the loop stopped, and
  -- nowhere when that is the head.
  unfoldable pub insert_after : List (Timed D) → ℕ → Timed D → Buffer D
  insert_after items l x = record { items = take (suc l) items ++ x ∷ []; last = some (suc l) }

  unfoldable pub insert_at : List (Timed D) → ℕ → ℕ → Timed D → Buffer D
  insert_at items l zero x = record { items = items; last = some l }
  insert_at items l (suc i) x = record {
    items = take (suc i) items ++ x ∷ drop (suc i) items;
    last = if leb (suc i) l then some (suc l) else some l;
  }

  -- `none` is a use of the freed last element.
  unfoldable pub insert : Buffer D → Timed D → Option (Buffer D)
  unfolding not_before position insert_after insert_at
  insert b x = elim b.items [
    | [] ↦ some (record { items = x ∷ []; last = some 0 })
    | q ∷ qs ↦ elim b.last [
      | none ↦ none
      | some l ↦ elim (get_elem? (q ∷ qs) l) [
        | none ↦ none
        | some p ↦
            if not_before p x
            then some (insert_after (q ∷ qs) l x)
            else some (insert_at (q ∷ qs) l (position x.sec (q ∷ qs)) x)
      ]
    ]
  ]

  -- `(tp.sec < q->sec) || ((tp.sec == q->sec) && (tp.usec <= q->usec))`
  unfoldable pub reached : TimeStructure → Timed D → Bool
  reached tp q = ltb tp.sec q.sec || ((tp.sec == q.sec) && leb tp.usec q.usec)

  -- `(tp.sec - q->sec) > 10`
  unfoldable pub old : TimeStructure → Timed D → Bool
  old tp q = ltb 10 ((tp.sec + 2 ^ 32 - q.sec) % 2 ^ 32)

  -- The element that the search stops at.
  unfoldable pub keep : TimeStructure → List (Timed D) → Option (Timed D)
  keep tp [] = none
  keep tp (q ∷ qs) = if reached tp q then some q else keep tp qs

  -- `q_wait_to_del`: the place of the last old element before it; `i` is that of the head.
  unfoldable pub wait_to_del : TimeStructure → List (Timed D) → ℕ → ℕ → ℕ
  wait_to_del tp [] i wait = wait
  wait_to_del tp (q ∷ qs) i wait =
      let deleted = wait_to_del tp qs (i + 1) i in
      let rest = wait_to_del tp qs (i + 1) wait in
      if reached tp q then wait else if old tp q then deleted else rest

  -- The elements before it are freed. Without one, nothing is, which deleting before the head is.
  unfoldable pub del_before : ℕ → Buffer D → Buffer D
  del_before k b = record {
    items = drop k b.items;
    last = elim b.last [ none ↦ none | some l ↦ if leb k l then some (l - k) else none ];
  }

  unfoldable pub look : TimeStructure → Buffer D → Buffer D
  unfolding wait_to_del del_before
  look tp b = del_before (wait_to_del tp b.items 0 0) b
