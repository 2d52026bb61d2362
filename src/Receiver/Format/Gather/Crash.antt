-- ===== src/Receiver/Format/Gather/Crash.antt =====
-- The first half of a turn of `format_data` (EXP/receive.c): when it crashes, and what it keeps.
use controller_project.Base.{
  ℕ, ◌≡◌, refl, List, [], ◌∷◌, ◌⊎◌, inl, inr, Bool, true, false, ◌&&◌, ◌||◌, Option, none, some,
  if◌then◌else◌, leb, arith,
}
use controller_project.Records.{DataQueue, DataSurvey}
use controller_project.Receiver.Decode.{Collector}
use controller_project.Sender.Report.{sub_bits}
use controller_project.Receiver.Format.{
  Floats, Timed, Buffer, none_yet, computed, crash, long, queue_duration, take_queue, take_survey,
  insert, last_of, millis, compute_queue, compute_survey, QueueRates, SurveyRates,
}
use controller_project.Receiver.Format.Order.{Inv, insert-Inv, insert_nil}
use controller_project.Receiver.Format.Gather.{
  Local, absorb, is_null, gather_3, gather_f, gather_survey, gather,
}

-- A list of computed values that is empty, or in order with its last element in place.
pub data Sound {D : Type 0} (b : Buffer D) : Type 0 where
  unused : b.items ≡ [] → Sound b
  in_use : Inv b → Sound b

abbrev pub SoundLocal : {F : Type 0} → Local F → Type 0
SoundLocal s = Sound s.queue_3 × Sound s.queue_f × Sound s.survey

abbrev Absorbed : {A D : Type 0} → Option (List A × Buffer D) → Type 0
Absorbed {A = A} {D = D} o = (l : List A) × (b : Buffer D) × (o ≡ some (l, b)) × Sound b

insert_empty :
    {D : Type 0} (items : List (Timed D)) (last : Option ℕ) (x : Timed D)
    → items ≡ []
    → insert (record { items = items; last = last }) x
      ≡ some (record { items = x ∷ []; last = some 0 })
insert_empty items last x e = rw e (insert_nil last x)

insert-Sound :
    {D : Type 0} (b : Buffer D) (x : Timed D)
    → Sound b
    → (c : Buffer D) × (insert b x ≡ some c) × Inv c
insert-Sound b x (unused e) = (
  record { items = x ∷ []; last = some 0 },
  insert_empty b.items b.last x e,
  record { ordered = (omega arith, tt); l = 0; last = refl; inside = omega arith },
)
insert-Sound b x (in_use v) = insert-Inv b x v

absorb_computed :
    {A D : Type 0} (l : List A) (x : Timed D) (b c : Buffer D)
    → insert b x ≡ some c
    → absorb (computed l x) b ≡ some (l, c)
unfolding absorb
absorb_computed l x b c e = rw (absorb, e) refl

-- A list is dealt with, or the `NULL` pointer of an empty one is followed.
abbrev Outcome : {A D : Type 0} → Bool → Option (List A × Buffer D) → Type 0
Outcome crashes o = ((crashes ≡ true) × (o ≡ none)) ⊎ ((crashes ≡ false) × Absorbed o)

absorb_none_yet :
    {A D : Type 0} (l : List A) (b : Buffer D) → Sound b → Absorbed (absorb (none_yet l) b)
absorb_none_yet l b s = (l, b, (unfold absorb in refl), s)

absorb-Sound :
    {A D : Type 0} (l : List A) (x : Timed D) (b : Buffer D)
    → Sound b
    → Absorbed (absorb (computed l x) b)
absorb-Sound l x b s =
    let (c, e, v) = insert-Sound b x s in (l, c, absorb_computed l x b c e, in_use v)

-- An empty list, with a duration of 900 ms or more left over or without.
absorb_null :
    {A D : Type 0} (long_stale : Bool) (b : Buffer D)
    → Sound b
    → Outcome {A = A} long_stale (absorb (if long_stale then crash else none_yet []) b)
absorb_null true b s = inl (refl, (unfold absorb in refl))
absorb_null false b s = inr (refl, absorb_none_yet [] b s)

-- A list with elements.
absorb_filled :
    {A D : Type 0} (ready : Bool) (rest list : List A) (x : Timed D) (b : Buffer D)
    → Sound b
    → Outcome false (absorb (if ready then computed rest x else none_yet list) b)
absorb_filled true rest list x b s = inr (refl, absorb-Sound rest x b s)
absorb_filled false rest list x b s = inr (refl, absorb_none_yet list b s)

module _ {F : Type 0} (fl : Floats F) where
  queue_Outcome :
      (stale : ℕ) (l : List DataQueue) (b : Buffer (QueueRates F))
      → Sound b
      → Outcome (is_null l && long stale) (absorb (take_queue fl stale l) b)
  unfolding take_queue is_null
  queue_Outcome stale [] b s = absorb_null (long stale) b s
  queue_Outcome stale (q ∷ qs) b s =
      let last = last_of q qs in
      let d = millis q last in absorb_filled (long d) qs (q ∷ qs) (compute_queue fl q last d) b s

  survey_Outcome :
      (stale : ℕ) (l : List DataSurvey) (b : Buffer (SurveyRates F))
      → Sound b
      → Outcome (is_null l && long stale) (absorb (take_survey fl stale l) b)
  unfolding take_survey is_null
  survey_Outcome stale [] b s = absorb_null (long stale) b s
  survey_Outcome stale (q ∷ qs) b s =
      let last = last_of q qs in
      let d = sub_bits 64 last.time q.time in
      absorb_filled (leb 900 d) qs (q ∷ qs) (compute_survey fl q last d) b s

  -- The collector and the variables, or a crash.
  abbrev pub Gathered : Bool → Option (Collector × Local F) → Type 0
  Gathered crashes o =
      ((crashes ≡ true) × (o ≡ none))
      ⊎ ((crashes ≡ false) × (c : Collector) × (s : Local F) × (o ≡ some (c, s)) × SoundLocal s)

  gather_3-some :
      (c : Collector) (s : Local F) (l : List DataQueue) (b : Buffer (QueueRates F))
      → absorb (take_queue fl 0 c.queue_list_3) s.queue_3 ≡ some (l, b)
      → gather_3 fl c s ≡ some (record c { queue_list_3 = l }, record s { queue_3 = b })
  unfolding gather_3
  gather_3-some c s l b e = rw (gather_3, e) refl

  gather_f-some :
      (stale : ℕ) (c : Collector) (s : Local F) (l : List DataQueue) (b : Buffer (QueueRates F))
      → absorb (take_queue fl stale c.queue_list_f) s.queue_f ≡ some (l, b)
      → gather_f fl stale c s ≡ some (record c { queue_list_f = l }, record s { queue_f = b })
  unfolding gather_f
  gather_f-some stale c s l b e = rw (gather_f, e) refl

  gather_f-none :
      (stale : ℕ) (c : Collector) (s : Local F)
      → absorb (take_queue fl stale c.queue_list_f) s.queue_f ≡ none
      → gather_f fl stale c s ≡ none
  unfolding gather_f
  gather_f-none stale c s e = rw (gather_f, e) refl

  survey_some :
      (stale : ℕ) (c : Collector) (s : Local F) (l : List DataSurvey) (b : Buffer (SurveyRates F))
      → absorb (take_survey fl stale c.survey_list) s.survey ≡ some (l, b)
      → gather_survey fl stale c s ≡ some (record c { survey_list = l }, record s { survey = b })
  unfolding gather_survey
  survey_some stale c s l b e = rw (gather_survey, e) refl

  survey_none :
      (stale : ℕ) (c : Collector) (s : Local F)
      → absorb (take_survey fl stale c.survey_list) s.survey ≡ none
      → gather_survey fl stale c s ≡ none
  unfolding gather_survey
  survey_none stale c s e = rw (gather_survey, e) refl

  -- The duration that the queue `f` leaves behind.
  abbrev pub left_3 : Collector → ℕ
  left_3 c = queue_duration fl 0 c.queue_list_3

  abbrev pub left_f : Collector → ℕ
  left_f c = queue_duration fl (left_3 c) c.queue_list_f

  stop_f :
      (c c3 : Collector) (s s3 : Local F)
      → gather_3 fl c s ≡ some (c3, s3)
      → gather_f fl (left_3 c) c3 s3 ≡ none
      → gather fl c s ≡ none
  unfolding gather
  stop_f c c3 s s3 e f = rw (gather, e, f) refl

  go_on :
      (c c3 cf : Collector) (s s3 sf : Local F)
      → gather_3 fl c s ≡ some (c3, s3)
      → gather_f fl (left_3 c) c3 s3 ≡ some (cf, sf)
      → gather fl c s ≡ gather_survey fl (left_f c) cf sf
  unfolding gather
  go_on c c3 cf s s3 sf e f = rw (gather, e, f) refl

  -- Whether the `NULL` pointer of an empty list is followed.
  abbrev pub null_read : Collector → Bool
  null_read c =
      (is_null c.queue_list_f && long (left_3 c)) || (is_null c.survey_list && long (left_f c))

  -- The survey, with what came before it done.
  gather_survey_lem :
      (stale : ℕ) (c : Collector) (s : Local F)
      → SoundLocal s
      → Gathered (is_null c.survey_list && long stale) (gather_survey fl stale c s)
  gather_survey_lem stale c s v = elim (survey_Outcome stale c.survey_list s.survey v.2) [
    | inl (n, e) ↦ inl (n, survey_none stale c s e)
    | inr (n, (l, b, e, w)) ↦
        let sv : Local F = record s { survey = b } in
        inr (n, record c { survey_list = l }, sv, survey_some stale c s l b e, (v.0, v.1, w))
  ]

  -- The queue `f` and the survey.
  gather_rest :
      (c c3 : Collector) (s s3 : Local F)
      → gather_3 fl c s ≡ some (c3, s3)
      → c3.queue_list_f ≡ c.queue_list_f
      → c3.survey_list ≡ c.survey_list
      → SoundLocal s3
      → Gathered (null_read c) (gather fl c s)
  gather_rest c c3 s s3 first qf sl v =
      elim (queue_Outcome (left_3 c) c3.queue_list_f s3.queue_f v.1) [
        | inl (n, e) ↦
            inl (rw (← qf, n) refl, stop_f c c3 s s3 first (gather_f-none (left_3 c) c3 s3 e))
        | inr (n, (l, b, e, w)) ↦
            let cf : Collector = record c3 { queue_list_f = l } in
            let sf : Local F = record s3 { queue_f = b } in
            let on = go_on c c3 cf s s3 sf first (gather_f-some (left_3 c) c3 s3 l b e) in
            let m : (is_null c.queue_list_f && long (left_3 c)) ≡ false = rw (← qf) n in
            rw (on, m, ← sl) (gather_survey_lem (left_f c) cf sf (v.0, w, v.2))
      ]

  -- With lists of computed values that are empty, or ordered by their seconds with a pointer to the
  -- last element that lies in the list, the first half of a turn crashes exactly when the queue `f` or the survey has no measurement while
  -- the duration left over from the list before is 900 ms or more; otherwise it ends, and the lists
  -- are such again.
  pub gather_lem :
      (c : Collector) (s : Local F) → SoundLocal s → Gathered (null_read c) (gather fl c s)
  unfolding is_null
  gather_lem c s v = elim (queue_Outcome 0 c.queue_list_3 s.queue_3 v.0) [
    | inl (n, e) ↦ absurd (ground (arith, n))
    | inr (n, (l, b, e, w)) ↦
        gather_rest c (record c { queue_list_3 = l }) s (record s { queue_3 = b })
          (gather_3-some c s l b e) refl refl (w, v.1, v.2)
  ]
