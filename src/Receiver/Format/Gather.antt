-- ===== src/Receiver/Format/Gather.antt =====
-- The first half of a turn of `format_data` (EXP/receive.c): the new computed values.
pub mod Crash
use controller_project.Base.{ℕ, List, [], ◌∷◌, Bool, true, false, Option, none, some}
use controller_project.Receiver.Decode.{Collector}
use controller_project.Receiver.Format.{
  Floats, QueueRates, SurveyRates, Buffer, Taken, none_yet, computed, crash, queue_duration,
  take_queue, take_survey, insert,
}

-- The variables of `format_data`, and the globals that only it changes.
pub record Local (F : Type 0) : Type 0 where
  pub queue_3 : Buffer (QueueRates F)
  pub queue_f : Buffer (QueueRates F)
  pub survey : Buffer (SurveyRates F)
  pub retrans_tail : ℕ
  pub winsize_tail : ℕ

-- The new list of measurements and the new list of computed values; `none` is a crash.
unfoldable pub absorb : {A D : Type 0} → Taken A D → Buffer D → Option (List A × Buffer D)
unfolding insert
absorb (none_yet l) b = some (l, b)
absorb (computed l x) b = elim (insert b x) [ none ↦ none | some c ↦ some (l, c) ]
absorb crash b = none

unfoldable pub is_null : {A : Type 0} → List A → Bool
is_null [] = true
is_null (x ∷ xs) = false

module _ {F : Type 0} (fl : Floats F) where
  unfoldable pub gather_3 : Collector → Local F → Option (Collector × Local F)
  unfolding absorb take_queue
  gather_3 c s = elim (absorb (take_queue fl 0 c.queue_list_3) s.queue_3) [
    | none ↦ none
    | some (l, b) ↦ some (record c { queue_list_3 = l }, record s { queue_3 = b })
  ]

  unfoldable pub gather_f : ℕ → Collector → Local F → Option (Collector × Local F)
  unfolding absorb take_queue
  gather_f stale c s = elim (absorb (take_queue fl stale c.queue_list_f) s.queue_f) [
    | none ↦ none
    | some (l, b) ↦ some (record c { queue_list_f = l }, record s { queue_f = b })
  ]

  unfoldable pub gather_survey : ℕ → Collector → Local F → Option (Collector × Local F)
  unfolding absorb take_survey
  gather_survey stale c s = elim (absorb (take_survey fl stale c.survey_list) s.survey) [
    | none ↦ none
    | some (l, b) ↦ some (record c { survey_list = l }, record s { survey = b })
  ]

  -- The three lists in turn. The durations are left from one to the next.
  unfoldable pub gather : Collector → Local F → Option (Collector × Local F)
  unfolding gather_3 gather_f gather_survey queue_duration
  gather c s =
      let d3 = queue_duration fl 0 c.queue_list_3 in
      let df = queue_duration fl d3 c.queue_list_f in
      elim (gather_3 c s) [
        | none ↦ none
        | some (c3, s3) ↦ elim (gather_f d3 c3 s3) [
          | none ↦ none
          | some (cf, sf) ↦ gather_survey df cf sf
        ]
      ]
