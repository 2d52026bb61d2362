-- ===== src/Receiver/Process.antt =====
-- `process` of EXP/receive.c: a datagram is a row of messages, each a category, a hardware address
-- and a structure. The `decode_…` functions are a parameter here.
pub mod Total
pub mod Frames
use controller_project.Base.{
  ℕ, zero, suc, ◌+◌, List, drop, Option, none, some, ltb, ◌==◌, if◌then◌else◌,
}
use controller_project.Wire.{reversebytes_uint16t, load16}
use controller_project.Records.{Category}

-- `sizeof` of each structure on the collector.
abbrev pub size_of : Category → ℕ
size_of Category.winsize = 40
size_of Category.drops = 48
size_of Category.iw = 64
size_of Category.queue = 48
size_of Category.beacon = 32
size_of Category.survey = 64

-- The cases of the `switch`; `none` is its default.
unfoldable pub category_of : ℕ → Option Category
category_of value =
    if value == 1
    then some Category.winsize
    else if value == 2
    then some Category.drops
    else if value == 3
    then some Category.iw
    else if value == 4
    then some Category.queue
    else if value == 5
    then some Category.beacon
    else if value == 6
    then some Category.survey
    else none

-- The test of the loop, the reading of the category and the choice of the case. `none` ends the
-- loop: at the end of the buffer by the test, at an unknown category by `out`.
unfoldable pub message_at : List ℕ → ℕ → ℕ → Option Category
message_at buffer offset len =
    if ltb offset len then category_of (reversebytes_uint16t (load16 buffer offset)) else none

-- `count_winsize`, `count_iw`, `count_survey`, `count_queue`.
pub record Counts : Type 0 where
  pub count_winsize : ℕ
  pub count_iw : ℕ
  pub count_survey : ℕ
  pub count_queue : ℕ

abbrev pub counted : Category → Counts → Counts
counted Category.winsize k = record k { count_winsize = k.count_winsize + 1 }
counted Category.drops k = k
counted Category.iw k = record k { count_iw = k.count_iw + 1 }
counted Category.queue k = record k { count_queue = k.count_queue + 1 }
counted Category.beacon k = k
counted Category.survey k = record k { count_survey = k.count_survey + 1 }

module _ {S : Type 0} (decode : Category → List ℕ → S → S) where
  -- One pass over the body of the loop, past the reading of the category.
  abbrev pub handle : Category → List ℕ → S × Counts → S × Counts
  handle c rest (s, k) = (decode c rest s, counted c k)

  -- `while (offset < length)`. `none` means that the fuel ran out.
  unfoldable pub process_loop : ℕ → List ℕ → ℕ → ℕ → S × Counts → Option (S × Counts)
  process_loop zero buffer offset len s = none
  process_loop (suc fuel) buffer offset len s = elim (message_at buffer offset len) [
    | none ↦ some s
    | some c ↦
        process_loop fuel buffer (offset + 2 + (size_of c + 6)) len
          (handle c (drop (offset + 2) buffer) s)
  ]

  unfoldable pub process : List ℕ → ℕ → S × Counts → Option (S × Counts)
  unfolding process_loop
  process buffer len s = process_loop (suc len) buffer 0 len s
