-- ===== src/Tests/Averages.antt =====
-- The averages of the collector, with natural numbers for `float`.
use controller_project.Base.{
  ℕ, ◌/◌, ◌≡◌, refl, List, [], ◌∷◌, ◌++◌, Option, some, none, length, arith, inr,
}
use controller_project.Receiver.Flows.{TimeStructure}
use controller_project.Receiver.Format.{
  Floats, Timed, Buffer, no_buffer, not_before, reached, keep, QueueRates, SurveyRates,
}
use controller_project.Receiver.Format.Order.{insert_all}
use controller_project.Receiver.Format.History.{
  Action, value, search_for, Tail, run, values, run_lem,
}
use controller_project.Receiver.Format.Gather.{Local, gather}
use controller_project.Receiver.Format.Round.{Keeps, Turn, report_turn, packets_loop}
use controller_project.Receiver.Format.Round.Ends.{packets_loop_ends}
use controller_project.Receiver.Format.Gather.Crash.{unused, Gathered, null_read, gather_lem}
use controller_project.Receiver.Decode.{Collector}
use controller_project.Tests.{queue}
use controller_project.Tests.Receiver.{collector}

abbrev numbers : Floats ℕ
numbers = record { of_nat = λ n. n; over = ◌/◌ }

abbrev stamped : ℕ → Timed ℕ
stamped sec = record { sec = sec; usec = 0; value = sec }

-- A value before the head is lost.
lost : insert_all no_buffer (stamped 20 ∷ stamped 19 ∷ []) ≡ insert_all no_buffer (stamped 20 ∷ [])
unfolding insert_all
lost = refl

abbrev at_25 : TimeStructure
at_25 = record { sec = 25; usec = 3 }

abbrev history : List (Action ℕ)
history = value (stamped 22) ∷ search_for at_25 ∷ value (stamped 30) ∷ []

abbrev first : Buffer ℕ
first = record { items = stamped 10 ∷ []; last = some 0 }

first-Tail : Tail first (stamped 10)
first-Tail = record { front = []; items = refl; last = refl }

run_lem_example :
    (c : Buffer ℕ) × (run first history ≡ some c)
    × (keep at_25 c.items ≡ keep at_25 (first.items ++ values history))
unfolding not_before
run_lem_example =
    run_lem first (stamped 10) history at_25 first-Tail (refl, (refl, tt))
      (inr (refl, omega arith), tt)

abbrev local : Local ℕ
local = record {
  queue_3 = no_buffer;
  queue_f = no_buffer;
  survey = no_buffer;
  retrans_tail = 0;
  winsize_tail = 0;
}

-- The other queue spans more than a second, and no survey has come.
abbrev no_survey : Collector
no_survey = record collector {
  queue_list_f = queue ∷ record queue { sec = 22 } ∷ [];
  survey_list = [];
}

gather_lem_example : Gathered numbers (null_read numbers no_survey) (gather numbers no_survey local)
gather_lem_example = gather_lem numbers no_survey local (unused refl, unused refl, unused refl)

no_survey_crashes : gather numbers no_survey local ≡ none
unfolding gather
no_survey_crashes = refl

abbrev rates : Timed (QueueRates ℕ)
rates = record {
  sec = 20;
  usec = 0;
  value = record {
    packets = 1;
    bytes = 2;
    qlen = 3;
    backlog = 4;
    drops = 0;
    requeues = 0;
    overlimits = 0;
  };
}

abbrev air : Timed (SurveyRates ℕ)
air = record {
  sec = 20;
  usec = 0;
  value = record {
    time_busy = 1;
    time_ext_busy = 0;
    time_rx = 1;
    time_tx = 0;
    time_scan = 0;
    noise = 161;
  };
}

abbrev measured : Local ℕ
measured = record {
  queue_3 = record { items = rates ∷ []; last = some 0 };
  queue_f = record { items = rates ∷ []; last = some 0 };
  survey = record { items = air ∷ []; last = some 0 };
  retrans_tail = 0;
  winsize_tail = 0;
}

-- One packet, of second 15.
abbrev one_packet : Collector
one_packet = record collector {
  winsize_times = record { times = λ i. record { sec = 15; usec = 0 }; head = 1 };
}

abbrev stack : Keeps ℕ
stack = record { s_keep = air; q_keep_3 = rates; q_keep_f = rates }

abbrev lines : Option (Turn ℕ) → ℕ
lines none = 0
lines (some t) = length t.rows

-- It is reported twice.
reported_twice : lines (report_turn one_packet 1 stack measured) ≡ 2
unfolding report_turn reached
reported_twice = refl

abbrev no_time : TimeStructure
no_time = record { sec = 0; usec = 0 }

packets_loop_ends_example :
    packets_loop 1 0 stack one_packet 1 1 no_time measured
    ≡ packets_loop 1 0 stack one_packet 5 1 no_time measured
packets_loop_ends_example =
    packets_loop_ends 1 0 stack one_packet (omega arith) 1 5 1 no_time measured refl (omega arith)
      (omega arith)
