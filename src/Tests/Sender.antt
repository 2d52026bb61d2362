-- ===== src/Tests/Sender.antt =====
-- The access point on concrete data.
use controller_project.Base.{◌+◌, ◌≡◌, [], ◌∷◌, ◌++◌, map, flatten, length, arith}
use controller_project.Records.{DpPacket}
use controller_project.Sender.Buffer.{init}
use controller_project.Sender.Buffer.Framing as Framing
use controller_project.Sender.Collect.{
  ApStates, Message, dp_t, message_bytes, Progress, drop_time, write_list, get_information,
}
use controller_project.Sender.Collect.Marks as Marks
use controller_project.Sender.Collect.Ring.{IsValid, recent, trim}
use controller_project.Sender.Collect.Rounds.{round_state, get_information_ring}
use controller_project.Tests.{router, packet, no_state, start, loaded, drivers}

write_all_keeps_messages_example :
    (p : Framing.Packed) × (Framing.messages p ≡ (1 ∷ 2 ∷ []) ∷ (3 ∷ []) ∷ [])
    × ((Framing.write_all init ((1 ∷ 2 ∷ []) ∷ (3 ∷ []) ∷ [])).sent ≡ map flatten p.closed)
    × Framing.AllShort (map flatten p.closed)
    × (Framing.pending (Framing.write_all init ((1 ∷ 2 ∷ []) ∷ (3 ∷ []) ∷ [])) ≡ flatten p.open_)
    × Framing.IsValid (Framing.write_all init ((1 ∷ 2 ∷ []) ∷ (3 ∷ []) ∷ []))
write_all_keeps_messages_example =
    Framing.write_all_keeps_messages ((1 ∷ 2 ∷ []) ∷ (3 ∷ []) ∷ []) (omega arith, (omega arith, tt))

loaded-IsValid : IsValid loaded
loaded-IsValid = record { head_in = omega arith; tail_in = omega arith }

get_information_ring_example :
    IsValid (get_information loaded drivers)
    × (recent (get_information loaded drivers)
        ≡ trim (recent loaded ++ round_state loaded drivers ∷ []))
get_information_ring_example = get_information_ring loaded drivers loaded-IsValid

abbrev progress : Progress
progress = record { mark = start; out = init; drop_c = 0 }

abbrev message : DpPacket → Message
message r = dp_t router r

write_list_lem_example :
    ((write_list drop_time message (packet ∷ packet ∷ []) progress).out
      ≡ Framing.write_all progress.out (
          map
            (λ x. message_bytes (message x))
            (Marks.fresh drop_time progress.mark (packet ∷ packet ∷ []))))
    × ((write_list drop_time message (packet ∷ packet ∷ []) progress).drop_c
        ≡ progress.drop_c + length (Marks.fresh drop_time progress.mark (packet ∷ packet ∷ [])))
    × Marks.Ascending drop_time progress.mark
        (Marks.fresh drop_time progress.mark (packet ∷ packet ∷ []))
    × Marks.NoneNew drop_time
        (write_list drop_time message (packet ∷ packet ∷ []) progress).mark
        (packet ∷ packet ∷ [])
write_list_lem_example = Marks.write_list_lem drop_time message (packet ∷ packet ∷ []) progress

abbrev earlier : ApStates
earlier = record no_state { sec = 100; usec = 999000 }

abbrev later : ApStates
later = record no_state { sec = 102; usec = 1500; q3backlog = 7; q3qlen = 2 }
