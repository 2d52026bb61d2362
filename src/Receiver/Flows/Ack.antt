-- ===== src/Receiver/Flows/Ack.antt =====
-- How `ack_flow_info` counts retransmissions and forgets acknowledged data.
use controller_project.Base.{
  ℕ, zero, suc, ◌+◌, ◌≤◌, ◌<◌, ◌≡◌, ◌≢◌, ◌⊎◌, inl, inr, refl, List, [], ◌∷◌, Bool, true, false,
  ◌||◌, length, ◌==◌, if◌then◌else◌, some, Bool-cases, ==_iff, arith,
}
use controller_project.Records.{DataWinsize}
use controller_project.Receiver.Flows.{
  SeqInfo, WinsizeRecord, Flows, entries_at, with_entries, modify, find_flow, ack_data, record_seq,
  Times, Seen, minus_one, push_time, seen_loop, store_seq, drop_acked,
}

false-ne-true : false ≡ true → ⊥
false-ne-true e = cc

-- How many entries hold a sequence number.
abbrev pub holds : List SeqInfo → ℕ → ℕ
holds [] s = 0
holds (e ∷ es) s = if e.seq == s then suc (holds es s) else holds es s

-- The loop counts one retransmission for each entry that holds the sequence number, and keeps the
-- sequence numbers of all entries.
pub seen_loop_counts :
    (es : List SeqInfo) (p : DataWinsize) (times : Times) (count : ℕ) (ins : Bool)
    → p.sequence ≢ minus_one
    → let seen = seen_loop es p times count ins in
      (seen.count ≡ count + holds es p.sequence)
      × (seen.insert ≡ (if holds es p.sequence == 0 then ins else true))
      × ((s : ℕ) → holds seen.entries s ≡ holds es s)
unfolding seen_loop
seen_loop_counts [] p times count ins h = (omega arith, refl, λ s. refl)
seen_loop_counts (e ∷ es) p times count ins h =
    let kept = seen_loop_counts es p times count ins h in
    let again =
      seen_loop_counts es p (push_time times (record { sec = e.sec; usec = e.usec })) (count + 1)
        true h in
    (
      ground (arith, kept.0, again.0),
      ground (arith, kept.1, again.1),
      λ s. ground (arith, kept.2 s, again.2 s),
    )

abbrev pub has_room : List SeqInfo → Bool
has_room [] = false
has_room (e ∷ es) = (e.seq == 0) || (e.seq == minus_one) || has_room es

holds-store_seq :
    (es : List SeqInfo) (p : DataWinsize)
    → has_room es ≡ true
    → 1 ≤ holds (store_seq es p) p.sequence
unfolding store_seq
holds-store_seq [] p h = absurd (false-ne-true h)
holds-store_seq (e ∷ es) p h = ground (arith, holds-store_seq es p)

entries_at-modify :
    (table : List WinsizeRecord) (i : ℕ) (es : List SeqInfo)
    → i < length table
    → entries_at (modify table i (with_entries es)) i ≡ es
entries_at-modify [] i es h = absurd (omega arith)
entries_at-modify (t ∷ ts) zero es h = refl
entries_at-modify (t ∷ ts) (suc i) es h = entries_at-modify ts i es (omega arith)

has_room-seen_loop :
    (es : List SeqInfo) (p : DataWinsize) (times : Times) (count : ℕ) (ins : Bool)
    → has_room (seen_loop es p times count ins).entries ≡ has_room es
unfolding seen_loop
has_room-seen_loop [] p times count ins = refl
has_room-seen_loop (e ∷ es) p times count ins =
    let next = push_time times (record { sec = e.sec; usec = e.usec }) in
    ground (
      arith,
      has_room-seen_loop es p times count ins,
      has_room-seen_loop es p next (count + 1) true,
    )

module _ (f : Flows) (p : DataWinsize) (i : ℕ) where
  abbrev before : List SeqInfo
  before = entries_at f.flow_seq_list i

  abbrev seen : Seen
  seen = seen_loop before p f.retrans f.count_retrans false

  holds-record_seq :
      p.sequence ≢ minus_one
      → i < length f.flow_seq_list
      → (1 ≤ holds before p.sequence) ⊎ (has_room before ≡ true)
      → 1 ≤ holds (entries_at (record_seq f i p).flow_seq_list i) p.sequence
  unfolding record_seq
  holds-record_seq no_minus inside known =
      let facts = seen_loop_counts before p f.retrans f.count_retrans false no_minus in
      let room = has_room-seen_loop before p f.retrans f.count_retrans false in
      rw (entries_at-modify f.flow_seq_list i _ inside)
        (ground (arith, facts.1, facts.2 p.sequence, room, holds-store_seq seen.entries p))

  count-record_seq :
      p.sequence ≢ minus_one
      → (record_seq f i p).count_retrans ≡ f.count_retrans + holds before p.sequence
  unfolding record_seq
  count-record_seq no_minus = (seen_loop_counts before p f.retrans f.count_retrans false no_minus).0

  ack_data-found :
      p.datalength ≢ 0
      → find_flow f.flow_seq_list 0 p.ip_src p.ip_dst p.sourceaddr p.destination ≡ some i
      → ack_data f p ≡ record_seq f i p
  unfolding ack_data
  ack_data-found sent found = elim (Bool-cases (p.datalength == 0)) [
    | inl e ↦ absurd (sent ((==_iff p.datalength 0).0 e))
    | inr e ↦ rw (e, found, ack_data)
  ]

-- A packet with data on a flow in the table, with a sequence number other than 0xffffffff, which is
-- the mark of a free entry, adds to `count_retrans` the number of entries that hold
-- its sequence number, so a number that is stored is counted when it comes again. Afterwards the
-- flow holds the number, unless it did not before and had no room for it.
pub ack_data_counts :
    (f : Flows) (p : DataWinsize) (i : ℕ)
    → p.datalength ≢ 0
    → p.sequence ≢ minus_one
    → find_flow f.flow_seq_list 0 p.ip_src p.ip_dst p.sourceaddr p.destination ≡ some i
    → i < length f.flow_seq_list
    → let es = entries_at f.flow_seq_list i in
      ((ack_data f p).count_retrans ≡ f.count_retrans + holds es p.sequence)
      × ((1 ≤ holds (entries_at (ack_data f p).flow_seq_list i) p.sequence)
          ⊎ (holds es p.sequence ≡ 0) × (has_room es ≡ false))
ack_data_counts f p i sent no_minus found inside =
    let es = entries_at f.flow_seq_list i in
    let kept = holds-record_seq f p i no_minus inside in
    rw (ack_data-found f p i sent found) (
      count-record_seq f p i no_minus,
      elim (Bool-cases (has_room es)) [
        | inl e ↦ inl (kept (inr e))
        | inr e ↦ elim (Bool-cases (holds es p.sequence == 0)) [
          | inl z ↦ inr ((==_iff (holds es p.sequence) 0).0 z, e)
          | inr z ↦ inl (kept (inl (ground arith)))
        ]
      ],
    )

-- Forgetting acknowledged data keeps every sequence number that is not acknowledged yet: for each
-- number from the acknowledgement on, other than 0, as many entries hold it as before.
pub holds-drop_acked :
    (es : List SeqInfo) (p : DataWinsize) (s : ℕ)
    → p.ack_sequence ≤ s
    → s ≢ 0
    → holds (drop_acked es p) s ≡ holds es s
unfolding drop_acked
holds-drop_acked [] p s h ne = refl
holds-drop_acked (e ∷ es) p s h ne = ground (arith, holds-drop_acked es p s h ne)
