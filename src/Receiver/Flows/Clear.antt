-- ===== src/Receiver/Flows/Clear.antt =====
-- What `clear_flow_info` removes, and which packets reach it.
use controller_project.Base.{
  ℕ, suc, ◌-◌, ◌≡◌, ◌≢◌, inl, inr, refl, ap, bit_and, List, [], ◌∷◌, false, length, ◌==◌, ◌||◌,
  if◌then◌else◌, Bool-cases, arith,
}
use controller_project.Base.Bits.{bit_and_bit2}
use controller_project.Records.{DataWinsize}
use controller_project.Receiver.Flows.{
  WinsizeRecord, Flows, same_flow, cleared, clear_flow_info, insert_flow_info, ack_flow_info,
  update_flows,
}

-- How many slots hold the flow of a packet.
abbrev pub matches : List WinsizeRecord → DataWinsize → ℕ
matches [] p = 0
matches (t ∷ ts) p =
    if same_flow t p.ip_src p.ip_dst p.sourceaddr p.destination
    then suc (matches ts p)
    else matches ts p

cleared-other :
    (t : WinsizeRecord) (src dst port_src port_dst : ℕ)
    → port_src ≢ 0
    → same_flow (cleared t) src dst port_src port_dst ≡ false
unfolding same_flow cleared
cleared-other t src dst port_src port_dst h = ground arith

-- `clear_flow_info` frees one slot of the packet's flow, if there is one. Nothing makes sure that
-- it was the only one: every further slot with the same flow stays.
pub matches-clear_flow_info :
    (table : List WinsizeRecord) (p : DataWinsize)
    → p.sourceaddr ≢ 0
    → (matches (clear_flow_info table p) p ≡ matches table p - 1)
      × (length (clear_flow_info table p) ≡ length table)
unfolding clear_flow_info
matches-clear_flow_info [] p h = (refl, refl)
matches-clear_flow_info (t ∷ ts) p h =
    let (fewer, same) = matches-clear_flow_info ts p h in
    elim (Bool-cases (same_flow t p.ip_src p.ip_dst p.sourceaddr p.destination)) [
      | inl e ↦
          rw e (
            rw (cleared-other t p.ip_src p.ip_dst p.sourceaddr p.destination h) (omega arith, refl))
      | inr e ↦ rw e (rw e (fewer, ap suc same))
    ]

-- The test for a reset, `(flags & 0x0004) == 1`, fails for every value of the flags.
pub reset_test_fails : (flags : ℕ) → (bit_and flags 0x0004 == 1) ≡ false
reset_test_fails flags = ground (arith, bit_and_bit2 flags)

-- The table changes only by SYN and SYN-ACK, which insert, by FIN-ACK, which clears, and by a plain
-- ACK. A segment with any other flags, a reset among them, leaves the flows as they are.
pub update_flows_lem :
    (f : Flows) (p : DataWinsize)
    → let flags = bit_and p.flags 0x0017 in
      update_flows f p ≡ (
        if (flags == 2) || (flags == 18)
        then record f { flow_seq_list = insert_flow_info f.flow_seq_list p }
        else if flags == 17
        then record f { flow_seq_list = clear_flow_info f.flow_seq_list p }
        else if flags == 16
        then ack_flow_info f p
        else f)
unfolding update_flows
update_flows_lem f p =
    let flags = bit_and p.flags 0x0017 in
    rw (reset_test_fails flags)
      (elim (Bool-cases (flags == 17)) [ inl e ↦ rw e refl | inr e ↦ rw e refl ])
