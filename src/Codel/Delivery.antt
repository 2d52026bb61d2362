-- ===== src/Codel/Delivery.antt =====
-- What was dropped is handed out in the end (codel.h, project/sch_fq_codel.c).
use controller_project.Base.{
  ℕ, ◌≡◌, refl, sym, ap, ◌∙◌, List, [], ◌∷◌, ◌++◌, append-nil, append_assoc, Bool, true, false,
  Option, none, some, ◌==◌, if◌then◌else◌, arith,
}
use controller_project.Codel.{
  Skb, DpPacket, Node, Drops, skip_to, cut_behind, delete_before_last_call_codel, append_node,
  to_packet, add, drop_packet, dpt_queue_linger, give_back, Step, dropped, callback, World, start,
  step, run,
}
use controller_project.Codel.Chain.{has}
use controller_project.Codel.Phases.{Phase, empty}
use controller_project.Codel.Handed.{
  tcp_packet, tcp_packets, Phase-drop_packet, asked_all, Phase-step,
}

abbrev unread : Option (Drops DpPacket) → Bool
unread none = false
unread (some d) = d.read_lin

cut_behind-read_lin :
    (d : Drops DpPacket) (ns : List (Node DpPacket)) → unread (cut_behind d ns) ≡ false
unfolding cut_behind
cut_behind-read_lin d [] = refl
cut_behind-read_lin d (n ∷ []) = refl
cut_behind-read_lin d (n ∷ m ∷ ns) = refl

append_node-read_lin :
    (new : Node DpPacket) (ns : List (Node DpPacket)) (last : Option ℕ) (d : Drops DpPacket)
    → (append_node new ns last d).read_lin ≡ d.read_lin
unfolding append_node
append_node-read_lin new [] last d = refl
append_node-read_lin new (n ∷ ns) none d = refl
append_node-read_lin new (n ∷ ns) (some p) d = refl

add-read_lin :
    (kmalloc : Drops DpPacket → ℕ) (x : DpPacket) (d : Drops DpPacket)
    → (add kmalloc x d).read_lin ≡ d.read_lin
unfolding add
add-read_lin kmalloc x d =
    append_node-read_lin (record { address = kmalloc d; packet = x }) d.packet_linger
      d.last_pkt_linger d

with_packet :
    (kmalloc : Drops DpPacket → ℕ) (x : DpPacket) (o : Option (Drops DpPacket))
    → unread o ≡ false
    → unread (elim o [ none ↦ none | some e ↦ some (add kmalloc x e) ]) ≡ false
with_packet kmalloc x none h = refl
with_packet kmalloc x (some d) h = add-read_lin kmalloc x d ∙ h

chosen :
    (kmalloc : Drops DpPacket → ℕ) (x : DpPacket) (b : Bool) (o : Option (Drops DpPacket))
    (d : Drops DpPacket)
    → unread o ≡ false
    → (b ≡ false → d.read_lin ≡ false)
    → unread (elim (if b then o else some d) [ none ↦ none | some e ↦ some (add kmalloc x e) ])
      ≡ false
chosen kmalloc x true o d h k = with_packet kmalloc x o h
chosen kmalloc x false o d h k = with_packet kmalloc x (some d) (k refl)

-- After a TCP packet is dropped nothing is to be deleted.
drop_packet-read_lin :
    (kmalloc : Drops DpPacket → ℕ) (skb : Skb) (d : Drops DpPacket)
    → (skb.protocol == 6) ≡ true
    → unread (drop_packet kmalloc skb d) ≡ false
unfolding drop_packet delete_before_last_call_codel
drop_packet-read_lin kmalloc skb d f =
    let left = skip_to d.lst_call d.packet_linger in
    rw f (
      chosen kmalloc (to_packet skb) d.read_lin (cut_behind d left) d (cut_behind-read_lin d left)
        (λ g. g))

one_packet : (skb : Skb) → (skb.protocol == 6) ≡ true → tcp_packet skb ≡ to_packet skb ∷ []
unfolding tcp_packet
one_packet skb f = rw f refl

module _ (kmalloc : Drops DpPacket → ℕ)
    (fresh : (d : Drops DpPacket) → has (kmalloc d) d.packet_linger ≡ false) where
  abbrev last_steps : Skb → List Step
  last_steps skb = dropped skb ∷ callback ∷ []

  last_steps_lem :
      (skb : Skb) (w : World) {xs : List DpPacket}
      → (skb.protocol == 6) ≡ true
      → Phase w.drops false xs
      → (v : World) × (run kmalloc (last_steps skb) w ≡ some v)
        × (v.handed ≡ (w.handed ++ xs) ++ to_packet skb ∷ [])
  unfolding run step
  last_steps_lem skb w {xs} f p =
      let (e, eq, r) = Phase-drop_packet kmalloc fresh skb p in
      let unset : e.read_lin ≡ false =
        ap unread (sym eq) ∙ drop_packet-read_lin kmalloc skb w.drops f in
      let (e', ys) = dpt_queue_linger e in
      (
        record { drops = give_back ys e'; handed = w.handed ++ ys },
        rw (run, step, eq) refl,
        ap (λ z. w.handed ++ z) (asked_all r refl unset ∙ ap (λ z. xs ++ z) (one_packet skb f))
            ∙ sym (append_assoc w.handed xs (to_packet skb ∷ [])),
      )

  delivered :
      (skb : Skb) (ss : List Step) (w : World) {xs : List DpPacket}
      → (skb.protocol == 6) ≡ true
      → Phase w.drops false xs
      → (v : World) × (run kmalloc (ss ++ last_steps skb) w ≡ some v)
        × (v.handed ≡ ((w.handed ++ xs) ++ tcp_packets ss) ++ to_packet skb ∷ [])
  unfolding run tcp_packets
  delivered skb [] w {xs} f p =
      let (v, g, h) = last_steps_lem skb w f p in
      (v, g, h ∙ ap (λ z. z ++ to_packet skb ∷ []) (sym (append-nil (w.handed ++ xs))))
  delivered skb (s ∷ ss) w f p =
      let (u, zs, e, q, g) = Phase-step kmalloc fresh s ss w p in
      let (v, h, i) = delivered skb ss u f q in
      (v, rw (run, e) h, i ∙ ap (λ z. z ++ to_packet skb ∷ []) g)

  -- After any packets and callbacks, none of which is interrupted by a packet that is dropped: once
  -- another TCP packet is dropped and the callback runs, all TCP packets that were dropped have been
  -- handed out, in order. `kmalloc` returns the address of no node of the list.
  pub run_delivers :
      (ss : List Step) (skb : Skb)
      → skb.protocol ≡ 6
      → (v : World) × (run kmalloc (ss ++ dropped skb ∷ callback ∷ []) start ≡ some v)
        × (v.handed ≡ tcp_packets ss ++ to_packet skb ∷ [])
  run_delivers ss skb f = delivered skb ss start (ground (arith, f)) empty
