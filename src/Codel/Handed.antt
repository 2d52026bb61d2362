-- ===== src/Codel/Handed.antt =====
-- Each packet that the queue drops is handed out once (codel.h, project/sch_fq_codel.c).
use controller_project.Base.{
  ℕ, ◌≡◌, refl, sym, ap, ◌∙◌, List, [], ◌∷◌, ◌++◌, append-nil, append_assoc, Bool, true, false,
  some, ◌==◌, if◌then◌else◌, Bool-cases, inl, inr,
}
use controller_project.Codel.{
  Skb, DpPacket, Drops, start, cut_behind, delete_before_last_call_codel, append_node, to_packet,
  add, drop_packet, dpt_queue_linger, destroy_after_transmitted_codel, give_back, Step, dropped,
  callback, World, step, run,
}
use controller_project.Codel.Chain.{has, packets}
use controller_project.Codel.Phases.{
  Phase, empty, collected, given, more, moved, Phase-add, Phase-delete, false-ne-true,
}

-- The packets that are added for a packet, and for all steps.
unfoldable pub tcp_packet : Skb → List DpPacket
tcp_packet skb = if skb.protocol == 6 then to_packet skb ∷ [] else []

unfoldable pub tcp_packets : List Step → List DpPacket
tcp_packets [] = []
tcp_packets (dropped skb ∷ ss) = tcp_packet skb ++ tcp_packets ss
tcp_packets (callback ∷ ss) = tcp_packets ss

pub asked_all :
    {d : Drops DpPacket} {w : Bool} {xs : List DpPacket}
    → Phase d w xs
    → w ≡ false
    → d.read_lin ≡ false
    → (dpt_queue_linger d).1 ≡ xs
unfolding dpt_queue_linger
asked_all empty e f = refl
asked_all (collected front q h) e f = refl
asked_all (given front q true h) e f = absurd (false-ne-true (sym f))
asked_all (given front q false h) e f = absurd (false-ne-true (sym e))
asked_all (more front p mid q true h i) e f = absurd (false-ne-true (sym f))
asked_all (more front p mid q false h i) e f = absurd (false-ne-true (sym e))

abbrev is_list : List DpPacket → Bool
is_list [] = false
is_list (x ∷ xs) = true

Phase-asked :
    {d : Drops DpPacket} {w : Bool} {xs : List DpPacket}
    → Phase d w xs
    → w ≡ false
    → let (e, ys) = dpt_queue_linger d in
      (zs : List DpPacket) × Phase e (is_list ys) zs × (ys ++ zs ≡ xs)
unfolding dpt_queue_linger
Phase-asked (empty {call}) e = ([], empty, refl)
Phase-asked (collected [] q h) e = ([], given [] q false h, refl)
Phase-asked (collected (n ∷ front) q h) e =
    ([], given (n ∷ front) q false h, append-nil (packets (n ∷ front ++ q ∷ [])))
Phase-asked (given front q true h) e = ([], given front q true h, refl)
Phase-asked (given front q false h) e = absurd (false-ne-true (sym e))
Phase-asked (more front p mid q true h i) e =
    (packets (mid ++ q ∷ []), more front p mid q true h i, refl)
Phase-asked (more front p mid q false h i) e = absurd (false-ne-true (sym e))

pub Phase-through :
    {d : Drops DpPacket} {w : Bool} {xs : List DpPacket}
    → Phase d w xs
    → w ≡ true
    → Phase (destroy_after_transmitted_codel d) false xs
unfolding destroy_after_transmitted_codel
Phase-through empty e = absurd (false-ne-true e)
Phase-through (collected front q h) e = absurd (false-ne-true e)
Phase-through (given front q b h) e = given front q true h
Phase-through (more front p mid q b h i) e = more front p mid q true h i

Phase-give_back :
    {d : Drops DpPacket} {zs : List DpPacket} (ys : List DpPacket)
    → Phase d (is_list ys) zs
    → Phase (give_back ys d) false zs
unfolding give_back
Phase-give_back [] p = p
Phase-give_back (y ∷ ys) p = Phase-through p refl

module _ (kmalloc : Drops DpPacket → ℕ)
    (fresh : (d : Drops DpPacket) → has (kmalloc d) d.packet_linger ≡ false) where
  pub Phase-drop_packet :
      {d : Drops DpPacket} {w : Bool} {xs : List DpPacket} (skb : Skb)
      → Phase d w xs
      → (e : Drops DpPacket) × (drop_packet kmalloc skb d ≡ some e)
        × Phase e w (xs ++ tcp_packet skb)
  unfolding drop_packet tcp_packet delete_before_last_call_codel add cut_behind append_node
  Phase-drop_packet {d} {w} {xs} skb p = elim (Bool-cases (skb.protocol == 6)) [
    | inr f ↦ (d, rw f refl, rw f (moved refl (append-nil xs) p))
    | inl f ↦ elim (Bool-cases d.read_lin) [
      | inr g ↦ (
        add kmalloc (to_packet skb) d,
        rw (f, g) refl,
        rw f (Phase-add kmalloc fresh (to_packet skb) p),
      )
      | inl g ↦
          let (e, eq, q) = Phase-delete p g in
          (
            add kmalloc (to_packet skb) e,
            rw (f, g, eq) refl,
            rw f (Phase-add kmalloc fresh (to_packet skb) q),
          )
    ]
  ]

  module _ (s : Step) (ss : List Step) where
    -- One step ends, and the order of the packets stays.
    abbrev Moves : World → List DpPacket → Type 0
    Moves w xs =
        (v : World) × (ys : List DpPacket) × (step kmalloc s w ≡ some v)
        × Phase v.drops false ys
        × ((v.handed ++ ys) ++ tcp_packets ss ≡ (w.handed ++ xs) ++ tcp_packets (s ∷ ss))

  pub Phase-step :
      (s : Step) (ss : List Step) (w : World) {xs : List DpPacket}
      → Phase w.drops false xs
      → Moves s ss w xs
  unfolding step tcp_packets
  Phase-step (dropped skb) ss w {xs} p =
      let (e, eq, q) = Phase-drop_packet skb p in
      (
        record w { drops = e },
        xs ++ tcp_packet skb,
        rw (step, eq) refl,
        q,
        ap (λ z. z ++ tcp_packets ss) (sym (append_assoc w.handed xs (tcp_packet skb)))
            ∙ append_assoc (w.handed ++ xs) (tcp_packet skb) (tcp_packets ss),
      )
  Phase-step callback ss w {xs} p =
      let (d, new) = dpt_queue_linger w.drops in
      let (zs, q, eq) = Phase-asked p refl in
      (
        record { drops = give_back new d; handed = w.handed ++ new },
        zs,
        refl,
        Phase-give_back new q,
        ap (λ z. z ++ tcp_packets ss) (append_assoc w.handed new zs ∙ ap (λ z. w.handed ++ z) eq),
      )

  -- From any phase on: no step fails, and the packets that were handed out, followed by those that
  -- wait, are those that were before, followed by the TCP packets that were dropped since.
  run-Phase :
      (ss : List Step) (w : World) {xs : List DpPacket}
      → Phase w.drops false xs
      → (v : World) × (ys : List DpPacket) × (run kmalloc ss w ≡ some v)
        × Phase v.drops false ys
        × (v.handed ++ ys ≡ (w.handed ++ xs) ++ tcp_packets ss)
  unfolding run tcp_packets
  run-Phase [] w {xs} p = (w, xs, refl, p, sym (append-nil (w.handed ++ xs)))
  run-Phase (s ∷ ss) w p =
      let (u, zs, e, q, f) = Phase-step s ss w p in
      let (v, ys, g, r, h) = run-Phase ss u q in (v, ys, rw (run, e) g, r, h ∙ f)

  -- From the start, in any order of packets that are dropped and of callbacks, none of which is
  -- interrupted by a packet that is dropped: no step reads through `NULL`; the packets that were
  -- handed out, followed by some that wait, are the TCP packets that were dropped, each once and in
  -- order; and while `read_lin` is not set, those that wait are the whole list, which the next
  -- callback gets. `kmalloc` returns the address of no node of the list.
  pub run_hands_out_once :
      (ss : List Step)
      → (v : World) × (ys : List DpPacket) × (run kmalloc ss start ≡ some v)
        × (v.handed ++ ys ≡ tcp_packets ss)
        × (v.drops.read_lin ≡ false → (dpt_queue_linger v.drops).1 ≡ ys)
  run_hands_out_once ss =
      let (v, ys, e, p, f) = run-Phase ss start empty in (v, ys, e, f, asked_all p refl)
