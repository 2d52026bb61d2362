-- ===== src/Status/Refine.antt =====
-- What the callback is handed by project/status.c.
use controller_project.Base.{
  ℕ, ◌≡◌, refl, sym, ap, subst, ◌∙◌, List, [], ◌∷◌, ◌++◌, append_assoc, map-append, Bool, true,
  false, ◌||◌, Option, none, some, map, ◌==◌, if◌then◌else◌, Bool-cases, inl, inr, arith,
}
use controller_project.Records.{DpPacket}
use controller_project.Codel.{Node, Drops, is_at, append_node}
use controller_project.Codel.Chain.{has, packets, skip_to-append, append_node-append}
use controller_project.Status.{
  Skb, Lost, skipped, cut, delete_before_last_call, to_packet, add, drop_packet, dpt_mac_linger,
  destroy_after_transmitted_mac80211, Step, lost, callback, World, is_list, step, run, start,
}

-- The promise: packets are collected, and after they were handed out the next one starts anew.
pub record Promise : Type 0 where
  pub collected : List DpPacket
  pub given : Bool
  pub handed : List (List DpPacket)

abbrev pub nothing : Promise
nothing = record { collected = []; given = false; handed = [] }

abbrev pub add_packet : DpPacket → Promise → Promise
add_packet x p = record p {
  collected = if p.given then x ∷ [] else p.collected ++ x ∷ [];
  given = false;
}

unfoldable pub promised : Step → Promise → Promise
promised (lost skb) p = if skb.protocol == 6 then add_packet (to_packet skb) p else p
promised callback p = record p {
  given = p.given || is_list p.collected;
  handed = p.handed ++ p.collected ∷ [];
}

unfoldable pub promised_all : List Step → Promise → Promise
promised_all [] p = p
promised_all (s ∷ ss) p = promised_all ss (promised s p)

abbrev pub state : List (Node DpPacket) → (last call : Option ℕ) → Bool → Drops DpPacket
state ns last call b = record {
  packet_linger = ns;
  last_pkt_linger = last;
  lst_call = call;
  read_lin = b;
}

-- The list between two steps, with the packets it holds and whether they were handed out.
data Stage : Drops DpPacket → List DpPacket → Bool → Type 0 where
  empty : {call : Option ℕ} → Stage (state [] none call false) [] false
  collecting :
      {call : Option ℕ} (front : List (Node DpPacket)) (q : Node DpPacket)
      → has q.address front ≡ false
      → Stage
          (state (front ++ q ∷ []) (some q.address) call false)
          (packets (front ++ q ∷ []))
          false
  given :
      (front : List (Node DpPacket)) (q : Node DpPacket)
      → has q.address front ≡ false
      → Stage
          (state (front ++ q ∷ []) (some q.address) (some q.address) true)
          (packets (front ++ q ∷ []))
          true

unfoldable pub addresses : List (Node DpPacket) → List ℕ
addresses ns = map (λ n. n.address) ns

skipped-append :
    (front : List (Node DpPacket)) (q : Node DpPacket)
    → has q.address front ≡ false
    → skipped (some q.address) (front ++ q ∷ []) ≡ addresses front
unfolding skipped has is_at addresses
skipped-append [] q h = ground arith
skipped-append (n ∷ front) q h = ground (arith, skipped-append front q)

Stage-packets :
    {d : Drops DpPacket} {xs : List DpPacket} {b : Bool}
    → Stage d xs b
    → packets d.packet_linger ≡ xs
Stage-packets empty = refl
Stage-packets (collecting front q h) = refl
Stage-packets (given front q h) = refl

-- A list that was handed out is emptied: all nodes but the last are freed.
delete_given :
    (front : List (Node DpPacket)) (q : Node DpPacket) (freed : List ℕ)
    → has q.address front ≡ false
    → delete_before_last_call (record {
      drops = state (front ++ q ∷ []) (some q.address) (some q.address) true;
      freed = freed;
    })
      ≡ some (record {
        drops = state [] none (some q.address) false;
        freed = freed ++ addresses front;
      })
unfolding delete_before_last_call cut
delete_given front q freed h =
    rw (delete_before_last_call, skip_to-append front [] q h, skipped-append front q h) refl

module _ (kmalloc : Drops DpPacket → ℕ)
    (fresh : (d : Drops DpPacket) → has (kmalloc d) d.packet_linger ≡ false) where
  abbrev Adds : DpPacket → Drops DpPacket → List ℕ → List DpPacket → Type 0
  Adds x d freed xs = Stage (add kmalloc x (record { drops = d; freed = freed })).drops xs false

  Stage-add_empty :
      (x : DpPacket) (call : Option ℕ) (freed : List ℕ)
      → Adds x (state [] none call false) freed (x ∷ [])
  unfolding add append_node has
  Stage-add_empty x call freed =
      collecting [] (record { address = kmalloc (state [] none call false); packet = x }) refl

  Stage-add :
      (x : DpPacket) (call : Option ℕ) (freed : List ℕ) (front : List (Node DpPacket))
      (q : Node DpPacket)
      → has q.address front ≡ false
      → Adds x
          (state (front ++ q ∷ []) (some q.address) call false)
          freed
          (packets (front ++ q ∷ []) ++ x ∷ [])
  unfolding add
  Stage-add x call freed front q h =
      let d = state (front ++ q ∷ []) (some q.address) call false in
      let new : Node DpPacket = record { address = kmalloc d; packet = x } in
      let e : append_node new (front ++ q ∷ []) (some q.address) d
          ≡ state ((front ++ q ∷ []) ++ new ∷ []) (some new.address) call false =
        append_node-append front q new d h
        ∙ ap (λ z. state z (some new.address) call false)
            (sym (append_assoc front (q ∷ []) (new ∷ []))) in
      let g : packets ((front ++ q ∷ []) ++ new ∷ []) ≡ packets (front ++ q ∷ []) ++ x ∷ [] =
        map-append (λ n. n.packet) (front ++ q ∷ []) (new ∷ []) in
      subst (λ z. Stage z (packets (front ++ q ∷ []) ++ x ∷ []) false) (sym e)
        (subst
          (λ z. Stage (state ((front ++ q ∷ []) ++ new ∷ []) (some new.address) call false) z false)
          g (collecting (front ++ q ∷ []) new (fresh d)))

  Stage-lost :
      {d : Drops DpPacket} {xs : List DpPacket} {b : Bool} (skb : Skb) (freed : List ℕ)
      → (skb.protocol == 6) ≡ true
      → Stage d xs b
      → (t : Lost) × (drop_packet kmalloc skb (record { drops = d; freed = freed }) ≡ some t)
        × Stage t.drops (if b then to_packet skb ∷ [] else xs ++ to_packet skb ∷ []) false
  unfolding drop_packet
  Stage-lost skb freed e (empty {call}) = (
    add kmalloc (to_packet skb) (record { drops = state [] none call false; freed = freed }),
    rw e refl,
    Stage-add_empty (to_packet skb) call freed,
  )
  Stage-lost skb freed e (collecting {call} front q h) = (
    add kmalloc (to_packet skb)
        (record { drops = state (front ++ q ∷ []) (some q.address) call false; freed = freed }),
    rw e refl,
    Stage-add (to_packet skb) call freed front q h,
  )
  Stage-lost skb freed e (given front q h) = (
    add kmalloc (to_packet skb)
        (record { drops = state [] none (some q.address) false; freed = freed ++ addresses front }),
    rw (drop_packet, e, delete_given front q freed h) refl,
    Stage-add_empty (to_packet skb) (some q.address) (freed ++ addresses front),
  )

  Stage-callback :
      {d : Drops DpPacket} {xs : List DpPacket} {b : Bool} (freed : List ℕ)
      → Stage d xs b
      → let (s, ys) = dpt_mac_linger (record { drops = d; freed = freed }) in
        (ys ≡ xs)
        × Stage
            (if is_list ys then destroy_after_transmitted_mac80211 s else s).drops
            xs
            (b || is_list xs)
  unfolding dpt_mac_linger destroy_after_transmitted_mac80211
  Stage-callback freed empty = (refl, empty)
  Stage-callback freed (collecting [] q h) = (refl, given [] q h)
  Stage-callback freed (collecting (n ∷ front) q h) = (refl, given (n ∷ front) q h)
  Stage-callback freed (given [] q h) = (refl, given [] q h)
  Stage-callback freed (given (n ∷ front) q h) = (refl, given (n ∷ front) q h)

  -- The code's state keeps what is promised.
  abbrev Keeps : World → Promise → Type 0
  Keeps w p = Stage w.lost_packets.drops p.collected p.given × (w.handed ≡ p.handed)

  Keeps-step :
      (s : Step) (w : World) (p : Promise)
      → Keeps w p
      → (v : World) × (step kmalloc s w ≡ some v) × Keeps v (promised s p)
  unfolding step promised drop_packet
  Keeps-step (lost skb) w p (k, h) = elim (Bool-cases (skb.protocol == 6)) [
    | inl e ↦
        let (t, f, m) = Stage-lost skb w.lost_packets.freed e k in
        (record w { lost_packets = t }, rw (step, f) refl, rw e (m, h))
    | inr e ↦ (w, rw (step, drop_packet, e) refl, rw e (k, h))
  ]
  Keeps-step callback w p (k, h) =
      let (e, m) = Stage-callback w.lost_packets.freed k in
      let (s, xs) = dpt_mac_linger w.lost_packets in
      (
        record {
          lost_packets = if is_list xs then destroy_after_transmitted_mac80211 s else s;
          handed = w.handed ++ xs ∷ [];
        },
        refl,
        (m, ap (λ z. z ++ xs ∷ []) h ∙ ap (λ z. p.handed ++ z ∷ []) e),
      )

  Keeps-run :
      (ss : List Step) (w : World) (p : Promise)
      → Keeps w p
      → (v : World) × (run kmalloc ss w ≡ some v) × Keeps v (promised_all ss p)
  unfolding run promised_all
  Keeps-run [] w p k = (w, refl, k)
  Keeps-run (s ∷ ss) w p k =
      let (u, e, l) = Keeps-step s w p k in
      let (v, f, m) = Keeps-run ss u (promised s p) l in (v, rw (run, e) f, m)

  -- When the callback is not interrupted, no step reads through `NULL` or a freed node, and what it is
  -- handed is what is promised: the packets since the last time, or the same again when none was lost
  -- since. `kmalloc` returns the address of no node of the list.
  pub run_promised :
      (ss : List Step)
      → (w : World) × (run kmalloc ss start ≡ some w)
        × (w.handed ≡ (promised_all ss nothing).handed)
        × (packets w.lost_packets.drops.packet_linger ≡ (promised_all ss nothing).collected)
  run_promised ss =
      let (w, e, (k, h)) = Keeps-run ss start nothing (empty, refl) in (w, e, h, Stage-packets k)

  -- When the list that was handed out is asked for again, and a packet is lost while the callback walks
  -- over it, all its nodes but the last are freed under the walk.
  pub freed_under_walk :
      (front : List (Node DpPacket)) (q : Node DpPacket) (freed : List ℕ) (skb : Skb)
      → has q.address front ≡ false
      → skb.protocol ≡ 6
      → let (s, xs) = dpt_mac_linger (record {
        drops = state (front ++ q ∷ []) (some q.address) (some q.address) true;
        freed = freed;
      }) in
        (xs ≡ packets (front ++ q ∷ []))
        × (t : Lost) × (drop_packet kmalloc skb s ≡ some t)
        × (t.freed ≡ freed ++ addresses front)
  unfolding dpt_mac_linger drop_packet
  freed_under_walk front q freed skb h f =
      let e : (skb.protocol == 6) ≡ true = ground (arith, f) in
      (
        refl,
        add kmalloc (to_packet skb) (record {
          drops = state [] none (some q.address) false;
          freed = freed ++ addresses front;
        }),
        rw (drop_packet, e, delete_given front q freed h) refl,
        refl,
      )
