-- ===== src/Codel/Phases.antt =====
-- How far the list of dropped packets is read (codel.h), and what adding and cutting do to it.
use controller_project.Base.{
  ℕ, ◌≡◌, refl, sym, ap, subst, ◌∙◌, List, [], ◌∷◌, ◌++◌, append_assoc, map-append, Bool, true,
  false, not, Option, none, some, arith,
}
use controller_project.Codel.{
  DpPacket, Node, Drops, cut_behind, delete_before_last_call_codel, append_node, add,
}
use controller_project.Codel.Chain.{has, packets, skip_to-append, append_node-append}

abbrev state : List (Node DpPacket) → (last call : Option ℕ) → Bool → Drops DpPacket
state ns last call b = record {
  packet_linger = ns;
  last_pkt_linger = last;
  lst_call = call;
  read_lin = b;
}

-- How far the list is: there is none; it was not handed out; all of it was; a part, up to a node,
-- was. The last two hold before the callback gives the list back and, with `read_lin` set, after that.
-- The packets at the end are those that wait.
pub data Phase : Drops DpPacket → Bool → List DpPacket → Type 0 where
  empty : {call : Option ℕ} → Phase (state [] none call false) false []
  collected :
      {call : Option ℕ} (front : List (Node DpPacket)) (q : Node DpPacket)
      → has q.address front ≡ false
      → Phase
          (state (front ++ q ∷ []) (some q.address) call false)
          false
          (packets (front ++ q ∷ []))
  given :
      (front : List (Node DpPacket)) (q : Node DpPacket) (b : Bool)
      → has q.address front ≡ false
      → Phase (state (front ++ q ∷ []) (some q.address) (some q.address) b) (not b) []
  more :
      (front : List (Node DpPacket)) (p : Node DpPacket) (mid : List (Node DpPacket))
      (q : Node DpPacket) (b : Bool)
      → has p.address front ≡ false
      → has q.address (front ++ p ∷ mid) ≡ false
      → Phase
          (state (front ++ p ∷ (mid ++ q ∷ [])) (some q.address) (some p.address) b)
          (not b)
          (packets (mid ++ q ∷ []))

has-append :
    (a : ℕ) (front : List (Node DpPacket)) (p : Node DpPacket) (mid : List (Node DpPacket))
    → has a (front ++ p ∷ mid) ≡ false
    → has a mid ≡ false
unfolding has
has-append a [] p mid h = ground (arith, h)
has-append a (n ∷ front) p mid h = ground (arith, has-append a front p mid)

-- A new node behind the last one.
append_node-last :
    (front : List (Node DpPacket)) (p : Node DpPacket) (mid : List (Node DpPacket))
    (q new : Node DpPacket) (call : Option ℕ) (b : Bool)
    → has q.address (front ++ p ∷ mid) ≡ false
    → append_node new
        (front ++ p ∷ (mid ++ q ∷ []))
        (some q.address)
        (state (front ++ p ∷ (mid ++ q ∷ [])) (some q.address) call b)
      ≡ state (front ++ p ∷ ((mid ++ q ∷ []) ++ new ∷ [])) (some new.address) call b
append_node-last front p mid q new call b h =
    let e : front ++ p ∷ (mid ++ q ∷ []) ≡ (front ++ p ∷ mid) ++ q ∷ [] =
      sym (append_assoc front (p ∷ mid) (q ∷ [])) in
    let f : (front ++ p ∷ mid) ++ q ∷ new ∷ [] ≡ front ++ p ∷ ((mid ++ q ∷ []) ++ new ∷ []) =
      append_assoc front (p ∷ mid) (q ∷ new ∷ [])
      ∙ ap (λ z. front ++ p ∷ z) (sym (append_assoc mid (q ∷ []) (new ∷ []))) in
    ap (λ z. append_node new z (some q.address) (state z (some q.address) call b)) e
    ∙ append_node-append (front ++ p ∷ mid) q new
        (state ((front ++ p ∷ mid) ++ q ∷ []) (some q.address) call b) h
    ∙ ap (λ z. state z (some new.address) call b) f

packets-snoc :
    (ns : List (Node DpPacket)) (new : Node DpPacket)
    → packets (ns ++ new ∷ []) ≡ packets ns ++ new.packet ∷ []
packets-snoc ns new = map-append (λ n. n.packet) ns (new ∷ [])

pub moved :
    {d e : Drops DpPacket} {w : Bool} {xs ys : List DpPacket}
    → d ≡ e
    → xs ≡ ys
    → Phase e w ys
    → Phase d w xs
moved {d} {e} {w} {xs} {ys} f g p =
    subst (λ d. Phase d w xs) (sym f) (subst (λ z. Phase e w z) (sym g) p)

module _ (kmalloc : Drops DpPacket → ℕ)
    (fresh : (d : Drops DpPacket) → has (kmalloc d) d.packet_linger ≡ false) where
  node : DpPacket → Drops DpPacket → Node DpPacket
  node x d = record { address = kmalloc d; packet = x }

  add-append_node :
      (x : DpPacket) (d : Drops DpPacket)
      → add kmalloc x d ≡ append_node (node x d) d.packet_linger d.last_pkt_linger d
  unfolding add node
  add-append_node x d = refl

  -- A packet more waits.
  pub Phase-add :
      {d : Drops DpPacket} {w : Bool} {xs : List DpPacket} (x : DpPacket)
      → Phase d w xs
      → Phase (add kmalloc x d) w (xs ++ x ∷ [])
  unfolding node has append_node
  Phase-add x (empty {call}) =
      moved (add-append_node x (state [] none call false)) refl
        (collected [] (node x (state [] none call false)) refl)
  Phase-add x (collected {call} front q h) =
      let d = state (front ++ q ∷ []) (some q.address) call false in
      let new = node x d in
      moved
        (add-append_node x d
          ∙ append_node-append front q new d h
          ∙ ap (λ z. state z (some new.address) call false)
              (sym (append_assoc front (q ∷ []) (new ∷ []))))
        (sym (packets-snoc (front ++ q ∷ []) new)) (collected (front ++ q ∷ []) new (fresh d))
  Phase-add x (given front q b h) =
      let d = state (front ++ q ∷ []) (some q.address) (some q.address) b in
      let new = node x d in
      moved (add-append_node x d ∙ append_node-append front q new d h) refl
        (more front q [] new b h (fresh d))
  Phase-add x (more front p mid q b h i) =
      let d = state (front ++ p ∷ (mid ++ q ∷ [])) (some q.address) (some p.address) b in
      let new = node x d in
      moved (add-append_node x d ∙ append_node-last front p mid q new (some p.address) b i)
        (sym (packets-snoc (mid ++ q ∷ []) new)) (more front p (mid ++ q ∷ []) new b h (fresh d))

pub false-ne-true : false ≡ true → ⊥
false-ne-true e = cc

-- The list is cut behind what was handed out.
pub Phase-delete :
    {d : Drops DpPacket} {w : Bool} {xs : List DpPacket}
    → Phase d w xs
    → d.read_lin ≡ true
    → (e : Drops DpPacket) × (delete_before_last_call_codel d ≡ some e) × Phase e w xs
unfolding delete_before_last_call_codel cut_behind has
Phase-delete empty e = absurd (false-ne-true e)
Phase-delete (collected front q h) e = absurd (false-ne-true e)
Phase-delete (given front q false h) e = absurd (false-ne-true e)
Phase-delete (given front q true h) e =
    (state [] none (some q.address) false, rw (skip_to-append front [] q h) refl, empty)
Phase-delete (more front p mid q false h i) e = absurd (false-ne-true e)
Phase-delete (more front p [] q true h i) e = (
  state (q ∷ []) (some q.address) (some p.address) false,
  rw (skip_to-append front (q ∷ []) p h) refl,
  collected [] q refl,
)
Phase-delete (more front p (m ∷ mid) q true h i) e = (
  state (m ∷ mid ++ q ∷ []) (some q.address) (some p.address) false,
  rw (skip_to-append front (m ∷ mid ++ q ∷ []) p h) refl,
  collected (m ∷ mid) q (has-append q.address front p (m ∷ mid) i),
)
