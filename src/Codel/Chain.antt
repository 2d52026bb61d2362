-- ===== src/Codel/Chain.antt =====
-- A chain of nodes whose last one is known (codel.h): adding behind it, and going to a node.
use controller_project.Base.{
  ℕ, ◌≡◌, refl, List, [], ◌∷◌, ◌++◌, map, Bool, false, ◌||◌, some, ◌==◌, arith,
}
use controller_project.Codel.{Node, Drops, is_at, skip_to, link, append_node}

module _ {X : Type 0} where
  -- Whether a node of a chain lies at an address.
  unfoldable pub has : ℕ → List (Node X) → Bool
  has a [] = false
  has a (n ∷ ns) = (n.address == a) || has a ns

  abbrev pub packets : List (Node X) → List X
  packets ns = map (λ n. n.packet) ns

  pub link-append :
      (front : List (Node X)) (q new : Node X)
      → has q.address front ≡ false
      → link q.address new (front ++ q ∷ []) ≡ front ++ q ∷ new ∷ []
  unfolding link has
  link-append [] q new h = ground arith
  link-append (n ∷ front) q new h = ground (arith, link-append front q new)

  pub skip_to-append :
      (front ns : List (Node X)) (p : Node X)
      → has p.address front ≡ false
      → skip_to (some p.address) (front ++ p ∷ ns) ≡ p ∷ ns
  unfolding skip_to is_at has
  skip_to-append [] ns p h = ground arith
  skip_to-append (n ∷ front) ns p h = ground (arith, skip_to-append front ns p)

  pub append_node-append :
      (front : List (Node X)) (q new : Node X) (d : Drops X)
      → has q.address front ≡ false
      → append_node new (front ++ q ∷ []) (some q.address) d
        ≡ record d { packet_linger = front ++ q ∷ new ∷ []; last_pkt_linger = some new.address }
  unfolding append_node
  append_node-append [] q new d h = rw (link-append [] q new h) refl
  append_node-append (n ∷ front) q new d h = rw (link-append (n ∷ front) q new h) refl
