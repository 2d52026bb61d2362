-- ===== src/Beacons/TimeOut.antt =====
-- Which access points `beacon_time_out` (project/scan.c) leaves in the list.
use controller_project.Base.{
  ℕ, ◌≡◌, ◌⊎◌, refl, sym, ap, ◌∙◌, append_assoc, List, [], ◌∷◌, ◌++◌, Bool, true, false, ◌&&◌, ◌||◌,
  not, Option, none, some, ◌==◌, if◌then◌else◌, Bool-cases, inl, inr, arith,
}
use controller_project.Beacons.{
  Node, Scan, Frame, to_beacon, outdated, del_node, time_out_loop, beacon_time_out, link,
  append_node, hear, find_beacon, is_empty,
}

unfoldable pub has : ℕ → List Node → Bool
has a [] = false
has a (n ∷ ns) = (n.address == a) || has a ns

-- No two nodes lie at one address.
abbrev pub Apart : List Node → Type 0
Apart [] = Unit {0}
Apart (n ∷ ns) = (has n.address ns ≡ false) × Apart ns

unfoldable pub any_outdated : ℕ → List Node → Bool
any_outdated jiffies [] = false
any_outdated jiffies (n ∷ ns) = outdated jiffies n || any_outdated jiffies ns

unfoldable pub recent : ℕ → List Node → List Node
recent jiffies [] = []
recent jiffies (n ∷ ns) = if outdated jiffies n then recent jiffies ns else n ∷ recent jiffies ns

has-append : (a : ℕ) (xs ys : List Node) → has a (xs ++ ys) ≡ (has a xs || has a ys)
unfolding has
has-append a [] ys = refl
has-append a (x ∷ xs) ys = ground (arith, has-append a xs ys)

del_node-append :
    (done : List Node) (n : Node) (ns : List Node)
    → has n.address done ≡ false
    → del_node n.address (done ++ n ∷ ns) ≡ done ++ ns
unfolding del_node has
del_node-append [] n ns h = ground arith
del_node-append (m ∷ done) n ns h = ground (arith, del_node-append done n ns)

-- The nodes before a node that is kept, with it.
module _ (jiffies : ℕ) (done : List Node) (n : Node) (ns : List Node)
    (h : (a : ℕ) → has a (n ∷ ns) ≡ true → has a done ≡ false) (k : Apart (n ∷ ns)) where
  before : (a : ℕ) → has a ns ≡ true → has a done ≡ false
  unfolding has
  before a e = ground (arith, h a)

  at_node : has n.address done ≡ false
  unfolding has
  at_node = ground (arith, h n.address)

  before_kept : (a : ℕ) → has a ns ≡ true → has a (done ++ n ∷ []) ≡ false
  unfolding has
  before_kept a e =
      let other : (n.address == a) ≡ false = apart a e (Bool-cases (n.address == a)) in
      rw has-append (ground (arith, before a, other))
    where
      apart :
          (a : ℕ)
          → has a ns ≡ true
          → ((n.address == a) ≡ true) ⊎ ((n.address == a) ≡ false)
          → (n.address == a) ≡ false
      apart a e (inr f) = f
      apart a e (inl f) = absurd (ground (arith, f, e, k.0))

-- What is left of the loop at a node, with the nodes before it that are kept.
abbrev left_after : Bool → ℕ → List Node → List Node → Option (List Node)
left_after stale jiffies done ns =
    if any_outdated jiffies ns && not stale then none else some (done ++ recent jiffies ns)

always {ℓ} : {A : Type ℓ} (b : Bool) (x : Option A) → (if b && not true then none else x) ≡ x
always true x = refl
always false x = refl

-- A node that is kept.
loop_kept :
    (stale : Bool) (jiffies : ℕ) (done : List Node) (n : Node) (ns : List Node)
    → outdated jiffies n ≡ false
    → time_out_loop stale jiffies ns ((done ++ n ∷ []) ++ ns)
      ≡ left_after stale jiffies (done ++ n ∷ []) ns
    → time_out_loop stale jiffies (n ∷ ns) (done ++ n ∷ ns) ≡ left_after stale jiffies done (n ∷ ns)
unfolding time_out_loop any_outdated recent
loop_kept stale jiffies done n ns t ih = rw t (
    ap (λ z. time_out_loop stale jiffies ns z) (sym (append_assoc done (n ∷ []) ns))
    ∙ ih
    ∙ ap (λ z. if any_outdated jiffies ns && not stale then none else some z)
        (append_assoc done (n ∷ []) (recent jiffies ns)))

time_out_loop-recent :
    (stale : Bool) (jiffies : ℕ) (done ns : List Node)
    → ((a : ℕ) → has a ns ≡ true → has a done ≡ false)
    → Apart ns
    → time_out_loop stale jiffies ns (done ++ ns) ≡ left_after stale jiffies done ns
unfolding time_out_loop any_outdated recent
time_out_loop-recent stale jiffies done [] h k = refl
time_out_loop-recent false jiffies done (n ∷ ns) h k = elim (Bool-cases (outdated jiffies n)) [
  | inl t ↦ rw t refl
  | inr t ↦ loop_kept false jiffies done n ns t (
      time_out_loop-recent false jiffies (done ++ n ∷ []) ns (before_kept jiffies done n ns h k)
        k.1)
]
time_out_loop-recent true jiffies done (n ∷ ns) h k = elim (Bool-cases (outdated jiffies n)) [
  | inl t ↦
      let ih = time_out_loop-recent true jiffies done ns (before jiffies done n ns h k) k.1 in
      rw (t, del_node-append done n ns (at_node jiffies done n ns h k))
        (ih ∙ always (any_outdated jiffies ns) (some (done ++ recent jiffies ns)))
  | inr t ↦ loop_kept true jiffies done n ns t (
      time_out_loop-recent true jiffies (done ++ n ∷ []) ns (before_kept jiffies done n ns h k) k.1)
]

-- When no two nodes lie at one address: with memory that keeps its contents `beacon_time_out` leaves
-- exactly the nodes that are not outdated, in order, and does not touch `beacon_last`; otherwise it
-- reads freed memory exactly when some node is outdated, and changes nothing when none is.
pub beacon_time_out-recent :
    (stale : Bool) (jiffies : ℕ) (s : Scan)
    → Apart s.beacon_global
    → beacon_time_out stale jiffies s ≡ (
        if any_outdated jiffies s.beacon_global && not stale
        then none
        else some (record s { beacon_global = recent jiffies s.beacon_global }))
unfolding beacon_time_out has
beacon_time_out-recent stale jiffies s k =
    let e = time_out_loop-recent stale jiffies [] s.beacon_global (λ a f. refl) k in
    elim (Bool-cases (any_outdated jiffies s.beacon_global && not stale)) [
      | inl t ↦ rw (beacon_time_out, e, t) refl
      | inr t ↦ rw (beacon_time_out, e, t) refl
    ]

-- The last node of a chain.
recent-snoc :
    (jiffies : ℕ) (front : List Node) (q : Node)
    → outdated jiffies q ≡ true
    → recent jiffies (front ++ q ∷ []) ≡ recent jiffies front
unfolding recent
recent-snoc jiffies [] q t = rw t refl
recent-snoc jiffies (n ∷ front) q t =
    ap (λ z. if outdated jiffies n then z else n ∷ z) (recent-snoc jiffies front q t)

has-recent :
    (a jiffies : ℕ) (front : List Node) → has a front ≡ false → has a (recent jiffies front) ≡ false
unfolding has recent
has-recent a jiffies [] h = refl
has-recent a jiffies (n ∷ front) h = ground (arith, has-recent a jiffies front)

Apart-snoc : (front : List Node) (q : Node) → Apart (front ++ q ∷ []) → has q.address front ≡ false
unfolding has
Apart-snoc [] q k = refl
Apart-snoc (n ∷ front) q k =
    ground (arith, has-append n.address front (q ∷ []), k.0, Apart-snoc front q k.1)

link-none : (p : ℕ) (new : Node) (ns : List Node) → has p ns ≡ false → link p new ns ≡ none
unfolding link has
link-none p new [] h = refl
link-none p new (n ∷ ns) h = ground (arith, link-none p new ns)

-- When the node at `beacon_last` is outdated and another stays, the next access point that is new
-- is written behind the node that was freed.
pub beacon_last_dangles :
    (jiffies : ℕ) (front : List Node) (q : Node) (kmalloc : Scan → ℕ) (fr : Frame)
    → Apart (front ++ q ∷ [])
    → outdated jiffies q ≡ true
    → is_empty (recent jiffies front) ≡ false
    → find_beacon (recent jiffies front) fr.bssid ≡ false
    → (t : Scan) × (beacon_time_out true jiffies
          (record { beacon_global = front ++ q ∷ []; beacon_last = some q.address })
        ≡ some t)
      × (t.beacon_global ≡ recent jiffies front)
      × (hear kmalloc fr t ≡ none)
unfolding hear append_node
beacon_last_dangles jiffies front q kmalloc fr k t e f =
    let s : Scan = record { beacon_global = front ++ q ∷ []; beacon_last = some q.address } in
    let new : Node = record {
      address = kmalloc (record s { beacon_global = recent jiffies front });
      beacon = to_beacon fr;
    } in
    (
      record s { beacon_global = recent jiffies front },
      beacon_time_out-recent true jiffies s k
          ∙ always (any_outdated jiffies (front ++ q ∷ []))
              (some (record s { beacon_global = recent jiffies (front ++ q ∷ []) }))
          ∙ ap (λ z. some (record s { beacon_global = z })) (recent-snoc jiffies front q t),
      refl,
      rw
          (
            hear,
            e,
            f,
            append_node,
            link-none q.address new (recent jiffies front)
                (has-recent q.address jiffies front (Apart-snoc front q k)),
          )
          refl,
    )
