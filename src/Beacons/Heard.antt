-- ===== src/Beacons/Heard.antt =====
-- What the list of project/scan.c holds of each access point while none is outdated.
use controller_project.Base.{
  ℕ, ◌+◌, ◌^◌, ◌≤◌, ◌<◌, ◌≡◌, ◌⊎◌, refl, ap, ◌∙◌, List, [], ◌∷◌, ◌++◌, Bool, true, false, ◌&&◌, not,
  Option, none, some, ◌==◌, if◌then◌else◌, Bool-cases, inl, inr, ==_refl, arith,
}
use controller_project.Records.{Mac, DataBeacon}
use controller_project.Beacons.{
  Node, Scan, Frame, same_bssid, find_beacon, refresh, link, append_node, is_empty, to_node, hear,
  outdated, time_out_loop, beacon_time_out, scan_rx, run, no_beacons,
}
use controller_project.Beacons.TimeOut.{has}
use controller_project.Beacons.Entries.{
  entry, noted, entry-refresh, entry-snoc, occurs, occurs-refresh, occurs-snoc,
}

-- Whether the last node of a chain, and no other, lies at an address.
unfoldable pub last_at : ℕ → List Node → Bool
last_at p [] = false
last_at p (n ∷ []) = n.address == p
last_at p (n ∷ m ∷ ns) = not (n.address == p) && last_at p (m ∷ ns)

last_at-refresh : (p : ℕ) (fr : Frame) (ns : List Node) → last_at p (refresh fr ns) ≡ last_at p ns
unfolding last_at refresh
last_at-refresh p fr [] = refl
last_at-refresh p fr (n ∷ []) = ground arith
last_at-refresh p fr (n ∷ m ∷ ns) = ground (arith, last_at-refresh p fr (m ∷ ns))

link-last_at :
    (p : ℕ) (new : Node) (ns : List Node)
    → last_at p ns ≡ true
    → link p new ns ≡ some (ns ++ new ∷ [])
unfolding last_at link
link-last_at p new [] h = cc
link-last_at p new (n ∷ []) h = ground arith
link-last_at p new (n ∷ m ∷ ns) h = ground (arith, link-last_at p new (m ∷ ns))

append_node-last_at :
    (p : ℕ) (new : Node) (s : Scan)
    → s.beacon_last ≡ some p
    → last_at p s.beacon_global ≡ true
    → append_node new s
      ≡ some
          (record { beacon_global = s.beacon_global ++ new ∷ []; beacon_last = some new.address })
unfolding append_node
append_node-last_at p new s e l = rw (append_node, e, link-last_at p new s.beacon_global l) refl

last_at-snoc :
    (new : Node) (ns : List Node)
    → has new.address ns ≡ false
    → last_at new.address (ns ++ new ∷ []) ≡ true
unfolding last_at has
last_at-snoc new [] h = ground arith
last_at-snoc new (n ∷ []) h = ground arith
last_at-snoc new (n ∷ m ∷ ns) h = ground (arith, last_at-snoc new (m ∷ ns))

-- Every access point of the list was heard within a second, by clocks that do not wrap around.
abbrev Within : ℕ → List Node → Type 0
Within t [] = Unit {0}
Within t (n ∷ ns) = (t ≤ n.beacon.timein) × (n.beacon.timein ≤ t + 1000) × Within t ns

abbrev InTime : ℕ → Frame → Type 0
InTime t fr = (t ≤ fr.jiffies) × (fr.jiffies ≤ t + 1000)

abbrev pub AllInTime : ℕ → List Frame → Type 0
AllInTime t [] = Unit {0}
AllInTime t (fr ∷ frs) = InTime t fr × AllInTime t frs

Within-refresh :
    (t : ℕ) (fr : Frame) (ns : List Node) → InTime t fr → Within t ns → Within t (refresh fr ns)
unfolding refresh
Within-refresh t fr [] i w = tt
Within-refresh t fr (n ∷ ns) i w = elim (Bool-cases (same_bssid n.beacon.bssid fr.bssid)) [
  | inl e ↦ rw e (i.0, i.1, w.2)
  | inr e ↦ rw e (w.0, w.1, Within-refresh t fr ns i w.2)
]

Within-snoc :
    (t : ℕ) (ns : List Node) (new : Node)
    → Within t ns
    → Within t (new ∷ [])
    → Within t (ns ++ new ∷ [])
Within-snoc t [] new w v = v
Within-snoc t (n ∷ ns) new w v = (w.0, w.1, Within-snoc t ns new w.2 v)

-- Nothing is outdated, so nothing is deleted.
time_out_loop-Within :
    (stale : Bool) (t jiffies : ℕ) (ns chain : List Node)
    → t ≤ jiffies
    → jiffies ≤ t + 1000
    → t + 1000 < 2 ^ 31
    → Within t ns
    → time_out_loop stale jiffies ns chain ≡ some chain
unfolding time_out_loop outdated
time_out_loop-Within stale t jiffies [] chain l u b w = refl
time_out_loop-Within stale t jiffies (n ∷ ns) chain l u b w =
    ground (arith, w.0, w.1, time_out_loop-Within stale t jiffies ns chain l u b w.2)

-- The list is empty, or `beacon_last` is its last node.
abbrev Linked : Scan → Type 0
Linked s =
    (s.beacon_global ≡ [])
    ⊎ ((p : ℕ) × (s.beacon_last ≡ some p) × (last_at p s.beacon_global ≡ true))

record Holds (t : ℕ) (s : Scan) : Type 0 where
  linked : Linked s
  within : Within t s.beacon_global
  once : (b : Mac) → occurs b s.beacon_global ≤ 1

-- A frame is noted in the entry of its access point.
abbrev Notes : Frame → Scan → Scan → Type 0
Notes fr s s' =
    (b : Mac)
    → entry b s'.beacon_global ≡ (
        if same_bssid fr.bssid b
        then noted fr (entry b s.beacon_global)
        else entry b s.beacon_global)

not_empty : (p : ℕ) (ns : List Node) → last_at p ns ≡ true → is_empty ns ≡ false
unfolding last_at
not_empty p [] h = cc
not_empty p (n ∷ ns) h = refl

-- What is held of an access point after the frames, by what was held before.
unfoldable pub summary : Mac → List Frame → Option DataBeacon → Option DataBeacon
summary b [] x = x
summary b (fr ∷ frs) x = summary b frs (if same_bssid fr.bssid b then noted fr x else x)

module _ (kmalloc : Scan → ℕ) (fresh : (s : Scan) → has (kmalloc s) s.beacon_global ≡ false)
    (t : ℕ) where
  abbrev Heard : Frame → Scan → Type 0
  Heard fr s = (s' : Scan) × (hear kmalloc fr s ≡ some s') × Holds t s' × Notes fr s s'

  -- The first access point.
  hear_first : (fr : Frame) (s : Scan) → InTime t fr → s.beacon_global ≡ [] → Heard fr s
  unfolding hear last_at entry occurs
  hear_first fr s i e =
      let new = to_node kmalloc fr s in
      (
        record { beacon_global = new ∷ []; beacon_last = some (kmalloc s) },
        rw (hear, e) refl,
        record {
          linked = inr (kmalloc s, refl, ==_refl (kmalloc s));
          within = (i.0, i.1, tt);
          once = λ b. ground arith;
        },
        λ b. rw e (entry-snoc fr b [] new refl refl),
      )

  -- One that is in the list.
  hear_known :
      (fr : Frame) (s : Scan) (p : ℕ)
      → InTime t fr
      → Within t s.beacon_global
      → ((b : Mac) → occurs b s.beacon_global ≤ 1)
      → s.beacon_last ≡ some p
      → last_at p s.beacon_global ≡ true
      → find_beacon s.beacon_global fr.bssid ≡ true
      → Heard fr s
  unfolding hear
  hear_known fr s p i w o e l f = (
    record s { beacon_global = refresh fr s.beacon_global },
    rw (hear, not_empty p s.beacon_global l, f) refl,
    record {
      linked = inr (p, e, last_at-refresh p fr s.beacon_global ∙ l);
      within = Within-refresh t fr s.beacon_global i w;
      once = λ b. rw (occurs-refresh fr b s.beacon_global) (o b);
    },
    λ b. entry-refresh fr b s.beacon_global f,
  )

  -- One that is new.
  hear_new :
      (fr : Frame) (s : Scan) (p : ℕ)
      → InTime t fr
      → Within t s.beacon_global
      → ((b : Mac) → occurs b s.beacon_global ≤ 1)
      → s.beacon_last ≡ some p
      → last_at p s.beacon_global ≡ true
      → find_beacon s.beacon_global fr.bssid ≡ false
      → Heard fr s
  unfolding hear append_node
  hear_new fr s p i w o e l f =
      let new = to_node kmalloc fr s in
      (
        record { beacon_global = s.beacon_global ++ new ∷ []; beacon_last = some (kmalloc s) },
        rw (hear, not_empty p s.beacon_global l, f, append_node-last_at p new s e l) refl,
        record {
          linked = inr (kmalloc s, refl, last_at-snoc new s.beacon_global (fresh s));
          within = Within-snoc t s.beacon_global new w (i.0, i.1, tt);
          once = λ b. occurs-snoc b s.beacon_global new f (o b);
        },
        λ b. entry-snoc fr b s.beacon_global new refl f,
      )

  Holds-hear : (fr : Frame) (s : Scan) → InTime t fr → Holds t s → Heard fr s
  Holds-hear fr s i h = elim h.linked [
    | inl e ↦ hear_first fr s i e
    | inr (p, e, l) ↦ elim (Bool-cases (find_beacon s.beacon_global fr.bssid)) [
      | inl f ↦ hear_known fr s p i h.within h.once e l f
      | inr f ↦ hear_new fr s p i h.within h.once e l f
    ]
  ]

  Holds-scan_rx :
      (stale : Bool) (fr : Frame) (s : Scan)
      → t + 1000 < 2 ^ 31
      → InTime t fr
      → Holds t s
      → (s' : Scan) × (scan_rx stale kmalloc fr s ≡ some s') × Holds t s' × Notes fr s s'
  unfolding scan_rx beacon_time_out
  Holds-scan_rx stale fr s b i h =
      let (s', e, h', n) = Holds-hear fr s i h in
      let same =
        time_out_loop-Within stale t fr.jiffies s'.beacon_global s'.beacon_global i.0 i.1 b
          h'.within in
      (s', rw (scan_rx, e, beacon_time_out, same) refl, h', n)

  Holds-run :
      (stale : Bool) (frs : List Frame) (s : Scan)
      → t + 1000 < 2 ^ 31
      → AllInTime t frs
      → Holds t s
      → (s' : Scan) × (run stale kmalloc frs s ≡ some s')
        × ((b : Mac) → occurs b s'.beacon_global ≤ 1)
        × ((b : Mac) → entry b s'.beacon_global ≡ summary b frs (entry b s.beacon_global))
  unfolding run summary
  Holds-run stale [] s b i h = (s, refl, h.once, λ m. refl)
  Holds-run stale (fr ∷ frs) s b i h =
      let (u, e, h', n) = Holds-scan_rx stale fr s b i.0 h in
      let (v, f, o, m) = Holds-run stale frs u b i.1 h' in
      (v, rw (run, e) f, o, λ k. m k ∙ ap (summary k frs) (n k))

  -- While the access points are heard within a second, by a clock that does not wrap around, no step
  -- fails, and the list has one node for each of them, with the time at which it was first heard and
  -- the rest as it was last heard, and none for those that were not heard. `kmalloc` returns the address of no
  -- node of the list.
  pub run-summary :
      (stale : Bool) (frs : List Frame)
      → t + 1000 < 2 ^ 31
      → AllInTime t frs
      → (s' : Scan) × (run stale kmalloc frs no_beacons ≡ some s')
        × ((b : Mac) → occurs b s'.beacon_global ≤ 1)
        × ((b : Mac) → entry b s'.beacon_global ≡ summary b frs none)
  unfolding entry occurs
  run-summary stale frs b i =
      Holds-run stale frs no_beacons b i
        (record { linked = inl refl; within = tt; once = λ b. omega arith })
