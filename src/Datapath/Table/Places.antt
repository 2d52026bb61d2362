-- ===== src/Datapath/Table/Places.antt =====
-- The table `flow_linger` of project/flow.c after a packet.
use controller_project.Base.{
  ℕ, ◌+◌, ◌%◌, ◌^◌, ◌≤◌, ◌<◌, ◌≡◌, ◌≢◌, refl, ap, ◌∙◌, List, [], ◌∷◌, ◌++◌, true, false, ◌==◌,
  if◌then◌else◌, Bool-cases, inl, inr, ==_refl, arith,
}
use controller_project.Datapath.{Packet, Clock}
use controller_project.Datapath.Table.{
  TcpFlow, empty, Flows, to_flow, matches, known, touch, fill, free_places, outdated, age, place,
  track,
}

-- How many places hold the flow of a packet.
unfoldable pub copies : Packet → List TcpFlow → ℕ
copies p [] = 0
copies p (f ∷ fs) = (if matches p f then 1 else 0) + copies p fs

matches-to_flow : (p : Packet) (now : Clock) (w : ℕ) → matches p (to_flow p now w) ≡ true
unfolding matches
matches-to_flow p now w =
    rw (==_refl p.ip_src, ==_refl p.ip_dst, ==_refl p.source, ==_refl p.dest) refl

matches-empty : (p : Packet) → 0 < p.ip_src → matches p empty ≡ false
unfolding matches
matches-empty p h = ground arith

-- An entry of this second stays.
outdated-now :
    (now : Clock) (f : TcpFlow) → f.sec ≡ now.sec → now.sec < 2 ^ 32 → outdated now f ≡ false
unfolding outdated
outdated-now now f e h = ground arith

module _ (p : Packet) (now : Clock) (w : ℕ) (h : 0 < p.ip_src) (k : now.sec < 2 ^ 32) where
  aged_matches :
      (f : TcpFlow) → matches p f ≡ false → matches p (if outdated now f then empty else f) ≡ false
  aged_matches f m = elim (Bool-cases (outdated now f)) [
    | inl o ↦ rw o (matches-empty p h)
    | inr o ↦ rw o m
  ]

  filled_matches :
      (f : TcpFlow)
      → matches p f ≡ false
      → let g = if f.sec == 0 then to_flow p now w else f in
        matches p (if outdated now g then empty else g) ≡ (f.sec == 0)
  filled_matches f m = elim (Bool-cases (f.sec == 0)) [
    | inl e ↦ rw (e, outdated-now now (to_flow p now w) refl k) (matches-to_flow p now w)
    | inr e ↦ rw e (aged_matches f m)
  ]

  copies-fill :
      (fs : List TcpFlow)
      → known p fs ≡ false
      → copies p (age now (fill (to_flow p now w) fs)) ≡ free_places fs
  unfolding copies age fill known free_places
  copies-fill [] n = refl
  copies-fill (f ∷ fs) n = elim (Bool-cases (matches p f)) [
    | inl m ↦ absurd (ground (arith, n))
    | inr m ↦ rw (filled_matches f m, copies-fill fs (ground (arith, n))) refl
  ]

module _ (s : Flows) (p : Packet) (now later : Clock) (w : ℕ) (c : s.flow_count ≢ 0) where
  place_unknown :
      known p s.flow_linger ≡ false
      → (track s p now later w).flow_linger ≡ age now (fill (to_flow p now w) s.flow_linger)
  unfolding track place
  place_unknown n = let z : s.flow_count == 0 ≡ false = ground (arith, c) in rw (z, n) refl

  place_known :
      known p s.flow_linger ≡ true
      → (track s p now later w).flow_linger ≡ age now (touch p later s.flow_linger)
  unfolding track place
  place_known n = let z : s.flow_count == 0 ≡ false = ground (arith, c) in rw (z, n) refl

-- In a table whose count is not zero, a packet of a flow that has no entry gets every free place:
-- afterwards the flow has as many entries as there were free places, none when there was none. The
-- flow has a source address, and the time fits in 32 bits.
pub track_unknown :
    (s : Flows) (p : Packet) (now later : Clock) (w : ℕ)
    → s.flow_count ≢ 0
    → known p s.flow_linger ≡ false
    → 0 < p.ip_src
    → now.sec < 2 ^ 32
    → copies p (track s p now later w).flow_linger ≡ free_places s.flow_linger
track_unknown s p now later w c n h k =
    ap (copies p) (place_unknown s p now later w c n) ∙ copies-fill p now w h k s.flow_linger n

known-append :
    (p : Packet) (pre post : List TcpFlow) (f : TcpFlow)
    → matches p f ≡ true
    → known p (pre ++ f ∷ post) ≡ true
unfolding known
known-append p [] post f m = rw m refl
known-append p (g ∷ pre) post f m = rw (known-append p pre post f m) (ground arith)

-- The entry of the flow after the first loop.
abbrev pub seen_again : TcpFlow → Clock → TcpFlow
seen_again f later = record f {
  sec = later.sec;
  usec = later.usec;
  packets = (f.packets + 1) % 2 ^ 64;
}

touch-append :
    (p : Packet) (later : Clock) (pre post : List TcpFlow) (f : TcpFlow)
    → known p pre ≡ false
    → matches p f ≡ true
    → touch p later (pre ++ f ∷ post) ≡ pre ++ seen_again f later ∷ post
unfolding known touch
touch-append p later [] post f n m = rw m refl
touch-append p later (g ∷ pre) post f n m = elim (Bool-cases (matches p g)) [
  | inl e ↦ absurd (ground (arith, n))
  | inr e ↦ rw e (ap (◌∷◌ g) (touch-append p later pre post f (ground (arith, n)) m))
]

age-append :
    (now : Clock) (pre post : List TcpFlow) → age now (pre ++ post) ≡ age now pre ++ age now post
unfolding age
age-append now [] post = refl
age-append now (f ∷ pre) post =
    ap (◌∷◌ (if outdated now f then empty else f)) (age-append now pre post)

outdated-later :
    (now : Clock) (f : TcpFlow)
    → 2 ≤ now.sec
    → now.sec ≤ f.sec
    → f.sec < 2 ^ 32
    → outdated now f ≡ (if f.sec == now.sec then false else true)
unfolding outdated
outdated-later now f h l k = ground arith

aged_later :
    (now : Clock) (f : TcpFlow)
    → 2 ≤ now.sec
    → now.sec ≤ f.sec
    → f.sec < 2 ^ 32
    → (if outdated now f then empty else f) ≡ (if f.sec == now.sec then f else empty)
aged_later now f h l k =
    rw (outdated-later now f h l k)
      (elim (Bool-cases (f.sec == now.sec)) [ inl e ↦ rw e refl | inr e ↦ rw e refl ])

-- In a table whose count is not zero, a packet of a flow counts in the first entry of the flow; but
-- when the second reading of the clock is in a later second than the first, that entry is cleared.
-- The other entries are kept, or cleared when they are older than two seconds.
pub track-known :
    (s : Flows) (p : Packet) (now later : Clock) (w : ℕ) (pre post : List TcpFlow) (f : TcpFlow)
    → s.flow_count ≢ 0
    → s.flow_linger ≡ pre ++ f ∷ post
    → known p pre ≡ false
    → matches p f ≡ true
    → 2 ≤ now.sec
    → now.sec ≤ later.sec
    → later.sec < 2 ^ 32
    → (track s p now later w).flow_linger
      ≡ age now pre ++ (if later.sec == now.sec then seen_again f later else empty) ∷ age now post
unfolding age
track-known s p now later w pre post f c e n m h l k =
    let g = seen_again f later in
    place_known s p now later w c (rw e (known-append p pre post f m))
    ∙ ap (λ fs. age now (touch p later fs)) e
    ∙ ap (age now) (touch-append p later pre post f n m)
    ∙ age-append now pre (g ∷ post)
    ∙ ap (λ x. age now pre ++ x ∷ age now post) (aged_later now g h l k)
