-- ===== src/Beacons/Entries.antt =====
-- What the list of project/scan.c holds of an access point, after each change.
use controller_project.Base.{
  ℕ, suc, ◌+◌, ◌≤◌, ◌≡◌, refl, List, [], ◌∷◌, ◌++◌, true, false, Option, none, some, if◌then◌else◌,
  arith,
}
use controller_project.Records.{Mac, mac_bytes, DataBeacon}
use controller_project.Wire.Compare.{same_symm, same_trans}
use controller_project.Beacons.{Node, Frame, same_bssid, to_beacon, refreshed, find_beacon, refresh}

-- What the list holds of an access point.
unfoldable pub entry : Mac → List Node → Option DataBeacon
entry b [] = none
entry b (n ∷ ns) = if same_bssid n.beacon.bssid b then some n.beacon else entry b ns

-- A frame on what is held of its access point.
unfoldable pub noted : Frame → Option DataBeacon → Option DataBeacon
noted fr none = some (to_beacon fr)
noted fr (some x) = some (refreshed fr x)

pub entry-refresh :
    (fr : Frame) (b : Mac) (ns : List Node)
    → find_beacon ns fr.bssid ≡ true
    → entry b (refresh fr ns)
      ≡ (if same_bssid fr.bssid b then noted fr (entry b ns) else entry b ns)
unfolding entry refresh noted find_beacon
entry-refresh fr b [] f = cc
entry-refresh fr b (n ∷ ns) f = ground (
  arith,
  entry-refresh fr b ns,
  same_trans (mac_bytes n.beacon.bssid) (mac_bytes fr.bssid) (mac_bytes b),
  same_trans (mac_bytes fr.bssid) (mac_bytes n.beacon.bssid) (mac_bytes b),
  same_symm (mac_bytes n.beacon.bssid) (mac_bytes fr.bssid),
  same_symm (mac_bytes fr.bssid) (mac_bytes b),
  same_trans (mac_bytes n.beacon.bssid) (mac_bytes b) (mac_bytes fr.bssid),
)

find_beacon-entry : (b : Mac) (ns : List Node) → find_beacon ns b ≡ false → entry b ns ≡ none
unfolding entry find_beacon
find_beacon-entry b [] h = refl
find_beacon-entry b (n ∷ ns) h = ground (arith, find_beacon-entry b ns)

pub entry-snoc :
    (fr : Frame) (b : Mac) (ns : List Node) (new : Node)
    → new.beacon ≡ to_beacon fr
    → find_beacon ns fr.bssid ≡ false
    → entry b (ns ++ new ∷ [])
      ≡ (if same_bssid fr.bssid b then noted fr (entry b ns) else entry b ns)
unfolding entry noted find_beacon
entry-snoc fr b [] new e f = ground (arith, e)
entry-snoc fr b (n ∷ ns) new e f = ground (
  arith,
  entry-snoc fr b ns new e,
  same_symm (mac_bytes fr.bssid) (mac_bytes b),
  same_trans (mac_bytes n.beacon.bssid) (mac_bytes b) (mac_bytes fr.bssid),
)

-- How many nodes an access point has.
unfoldable pub occurs : Mac → List Node → ℕ
occurs b [] = 0
occurs b (n ∷ ns) = if same_bssid n.beacon.bssid b then suc (occurs b ns) else occurs b ns

pub occurs-refresh :
    (fr : Frame) (b : Mac) (ns : List Node) → occurs b (refresh fr ns) ≡ occurs b ns
unfolding occurs refresh
occurs-refresh fr b [] = refl
occurs-refresh fr b (n ∷ ns) = ground (
  arith,
  occurs-refresh fr b ns,
  same_trans (mac_bytes n.beacon.bssid) (mac_bytes fr.bssid) (mac_bytes b),
  same_trans (mac_bytes fr.bssid) (mac_bytes n.beacon.bssid) (mac_bytes b),
  same_symm (mac_bytes n.beacon.bssid) (mac_bytes fr.bssid),
)

occurs-none :
    (a b : Mac) (ns : List Node)
    → find_beacon ns a ≡ false
    → same_bssid a b ≡ true
    → occurs b ns ≡ 0
unfolding occurs find_beacon
occurs-none a b [] f e = refl
occurs-none a b (n ∷ ns) f e = ground (
  arith,
  occurs-none a b ns,
  same_symm (mac_bytes a) (mac_bytes b),
  same_trans (mac_bytes n.beacon.bssid) (mac_bytes b) (mac_bytes a),
)

occurs-append :
    (b : Mac) (ns : List Node) (new : Node)
    → occurs b (ns ++ new ∷ []) ≡ occurs b ns + occurs b (new ∷ [])
unfolding occurs
occurs-append b [] new = ground arith
occurs-append b (n ∷ ns) new = ground (arith, occurs-append b ns new)

pub occurs-snoc :
    (b : Mac) (ns : List Node) (new : Node)
    → find_beacon ns new.beacon.bssid ≡ false
    → occurs b ns ≤ 1
    → occurs b (ns ++ new ∷ []) ≤ 1
unfolding occurs
occurs-snoc b ns new f h =
    ground (arith, occurs-append b ns new, occurs-none new.beacon.bssid b ns f)
