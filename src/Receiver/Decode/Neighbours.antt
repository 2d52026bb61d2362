-- ===== src/Receiver/Decode/Neighbours.antt =====
-- The list of neighbours in EXP/receive.c.
use controller_project.Base.{
  ℕ, ◌≡◌, refl, ap, Option, none, some, List, [], ◌∷◌, true, false, if◌then◌else◌, Bool, Bool-cases,
  inl, inr,
}
use controller_project.Wire.Compare.{same}
use controller_project.Records.{Mac, mac_bytes}
use controller_project.Receiver.Decode.{StationList, outdated, age_rest, age}

-- The elements that are not outdated.
unfoldable pub current : ℕ → List StationList → List StationList
current now [] = []
current now (t ∷ ts) = if outdated now t then current now ts else t ∷ current now ts

age_rest-current :
    (now : ℕ) (ts : List StationList) → current now (age_rest now ts) ≡ current now ts
unfolding age_rest current
age_rest-current now [] = refl
age_rest-current now (t ∷ []) = elim (Bool-cases (outdated now t)) [
  | inl e ↦ rw e refl
  | inr e ↦ rw (e, e) refl
]
age_rest-current now (t ∷ u ∷ ts) = elim (Bool-cases (outdated now t)) [
  | inl e ↦ elim (Bool-cases (outdated now u)) [
    | inl f ↦ rw (e, f) (age_rest-current now ts)
    | inr f ↦ rw (e, f) (ap (λ l. u ∷ l) (age_rest-current now ts))
  ]
  | inr e ↦ rw (e, e) (ap (λ l. t ∷ l) (age_rest-current now (u ∷ ts)))
]

-- Removing outdated neighbours loses none that is not outdated and keeps their order.
pub age-current : (now : ℕ) (ts : List StationList) → current now (age now ts) ≡ current now ts
unfolding age current
age-current now [] = refl
age-current now (t ∷ ts) = elim (Bool-cases (outdated now t)) [
  | inl e ↦ rw e (age-current now ts)
  | inr e ↦ rw (e, e) (ap (λ l. t ∷ l) (age_rest-current now ts))
]

-- What is left of a list: every neighbour that is not outdated, as it was and in order; and of the
-- outdated ones, as they were too, none but such as stand directly behind one that is removed. The
-- `Bool` says whether the one in front was removed.
pub data Aged (now : ℕ) : Bool → List StationList → List StationList → Type 0 where
  done : {removed : Bool} → Aged now removed [] []
  kept :
      {removed : Bool} (t : StationList) {ts us : List StationList}
      → outdated now t ≡ false
      → Aged now false ts us
      → Aged now removed (t ∷ ts) (t ∷ us)
  passed :
      (t : StationList) {ts us : List StationList}
      → outdated now t ≡ true
      → Aged now false ts us
      → Aged now true (t ∷ ts) (t ∷ us)
  removed_at :
      {removed : Bool} (t : StationList) {ts us : List StationList}
      → outdated now t ≡ true
      → Aged now true ts us
      → Aged now removed (t ∷ ts) us

-- The time under which a station stands in the list.
unfoldable pub time_of : Mac → List StationList → Option ℕ
time_of j [] = none
time_of j (t ∷ ts) = if same (mac_bytes j) (mac_bytes t.station) then some t.sec else time_of j ts
