-- ===== src/Receiver/Flows/Insert.antt =====
-- Where `insert_flow_info` puts a flow.
use controller_project.Base.{
  ℕ, zero, suc, ◌+◌, ◌≤◌, ◌<◌, ◌≡◌, ◌≢◌, ◌⊎◌, inl, inr, refl, ◌∙◌, List, [], ◌∷◌, none, some,
  length, ltb, ◌==◌, Bool-cases, Option-cases, ==_iff, ltb→lt, ltb→le, arith,
}
use controller_project.Records.{DataWinsize}
use controller_project.Receiver.Flows.{
  WinsizeRecord, modify, place, free_slot, oldest_slot, full_slot, insert_flow_info,
}

-- The start of a slot's record, by index.
abbrev pub port_at : List WinsizeRecord → ℕ → ℕ
port_at [] i = 0
port_at (t ∷ ts) zero = t.sourceaddr
port_at (t ∷ ts) (suc i) = port_at ts i

abbrev pub sec_at : List WinsizeRecord → ℕ → ℕ
sec_at [] i = 0
sec_at (t ∷ ts) zero = t.sec
sec_at (t ∷ ts) (suc i) = sec_at ts i

-- Slot `i` is the first free one.
pub record FirstFree (table : List WinsizeRecord) (i : ℕ) : Type 0 where
  pub inside : i < length table
  pub free : port_at table i ≡ 0
  pub first : (j : ℕ) → j < i → port_at table j ≢ 0

-- No slot is free, and slot `i` is as old as any.
pub record Oldest (table : List WinsizeRecord) (i : ℕ) : Type 0 where
  pub inside : i < length table
  pub full : (j : ℕ) → j < length table → port_at table j ≢ 0
  pub oldest : (j : ℕ) → j < length table → sec_at table i ≤ sec_at table j

ports_cons :
    (t : WinsizeRecord) (ts : List WinsizeRecord) (n : ℕ)
    → t.sourceaddr ≢ 0
    → ((j : ℕ) → j < n → port_at ts j ≢ 0)
    → (j : ℕ) → j < suc n
    → port_at (t ∷ ts) j ≢ 0
ports_cons t ts n a h zero l = a
ports_cons t ts n a h (suc j) l = h j (omega arith)

some-inj : {i j : ℕ} → some i ≡ some j → i ≡ j
some-inj e = cc

none-ne-some : {i : ℕ} → none ≡ some i → ⊥
none-ne-some e = cc

some-ne-none : {i : ℕ} → some i ≡ none → ⊥
some-ne-none e = cc

secs_cons :
    (t : WinsizeRecord) (ts : List WinsizeRecord) (m : ℕ)
    → m ≤ t.sec
    → ((j : ℕ) → j < length ts → m ≤ sec_at ts j)
    → (j : ℕ) → j < length (t ∷ ts)
    → m ≤ sec_at (t ∷ ts) j
secs_cons t ts m a h zero l = a
secs_cons t ts m a h (suc j) l = h j (omega arith)

free_slot-some :
    (table : List WinsizeRecord) (b i : ℕ)
    → free_slot table b ≡ some i
    → (k : ℕ) × (i ≡ b + k) × FirstFree table k
unfolding free_slot
free_slot-some [] b i e = absurd (none-ne-some e)
free_slot-some (t ∷ ts) b i e = elim (Bool-cases (t.sourceaddr == 0)) [
  | inl z ↦
      let q : b ≡ i = some-inj (rw z at e) in
      (
        0,
        omega arith,
        record {
          inside = omega arith;
          free = (==_iff t.sourceaddr 0).0 z;
          first = λ j l. elim l [ ];
        },
      )
  | inr z ↦
      let (k, q, f) = free_slot-some ts (b + 1) i (rw z at e) in
      let used : t.sourceaddr ≢ 0 = λ a. ground arith in
      (
        suc k,
        omega arith,
        record {
          inside = omega (arith, f.inside);
          free = f.free;
          first = ports_cons t ts k used f.first;
        },
      )
]

free_slot-none :
    (table : List WinsizeRecord) (b : ℕ)
    → free_slot table b ≡ none
    → (j : ℕ) → j < length table
    → port_at table j ≢ 0
unfolding free_slot
free_slot-none [] b e j l = elim l [ ]
free_slot-none (t ∷ ts) b e j l = elim (Bool-cases (t.sourceaddr == 0)) [
  | inl z ↦ absurd (some-ne-none (rw z at e))
  | inr z ↦
      ports_cons t ts (length ts) (λ a. ground arith)
        (λ k m. free_slot-none ts (b + 1) (rw z at e) k m) j l
]

-- The slot that the second loop ends with, from slot `b` on with `m` seconds at slot `best`.
oldest_slot_lem :
    (ts : List WinsizeRecord) (b m best : ℕ)
    → ((oldest_slot ts b m best ≡ best) × ((j : ℕ) → j < length ts → m ≤ sec_at ts j))
      ⊎ ((k : ℕ) × (oldest_slot ts b m best ≡ b + k)
          × (k < length ts)
          × (sec_at ts k ≤ m)
          × ((j : ℕ) → j < length ts → sec_at ts k ≤ sec_at ts j))
unfolding oldest_slot
oldest_slot_lem [] b m best = inl (refl, λ j l. elim l [ ])
oldest_slot_lem (t ∷ ts) b m best = elim (Bool-cases (ltb t.sec m)) [
  | inl z ↦ elim (oldest_slot_lem ts (b + 1) t.sec b) [
    | inl (e, h) ↦ inr (
      0,
      rw z (e ∙ omega arith),
      omega arith,
      omega (arith, ltb→lt t.sec m z),
      secs_cons t ts t.sec (omega arith) h,
    )
    | inr (k, e, l, a, h) ↦ inr (
      suc k,
      rw z (e ∙ omega arith),
      omega arith,
      omega (arith, ltb→lt t.sec m z),
      secs_cons t ts (sec_at ts k) a h,
    )
  ]
  | inr z ↦ elim (oldest_slot_lem ts (b + 1) m best) [
    | inl (e, h) ↦ inl (rw z e, secs_cons t ts m (ltb→le t.sec m z) h)
    | inr (k, e, l, a, h) ↦ inr (
      suc k,
      rw z (e ∙ omega arith),
      omega arith,
      a,
      secs_cons t ts (sec_at ts k) (omega (arith, ltb→le t.sec m z)) h,
    )
  ]
]

full_slot-Oldest :
    (table : List WinsizeRecord)
    → 0 < length table
    → ((j : ℕ) → j < length table → port_at table j ≢ 0)
    → Oldest table (full_slot table)
unfolding full_slot
full_slot-Oldest [] h f = absurd (omega arith)
full_slot-Oldest (t ∷ ts) h f = elim (oldest_slot_lem ts 1 t.sec 0) [
  | inl (e, o) ↦
      rw e
        (record { inside = omega arith; full = f; oldest = secs_cons t ts t.sec (omega arith) o })
  | inr (k, e, l, a, o) ↦
      let e' : oldest_slot ts 1 t.sec 0 ≡ suc k = omega arith in
      rw e' (record { inside = omega arith; full = f; oldest = secs_cons t ts (sec_at ts k) a o })
]

-- `insert_flow_info` writes one slot and no other of a table that has slots: the first free one, or,
-- if there is none, one whose `sec`, the time of its own insertion, is as small as any. An occupied
-- slot is never written while another is free.
pub insert_flow_info_lem :
    (table : List WinsizeRecord) (p : DataWinsize)
    → 0 < length table
    → (i : ℕ) × (insert_flow_info table p ≡ modify table i (place p))
      × (FirstFree table i ⊎ Oldest table i)
unfolding insert_flow_info
insert_flow_info_lem table p h = elim (Option-cases (free_slot table 0)) [
  | inl e ↦ (
    full_slot table,
    rw (e, insert_flow_info) refl,
    inr (full_slot-Oldest table h (free_slot-none table 0 e)),
  )
  | inr (i, e) ↦
      let (k, q, f) = free_slot-some table 0 i e in
      let q' : i ≡ k = omega arith in (k, rw (e, insert_flow_info, q') refl, inl f)
]
