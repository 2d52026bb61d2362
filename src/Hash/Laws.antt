-- ===== src/Hash/Laws.antt =====
-- The table as a map: what a lookup reads after an insertion or a removal.
use controller_project.Base.{
  ℕ, ◌≤◌, ◌<◌, ◌≡◌, List, ◌∷◌, Bool, false, ◌&&◌, Option, none, some, leb, le→leb, ◌==◌, ==_iff,
  if◌then◌else◌, Bool-cases, Option-cases, inl, inr, ◌∙◌, arith,
}
use controller_project.Wire.Compare.{same, same_congr}
use controller_project.Hash.{
  HashNode, HashTable, hash_table_max_size, pos, c_string, find, found_skey, overwrite, unlink, at,
  hash_table_insert, hash_table_remove, hash_table_lookup,
}
use controller_project.Hash.Chain.{
  read, IsKey, same-c_string, find-overwrite, find-unlink, none-occurs, occurs_congr, occurs-none,
}
use controller_project.Hash.Size.{IsValid}

-- What the table holds under a key: value and time.
abbrev pub stored : HashTable → List ℕ → Option (ℕ × ℕ)
stored t k = read (hash_table_lookup t k)

-- Two keys are one to the table if they lie in one chain and agree in their first six bytes.
abbrev pub same_entry : List ℕ → List ℕ → Bool
same_entry j k = (pos j == pos k) && same j k

read-at :
    (t : HashTable) (k j : List ℕ) (c : List HashNode) (r : Option (ℕ × ℕ))
    → read (find c j) ≡ (if same j k then r else read (find (t.chains (pos k)) j))
    → read (find (at t.chains (pos k) c (pos j)) j)
      ≡ (if same_entry j k then r else read (find (t.chains (pos j)) j))
read-at t k j c r h = elim (Bool-cases (pos j == pos k)) [
  | inl e ↦ let q : pos j ≡ pos k = (==_iff (pos j) (pos k)).0 e in rw (e, q) h
  | inr e ↦ rw e
]

find-new :
    (c : List HashNode) (k j : List ℕ) (v time : ℕ)
    → IsKey k
    → read (find (record { s_key = c_string k; time = time; n_value = v } ∷ c) j)
      ≡ (if same j k then some (v, time) else read (find c j))
unfolding find
find-new c k j v time key =
    let e = same_congr (c_string k) k j (same-c_string k key) in
    elim (Bool-cases (same j k)) [ inl f ↦ rw (e, f) | inr f ↦ rw (e, f) ]

-- A key that a chain does not hold reads as nothing there.
find-absent :
    (c : List HashNode) (k j : List ℕ)
    → find c k ≡ none
    → read (find c j) ≡ (if same j k then none else read (find c j))
find-absent c k j e = elim (Bool-cases (same j k)) [
  | inl f ↦ rw (f, occurs-none c j (occurs_congr c j k f ∙ none-occurs c k e))
  | inr f ↦ rw f
]

-- Until the table is full, an insertion stores the value and the time for its key, whether the key
-- was there or not, and changes what is stored for no key of another entry. The key has no `0` in its
-- first six bytes. Keys of one chain that agree in these bytes are one entry, as the code compares
-- no more: a lookup of one finds what was stored for the other.
pub lookup-insert :
    (t : HashTable) (k j : List ℕ) (v time : ℕ)
    → t.hash_table_size < hash_table_max_size
    → IsKey k
    → stored (hash_table_insert t k v time) j
      ≡ (if same_entry j k then some (v, time) else stored t j)
unfolding hash_table_insert hash_table_lookup
lookup-insert t k j v time room key =
    let e : leb hash_table_max_size t.hash_table_size ≡ false = ground arith in
    let chain = t.chains (pos k) in
    elim (Bool-cases (found_skey chain k)) [
      | inl f ↦
          rw (e, hash_table_insert, f)
            (read-at t k j (overwrite chain k v time) (some (v, time))
              (find-overwrite chain k j v time f))
      | inr f ↦
          rw (e, hash_table_insert, f)
            (read-at t k j _ (some (v, time)) (find-new chain k j v time key))
    ]

-- A full table ignores every insertion, also one that would only change a value.
pub insert-full :
    (t : HashTable) (k : List ℕ) (v time : ℕ)
    → hash_table_max_size ≤ t.hash_table_size
    → hash_table_insert t k v time ≡ t
unfolding hash_table_insert
insert-full t k v time h = rw (le→leb hash_table_max_size t.hash_table_size h)

read-absent :
    (t : HashTable) (k j : List ℕ)
    → read (find (t.chains (pos k)) j)
      ≡ (if same j k then none else read (find (t.chains (pos k)) j))
    → read (find (t.chains (pos j)) j)
      ≡ (if same_entry j k then none else read (find (t.chains (pos j)) j))
read-absent t k j h = elim (Bool-cases (pos j == pos k)) [
  | inl e ↦ let q : pos j ≡ pos k = (==_iff (pos j) (pos k)).0 e in rw (e, q) h
  | inr e ↦ rw e
]

-- When no chain holds an entry twice and the size counter is the number of nodes, a removal
-- takes the entry of its key out of the table and changes what is stored for no key of another
-- entry. Keys of one chain that agree in their first six bytes are one entry: each of them is
-- removed with the other.
pub lookup-remove :
    (t : HashTable) (k j : List ℕ)
    → IsValid t
    → stored (hash_table_remove t k) j ≡ (if same_entry j k then none else stored t j)
unfolding hash_table_remove hash_table_lookup
lookup-remove t k j h =
    let chain = t.chains (pos k) in
    elim (Option-cases (find chain k)) [
      | inl e ↦ rw (e, hash_table_remove) (read-absent t k j (find-absent chain k j e))
      | inr (n, e) ↦
          rw (e, hash_table_remove)
            (read-at t k j (unlink chain k) none (find-unlink chain k j (h.unique (pos k) k)))
    ]
