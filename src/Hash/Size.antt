-- ===== src/Hash/Size.antt =====
-- `hash_table_size` is the number of nodes, and no chain holds a key twice.
use controller_project.Base.{
  ℕ, zero, suc, ◌+◌, ◌-◌, ◌≤◌, ◌<◌, ◌≡◌, refl, List, [], ◌∷◌, Bool, true, false, length, leb, ◌==◌,
  ==_iff, ==_refl, if◌then◌else◌, Bool-cases, Option-cases, inl, inr, arith,
}
use controller_project.Wire.Compare.{same, same_congr}
use controller_project.Hash.{
  HashNode, HashTable, hash_table_max_size, hash_table_init, pos, c_string, find, found_skey,
  overwrite, unlink, at, hash_table_insert, hash_table_remove, count_count, print_exits,
}
use controller_project.Hash.Chain.{
  occurs, IsKey, same-c_string, occurs-overwrite, length-overwrite, not_found-occurs, occurs_congr,
  occurs-unlink, length-unlink,
}

pub record IsValid (t : HashTable) : Type 0 where
  pub unique : (i : ℕ) (k : List ℕ) → occurs (t.chains i) k ≤ 1
  pub counted : count_count t.chains hash_table_max_size ≡ t.hash_table_size

pos-lt : (k : List ℕ) → pos k < hash_table_max_size
unfolding pos
pos-lt k = omega arith

count_above :
    (chains : ℕ → List HashNode) (p n : ℕ) (c : List HashNode)
    → n ≤ p
    → count_count (at chains p c) n ≡ count_count chains n
unfolding count_count
count_above chains p zero c h = refl
count_above chains p (suc n) c h = ground (arith, count_above chains p n c)

count-at :
    (chains : ℕ → List HashNode) (p n : ℕ) (c : List HashNode)
    → p < n
    → count_count (at chains p c) n + length (chains p) ≡ count_count chains n + length c
unfolding count_count
count-at chains p zero c h = elim h [ ]
count-at chains p (suc n) c h = elim (Bool-cases (n == p)) [
  | inl e ↦
      let q : n ≡ p = (==_iff n p).0 e in
      rw (e, q) (omega (arith, count_above chains p p c (omega arith)))
  | inr e ↦ rw e (omega (arith, count-at chains p n c (ground arith)))
]

unique-at :
    (chains : ℕ → List HashNode) (p : ℕ) (c : List HashNode)
    → ((i : ℕ) (k : List ℕ) → occurs (chains i) k ≤ 1)
    → ((k : List ℕ) → occurs c k ≤ 1)
    → (i : ℕ) (k : List ℕ) → occurs (at chains p c i) k ≤ 1
unique-at chains p c h g i k = elim (Bool-cases (i == p)) [
  | inl e ↦ rw e (g k)
  | inr e ↦ rw e (h i k)
]

-- A new node in front of a chain that does not hold its key.
new_unique :
    (c : List HashNode) (node : HashNode) (k : List ℕ)
    → ((j : List ℕ) → occurs c j ≤ 1)
    → same node.s_key k ≡ true
    → occurs c k ≡ 0
    → (j : List ℕ) → occurs (node ∷ c) j ≤ 1
unfolding occurs
new_unique c node k h e z j =
    let once = h j in ground (arith, once, occurs_congr c j k, same_congr node.s_key k j)

count-empty : (n : ℕ) → count_count (λ _. []) n ≡ 0
unfolding count_count
count-empty zero = refl
count-empty (suc n) = omega (arith, count-empty n)

occurs-nil : (k : List ℕ) → occurs [] k ≤ 1
unfolding occurs
occurs-nil k = omega arith

pub hash_table_init-IsValid : IsValid hash_table_init
unfolding hash_table_init
hash_table_init-IsValid = record {
  unique = λ i k. occurs-nil k;
  counted = count-empty hash_table_max_size;
}

put-IsValid :
    (t : HashTable) (p size : ℕ) (c : List HashNode)
    → IsValid t
    → p < hash_table_max_size
    → ((k : List ℕ) → occurs c k ≤ 1)
    → size + length (t.chains p) ≡ t.hash_table_size + length c
    → IsValid (record { chains = at t.chains p c; hash_table_size = size })
put-IsValid t p size c h l u e = record {
  unique = unique-at t.chains p c h.unique u;
  counted = omega (arith, h.counted, count-at t.chains p hash_table_max_size c l);
}

pub insert-IsValid :
    {t : HashTable} (k : List ℕ) (v time : ℕ)
    → IsKey k
    → IsValid t
    → IsValid (hash_table_insert t k v time)
unfolding hash_table_insert
insert-IsValid {t} k v time key h = elim (Bool-cases (leb hash_table_max_size t.hash_table_size)) [
  | inl e ↦ rw (e, hash_table_insert) h
  | inr e ↦ elim (Bool-cases (found_skey (t.chains (pos k)) k)) [
    | inl f ↦
        let chain = t.chains (pos k) in
        rw (e, hash_table_insert, f)
          (put-IsValid t (pos k) t.hash_table_size (overwrite chain k v time) h (pos-lt k)
            (λ j. rw (occurs-overwrite chain k j v time) (h.unique (pos k) j))
            (omega (arith, length-overwrite chain k v time)))
    | inr f ↦
        let chain = t.chains (pos k) in
        let node : HashNode = record { s_key = c_string k; time = time; n_value = v } in
        rw (e, hash_table_insert, f)
          (put-IsValid t (pos k) (t.hash_table_size + 1) (node ∷ chain) h (pos-lt k)
            (new_unique chain node k (h.unique (pos k)) (same-c_string k key)
              (not_found-occurs chain k f))
            (omega arith))
  ]
]

if-le : (b : Bool) (n : ℕ) → n ≤ 1 → (if b then 0 else n) ≤ 1
if-le true n h = omega arith
if-le false n h = h

pub remove-IsValid : {t : HashTable} (k : List ℕ) → IsValid t → IsValid (hash_table_remove t k)
unfolding hash_table_remove
remove-IsValid {t} k h = elim (Option-cases (find (t.chains (pos k)) k)) [
  | inl e ↦ rw (e, hash_table_remove) h
  | inr (n, e) ↦
      let chain = t.chains (pos k) in
      let shorter = length-unlink chain k n e in
      rw (e, hash_table_remove)
        (put-IsValid t (pos k) (t.hash_table_size - 1) (unlink chain k) h (pos-lt k)
          (λ j.
            rw (occurs-unlink chain k j (h.unique (pos k) k))
              (if-le (same j k) (occurs chain j) (h.unique (pos k) j)))
          (let whole = count-at t.chains (pos k) hash_table_max_size [] (pos-lt k) in
            omega (arith, h.counted, shorter, whole)))
]

-- What the program does with the table.
pub data Op : Type 0 where
  insert : List ℕ → ℕ → ℕ → Op
  remove : List ℕ → Op

abbrev pub AllKeys : List Op → Type 0
AllKeys [] = Unit {0}
AllKeys (insert k v time ∷ ops) = IsKey k × AllKeys ops
AllKeys (remove k ∷ ops) = AllKeys ops

pub run : HashTable → List Op → HashTable
run t [] = t
run t (insert k v time ∷ ops) = run (hash_table_insert t k v time) ops
run t (remove k ∷ ops) = run (hash_table_remove t k) ops

run-IsValid : (t : HashTable) (ops : List Op) → IsValid t → AllKeys ops → IsValid (run t ops)
unfolding run
run-IsValid t [] h a = h
run-IsValid t (insert k v time ∷ ops) h a =
    run-IsValid (hash_table_insert t k v time) ops (insert-IsValid k v time a.0 h) a.1
run-IsValid t (remove k ∷ ops) h a = run-IsValid (hash_table_remove t k) ops (remove-IsValid k h) a

-- After any sequence of insertions and removals in which no inserted key has a `0` in its first six
-- bytes, the size counter is the number of nodes and no chain holds an entry twice, so the check in
-- `hash_table_print` never stops the program.
pub run_counts :
    (ops : List Op)
    → AllKeys ops
    → IsValid (run hash_table_init ops) × (print_exits (run hash_table_init ops) ≡ false)
unfolding print_exits
run_counts ops a =
    let t = run hash_table_init ops in
    let v = run-IsValid hash_table_init ops hash_table_init-IsValid a in
    (v, rw (v.counted, ==_refl t.hash_table_size))
