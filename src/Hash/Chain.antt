-- ===== src/Hash/Chain.antt =====
-- One chain: what a search finds after each change.
use controller_project.Base.{
  ℕ, zero, suc, ◌≤◌, ◌<◌, ◌≡◌, refl, List, [], ◌∷◌, true, false, Option, none, some, length, get_or,
  if◌then◌else◌, arith,
}
use controller_project.Wire.Compare.{same, same_iff, same_symm, same_trans, same_comm, same_congr}
use controller_project.Hash.{HashNode, c_string, find, overwrite, found_skey, unlink}

-- What a client reads of a node.
abbrev pub read : Option HashNode → Option (ℕ × ℕ)
read none = none
read (some n) = some (n.n_value, n.time)

-- The nodes of a chain with a key.
unfoldable pub occurs : List HashNode → List ℕ → ℕ
occurs [] skey = 0
occurs (n ∷ ns) skey = if same skey n.s_key then suc (occurs ns skey) else occurs ns skey

pub find-overwrite :
    (c : List HashNode) (k j : List ℕ) (v t : ℕ)
    → found_skey c k ≡ true
    → read (find (overwrite c k v t) j) ≡ (if same j k then some (v, t) else read (find c j))
unfolding find overwrite found_skey
find-overwrite [] k j v t h = absurd (false-ne-true h)
  where
    false-ne-true : false ≡ true → ⊥
    false-ne-true e = cc
find-overwrite (n ∷ c) k j v t h = ground (
  arith,
  find-overwrite c k j v t,
  same_congr n.s_key k j,
  same_trans n.s_key j k,
  same_symm j n.s_key,
)

pub length-overwrite :
    (c : List HashNode) (k : List ℕ) (v t : ℕ) → length (overwrite c k v t) ≡ length c
unfolding overwrite
length-overwrite [] k v t = refl
length-overwrite (n ∷ c) k v t = ground (arith, length-overwrite c k v t)

pub occurs-overwrite :
    (c : List HashNode) (k j : List ℕ) (v t : ℕ) → occurs (overwrite c k v t) j ≡ occurs c j
unfolding overwrite occurs
occurs-overwrite [] k j v t = refl
occurs-overwrite (n ∷ c) k j v t = ground (arith, occurs-overwrite c k j v t)

pub occurs-none : (c : List HashNode) (k : List ℕ) → occurs c k ≡ 0 → find c k ≡ none
unfolding occurs find
occurs-none [] k h = refl
occurs-none (n ∷ c) k h = ground (arith, occurs-none c k)

pub none-occurs : (c : List HashNode) (k : List ℕ) → find c k ≡ none → occurs c k ≡ 0
unfolding occurs find
none-occurs [] k h = refl
none-occurs (n ∷ c) k h = ground (arith, none-occurs c k)

pub not_found-occurs : (c : List HashNode) (k : List ℕ) → found_skey c k ≡ false → occurs c k ≡ 0
unfolding occurs found_skey
not_found-occurs [] k h = refl
not_found-occurs (n ∷ c) k h = ground (arith, not_found-occurs c k, same_comm n.s_key k)

pub occurs_congr : (c : List HashNode) (j k : List ℕ) → same j k ≡ true → occurs c j ≡ occurs c k
unfolding occurs
occurs_congr [] j k h = refl
occurs_congr (n ∷ c) j k h = ground (
  arith,
  occurs_congr c j k h,
  same_congr j k n.s_key h,
  same_comm j n.s_key,
  same_comm k n.s_key,
)

pub occurs-unlink :
    (c : List HashNode) (k j : List ℕ)
    → occurs c k ≤ 1
    → occurs (unlink c k) j ≡ (if same j k then 0 else occurs c j)
unfolding occurs unlink
occurs-unlink [] k j h = ground arith
occurs-unlink (n ∷ c) k j h = ground (
  arith,
  occurs-unlink c k j,
  occurs_congr c j k,
  same_congr k n.s_key j,
  same_trans j k n.s_key,
  same_congr j k n.s_key,
  same_comm j n.s_key,
  same_comm k n.s_key,
)

pub find-unlink :
    (c : List HashNode) (k j : List ℕ)
    → occurs c k ≤ 1
    → read (find (unlink c k) j) ≡ (if same j k then none else read (find c j))
unfolding occurs find unlink
find-unlink [] k j h = ground arith
find-unlink (n ∷ c) k j h = ground (
  arith,
  find-unlink c k j,
  occurs_congr c j k,
  occurs-none c j,
  same_congr k n.s_key j,
  same_congr j k n.s_key,
  same_comm j n.s_key,
  same_comm k n.s_key,
)

pub length-unlink :
    (c : List HashNode) (k : List ℕ) (n : HashNode)
    → find c k ≡ some n
    → length c ≡ suc (length (unlink c k))
unfolding find unlink
length-unlink [] k n h = absurd (none-ne-some h)
  where
    none-ne-some : none ≡ some n → ⊥
    none-ne-some e = cc
length-unlink (m ∷ c) k n h = ground (arith, length-unlink c k n)

-- A key has no `'\0'` in its first six bytes, so that the stored copy is compared in full.
abbrev pub IsKey : List ℕ → Type 0
IsKey k = 6 ≤ length (c_string k)

get_or-c_string :
    (k : List ℕ) (i : ℕ) → i < length (c_string k) → get_or (c_string k) i 0 ≡ get_or k i 0
unfolding c_string
get_or-c_string [] i h = refl
get_or-c_string (c ∷ cs) zero h = ground arith
get_or-c_string (c ∷ cs) (suc i) h = ground (arith, get_or-c_string cs i)

pub same-c_string : (k : List ℕ) → IsKey k → same (c_string k) k ≡ true
same-c_string k h = (same_iff (c_string k) k).1 (λ i l. get_or-c_string k i (omega arith))
