-- ===== src/Hash.antt =====
-- EXP/hash_lin.h: the chained hash table of flows.
pub mod Chain
pub mod Laws
pub mod Size
use controller_project.Base.{
  ℕ, zero, suc, ◌+◌, ◌-◌, ◌*◌, ◌%◌, ◌^◌, List, [], ◌∷◌, ◌++◌, Bool, true, false, ◌||◌, Option, none,
  some, length, ltb, leb, ◌==◌, if◌then◌else◌,
}
use controller_project.Wire.Compare.{strcmp_lin, same}

abbrev pub hash_table_max_size : ℕ
hash_table_max_size = 10000

-- `HashNode`; a key is its bytes up to the `'\0'`.
pub record HashNode : Type 0 where
  pub s_key : List ℕ
  pub time : ℕ
  pub n_value : ℕ

-- `hashTable`, the chains by index, and `hash_table_size`.
pub record HashTable : Type 0 where
  pub chains : ℕ → List HashNode
  pub hash_table_size : ℕ

unfoldable pub hash_table_init : HashTable
hash_table_init = record { chains = λ _. []; hash_table_size = 0 }

-- A `signed char` as an `unsigned int`.
abbrev signed_char : ℕ → ℕ
signed_char c = if ltb c 128 then c else c + 2 ^ 32 - 256

-- `h = (h << 5) - h + *p`, up to the `'\0'`.
unfoldable pub hash_loop : List ℕ → ℕ → ℕ
hash_loop [] h = h
hash_loop (c ∷ cs) h =
    let rest = hash_loop cs ((h * 32 % 2 ^ 32 + 2 ^ 32 - h + signed_char c) % 2 ^ 32) in
    if c == 0 then h else rest

unfoldable pub hash_table_hash_str : List ℕ → ℕ
unfolding hash_loop
hash_table_hash_str [] = 0
hash_table_hash_str (c ∷ cs) = if c == 0 then 0 else hash_loop cs (signed_char c)

unfoldable pub pos : List ℕ → ℕ
pos skey = hash_table_hash_str skey % hash_table_max_size

-- `strcpy` copies up to the `'\0'`.
unfoldable pub c_string : List ℕ → List ℕ
c_string [] = []
c_string (c ∷ cs) = if c == 0 then [] else c ∷ c_string cs

-- The search of the chain: the node it stops at.
unfoldable pub find : List HashNode → List ℕ → Option HashNode
find [] skey = none
find (n ∷ ns) skey = if same skey n.s_key then some n else find ns skey

-- The loop of `hash_table_insert`: it changes the first node with the key.
unfoldable pub overwrite : List HashNode → List ℕ → ℕ → ℕ → List HashNode
overwrite [] skey nvalue time = []
overwrite (n ∷ ns) skey nvalue time =
    if same n.s_key skey
    then record n { n_value = nvalue; time = time } ∷ ns
    else n ∷ overwrite ns skey nvalue time

-- `found_skey`
unfoldable pub found_skey : List HashNode → List ℕ → Bool
found_skey [] skey = false
found_skey (n ∷ ns) skey = same n.s_key skey || found_skey ns skey

abbrev pub at : (ℕ → List HashNode) → ℕ → List HashNode → ℕ → List HashNode
at chains i chain j = if j == i then chain else chains j

unfoldable pub hash_table_insert : HashTable → List ℕ → ℕ → ℕ → HashTable
hash_table_insert t skey nvalue time =
    if leb hash_table_max_size t.hash_table_size
    then t
    else if found_skey (t.chains (pos skey)) skey
    then record t {
      chains = at t.chains (pos skey) (overwrite (t.chains (pos skey)) skey nvalue time);
    }
    else record {
      chains =
          at t.chains (pos skey)
            (record { s_key = c_string skey; time = time; n_value = nvalue } ∷ t.chains (pos skey));
      hash_table_size = t.hash_table_size + 1;
    }

-- Unlinking the first node with the key.
unfoldable pub unlink : List HashNode → List ℕ → List HashNode
unlink [] skey = []
unlink (n ∷ ns) skey = if same skey n.s_key then ns else n ∷ unlink ns skey

unfoldable pub hash_table_remove : HashTable → List ℕ → HashTable
hash_table_remove t skey = elim (find (t.chains (pos skey)) skey) [
  | none ↦ t
  | some n ↦ record {
    chains = at t.chains (pos skey) (unlink (t.chains (pos skey)) skey);
    hash_table_size = t.hash_table_size - 1;
  }
]

unfoldable pub hash_table_lookup : HashTable → List ℕ → Option HashNode
hash_table_lookup t skey = find (t.chains (pos skey)) skey

-- The loops of `hash_table_print` over the chains below `n`: what `count_count` comes to.
unfoldable pub count_count : (ℕ → List HashNode) → ℕ → ℕ
count_count chains zero = 0
count_count chains (suc n) = count_count chains n + length (chains n)

-- Whether `hash_table_print` stops the program.
unfoldable pub print_exits : HashTable → Bool
print_exits t =
    if count_count t.chains hash_table_max_size == t.hash_table_size then false else true
