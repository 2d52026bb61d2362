-- ===== src/Tests/Lookup.antt =====
-- The table of flows with two keys.
use controller_project.Base.{ℕ, ◌<◌, ◌≡◌, List, [], ◌∷◌, false, none, some, if◌then◌else◌, arith}
use controller_project.Hash.{
  hash_table_init, hash_table_insert, hash_table_remove, c_string, print_exits,
}
use controller_project.Hash.Chain.{IsKey}
use controller_project.Hash.Size.{
  IsValid, hash_table_init-IsValid, Op, insert, remove, run, run_counts,
}
use controller_project.Hash.Laws.{stored, same_entry, lookup-insert, lookup-remove}

abbrev key : List ℕ
key = 1 ∷ 2 ∷ 3 ∷ 4 ∷ 5 ∷ 6 ∷ 7 ∷ []

abbrev other : List ℕ
other = 1 ∷ 2 ∷ 3 ∷ 4 ∷ 5 ∷ 7 ∷ 7 ∷ []

key-IsKey : IsKey key
unfolding c_string
key-IsKey = omega arith

room : hash_table_init.hash_table_size < 10000
unfolding hash_table_init
room = omega arith

lookup-insert_example :
    stored (hash_table_insert hash_table_init key 4 50) other
    ≡ (if same_entry other key then some (4, 50) else stored hash_table_init other)
lookup-insert_example = lookup-insert hash_table_init key other 4 50 room key-IsKey

lookup-remove_example :
    stored (hash_table_remove hash_table_init key) other
    ≡ (if same_entry other key then none else stored hash_table_init other)
lookup-remove_example = lookup-remove hash_table_init key other hash_table_init-IsValid

abbrev ops : List Op
ops = insert key 4 50 ∷ insert key 5 60 ∷ remove key ∷ remove key ∷ []

run_counts_example :
    IsValid (run hash_table_init ops) × (print_exits (run hash_table_init ops) ≡ false)
run_counts_example = run_counts ops (key-IsKey, (key-IsKey, tt))
