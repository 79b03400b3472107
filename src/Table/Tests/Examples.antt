-- ===== src/Table/Tests/Examples.antt =====
-- The theorems at concrete tables and keys.
use mathlib.Core.List.{flatten}
use source.Prelude.{
  ℕ, ◌+◌, ◌-◌, ◌%◌, ◌≤◌, ◌≡◌, refl, true, false, some, List, [], length, replicate, arith,
}
use source.Table.Adjust.Outcome.{Adjusted, table_adjust-Adjusted}
use source.Table.Adjust.Rehash.{rehash_all-replicate}
use source.Table.Adjust.{rehash_all, table_adjust}
use source.Table.Buckets.{IsPlaced, lookup, total}
use source.Table.Create.Outcome.{
  Created, table_alloc-Created, table_alloc_in_pool-Created, Cleared, table_clear-Cleared,
}
use source.Table.Create.{table_alloc, table_alloc_in_pool, table_clear}
use source.Table.Delete.Outcome.{Deleted, table_delete-Deleted}
use source.Table.Delete.{table_delete}
use source.Table.Entry.Layout.{data_buf-entry_size}
use source.Table.Entry.{bytes, negative, c_string, sized, data_buf, entry_size}
use source.Table.Hash.Mix.{unmix, hash_mix_bijective}
use source.Table.Hash.{mixer, hash_mix}
use source.Table.Linear.Gather.{collect}
use source.Table.Linear.Walk.{collect-flatten}
use source.Table.Memory.{libc, pool, done}
use source.Table.Retrieve.View.{Retrieved, table_retrieve-Retrieved}
use source.Table.Retrieve.{table_retrieve}
use source.Table.State.{Table, not_found}
use source.Table.Tests.Data.{bump, exhausted, one, one-IsValid, key, entry}
use source.Table.Valid.{Returns, OnTable}

table_delete-Deleted_example :
    Returns
      (table_delete bump (some one) (bytes key) negative true 5000)
      (OnTable (Deleted one key true))
unfolding c_string sized
table_delete-Deleted_example =
    table_delete-Deleted bump one 5000 key negative true one-IsValid (omega arith) refl

table_retrieve-Retrieved_example :
    Returns {W = ℕ}
      (table_retrieve (some one) (bytes key) negative 5000)
      (OnTable (Retrieved one key))
unfolding c_string sized
table_retrieve-Retrieved_example = table_retrieve-Retrieved one 5000 key negative one-IsValid refl

table_adjust-Adjusted_example :
    Returns (table_adjust exhausted (some one) 9 5000) (OnTable (λ r. Adjusted one 9 r.code))
table_adjust-Adjusted_example = table_adjust-Adjusted exhausted one 9 5000 one-IsValid (omega arith)

rehash_all-replicate_example :
    (r : List (List _)) × (rehash_all 7 one.buckets (replicate 7 []) ≡ done r)
    × (length r ≡ 7)
    × (total r ≡ total one.buckets)
    × IsPlaced r
    × ((q : List ℕ) → lookup r q ≡ lookup one.buckets q)
rehash_all-replicate_example =
    rehash_all-replicate 7 one.buckets (omega arith) (omega arith) one-IsValid.placed

collect-flatten_example : collect 1 one one.linear ≡ done (not_found, flatten one.buckets)
collect-flatten_example = collect-flatten 1 one one.linear one-IsValid (omega arith) (omega arith)

hash_mix_bijective_example :
    (unmix (hash_mix (mixer 1 2 3)) ≡ mixer 1 2 3) × (hash_mix (unmix (mixer 1 2 3)) ≡ mixer 1 2 3)
hash_mix_bijective_example =
    hash_mix_bijective (record { a = omega arith; b = omega arith; c = omega arith })

table_alloc-Created_example : Returns (table_alloc bump 16 5000) (Created 16 libc)
table_alloc-Created_example = table_alloc-Created bump 16 (omega arith) 5000

table_alloc_in_pool-Created_example :
    Returns (table_alloc_in_pool bump 0 true false 5000) (Created 0 (pool false))
table_alloc_in_pool-Created_example = table_alloc_in_pool-Created bump 0 (omega arith) false 5000

table_clear-Cleared_example :
    Returns (table_clear bump (some one) 5000) (OnTable (λ r. Cleared one r.code))
table_clear-Cleared_example = table_clear-Cleared bump one 5000 one-IsValid

abbrev aligned : Table
aligned = record one { data_align = 8 }

data_buf-entry_size_example :
    (data_buf aligned entry + length entry.bytes
      ≡ entry.addr + entry_size aligned (length entry.key) (length entry.bytes))
    × ((data_buf aligned entry - entry.addr) % aligned.data_align ≡ 0)
    × (entry.addr + 16 + length entry.key ≤ data_buf aligned entry)
data_buf-entry_size_example = data_buf-entry_size aligned entry 2 (omega arith) refl (omega arith)
