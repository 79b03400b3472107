-- ===== src/Table/Tests/Runs.antt =====
-- Sessions that run to a value.
use source.Prelude.{ℕ, ◌≡◌, refl, true, false, some, List, [], ◌∷◌}
use source.Table.Delete.{
  copy_out, shrink, drop_entry, delete_entry, delete_key, delete_args, table_delete,
}
use source.Table.Entry.{
  in_block, bytes, negative, counted, c_string, sized, memcmp, same_key, entry_size, data_buf,
  found_at, find, unlink, assign, bucket_of, slot,
}
use source.Table.Hash.{turn, mix_row, hash_mix, word_at, absorb, hash_blocks, hash_tail, hash}
use source.Table.Insert.{
  link_entry, data_arg, release_old, resize_block, resize_entry, replace_entry, overwrite_entry,
  grow, add_entry, insert_key, insert_args, table_insert_kd,
}
use source.Table.Memory.{Run, done, fault, ◌>>=◌, pure, M, allocate, release}
use source.Table.Retrieve.{retrieve_key, retrieve_args, table_retrieve}
use source.Table.State.{Table, Error, no_error, not_found, overwrite, guarded}
use source.Table.Tests.Data.{bump, four, key}

-- Insert, insert again with and without leave to overwrite, delete, retrieve.
abbrev session : Table → M ℕ (List Error)
session t = do
  (r, h) ← table_insert_kd bump (some t) (bytes key) negative (bytes (1 ∷ 2 ∷ [])) (counted 2) false
  (r', h') ← table_insert_kd bump h (bytes key) (counted 3) (bytes (5 ∷ [])) (counted 1) false
  (r2, h2) ← table_insert_kd bump h' (bytes key) (counted 3) (bytes (5 ∷ [])) (counted 1) true
  (r3, h3) ← table_retrieve h2 (bytes key) negative
  (r4, h4) ← table_delete bump h3 (bytes key) negative true
  (r5, h5) ← table_retrieve h4 (bytes key) negative
  pure (r.code ∷ r'.code ∷ r2.code ∷ r3.code ∷ r4.code ∷ r5.code ∷ [])

abbrev codes_of : Run (List Error × ℕ) → List Error
codes_of fault = []
codes_of (done (cs, w)) = cs

session_run :
    codes_of (session four 5000)
    ≡ no_error ∷ overwrite ∷ no_error ∷ no_error ∷ no_error ∷ not_found ∷ []
unfolding c_string sized memcmp same_key entry_size data_buf found_at find unlink assign bucket_of
    slot turn mix_row hash_mix word_at absorb hash_blocks hash_tail hash data_arg release_old
    resize_block resize_entry replace_entry overwrite_entry grow add_entry insert_key insert_args
    table_insert_kd allocate release guarded retrieve_key retrieve_args table_retrieve copy_out
    shrink drop_entry delete_entry delete_key delete_args table_delete in_block link_entry
session_run = refl
