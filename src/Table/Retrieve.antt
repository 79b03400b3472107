-- ===== src/Table/Retrieve.antt =====
-- `table_retrieve`, `table_info` and `table_attr` of table-4.3.0/table.c.
pub mod View
use source.Prelude.{ℕ, Option, none, some, List}
use source.Table.Entry.{Buffer, null, bytes, Size, sized, find, found_at, bucket_of, slot}
use source.Table.Memory.{M, ◌>>=◌, pure, lift}
use source.Table.State.{no_error, arg_null, not_found, Table, Reply, status, reply, guarded}

module _ {W : Type 0} where
  unfoldable pub retrieve_key : Table → List ℕ → M W (Reply × Table)
  retrieve_key t key = do
    bucket ← lift (bucket_of key t.bucket_n)
    c ← lift (slot t.buckets bucket)
    elim (find key c) [
      | none ↦ pure (status not_found, t)
      | some e ↦ pure (reply (found_at t e), t)
    ]

  unfoldable pub retrieve_args : Table → Buffer → Size → M W (Reply × Table)
  retrieve_args t null key_size = pure (status arg_null, t)
  retrieve_args t (bytes k) key_size = do key ← lift (sized k key_size); retrieve_key t key

  unfoldable pub table_retrieve : Option Table → Buffer → Size → M W (Reply × Option Table)
  table_retrieve h key_buf key_size = guarded h (λ t. retrieve_args t key_buf key_size)

  -- The new flags are the bit pattern of `attr`.
  unfoldable pub table_attr : Option Table → ℕ → M W (Reply × Option Table)
  table_attr h attr = guarded h (λ t. pure (status no_error, record t { flags = attr }))
