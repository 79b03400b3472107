-- ===== src/Table/Delete.antt =====
-- `table_delete` and `table_delete_first` of table-4.3.0/table.c.
pub mod Outcome
use source.Prelude.Words.{u32}
use source.Prelude.{
  ℕ, ◌+◌, ◌-◌, ◌^◌, Bool, ◌&&◌, not, Option, none, some, List, [], ◌∷◌, length, set, ◌==◌,
  if◌then◌else◌,
}
use source.Table.Adjust.{adjust}
use source.Table.Entry.{Buffer, null, bytes, Size, sized, freed_size, find, unlink, bucket_of, slot}
use source.Table.Linear.{first_entry}
use source.Table.Memory.{M, ◌>>=◌, pure, lift, Memory, allocate, release}
use source.Table.State.{
  Error, no_error, arg_null, not_found, alloc_error, free_error, mmap_op, Entry, Chain, Linear,
  Table, guarded, flag_auto_adjust, flag_adjust_down, has_flag, should_shrink, Reply, status, Found,
}

-- The local counter, whose value is not read before `first_entry` sets it.
abbrev pub unset_linear : Linear
unset_linear = record { magic = 0; bucket_c = 0; entry_c = 0 }

-- A copy that the caller gets: `none` if an allocation failed, and `some none` for `NULL`.
abbrev pub Copy : Type 0
Copy = Option (Option ℕ)

module _ {W : Type 0} (mem : Memory W) where
  -- The copy of `size` bytes, if the caller wants one and there are any.
  unfoldable pub copy_out : Table → Bool → ℕ → M W Copy
  copy_out t wanted size =
      if not wanted
      then pure (some none)
      else if size == 0
      then pure (some none)
      else allocate mem t.hooks size
        >>= (λ room. pure (elim room [ none ↦ none | some addr ↦ some (some addr) ]))

  -- The auto-adjustment at the end.
  unfoldable pub shrink : Table → M W (Error × Table)
  shrink t =
      if has_flag t flag_auto_adjust && (has_flag t flag_adjust_down && should_shrink t)
      then adjust mem t t.entry_n
      else pure (no_error, t)

  -- What follows the copies: the entry is freed and counted off.
  unfoldable pub drop_entry : Table → Entry → Found → M W (Reply × Table)
  drop_entry t e out = do
    freed ← release mem t.hooks e.addr (freed_size t (length e.key) (length e.bytes))
    if not freed
        then pure (record { code = free_error; found = some out }, t)
        else shrink (record t { entry_n = u32 (t.entry_n + 2 ^ 32 - 1) })
          >>= (λ (code, t'). pure (record { code = code; found = some out }, t'))

  abbrev pub deleted : Entry → Option ℕ → Found
  deleted e data_p = record { key_p = none; key = []; data_p = data_p; bytes = e.bytes }

  -- What `table_delete` does with an entry that it has unlinked; `wanted` says that `data_buf_p` is
  -- not `NULL`.
  unfoldable pub delete_entry : Table → Entry → Bool → M W (Reply × Table)
  delete_entry t e wanted = do
    copy ← copy_out t wanted (length e.bytes)
    elim copy [
      | none ↦ pure (status alloc_error, t)
      | some data_p ↦ drop_entry t e (deleted e data_p)
    ]

  -- `table_delete` behind its checks.
  unfoldable pub delete_key : Table → List ℕ → Bool → M W (Reply × Table)
  delete_key t key wanted = do
    bucket ← lift (bucket_of key t.bucket_n)
    c ← lift (slot t.buckets bucket)
    elim (find key c) [
      | none ↦ pure (status not_found, t)
      | some e ↦ delete_entry (record t { buckets = set t.buckets bucket (unlink key c) }) e wanted
    ]

  -- `table_delete_first` behind its checks: the first entry of the first bucket that has one.
  unfoldable pub delete_from : Table → ℕ → Chain → Bool → Bool → M W (Reply × Table)
  delete_from t bucket [] want_key want_data = pure (status not_found, t)
  delete_from t bucket (e ∷ c) want_key want_data = do
    let t' = record t { buckets = set t.buckets bucket c }
    key_copy ← copy_out t' want_key (length e.key)
    elim key_copy [
      | none ↦ pure (status alloc_error, t')
      | some key_p ↦ do
        data_copy ← copy_out t' want_data (length e.bytes)
        elim data_copy [
          | none ↦
              let out : Found = record { key_p = key_p; key = e.key; data_p = none; bytes = [] } in
              pure (record { code = alloc_error; found = some out }, t')
          | some data_p ↦
              let out : Found = record {
                key_p = key_p;
                key = e.key;
                data_p = data_p;
                bytes = e.bytes;
              } in
              drop_entry t' e out
        ]
    ]

  unfoldable pub delete_args : Table → Buffer → Size → Bool → M W (Reply × Table)
  delete_args t null key_size wanted = pure (status arg_null, t)
  delete_args t (bytes k) key_size wanted =
      if t.mmapped
      then pure (status mmap_op, t)
      else do key ← lift (sized k key_size); delete_key t key wanted

  unfoldable pub table_delete : Option Table → Buffer → Size → Bool → M W (Reply × Option Table)
  table_delete h key_buf key_size wanted = guarded h (λ t. delete_args t key_buf key_size wanted)

  unfoldable pub table_delete_first : Option Table → Bool → Bool → M W (Reply × Option Table)
  table_delete_first h want_key want_data = guarded h (λ t.
      if t.mmapped then pure (status mmap_op, t) else do
        (e, l) ← lift (first_entry t unset_linear)
        elim e [
          | none ↦ pure (status not_found, t)
          | some _ ↦ do
            c ← lift (slot t.buckets l.bucket_c)
            delete_from t l.bucket_c c want_key want_data
        ])
