-- ===== src/Table/Insert.antt =====
-- `table_insert_kd` and `table_insert` of table-4.3.0/table.c.
pub mod Entries
pub mod Outcome
pub mod Replace
pub mod Add
pub mod Correct
use source.Prelude.Words.{u32}
use source.Prelude.{
  ℕ, ◌+◌, ◌-◌, ◌^◌, Bool, true, false, ◌&&◌, not, Option, none, some, List, ◌∷◌, length, set,
  replicate, ◌==◌, if◌then◌else◌,
}
use source.Table.Adjust.{adjust}
use source.Table.Entry.{
  Buffer, null, bytes, Size, negative, counted, sized, entry_size, in_block, found_at, find, unlink,
  assign, bucket_of, slot, fill, resized,
}
use source.Table.Memory.{
  Run, done, fault, M, ◌>>=◌, pure, lift, Memory, Hooks, libc, pool, allocate, release,
}
use source.Table.State.{
  Error, no_error, arg_null, size_error, overwrite, alloc_error, free_error, mmap_op, Entry, Chain,
  Table, Reply, status, reply, guarded, flag_auto_adjust, has_flag, should_grow,
}

-- `data_buf` can be `NULL` with a size, and a size of 0 goes with `NULL` only.
abbrev pub bad_data : Buffer → Size → Bool
bad_data null negative = true
bad_data null (counted n) = false
bad_data (bytes b) negative = false
bad_data (bytes b) (counted n) = n == 0

-- The size of the data, and where they are copied from.
unfoldable pub data_arg : Buffer → Size → Run (ℕ × Option (List ℕ))
data_arg null negative = fault
data_arg null (counted n) = done (n, none)
data_arg (bytes b) size = elim (sized b size) [ fault ↦ fault | done d ↦ done (length d, some d) ]

-- The entry with room for the new data, or the error of the memory function.
pub data Resized : Type 0 where
  moved : Entry → Resized
  refused : Error → Resized

abbrev pub moved_to : ℕ → Option ℕ → Entry → Resized
moved_to dsize none e = refused alloc_error
moved_to dsize (some addr) e = moved (record e { addr = addr; bytes = resized dsize e.bytes })

module _ {W : Type 0} (mem : Memory W) where
  -- The old block is freed when the bytes have been copied.
  unfoldable pub release_old : Entry → ℕ → ℕ → Option ℕ → M W Resized
  release_old e old_size dsize none = pure (refused alloc_error)
  release_old e old_size dsize (some addr) =
      release mem (pool false) e.addr old_size
      >>= (λ freed. pure (if freed then moved_to dsize (some addr) e else refused free_error))

  -- `realloc`, the user's resize function, or an allocation, a copy and a free.
  unfoldable pub resize_block : Hooks → Entry → ℕ → ℕ → ℕ → M W Resized
  resize_block libc e new_size old_size dsize w =
      let (room, w') = mem.realloc e.addr new_size w in done (moved_to dsize room e, w')
  resize_block (pool true) e new_size old_size dsize w =
      let (room, w') = mem.resize_func e.addr old_size new_size w in
      done (moved_to dsize room e, w')
  resize_block (pool false) e new_size old_size dsize w =
      (allocate mem (pool false) new_size >>= release_old e old_size dsize) w

  unfoldable pub resize_entry : Table → Entry → ℕ → M W Resized
  resize_entry t e dsize =
      let new_size = entry_size t (length e.key) dsize in
      let old_size = u32 (new_size + 2 ^ 32 - dsize + length e.bytes) in
      resize_block t.hooks e new_size old_size dsize

  -- The entry is unlinked, resized, and put back at the front of its bucket with the data copied into
  -- its new block.
  unfoldable pub replace_entry :
      Table → ℕ → Chain → List ℕ → Entry → ℕ → Option (List ℕ) → M W (Reply × Table)
  replace_entry t bucket c key e dsize src = do
    let rest = unlink key c
    r ← resize_entry t e dsize
    elim r [
      | refused code ↦ pure (status code, record t { buckets = set t.buckets bucket rest })
      | moved m ↦
          let m' = record m { bytes = fill src m.bytes } in
          if in_block t (length e.key) dsize (entry_size t (length e.key) dsize)
          then pure (reply (found_at t m'), record t { buckets = set t.buckets bucket (m' ∷ rest) })
          else lift fault
    ]

  -- The branch for a key that is in the table.
  unfoldable pub overwrite_entry :
      Table → ℕ → Chain → List ℕ → Entry → ℕ → Option (List ℕ) → Bool → M W (Reply × Table)
  overwrite_entry t bucket c key e dsize src overwrite_b =
      if not overwrite_b
      then pure (record { code = overwrite; found = some (found_at t e) }, t)
      else if not (dsize == length e.bytes)
      then replace_entry t bucket c key e dsize src
      else let bs = fill src e.bytes in
        pure (
          reply (found_at t (record e { bytes = bs })),
          record t { buckets = set t.buckets bucket (assign key bs c) },
        )

  -- The auto-adjustment at the end.
  unfoldable pub grow : Table → M W (Error × Table)
  grow t =
      if has_flag t flag_auto_adjust && should_grow t
      then adjust mem t t.entry_n
      else pure (no_error, t)

  -- A new entry at the front of its bucket.
  unfoldable pub link_entry : Table → ℕ → Chain → Entry → M W (Reply × Table)
  link_entry t bucket c e =
      let t' = record t { buckets = set t.buckets bucket (e ∷ c); entry_n = u32 (t.entry_n + 1) } in
      grow t' >>= (λ (code, t''). pure (record { code = code; found = some (found_at t e) }, t''))

  -- The branch for a new key: the key and the data are copied into the new block.
  unfoldable pub add_entry : Table → ℕ → Chain → List ℕ → ℕ → Option (List ℕ) → M W (Reply × Table)
  add_entry t bucket c key dsize src = do
    room ← allocate mem t.hooks (entry_size t (length key) dsize)
    elim room [
      | none ↦ pure (status alloc_error, t)
      | some addr ↦
          if in_block t (length key) dsize (entry_size t (length key) dsize)
          then link_entry t bucket c
              (record { addr = addr; key = key; bytes = fill src (replicate dsize none) })
          else lift fault
    ]

  -- What follows the checks of the arguments.
  unfoldable pub insert_key : Table → List ℕ → ℕ → Option (List ℕ) → Bool → M W (Reply × Table)
  insert_key t key dsize src overwrite_b = do
    bucket ← lift (bucket_of key t.bucket_n)
    c ← lift (slot t.buckets bucket)
    elim (find key c) [
      | some e ↦ overwrite_entry t bucket c key e dsize src overwrite_b
      | none ↦ add_entry t bucket c key dsize src
    ]

  unfoldable pub insert_args : Table → Buffer → Size → Buffer → Size → Bool → M W (Reply × Table)
  insert_args t null key_size data_buf data_size overwrite_b = pure (status arg_null, t)
  insert_args t (bytes k) key_size data_buf data_size overwrite_b =
      if bad_data data_buf data_size
      then pure (status size_error, t)
      else if t.mmapped
      then pure (status mmap_op, t)
      else do
        key ← lift (sized k key_size)
        (dsize, src) ← lift (data_arg data_buf data_size)
        insert_key t key dsize src overwrite_b

  unfoldable pub table_insert_kd :
      Option Table → Buffer → Size → Buffer → Size → Bool → M W (Reply × Option Table)
  table_insert_kd h key_buf key_size data_buf data_size overwrite_b =
      guarded h (λ t. insert_args t key_buf key_size data_buf data_size overwrite_b)
