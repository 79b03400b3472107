-- ===== src/Table/Create.antt =====
-- `table_alloc`, `table_alloc_in_pool`, `table_set_data_alignment`, `table_clear`, `table_free`,
-- `table_info` of table-4.3.0/table.c.
pub mod Outcome
use source.Prelude.Words.{u32}
use source.Prelude.{
  ℕ, zero, suc, ◌*◌, ◌/◌, Bool, true, false, not, Option, none, some, List, [], ◌∷◌, length,
  replicate, ltb, ◌==◌, if◌then◌else◌,
}
use source.Table.Entry.{freed_size}
use source.Table.Memory.{M, ◌>>=◌, pure, Memory, Hooks, libc, pool, allocate, release}
use source.Table.State.{
  Error, no_error, arg_null, alloc_error, not_empty, alignment, free_error, mmap_op, Chain, Linear,
  Table, Reply, status, guarded, table_magic, default_size, max_alignment, pointer_size, table_size,
}

abbrev pub no_linear : Linear
no_linear = record { magic = 0; bucket_c = 0; entry_c = 0 }

abbrev pub buckets_wanted : ℕ → ℕ
buckets_wanted bucket_n = if ltb 0 bucket_n then bucket_n else default_size

-- `initialize structure`, for an array of `slots` pointers
abbrev pub fresh : Hooks → ℕ → ℕ → ℕ → Table
fresh hooks buck_n addr slots = record {
  magic = table_magic;
  flags = 0;
  bucket_n = buck_n;
  entry_n = 0;
  data_align = 0;
  buckets_addr = addr;
  buckets = replicate slots [];
  linear = no_linear;
  mmapped = false;
  file_size = 0;
  hooks = hooks;
}

-- The buckets after the loop of `table_clear`, and `reset table state info`.
unfoldable pub reset : Table → Table
reset t = record t { buckets = replicate t.bucket_n []; entry_n = 0; linear = no_linear }

-- The test of `table_set_data_alignment`: a power of two below the largest; `val` runs on fuel.
unfoldable pub is_alignment : ℕ → ℕ → ℕ → Bool
is_alignment zero val wanted = false
is_alignment (suc k) val wanted =
    let rest = is_alignment k (val * 2) wanted in
    if ltb val max_alignment then (if val == wanted then true else rest) else false

module _ {W : Type 0} (mem : Memory W) where
  -- The table comes with the address of its structure. `calloc` fails where the product of its
  -- arguments is too large, so the array has all its slots.
  unfoldable pub table_alloc : ℕ → M W (Error × Option (ℕ × Table))
  table_alloc bucket_n = do
    room ← allocate mem libc table_size
    elim room [
      | none ↦ pure (alloc_error, none)
      | some table_p ↦ do
        let buck_n = buckets_wanted bucket_n
        array ← allocate mem libc (buck_n * pointer_size)
        elim array [
          | none ↦ do _ ← release mem libc table_p table_size; pure (alloc_error, none)
          | some addr ↦ pure (no_error, some (table_p, fresh libc buck_n addr buck_n))
        ]
    ]

  -- `given` says that both functions that must be given are; `resize` that the third is.
  unfoldable pub table_alloc_in_pool : ℕ → Bool → Bool → M W (Error × Option (ℕ × Table))
  table_alloc_in_pool bucket_n given resize = if not given then pure (arg_null, none) else do
    room ← allocate mem (pool resize) table_size
    elim room [
      | none ↦ pure (alloc_error, none)
      | some table_p ↦ do
        let buck_n = buckets_wanted bucket_n
        let size = u32 (buck_n * pointer_size)
        array ← allocate mem (pool resize) size
        elim array [
          | none ↦ do _ ← release mem (pool resize) table_p table_size; pure (alloc_error, none)
          | some addr ↦
              pure (no_error, some (table_p, fresh (pool resize) buck_n addr (size / pointer_size)))
        ]
    ]

  -- `alignment` is 0 for an `int` below 2.
  unfoldable pub table_set_data_alignment : Option Table → ℕ → M W (Reply × Option Table)
  table_set_data_alignment h wanted = guarded h (λ t.
      if ltb 0 t.entry_n
      then pure (status not_empty, t)
      else if ltb wanted 2
      then pure (status no_error, record t { data_align = 0 })
      else if is_alignment 7 2 wanted
      then pure (status no_error, record t { data_align = wanted })
      else pure (status alignment, t))

  -- One chain is freed; the flag says that every call succeeded.
  unfoldable pub free_chain : Table → Chain → Bool → M W Bool
  free_chain t [] good = pure good
  free_chain t (e ∷ c) good = do
    freed ← release mem t.hooks e.addr (freed_size t (length e.key) (length e.bytes))
    free_chain t c (if freed then good else false)

  unfoldable pub free_chains : Table → List Chain → Bool → M W Bool
  free_chains t [] good = pure good
  free_chains t (c ∷ cs) good = do good' ← free_chain t c good; free_chains t cs good'

  unfoldable pub clear : Table → M W (Error × Table)
  clear t = if t.mmapped then pure (mmap_op, t) else do
    good ← free_chains t t.buckets true
    pure ((if good then no_error else free_error), reset t)

  unfoldable pub table_clear : Option Table → M W (Reply × Option Table)
  table_clear h = guarded h (λ t. clear t >>= (λ (code, t'). pure (status code, t')))

  -- The array and then the structure at `table_p` are freed: `none` for a table that is gone, also
  -- if the release of the structure is refused. The array's address is not `NULL`.
  unfoldable pub free_table : ℕ → Table → M W (Error × Option Table)
  free_table table_p t = if t.mmapped then pure (mmap_op, some t) else do
    (ret, t') ← clear t
    array_freed ← release mem t.hooks t.buckets_addr (t.bucket_n * pointer_size)
    if not array_freed
        then pure (free_error, some t')
        else release mem t.hooks table_p table_size >>= (λ freed.
          pure ((if freed then ret else elim ret [ no_error ↦ free_error | other ↦ other ]), none))

  unfoldable pub table_free : ℕ → Option Table → M W (Error × Option Table)
  table_free table_p none = pure (arg_null, none)
  table_free table_p (some t) =
      if t.magic == table_magic then free_table table_p t else pure (Error.pnt, some t)

  unfoldable pub table_info : Option Table → M W (Error × Option (ℕ × ℕ))
  table_info none = pure (arg_null, none)
  table_info (some t) =
      if t.magic == table_magic
      then pure (no_error, some (t.bucket_n, t.entry_n))
      else pure (Error.pnt, none)
