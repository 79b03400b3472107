-- ===== src/Table/Adjust.antt =====
-- `table_adjust` of table-4.3.0/table.c: a new array of buckets, and every entry hashed again.
pub mod Rehash
pub mod Outcome
use source.Prelude.Words.{u32}
use source.Prelude.{
  ℕ, ◌*◌, ◌/◌, Option, none, some, List, [], ◌∷◌, set, replicate, ◌==◌, if◌then◌else◌,
}
use source.Table.Entry.{bucket_of, slot}
use source.Table.Memory.{Run, done, and_then, M, ◌>>=◌, pure, lift, Memory, allocate, release}
use source.Table.State.{
  Error, no_error, alloc_error, free_error, mmap_op, Entry, Chain, Table, Reply, status,
  pointer_size, guarded,
}

-- The body of the inner loop: the entry goes to the front of its new bucket.
unfoldable pub rehash : ℕ → Entry → List Chain → Run (List Chain)
rehash buck_n e buckets =
    and_then (bucket_of e.key buck_n)
      (λ i. and_then (slot buckets i) (λ c. done (set buckets i (e ∷ c))))

-- The inner loop over one old bucket, then the outer loop.
unfoldable pub rehash_chain : ℕ → Chain → List Chain → Run (List Chain)
rehash_chain n [] buckets = done buckets
rehash_chain n (e ∷ c) buckets = and_then (rehash n e buckets) (rehash_chain n c)

unfoldable pub rehash_all : ℕ → List Chain → List Chain → Run (List Chain)
rehash_all n [] buckets = done buckets
rehash_all n (c ∷ cs) buckets = and_then (rehash_chain n c buckets) (rehash_all n cs)

-- The number of buckets: the number of entries if none is asked for, and at least 1.
abbrev pub normalized : ℕ → ℕ → ℕ
normalized bucket_n entry_n =
    let buck_n = (if bucket_n == 0 then entry_n else bucket_n) in if buck_n == 0 then 1 else buck_n

module _ {W : Type 0} (mem : Memory W) where
  -- The old array, whose buckets are empty by now, is freed and replaced.
  unfoldable pub replace_buckets : Table → ℕ → ℕ → List Chain → M W (Error × Table)
  replace_buckets t buck_n addr buckets = do
    freed ← release mem t.hooks t.buckets_addr (t.bucket_n * pointer_size)
    if freed
        then pure (no_error, record t { bucket_n = buck_n; buckets_addr = addr; buckets = buckets })
        else pure (free_error, record t { buckets = replicate t.bucket_n [] })

  -- `calloc` in two steps: room for `bucket_size / pointer_size` pointers, all `NULL`.
  unfoldable pub grow_to : Table → ℕ → M W (Error × Table)
  grow_to t buck_n = do
    let bucket_size = u32 (buck_n * pointer_size)
    room ← allocate mem t.hooks bucket_size
    elim room [
      | none ↦ pure (alloc_error, t)
      | some addr ↦ do
        buckets ← lift (rehash_all buck_n t.buckets (replicate (bucket_size / pointer_size) []))
        replace_buckets t buck_n addr buckets
    ]

  -- `bucket_n` is the bit pattern of the `int` argument.
  unfoldable pub adjust : Table → ℕ → M W (Error × Table)
  adjust t bucket_n =
      if t.mmapped
      then pure (mmap_op, t)
      else let buck_n = normalized bucket_n t.entry_n in
        if buck_n == t.bucket_n then pure (no_error, t) else grow_to t buck_n

  unfoldable pub table_adjust : Option Table → ℕ → M W (Reply × Option Table)
  table_adjust h bucket_n =
      guarded h (λ t. adjust t bucket_n >>= (λ (code, t'). pure (status code, t')))
