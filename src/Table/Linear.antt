-- ===== src/Table/Linear.antt =====
-- The linear access routines of table-4.3.0/table.c: `first_entry`, `next_entry`, `this_entry` and
-- the exported functions over them, with a counter in the table or one of the caller's.
pub mod Gather
pub mod Walk
pub mod Reentrant
use source.Prelude.Words.{u32}
use source.Prelude.{
  ℕ, zero, suc, ◌+◌, ◌-◌, ◌^◌, Option, none, some, List, [], ◌∷◌, get_elem?, drop, leb, ltb, ◌==◌,
  if◌then◌else◌,
}
use source.Table.Entry.{slot, found_at}
use source.Table.Memory.{Run, done, fault, and_then, M, ◌>>=◌, pure, lift}
use source.Table.State.{
  Error, no_error, not_found, linear_error, Entry, Chain, Linear, Table, Reply, status, reply,
  guarded, linear_magic,
}

-- A loop that looks for a bucket that is not empty: the rounds left, the bucket's number, and the
-- array from there on.
unfoldable pub scan : ℕ → ℕ → List Chain → Run (Option (ℕ × Entry))
scan zero i bs = done none
scan (suc n) i [] = fault
scan (suc n) i ([] ∷ bs) = scan n (i + 1) bs
scan (suc n) i ((e ∷ c) ∷ bs) = done (some (i, e))

abbrev pub at_bucket : Linear → ℕ → Linear
at_bucket l i = record l { bucket_c = i; entry_c = 0 }

abbrev pub first_from : Linear → Option (ℕ × Entry) → Run (Option Entry × Linear)
first_from l none = done (none, l)
first_from l (some (i, e)) = done (some e, at_bucket l i)

unfoldable pub first_entry : Table → Linear → Run (Option Entry × Linear)
first_entry t l = and_then (scan t.bucket_n 0 t.buckets) (first_from l)

-- `entry_c` steps down a chain; as an `int` it is not positive from 2 ^ 31 on.
abbrev pub steps : ℕ → ℕ
steps entry_c = if ltb entry_c (2 ^ 31) then entry_c else 0

abbrev pub next_from : Table → Linear → Option (ℕ × Entry) → Run (Error × Option Entry × Linear)
next_from t l none = done (not_found, none, at_bucket l t.bucket_n)
next_from t l (some (j, e)) = done (no_error, some e, at_bucket l j)

-- The end of `next_entry`: the first entry of a bucket from `i` on.
unfoldable pub next_bucket : Table → Linear → ℕ → Run (Error × Option Entry × Linear)
next_bucket t l i = and_then (scan (t.bucket_n - i) i (drop i t.buckets)) (next_from t l)

-- The next entry of the bucket, or else the end of `next_entry`.
abbrev pub next_in : Table → Linear → Option Entry → Run (Error × Option Entry × Linear)
next_in t l none = next_bucket t l (suc l.bucket_c)
next_in t l (some e) = done (no_error, some e, l)

unfoldable pub next_entry : Table → Linear → Run (Error × Option Entry × Linear)
next_entry t l =
    if leb t.bucket_n l.bucket_c
    then done (not_found, none, l)
    else let l' = record l { entry_c = u32 (l.entry_c + 1) } in
      and_then (slot t.buckets l.bucket_c) (λ c. next_in t l' (get_elem? c (steps l'.entry_c)))

unfoldable pub this_entry : Table → Linear → Run (Error × Option Entry)
this_entry t l =
    if leb t.bucket_n l.bucket_c then done (not_found, none) else elim (slot t.buckets l.bucket_c) [
      | fault ↦ fault
      | done c ↦ elim (get_elem? c (steps l.entry_c)) [
        | some e ↦ done (no_error, some e)
        | none ↦ done (not_found, none)
      ]
    ]

-- What a function reports of the entry that it reached.
abbrev pub report : Table → Error → Option Entry → Reply
report t code none = status code
report t code (some e) = reply (found_at t e)

module _ {W : Type 0} where
  -- `table_first_r` with a counter of the caller's, behind its check for `NULL`.
  unfoldable pub first_r : Table → Linear → M W (Reply × Linear)
  first_r t l = do
    (e, l') ← lift (first_entry t (record l { magic = linear_magic }))
    pure (report t not_found e, l')

  unfoldable pub next_r : Table → Linear → M W (Reply × Linear)
  next_r t l =
      if l.magic == linear_magic
      then lift (next_entry t l) >>= (λ (code, e, l'). pure (report t code e, l'))
      else pure (status linear_error, l)

  unfoldable pub this_r : Table → Linear → M W (Reply × Linear)
  this_r t l =
      if l.magic == linear_magic
      then lift (this_entry t l) >>= (λ (code, e). pure (report t code e, l))
      else pure (status linear_error, l)

  -- The counter in the table.
  abbrev pub with_linear : (Table → Linear → M W (Reply × Linear)) → Table → M W (Reply × Table)
  with_linear f t = f t t.linear >>= (λ (r, l). pure (r, record t { linear = l }))

  unfoldable pub table_first : Option Table → M W (Reply × Option Table)
  table_first h = guarded h (with_linear first_r)

  unfoldable pub table_next : Option Table → M W (Reply × Option Table)
  table_next h = guarded h (with_linear next_r)

  unfoldable pub table_this : Option Table → M W (Reply × Option Table)
  table_this h = guarded h (with_linear this_r)
