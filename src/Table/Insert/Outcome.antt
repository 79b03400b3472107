-- ===== src/Table/Insert/Outcome.antt =====
-- What `table_insert_kd` can do to a valid table.
use source.Prelude.{
  ℕ, ◌+◌, ◌≡◌, ◌≢◌, ◌⊎◌, Bool, true, false, Option, none, some, List, length, replicate,
  if◌then◌else◌,
}
use source.Table.Entry.{same_key, fill, resized}
use source.Table.Memory.{libc}
use source.Table.State.{Cell, Error, no_error, overwrite, alloc_error, free_error, Table}
use source.Table.Valid.{Stored, view}

-- The data under a key after a call that stores `dsize` bytes from `src`: without a source, the
-- bytes that were there are kept as far as they fit.
abbrev pub new_bytes : Option (List Cell) → ℕ → Option (List ℕ) → List Cell
new_bytes none dsize src = fill src (replicate dsize none)
new_bytes (some old) dsize src = fill src (resized dsize old)

abbrev pub added : Option (List Cell) → ℕ
added none = 1
added (some old) = 0

-- Which codes can come with which tables.
pub data Inserted (t : Table) (k : List ℕ) (dsize : ℕ) (src : Option (List ℕ)) (overwrite_b : Bool)
    : Error → Table → Type 0 where
  -- The key is there and must not be overwritten.
  kept :
      {old : List Cell}
      → view t k ≡ some old
      → overwrite_b ≡ false
      → Inserted t k dsize src overwrite_b overwrite t
  -- The data are stored; after that, growing the table may have found no memory.
  stored :
      {code : Error} {t' : Table}
      → (view t k ≡ none) ⊎ (overwrite_b ≡ true)
      → (code ≡ no_error) ⊎ ((code ≡ alloc_error) × (view t k ≡ none))
      → Stored t k (some (new_bytes (view t k) dsize src)) (t.entry_n + added (view t k)) t'
      → Inserted t k dsize src overwrite_b code t'
  -- There is no memory for a new entry.
  full : view t k ≡ none → Inserted t k dsize src overwrite_b alloc_error t
  -- Resizing the entry failed: it is lost, and still counted.
  dropped :
      {old : List Cell} {code : Error} {t' : Table}
      → view t k ≡ some old
      → overwrite_b ≡ true
      → dsize ≢ length old
      → (code ≡ alloc_error) ⊎ ((code ≡ free_error) × (t.hooks ≢ libc))
      → ((q : List ℕ) → view t' q ≡ (if same_key k q then none else view t q))
      → t'.entry_n ≡ t.entry_n
      → Inserted t k dsize src overwrite_b code t'
  -- Growing the table lost all the entries.
  cleared :
      {t' : Table}
      → view t k ≡ none
      → t.hooks ≢ libc
      → ((q : List ℕ) → view t' q ≡ none)
      → Inserted t k dsize src overwrite_b free_error t'
