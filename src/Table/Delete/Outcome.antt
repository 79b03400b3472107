-- ===== src/Table/Delete/Outcome.antt =====
-- What `table_delete` and `table_delete_first` do to a valid table.
use mathlib.Core.Path.{subst}
use source.Prelude.Words.{u32}
use source.Prelude.{
  ℕ, ◌+◌, ◌-◌, ◌^◌, ◌<◌, ◌≡◌, ◌≢◌, refl, ap, ◌∙◌, ◌⊎◌, inl, inr, Bool, true, false, Option, none,
  some, List, length, set, if◌then◌else◌, ◌==◌, Bool-cases, Option-cases, arith,
}
use source.Table.Adjust.Outcome.{Kept, same, lost, adjust_if-Kept}
use source.Table.Buckets.{home, lookup, chain_of, Writes}
use source.Table.Delete.{
  copy_out, shrink, drop_entry, delete_entry, delete_key, delete_args, table_delete, deleted,
}
use source.Table.Entry.Chains.{bytes_of}
use source.Table.Entry.{same_key, find, unlink, bytes, Size, sized}
use source.Table.Insert.Add.{Stored-Kept}
use source.Table.Insert.Entries.{unlink-Writes, total-pos}
use source.Table.Memory.{Memory, allocate, release, done, libc}
use source.Table.State.{
  Cell, Entry, Error, no_error, not_found, alloc_error, free_error, Table, Found, Reply,
}
use source.Table.Valid.{
  IsValid, Stored, Stored-Writes, bucket_of-valid, slot-valid, view, Returns, returns, Returns-bind,
  Returns-lift, allocate-Returns, release-Returns, OnTable, guarded-OnTable,
}

abbrev pub found_bytes : Option Found → Option (List Cell)
found_bytes none = none
found_bytes (some f) = some f.bytes

-- Which codes and data can come with which tables.
pub data Deleted (t : Table) (k : List ℕ) (wanted : Bool) : Reply → Table → Type 0 where
  absent : {r : Reply} → view t k ≡ none → r.code ≡ not_found → Deleted t k wanted r t
  -- The key is gone and its data are reported; shrinking the table may have found no memory.
  removed :
      {r : Reply} {t' : Table} {old : List Cell}
      → view t k ≡ some old
      → found_bytes r.found ≡ some old
      → (r.code ≡ no_error) ⊎ (r.code ≡ alloc_error)
      → Stored t k none (t.entry_n - 1) t'
      → Deleted t k wanted r t'
  -- The copy of the data was refused, or the release of the entry: the key is gone, and still
  -- counted.
  dropped :
      {r : Reply} {t' : Table} {old : List Cell}
      → view t k ≡ some old
      → ((r.code ≡ alloc_error) × (wanted ≡ true)) ⊎ ((r.code ≡ free_error) × (t.hooks ≢ libc))
      → ((q : List ℕ) → view t' q ≡ (if same_key k q then none else view t q))
      → t'.entry_n ≡ t.entry_n
      → Deleted t k wanted r t'
  -- Shrinking the table lost all the entries.
  cleared :
      {r : Reply} {t' : Table} {old : List Cell}
      → view t k ≡ some old
      → r.code ≡ free_error
      → t.hooks ≢ libc
      → ((q : List ℕ) → view t' q ≡ none)
      → Deleted t k wanted r t'

module _ {W : Type 0} (mem : Memory W) where
  shrink-Kept :
      {t : Table} (w : W)
      → IsValid t
      → t.entry_n < 2 ^ 29
      → Returns (shrink mem t w) (λ r. Kept t r.0 r.1)
  unfolding shrink
  shrink-Kept {t} w valid few = adjust_if-Kept mem t _ w valid few

  -- The copy fails only if it is wanted.
  copy_out-wanted :
      (t : Table) (wanted : Bool) (size : ℕ) (w : W)
      → Returns (copy_out mem t wanted size w) (λ c. (c ≡ none) → wanted ≡ true)
  unfolding copy_out
  copy_out-wanted t false size w = returns _ w (λ e. cc)
  copy_out-wanted t true size w = elim (Bool-cases (size == 0)) [
    | inl e ↦ simp e (returns _ w (λ _. refl))
    | inr e ↦ simp e (
        Returns-bind (allocate mem t.hooks size) _ w (allocate-Returns mem t.hooks size w) (elim [
          | none ↦ λ w' _. returns _ w' (λ _. refl)
          | some a ↦ λ w' _. returns _ w' (λ _. refl)
        ]))
  ]

  module _ (t : Table) (valid : IsValid t) (few : t.entry_n < 2 ^ 29) (k : List ℕ)
      (wanted : Bool) where
    pos : 0 < length t.buckets
    pos = omega (arith, valid.width, valid.pos)

    -- The table without the entry, before it is counted off.
    abbrev unlinked : Table
    unlinked = record t {
      buckets = set t.buckets (home k (length t.buckets)) (unlink k (chain_of t.buckets k));
    }

    module _ {e : Entry} (found : find k (chain_of t.buckets k) ≡ some e) where
      seen : view t k ≡ some e.bytes
      unfolding lookup
      seen = ap bytes_of found

      Stored-unlinked :
          Stored t k none
            (t.entry_n - 1)
            (record unlinked { entry_n = u32 (t.entry_n + 2 ^ 32 - 1) })
      Stored-unlinked =
          let counted = valid.counted in
          let filled = total-pos t.buckets pos valid.placed k found in
          let n : u32 (t.entry_n + 2 ^ 32 - 1) ≡ t.entry_n - 1 = omega arith in
          let w = unlink-Writes t.buckets pos valid.placed k found in
          let s =
            Stored-Writes valid (omega arith)
              (subst (λ m. Writes k none m t.buckets unlinked.buckets) (omega arith) w) in
          record {
            valid = s.valid;
            settings = s.settings;
            reads = s.reads;
            entry_n = s.entry_n ∙ n;
          }

      dropped_case :
          {r : Reply}
          → ((r.code ≡ alloc_error) × (wanted ≡ true)) ⊎ ((r.code ≡ free_error) × (t.hooks ≢ libc))
          → Deleted t k wanted r unlinked
      dropped_case why =
          dropped seen why (unlink-Writes t.buckets pos valid.placed k found).reads refl

      Kept-Deleted :
          {out : Found} {code : Error} {t' : Table}
          → out.bytes ≡ e.bytes
          → Kept (record unlinked { entry_n = u32 (t.entry_n + 2 ^ 32 - 1) }) code t'
          → Deleted t k wanted (record { code = code; found = some out }) t'
      Kept-Deleted {out} own (same why v s m n) =
          removed seen (ap some own) why (Stored-Kept Stored-unlinked v s m n)
      Kept-Deleted own (lost user m) = cleared seen refl user m

      drop_entry-Deleted :
          (out : Found) (w : W)
          → out.bytes ≡ e.bytes
          → Returns (drop_entry mem unlinked e out w) (λ r. Deleted t k wanted r.0 r.1)
      unfolding drop_entry
      drop_entry-Deleted out w own =
          Returns-bind (release mem t.hooks e.addr _) _ w (release-Returns mem t.hooks _ _ w)
            (elim [
              | false ↦ λ w' user. returns _ w' (dropped_case (inr (refl, user refl)))
              | true ↦ λ w' _.
                  Returns-bind (shrink mem _) _ w'
                    (shrink-Kept w' Stored-unlinked.valid (omega (arith, Stored-unlinked.entry_n)))
                    (λ r w'' kept. returns _ w'' (Kept-Deleted own kept))
            ])

      -- The entry is in the table: it is unlinked, its data are copied if wanted, and it is freed.
      delete_entry-Deleted :
          (w : W) → Returns (delete_entry mem unlinked e wanted w) (λ r. Deleted t k wanted r.0 r.1)
      unfolding delete_entry
      delete_entry-Deleted w =
          Returns-bind (copy_out mem unlinked wanted (length e.bytes)) _ w
            (copy_out-wanted unlinked wanted (length e.bytes) w)
            (elim [
              | none ↦ λ w' why. returns _ w' (dropped_case (inl (refl, why refl)))
              | some data_p ↦ λ w' _. drop_entry-Deleted (deleted mem e data_p) w' refl
            ])

    delete_key-Deleted :
        (w : W) → Returns (delete_key mem t k wanted w) (λ r. Deleted t k wanted r.0 r.1)
    unfolding delete_key lookup
    delete_key-Deleted w = Returns-lift _ _ w _ (bucket_of-valid valid k) (
        Returns-lift _ _ w _ (slot-valid valid k)
          (elim (Option-cases (find k (chain_of t.buckets k))) [
            | inl missing ↦ simp missing (returns _ w (absent (ap bytes_of missing) refl))
            | inr (e, found) ↦ simp found (delete_entry-Deleted found w)
          ]))

-- On a valid table with fewer than 2 ^ 29 entries the call ends with no fault, and what it returns
-- and the table after it are among those of `Deleted`.
pub table_delete-Deleted :
    {W : Type 0} (mem : Memory W) (t : Table) (w : W) (b : List ℕ) (key_size : Size) (wanted : Bool)
    {k : List ℕ}
    → IsValid t
    → t.entry_n < 2 ^ 29
    → sized b key_size ≡ done k
    → Returns (table_delete mem (some t) (bytes b) key_size wanted w) (OnTable (Deleted t k wanted))
unfolding table_delete delete_args
table_delete-Deleted mem t w b key_size wanted {k} valid few key_read =
    guarded-OnTable (Deleted t k wanted) t _ w valid (
      simp valid.in_memory
        (Returns-lift _ _ w _ key_read (delete_key-Deleted mem t valid few k wanted w)))
