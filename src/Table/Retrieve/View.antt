-- ===== src/Table/Retrieve/View.antt =====
-- `table_retrieve` reads the map that a valid table stands for.
use source.Prelude.{ℕ, ◌≡◌, refl, inl, inr, Option, none, some, List, Option-cases}
use source.Table.Buckets.{lookup, chain_of}
use source.Table.Delete.Outcome.{found_bytes}
use source.Table.Entry.{find, found_at, bytes, Size, sized}
use source.Table.Memory.{done}
use source.Table.Retrieve.{retrieve_key, retrieve_args, table_retrieve}
use source.Table.State.{Cell, Error, no_error, not_found, Table, Reply}
use source.Table.Valid.{
  IsValid, bucket_of-valid, slot-valid, view, Returns, returns, Returns-lift, OnTable,
  guarded-OnTable,
}

abbrev pub found_code : Option (List Cell) → Error
found_code none = not_found
found_code (some v) = no_error

-- The data and the code of the answer, and a table that has not changed.
pub record Retrieved (t : Table) (k : List ℕ) (r : Reply) (t' : Table) : Type 0 where
  pub data_read : found_bytes r.found ≡ view t k
  pub code : r.code ≡ found_code (view t k)
  pub unchanged : t' ≡ t

module _ {W : Type 0} (t : Table) (valid : IsValid t) where
  retrieve_key-Retrieved :
      (k : List ℕ) (w : W) → Returns (retrieve_key t k w) (λ r. Retrieved t k r.0 r.1)
  unfolding retrieve_key lookup found_at
  retrieve_key-Retrieved k w = Returns-lift _ _ w _ (bucket_of-valid valid k) (
      Returns-lift _ _ w _ (slot-valid valid k)
        (elim (Option-cases (find k (chain_of t.buckets k))) [
          | inl missing ↦
              simp missing (
                returns _ w
                  (record { data_read = rw missing; code = rw missing; unchanged = refl }))
          | inr (e, found) ↦
              simp found
                (returns _ w (record { data_read = rw found; code = rw found; unchanged = refl }))
        ]))

-- On a valid table the call ends with no fault and leaves the table as it is. It reports the data
-- that the table has under the key, or that there are none.
pub table_retrieve-Retrieved :
    {W : Type 0} (t : Table) (w : W) (b : List ℕ) (key_size : Size) {k : List ℕ}
    → IsValid t
    → sized b key_size ≡ done k
    → Returns (table_retrieve (some t) (bytes b) key_size w) (OnTable (Retrieved t k))
unfolding table_retrieve retrieve_args
table_retrieve-Retrieved t w b key_size {k} valid key_read =
    guarded-OnTable (Retrieved t k) t _ w valid
      (Returns-lift _ _ w _ key_read (retrieve_key-Retrieved t valid k w))
