-- ===== src/Table/Linear/Reentrant.antt =====
-- `table_first_r`, `table_next_r` and `table_this_r` of table-4.3.0/table.c: linear access with a
-- counter of the caller's.
use source.Prelude.{Option, none, some, ◌==◌, if◌then◌else◌}
use source.Table.Linear.{first_r, next_r, this_r}
use source.Table.Memory.{fault, M, ◌>>=◌, pure}
use source.Table.State.{Error, arg_null, Linear, Table, Reply, status, table_magic}

module _ {W : Type 0} where
  -- The checks of the table, then `absent` for a counter that is `NULL`.
  abbrev checked :
      Option Table
      → Option Linear
      → M W (Reply × Option Linear)
      → (Table → Linear → M W (Reply × Linear))
      → M W (Reply × Option Linear)
  checked none l absent f = pure (status arg_null, l)
  checked (some t) l absent f =
      if t.magic == table_magic
      then elim l [ none ↦ absent | some l' ↦ f t l' >>= (λ (r, l''). pure (r, some l'')) ]
      else pure (status Error.pnt, l)

  unfoldable pub table_first_r : Option Table → Option Linear → M W (Reply × Option Linear)
  table_first_r h l = checked h l (pure (status arg_null, none)) first_r

  unfoldable pub table_next_r : Option Table → Option Linear → M W (Reply × Option Linear)
  table_next_r h l = checked h l (pure (status arg_null, none)) next_r

  -- This one reads the magic number of the counter with no check for `NULL`.
  unfoldable pub table_this_r : Option Table → Option Linear → M W (Reply × Option Linear)
  table_this_r h l = checked h l (λ w. fault) this_r
