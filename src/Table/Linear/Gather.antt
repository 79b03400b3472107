-- ===== src/Table/Linear/Gather.antt =====
-- The loop of `table_order` and `table_order_pos` in table-4.3.0/table.c that visits every entry.
use source.Prelude.{ℕ, zero, suc, Option, none, some, List, [], ◌∷◌}
use source.Table.Linear.{first_entry, next_entry}
use source.Table.Memory.{Run, done, fault, and_then}
use source.Table.State.{Error, not_found, Entry, Linear, Table}

-- `slots` places of the result array are left; a write past its end is a fault. The last code of
-- `next_entry` comes with the entries.
unfoldable pub gather : ℕ → Table → Linear → Error → Option Entry → Run (Error × List Entry)
gather slots t l code none = done (code, [])
gather zero t l code (some e) = fault
gather (suc slots) t l code (some e) = and_then (next_entry t l) (λ (code', next, l').
    and_then (gather slots t l' code' next) (λ (last, es). done (last, e ∷ es)))

-- From `first_entry` on, into an array of `slots` places.
unfoldable pub collect : ℕ → Table → Linear → Run (Error × List Entry)
collect slots t l = and_then (first_entry t l) (λ (e, l'). gather slots t l' not_found e)
