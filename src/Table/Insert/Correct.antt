-- ===== src/Table/Insert/Correct.antt =====
-- `table_insert_kd` on a valid table, from its arguments on.
use source.Table.Memory.{Memory}
use source.Table.State.{Table}
