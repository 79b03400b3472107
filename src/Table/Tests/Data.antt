-- ===== src/Table/Tests/Data.antt =====
-- A memory that never runs out, and a table with one entry.
use source.Table.Buckets.{chain_of, home}
use source.Table.Create.Outcome.{fresh-IsEmpty}
use source.Table.Create.{fresh}
use source.Table.Entry.{find}
use source.Table.Insert.Add.{Stored-add}
use source.Table.Memory.{Memory, libc}
use source.Table.State.{Entry, Table}
use source.Table.Valid.{IsValid}
use source.Prelude.Words.{u32}
use source.Prelude.{
  ℕ, ◌+◌, refl, true, some, none, List, [], ◌∷◌, length, set, get_or-replicate, arith,
}

-- The state of the memory is the next free address.
abbrev pub bump : Memory ℕ
bump = record {
  malloc = λ size w. (some w, w + size);
  realloc = λ addr size w. (some w, w + size);
  free = λ addr w. w;
  alloc_func = λ size w. (some w, w + size);
  resize_func = λ addr old_size size w. (some w, w + size);
  free_func = λ addr size w. (true, w);
}

-- A memory that is exhausted.
abbrev pub exhausted : Memory ℕ
exhausted = record bump { malloc = λ size w. (none, w); realloc = λ addr size w. (none, w) }

abbrev pub four : Table
four = fresh libc 4 1000 4

abbrev pub key : List ℕ
key = 97 ∷ 98 ∷ 0 ∷ []

abbrev pub entry : Entry
entry = record { addr = 2000; key = key; bytes = some 7 ∷ [] }

abbrev pub one : Table
one = record four {
  buckets = set four.buckets (home key (length four.buckets)) (entry ∷ chain_of four.buckets key);
  entry_n = u32 (four.entry_n + 1);
}

pub one-IsValid : IsValid one
unfolding find
one-IsValid =
    (Stored-add key entry (fresh-IsEmpty libc 4 1000 4 (omega arith) (omega arith) refl).valid
      (omega arith) (rw get_or-replicate) refl).valid
