-- ===== src/Skip/Create.antt =====
-- `skip_alloc`, `skip_clear` and `skip_free` of skiplist/skip.c. `room` is what an allocation answers.
pub mod Cleared
use source.Prelude.{ℕ, zero, suc, false, Option, none, some, [], length, ◌==◌, if◌then◌else◌}
use source.Skip.State.{
  ◌>>=◌, Error, no_error, alloc_error, mmap_op, Node, Heap, write, Compare, SkipList, skip_magic,
  deref, next_of, Reply, status, guarded,
}
use source.Table.Memory.{Run, done, fault}

-- A block that `calloc` has filled with zeros, with no forward pointers.
abbrev pub blank : Node
blank = record {
  key_addr = 0;
  key = [];
  value = record { addr = none; size = 0; bytes = [] };
  forward = [];
}

unfoldable pub skip_alloc : Option Compare → Option ℕ → Option ℕ → Heap → Error × Option SkipList
unfolding write
skip_alloc compare none top h = (alloc_error, none)
skip_alloc compare (some room) none h = (alloc_error, none)
skip_alloc compare (some room) (some top) h = (
  no_error,
  some (record {
    magic = skip_magic;
    entry_n = 0;
    compare = compare;
    top = top;
    this_p = none;
    mmapped = false;
    heap = write h top (some blank);
  }),
)

-- The loop that frees the nodes of the bottom row, with fuel; running out of it is a fault.
unfoldable pub free_row : ℕ → Option ℕ → Heap → Run Heap
unfolding write
free_row fuel none h = done h
free_row zero (some p) h = fault
free_row (suc fuel) (some p) h = do
  node ← deref h p
  after ← next_of node 0
  free_row fuel after (write h p none)

-- The head without its forward pointers; with no memory for it, it keeps them.
unfoldable pub clear_top : Option ℕ → SkipList → Run (Error × SkipList)
unfolding write
clear_top none s = done (alloc_error, s)
clear_top (some a) s = do
  top ← deref s.heap s.top
  done (
    no_error,
    record s {
      top = a;
      heap = write (write s.heap s.top none) a (some (record top { forward = [] }));
    },
  )

-- `skip_clear` behind its checks. The fuel is the number of entries.
unfoldable pub clear : Option ℕ → SkipList → Run (Error × SkipList)
unfolding free_row clear_top
clear room s = if s.mmapped then done (mmap_op, s) else do
  top ← deref s.heap s.top
  if length top.forward == 0 then done (no_error, s) else do
    first ← next_of top 0
    h ← free_row s.entry_n first s.heap
    clear_top room (record s { heap = h; entry_n = 0 })

unfoldable pub skip_clear : Option ℕ → Option SkipList → Run (Reply × Option SkipList)
unfolding clear
skip_clear room sp = guarded sp (λ s. do (code, s') ← clear room s; done (status code, some s'))

-- The memory of the list is given back after it has been cleared.
unfoldable pub skip_free : Option ℕ → Option SkipList → Run (Reply × Option SkipList)
unfolding clear
skip_free room sp = guarded sp (λ s. do
  (code, s') ← clear room s
  elim code [ no_error ↦ done (status no_error, none) | other ↦ done (status other, some s') ])
