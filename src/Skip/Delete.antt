-- ===== src/Skip/Delete.antt =====
-- `skip_delete` and `skip_delete_first` of skiplist/skip.c, for a list in memory and a key pointer
-- that can be read. `shrunk` is what `realloc` answers to the call that empties the head.
pub mod Unlink
pub mod Rows
pub mod Removed
pub mod Outcome
use source.Prelude.Words.{u32}
use source.Prelude.{
  ℕ, zero, suc, ◌+◌, ◌-◌, ◌^◌, true, Option, none, some, List, [], length, get_elem?, replicate,
  ◌==◌, if◌then◌else◌,
}
use source.Skip.Search.{is_found, find_node}
use source.Skip.State.{
  ◌>>=◌, no_error, not_found, alloc_error, mmap_op, Node, Heap, write, SkipList, deref, next_of,
  set_next, Reply, status, guarded,
}
use source.Table.Entry.{Size, sized}
use source.Table.Memory.{Run, done, fault}

-- The loop that takes the node `found_p` out: on each level the node before it gets its pointer.
unfoldable pub unlink_levels : ℕ → List ℕ → ℕ → ℕ → Heap → Run Heap
unlink_levels found_p update zero level_c h = done h
unlink_levels found_p update (suc rounds) level_c h = do
  found ← deref h found_p
  after ← next_of found level_c
  elim (get_elem? update level_c) [
    | none ↦ fault
    | some node_p ↦ do
      h' ← set_next h node_p level_c after
      unlink_levels found_p update rounds (suc level_c) h'
  ]

-- The linear access goes on to the next node if it stands at the one that is deleted.
unfoldable pub step_off : SkipList → ℕ → Node → Run (Option ℕ)
step_off s found_p found = if is_found found_p s.this_p then next_of found 0 else done s.this_p

-- The node is freed and counted off.
unfoldable pub free_node : SkipList → ℕ → Reply → Run (Reply × Option SkipList)
unfolding write
free_node s found_p out = done (
  out,
  some (record s { heap = write s.heap found_p none; entry_n = u32 (s.entry_n + 2 ^ 32 - 1) }),
)

-- The end of both functions. An empty list gets a head with no pointers; with no memory for it, the
-- node is neither freed nor counted off.
unfoldable pub finish : Option ℕ → SkipList → ℕ → Reply → Run (Reply × Option SkipList)
unfolding free_node
finish shrunk s found_p out = do
  top ← deref s.heap s.top
  first ← next_of top 0
  elim first [
    | some _ ↦ free_node s found_p out
    | none ↦ elim shrunk [
      | none ↦ done (status alloc_error, some s)
      | some a ↦
          free_node
            (record s {
              top = a;
              heap = write (write s.heap s.top none) a (some (record top { forward = [] }));
            })
            found_p out
    ]
  ]

-- A node that is found, with the nodes before it.
unfoldable pub remove_node :
    Option ℕ → SkipList → ℕ → List ℕ → (Node → Reply) → Run (Reply × Option SkipList)
unfolding unlink_levels step_off finish
remove_node shrunk s found_p update out = do
  found ← deref s.heap found_p
  h ← unlink_levels found_p update (length found.forward) 0 s.heap
  this_p ← step_off s found_p found
  finish shrunk (record s { heap = h; this_p = this_p }) found_p (out found)

abbrev pub deleted : Node → Reply
deleted n = record { code = no_error; key = none; value = some n.value }

abbrev pub deleted_first : Node → Reply
deleted_first n = record { code = no_error; key = some (n.key_addr, n.key); value = some n.value }

-- `skip_delete` behind its checks.
unfoldable pub delete_key : Option ℕ → SkipList → List ℕ → Run (Reply × Option SkipList)
unfolding remove_node
delete_key shrunk s key = do
  (found, update) ← find_node s key true
  elim found [
    | none ↦ done (status not_found, some s)
    | some p ↦ remove_node shrunk s p update deleted
  ]

unfoldable pub skip_delete :
    Option ℕ → Option SkipList → List ℕ → Size → Run (Reply × Option SkipList)
unfolding delete_key
skip_delete shrunk sp key_buf key_size = guarded sp (λ s.
    if s.mmapped then done (status mmap_op, some s) else do
      top ← deref s.heap s.top
      if length top.forward == 0
          then done (status not_found, some s)
          else do key ← sized key_buf key_size; delete_key shrunk s key)

-- The head stands before the first node on all of its levels.
unfoldable pub delete_first : Option ℕ → SkipList → Option ℕ → Run (Reply × Option SkipList)
unfolding remove_node
delete_first shrunk s none = fault
delete_first shrunk s (some p) = do
  node ← deref s.heap p
  remove_node shrunk s p (replicate (length node.forward) s.top) deleted_first

unfoldable pub skip_delete_first : Option ℕ → Option SkipList → Run (Reply × Option SkipList)
unfolding delete_first
skip_delete_first shrunk sp = guarded sp (λ s.
    if s.mmapped then done (status mmap_op, some s) else do
      top ← deref s.heap s.top
      if length top.forward == 0
          then done (status not_found, some s)
          else do first ← next_of top 0; delete_first shrunk s first)
